-- ===== src/Gm/Errors/Classified.antt =====
-- internal/gm/errors.go: what `Classify` may say about a library error.
use agent_gm.Prelude.{◌≡◌, ◌↔◌, ◌⊎◌, true, false, none, arith}
use agent_gm.Gm.Errors.{
  GoError, err_phone_not_responding, err_invalid_credentials, err_requested_entity_not_found,
  err_connection_closed, is_err, as_classified, connection_class, pairing_class, fresh_class,
  classify_err, unsupported_capability,
}

-- An error that is not classified yet keeps the operation pending exactly when the phone not
-- responding is in its chain.
pub classify-pending_iff :
    (e : GoError)
    → as_classified e ≡ none
    → ((classify_err e).0.keeps_operation_pending ≡ true)
      ↔ (is_err e err_phone_not_responding ≡ true)
unfolding classify_err fresh_class connection_class pairing_class
classify-pending_iff e raw = ground arith

-- An error that is not classified yet signs the account out exactly when dead credentials or a
-- forgotten pairing are in its chain and neither a silent phone nor a closed connection is; it is
-- then `unsupported_capability` with the reason `not_signed_in`, and is not retryable.
pub classify-signs_out_iff :
    (e : GoError)
    → as_classified e ≡ none
    → let c = (classify_err e).0 in
      ((c.signs_out_account ≡ true) ↔ (
        (is_err e err_phone_not_responding ≡ false)
        × (is_err e err_connection_closed ≡ false)
        × ((is_err e err_invalid_credentials ≡ true)
            ⊎ (is_err e err_requested_entity_not_found ≡ true))))
      × (c.signs_out_account ≡ true
          → (c.code ≡ unsupported_capability)
            × (c.reason ≡ "not_signed_in")
            × (c.retryable ≡ false))
unfolding classify_err fresh_class connection_class pairing_class
classify-signs_out_iff e raw = ground arith
