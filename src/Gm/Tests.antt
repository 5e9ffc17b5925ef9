-- ===== src/Gm/Tests.antt =====
-- internal/gm/delivery_test.go and errors_test.go: the vocabulary at single inputs.
use agent_gm.Prelude.{◌≡◌, refl, ◌↔◌, ◌⊎◌, true, false}
use agent_gm.Prelude.Int.{pos}
use agent_gm.Gm.Delivery.{
  sent, read, system, transition_allowed, kind_for_status, should_ignore_status,
}
use agent_gm.Gm.Delivery.Ladder.{◌⟶*◌, transition_allowed-iff-arrows}
use agent_gm.Gm.Delivery.Bands.{should_ignore_status-system}
use agent_gm.Gm.Errors.{
  GoError, sentinel, wrapped, err_phone_not_responding, err_connection_closed,
  err_invalid_credentials, err_requested_entity_not_found, is_err, as_classified, classify_err,
  unsupported_capability,
}
use agent_gm.Gm.Errors.Classified.{classify-pending_iff, classify-signs_out_iff}

transition_allowed-iff-arrows_example : (transition_allowed sent read ≡ true) ↔ (sent ⟶* read)
transition_allowed-iff-arrows_example = transition_allowed-iff-arrows sent read

should_ignore_status-system_example :
    (kind_for_status (pos 229) ≡ system) × (should_ignore_status (pos 229) true ≡ true)
unfolding should_ignore_status
should_ignore_status-system_example = should_ignore_status-system (pos 229) false refl

abbrev silent : GoError
silent = wrapped (sentinel err_phone_not_responding)

classify-pending_iff_example :
    ((classify_err silent).0.keeps_operation_pending ≡ true)
    ↔ (is_err silent err_phone_not_responding ≡ true)
unfolding as_classified
classify-pending_iff_example = classify-pending_iff silent refl

abbrev dead : GoError
dead = wrapped (sentinel err_invalid_credentials)

classify-signs_out_iff_example :
    let c = (classify_err dead).0 in
    ((c.signs_out_account ≡ true) ↔ (
      (is_err dead err_phone_not_responding ≡ false)
      × (is_err dead err_connection_closed ≡ false)
      × ((is_err dead err_invalid_credentials ≡ true)
          ⊎ (is_err dead err_requested_entity_not_found ≡ true))))
    × (c.signs_out_account ≡ true
        → (c.code ≡ unsupported_capability) × (c.reason ≡ "not_signed_in") × (c.retryable ≡ false))
unfolding as_classified
classify-signs_out_iff_example = classify-signs_out_iff dead refl
