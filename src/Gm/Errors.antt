-- ===== src/Gm/Errors.antt =====
-- internal/gm/errors.go: library errors, their classification into error codes, and the refusals
-- built for a send or for a conversation lookup. A Go error is the tree that `errors.Is` and
-- `errors.As` walk; a message text with arguments is kept as its arguments.
pub mod Classified
use agent_gm.Prelude.{
  ℕ, Bool, true, false, Option, none, some, String, List, [], ◌∷◌, str_eq, ◌==◌, ◌||◌,
  if◌then◌else◌,
}
use agent_gm.Prelude.Int.{ℤ, pos, negsuc, eqz}

pub data Code : Type 0 where
  phone_not_responding disconnected unsupported_capability google_permission_denied google_error :
      Code
  google_http_error google_undocumented_status not_default_sms_app pairing_no_cookies : Code
  pairing_no_devices pairing_wrong_emoji pairing_cancelled pairing_timeout : Code
  pairing_init_timeout pairing_no_account pairing_wrong_account internal_error : Code

pub data Message : Type 0 where
  text : String → Message
  -- "Google Messages on the phone rejected the message (%s)" at a send status.
  send_rejected : ℤ → Message
  -- A message with the compiled and the live config version added behind it.
  with_versions : Message → String → String → Message

pub data Detail : Type 0 where
  flag : Bool → Detail
  int : ℤ → Detail
  str : String → Detail
  status_name : ℤ → Detail

-- `Error`, but for the error that it wraps.
pub record Class : Type 0 where
  pub code : Code
  pub http_status : ℕ
  pub message : Message
  pub reason : String
  pub signs_out_account : Bool
  pub retryable : Bool
  pub keeps_operation_pending : Bool
  pub details : List (String × Detail)
  pub google_status_raw : ℤ

-- The sentinel errors of the package, which are compared by identity.
pub data Sentinel : Type 0 where
  err_phone_not_responding err_connection_closed err_invalid_credentials : Sentinel
  err_requested_entity_not_found err_caller_no_permission err_no_cookies : Sentinel
  err_no_devices_found err_incorrect_emoji err_pairing_cancelled err_pairing_timeout : Sentinel
  err_pairing_init_timeout err_had_multiple_devices err_wrong_account : Sentinel
  err_no_account_address : Sentinel

pub data GoError : Type 0 where
  sentinel : Sentinel → GoError
  request_error : ℤ → String → GoError
  http_error : String → ℕ → GoError
  -- an `*Error` whose Err is nil, and one that wraps another error
  classified : Class → GoError
  classified_over : Class → GoError → GoError
  -- fmt.Errorf with one %w, and with two
  wrapped : GoError → GoError
  joined : GoError → GoError → GoError
  -- any error of another package
  other : String → GoError

-- `*Error`: the classification, and the error that it wraps.
abbrev pub GmError : Type 0
GmError = Class × Option GoError

abbrev pub or_else {ℓ} : {A : Type ℓ} → Option A → Option A → Option A
or_else (some a) b = some a
or_else none b = b

unfoldable pub same_sentinel : Sentinel → Sentinel → Bool
same_sentinel err_phone_not_responding err_phone_not_responding = true
same_sentinel err_connection_closed err_connection_closed = true
same_sentinel err_invalid_credentials err_invalid_credentials = true
same_sentinel err_requested_entity_not_found err_requested_entity_not_found = true
same_sentinel err_caller_no_permission err_caller_no_permission = true
same_sentinel err_no_cookies err_no_cookies = true
same_sentinel err_no_devices_found err_no_devices_found = true
same_sentinel err_incorrect_emoji err_incorrect_emoji = true
same_sentinel err_pairing_cancelled err_pairing_cancelled = true
same_sentinel err_pairing_timeout err_pairing_timeout = true
same_sentinel err_pairing_init_timeout err_pairing_init_timeout = true
same_sentinel err_had_multiple_devices err_had_multiple_devices = true
same_sentinel err_wrong_account err_wrong_account = true
same_sentinel err_no_account_address err_no_account_address = true
same_sentinel _ _ = false

-- errors.Is against a sentinel. An `*Error` is never equal to one by its own `Is` method.
unfoldable pub is_err : GoError → Sentinel → Bool
unfolding same_sentinel
is_err (sentinel s) t = same_sentinel s t
is_err (request_error type msg) t = false
is_err (http_error action status) t = false
is_err (classified c) t = false
is_err (classified_over c e) t = is_err e t
is_err (wrapped e) t = is_err e t
is_err (joined e f) t = is_err e t || is_err f t
is_err (other msg) t = false

-- errors.As into *Error, RequestError and HTTPError.
unfoldable pub as_classified : GoError → Option GmError
as_classified (classified c) = some (c, none)
as_classified (classified_over c e) = some (c, some e)
as_classified (wrapped e) = as_classified e
as_classified (joined e f) = or_else (as_classified e) (as_classified f)
as_classified _ = none

unfoldable pub as_request : GoError → Option (ℤ × String)
as_request (request_error type msg) = some (type, msg)
as_request (classified_over c e) = as_request e
as_request (wrapped e) = as_request e
as_request (joined e f) = or_else (as_request e) (as_request f)
as_request _ = none

unfoldable pub as_http : GoError → Option (String × ℕ)
as_http (http_error action status) = some (action, status)
as_http (classified_over c e) = as_http e
as_http (wrapped e) = as_http e
as_http (joined e f) = or_else (as_http e) (as_http f)
as_http _ = none

unfoldable pub new_error : Code → ℕ → Message → Class
new_error code status msg = record {
  code = code;
  http_status = status;
  message = msg;
  reason = "";
  signs_out_account = false;
  retryable = false;
  keeps_operation_pending = false;
  details = [];
  google_status_raw = pos 0;
}

unfoldable pub not_signed_in : String → Class
unfolding new_error
not_signed_in msg = record (new_error unsupported_capability 409 (text msg)) {
  reason = "not_signed_in";
  signs_out_account = true;
}

abbrev fatal_status : Option (String × ℕ) → Bool
fatal_status none = false
fatal_status (some (action, status)) = status == 401 || status == 403

unfoldable pub is_fatal_listen_error : Option GoError → Bool
unfolding is_err as_http
is_fatal_listen_error none = false
is_fatal_listen_error (some e) =
    if is_err e err_invalid_credentials then true else fatal_status (as_http e)

-- The cases of the switch in `Classify` for the errors of a running connection.
pub connection_class : GoError → Option Class
unfolding new_error not_signed_in
connection_class e =
    if is_err e err_phone_not_responding
    then some
        (record (new_error phone_not_responding 504 (
          text
            "the phone did not answer within 60s; the server accepted the request and the phone may still deliver it, so the operation stays pending -- do not resend")) {
              retryable = true;
              keeps_operation_pending = true;
            })
    else if is_err e err_connection_closed
    then some
        (record (new_error disconnected 503
          (text "the connection to Google closed while the request was in flight")) {
            retryable = true;
          })
    else if is_err e err_invalid_credentials
    then some (
        not_signed_in
          "this account's Google credentials are no longer valid; refresh its cookies with `agm pair --refresh-cookies --account <id>`")
    else if is_err e err_requested_entity_not_found
    then some (not_signed_in "the phone no longer knows this pairing; pair this account again")
    else if is_err e err_caller_no_permission
    then some (
        new_error google_permission_denied 502
          (text "Google refused the request: the caller does not have permission"))
    else none

abbrev init_timeout_details : Bool → List (String × Detail)
init_timeout_details true = ("multiple_devices", flag true) ∷ []
init_timeout_details false = []

-- The cases of the switch in `Classify` for the errors of a pairing.
pub pairing_class : GoError → Option Class
unfolding new_error
pairing_class e =
    if is_err e err_no_cookies
    then some (
        new_error pairing_no_cookies 409 (
          text
            "Google-account pairing needs all seven session cookies, and at least one is missing; details.missing_cookies names them, and OSID in particular is host-scoped to messages.google.com"))
    else if is_err e err_no_devices_found
    then some (
        new_error pairing_no_devices 409
          (text "this Google account has no phone that can be paired"))
    else if is_err e err_incorrect_emoji
    then some (
        new_error pairing_wrong_emoji 409
          (text "the emoji tapped on the phone did not match the one shown"))
    else if is_err e err_pairing_cancelled
    then some (new_error pairing_cancelled 409 (text "pairing was dismissed on the phone"))
    else if is_err e err_pairing_timeout
    then some (
        new_error pairing_timeout 409
          (text "the pairing expired before it was confirmed on the phone"))
    else if is_err e err_pairing_init_timeout
    then some
        (record (new_error pairing_init_timeout 409
          (text "the pairing handshake with Google timed out; try again")) {
            retryable = true;
            details = init_timeout_details (is_err e err_had_multiple_devices);
          })
    else if is_err e err_wrong_account
    then some (
        new_error pairing_wrong_account 409
          (text "those cookies belong to a different Google account; nothing was changed"))
    else if is_err e err_no_account_address
    then some (
        new_error pairing_no_account 409 (
          text "Google did not return an account address for this pairing; no account was created"))
    else none

http_class : Option (String × ℕ) → Class
unfolding new_error
http_class (some (action, status)) =
    record (new_error google_http_error 502
      (text "the request to Google failed at the transport level")) {
        retryable = true;
        details = ("status", int (pos status)) ∷ ("action", str action) ∷ [];
      }
http_class none = new_error internal_error 500 (text "unclassified failure")

-- The two `errors.As` cases below the switch, and what is left.
transport_class : GoError → Option (ℤ × String) → Class
unfolding new_error http_class
transport_class e (some (type, msg)) =
    record (new_error google_error 502 (text "Google returned an error for this request")) {
      details = ("google_type", int type) ∷ ("google_message", str msg) ∷ [];
    }
transport_class e none = http_class (as_http e)

abbrev choose_class : Option Class → Option Class → Class → Class
choose_class (some c) pairing rest = c
choose_class none (some c) rest = c
choose_class none none rest = rest

pub fresh_class : GoError → Class
unfolding connection_class pairing_class transport_class
fresh_class e =
    choose_class (connection_class e) (pairing_class e) (transport_class e (as_request e))

abbrev already_or : Option GmError → GmError → GmError
already_or (some g) fresh = g
already_or none fresh = fresh

unfoldable pub classify_err : GoError → GmError
unfolding as_classified fresh_class
classify_err e = already_or (as_classified e) (fresh_class e, some e)

-- `Classify`: nil for nil.
unfoldable pub classify : Option GoError → Option GmError
unfolding classify_err
classify none = none
classify (some e) = some (classify_err e)

-- SendStatus.IsTransient of types.go: FAILURE_2 and FAILURE_3.
unfoldable pub is_transient : ℤ → Bool
is_transient status = eqz status (pos 2) || eqz status (pos 3)

unfoldable pub not_default_sms_app_error : Class
unfolding new_error
not_default_sms_app_error =
    record (new_error not_default_sms_app 502
      (text "Google Messages is not your default SMS app")) { google_status_raw = pos 4 }

unfoldable pub send_failure : ℤ → Class
unfolding new_error is_transient not_default_sms_app_error
send_failure status =
    if eqz status (pos 4)
    then not_default_sms_app_error
    else record (new_error google_error 502 (send_rejected status)) {
      details = ("google_type", int status) ∷ ("google_message", status_name status) ∷ [];
      google_status_raw = status;
      retryable = is_transient status;
    }

unfoldable pub undocumented_resolve_status : ℤ → Class
unfolding new_error
undocumented_resolve_status status =
    record (new_error google_undocumented_status 502 (
      text
        "Google answered with a conversation status this version of the protocol has no name for")) {
          details = ("status", int status) ∷ [];
        }

unfoldable pub resolve_create_rcs_twice : Class
unfolding new_error
resolve_create_rcs_twice =
    record (new_error google_error 502 (
      text
        "Google asked twice for an RCS group to be created; the retry it asks for has already been made")) {
          details = ("google_type", int (pos 3)) ∷ ("google_message", str "CREATE_RCS") ∷ [];
        }

-- details[k] = v on the copied map.
unfoldable pub put_detail : String → Detail → List (String × Detail) → List (String × Detail)
put_detail k v [] = (k, v) ∷ []
put_detail k v ((j, w) ∷ rest) = if str_eq j k then (k, v) ∷ rest else (j, w) ∷ put_detail k v rest

unfoldable pub with_config_version_context : Class → String → String → Class
unfolding put_detail
with_config_version_context e compiled live = record e {
  details =
      put_detail "config_version_live" (str live)
        (put_detail "config_version_compiled" (str compiled) e.details);
  message = with_versions e.message compiled live;
}
