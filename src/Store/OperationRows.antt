-- ===== src/Store/OperationRows.antt =====
-- internal/store/operations.go and migrations.go: a row of the table `operations`, what is scanned
-- from it, and the transitions of its status. Times are Unix milliseconds; a nullable column is an
-- Option in the row, and the zero value in the scanned `Operation`.
use agent_gm.Prelude.{
  ℕ, Bool, true, false, ◌&&◌, ◌||◌, Option, none, some, String, List, str_eq, if◌then◌else◌,
}
use agent_gm.Prelude.Int.{ℤ, pos, eqz}
use agent_gm.Store.Write.{Status, running, succeeded, pending, failed, unknown}

unfoldable pub operation_terminal : Status → Bool
operation_terminal succeeded = true
operation_terminal failed = true
operation_terminal unknown = true
operation_terminal _ = false

unfoldable pub same_status : Status → Status → Bool
same_status running running = true
same_status succeeded succeeded = true
same_status pending pending = true
same_status failed failed = true
same_status unknown unknown = true
same_status _ _ = false

abbrev pub moves_to : Status → Status → Bool
moves_to running to =
    same_status to succeeded
    || same_status to failed
    || same_status to pending
    || same_status to unknown
moves_to pending to = same_status to succeeded || same_status to failed || same_status to unknown
moves_to unknown to = same_status to succeeded || same_status to failed
moves_to _ to = false

unfoldable pub operation_transition_allowed : Status → Status → Bool
unfolding same_status
operation_transition_allowed from to = if same_status from to then true else moves_to from to

-- A row of the table.
pub record Row : Type 0 where
  pub id : String
  pub account_id : String
  pub kind : String
  pub authorization_id : String
  pub idempotency_key : Option String
  pub request_fingerprint : String
  pub conversation_id : Option String
  pub message_id : Option String
  pub tmp_id : Option String
  pub status : Status
  pub terminal : Bool
  pub terminal_at_ms : Option ℕ
  pub corrected_at_ms : Option ℕ
  pub error_code : Option String
  pub error_message : Option String
  pub error_retryable : Option Bool
  pub google_status_raw : Option ℤ
  pub request_payload_json : String
  pub media_size_bytes : Option ℕ
  pub created_at_ms : ℕ
  pub updated_at_ms : ℕ

-- The Go struct.
pub record Operation : Type 0 where
  pub id : String
  pub account_id : String
  pub kind : String
  pub authorization_id : String
  pub idempotency_key : String
  pub request_fingerprint : String
  pub conversation_id : String
  pub message_id : String
  pub tmp_id : String
  pub status : Status
  pub terminal : Bool
  pub terminal_at_ms : ℕ
  pub corrected_at_ms : ℕ
  pub error_code : String
  pub error_message : String
  pub error_retryable : Bool
  pub has_error_retryable : Bool
  pub google_status_raw : ℤ
  pub request_payload_json : String
  pub media_size_bytes : ℕ
  pub created_at_ms : ℕ
  pub updated_at_ms : ℕ

abbrev pub value_or {ℓ} : {A : Type ℓ} → A → Option A → A
value_or zero_value none = zero_value
value_or zero_value (some a) = a

abbrev pub is_valid {ℓ} : {A : Type ℓ} → Option A → Bool
is_valid none = false
is_valid (some a) = true

unfoldable pub scan_operation : Row → Operation
scan_operation r = record {
  id = r.id;
  account_id = r.account_id;
  kind = r.kind;
  authorization_id = r.authorization_id;
  idempotency_key = value_or "" r.idempotency_key;
  request_fingerprint = r.request_fingerprint;
  conversation_id = value_or "" r.conversation_id;
  message_id = value_or "" r.message_id;
  tmp_id = value_or "" r.tmp_id;
  status = r.status;
  terminal = r.terminal;
  terminal_at_ms = value_or 0 r.terminal_at_ms;
  corrected_at_ms = value_or 0 r.corrected_at_ms;
  error_code = value_or "" r.error_code;
  error_message = value_or "" r.error_message;
  error_retryable = value_or false r.error_retryable;
  has_error_retryable = is_valid r.error_retryable;
  google_status_raw = value_or (pos 0) r.google_status_raw;
  request_payload_json = r.request_payload_json;
  media_size_bytes = value_or 0 r.media_size_bytes;
  created_at_ms = r.created_at_ms;
  updated_at_ms = r.updated_at_ms;
}

abbrev pub Table : Type 0
Table = List Row

-- nullString and nullInt of accounts.go.
abbrev pub null_string : String → Option String
null_string s = if str_eq s "" then none else some s

abbrev pub null_int : ℤ → Option ℤ
null_int v = if eqz v (pos 0) then none else some v

-- COALESCE(?, column)
abbrev pub coalesce {ℓ} : {A : Type ℓ} → Option A → Option A → Option A
coalesce none old = old
coalesce (some a) old = some a

abbrev pub has_id : String → Row → Bool
has_id id r = str_eq r.id id

abbrev pub key_equals : Option String → String → Bool
key_equals none key = false
key_equals (some k) key = str_eq k key

-- WHERE authorization_id = ? AND account_id = ? AND kind = ? AND idempotency_key = ?
abbrev pub has_key : String → String → String → String → Row → Bool
has_key authorization account kind key r =
    str_eq r.authorization_id authorization
    && str_eq r.account_id account
    && str_eq r.kind kind
    && key_equals r.idempotency_key key
