-- ===== src/Core/Requests.antt =====
-- internal/core/operations.go: the kinds of mutations, what a request carries and refuses, and what
-- surrounds one request. What other goroutines do to the table between two statements of a request
-- is a function of its environment, and the library call is a function.
use agent_gm.Prelude.{
  ℕ, Bool, false, not, ◌||◌, Option, none, some, String, List, [], ◌∷◌, ltb, length, str_eq, ◌==◌,
  if◌then◌else◌,
}
use agent_gm.Prelude.Int.{ℤ}
use agent_gm.Gm.Errors.{
  GoError, Code, Message, phone_not_responding, disconnected, unsupported_capability,
  google_permission_denied, google_error, google_http_error, google_undocumented_status,
  not_default_sms_app, pairing_no_cookies, pairing_no_devices, pairing_wrong_emoji,
  pairing_cancelled, pairing_timeout, pairing_init_timeout, pairing_no_account,
  pairing_wrong_account, internal_error,
}
use agent_gm.Store.Write.{StoreError, Fate}
use agent_gm.Store.Operations.{Operation, Table}

pub data Kind : Type 0 where
  send_text send_media start_conversation mark_read add_reaction remove_reaction : Kind
  delete_message delete_conversation archive unarchive : Kind

abbrev pub kind_text : Kind → String
kind_text send_text = "send_text"
kind_text send_media = "send_media"
kind_text start_conversation = "start_conversation"
kind_text mark_read = "mark_read"
kind_text add_reaction = "add_reaction"
kind_text remove_reaction = "remove_reaction"
kind_text delete_message = "delete_message"
kind_text delete_conversation = "delete_conversation"
kind_text archive = "archive"
kind_text unarchive = "unarchive"

abbrev pub code_text : Code → String
code_text phone_not_responding = "phone_not_responding"
code_text disconnected = "disconnected"
code_text unsupported_capability = "unsupported_capability"
code_text google_permission_denied = "google_permission_denied"
code_text google_error = "google_error"
code_text google_http_error = "google_http_error"
code_text google_undocumented_status = "google_undocumented_status"
code_text not_default_sms_app = "not_default_sms_app"
code_text pairing_no_cookies = "pairing_no_cookies"
code_text pairing_no_devices = "pairing_no_devices"
code_text pairing_wrong_emoji = "pairing_wrong_emoji"
code_text pairing_cancelled = "pairing_cancelled"
code_text pairing_timeout = "pairing_timeout"
code_text pairing_init_timeout = "pairing_init_timeout"
code_text pairing_no_account = "pairing_no_account"
code_text pairing_wrong_account = "pairing_wrong_account"
code_text internal_error = "internal_error"

-- The refusals of ValidateIdempotencyKey.
pub data KeyFault : Type 0 where
  too_long not_utf8 has_control : KeyFault

pub data OpError : Type 0 where
  invalid_key : KeyFault → OpError
  -- apierr.MalformedBody
  malformed_body : OpError
  -- the key, the account of its first use, and this account
  crossed_accounts : String → String → String → OpError
  conflict : String → OpError
  store_failed : StoreError → OpError
  -- the test-only seam before the call returned an error
  crashed : OpError
  call_failed : GoError → OpError

-- What this code asks of the packages outside the repository: a Go string's bytes, utf8.ValidString,
-- and the text that fmt makes of a message with arguments.
pub record Runtime : Type 0 where
  pub bytes : String → List ℕ
  pub valid_utf8 : List ℕ → Bool
  pub render : Message → String

pub is_control : ℕ → Bool
is_control r = ltb r 32 || r == 127

-- strings.ContainsFunc(key, isControl)
unfoldable pub contains_control : List ℕ → Bool
unfolding is_control
contains_control [] = false
contains_control (c ∷ cs) = is_control c || contains_control cs

abbrev pub max_idempotency_key_bytes : ℕ
max_idempotency_key_bytes = 200

unfoldable pub validate_idempotency_key : Runtime → String → Option KeyFault
unfolding contains_control
validate_idempotency_key rt key =
    if str_eq key ""
    then none
    else if ltb max_idempotency_key_bytes (length (rt.bytes key))
    then some too_long
    else if not (rt.valid_utf8 (rt.bytes key))
    then some not_utf8
    else if contains_control (rt.bytes key)
    then some has_control
    else none

pub record Request : Type 0 where
  pub authorization_id : String
  pub key : String
  -- RequestFingerprint of the body; none where the body is no JSON.
  pub fingerprint : Option String
  pub conversation_id : String

pub record Outcome : Type 0 where
  pub message_id : String
  pub conversation_id : String
  pub google_status_raw : ℤ

-- The library call of one mutation: its outcome, and its error if it has one.
abbrev pub Call : Type 0
Call = Operation → Outcome × Option GoError

-- One request's environment: the reads that fail, the fates of its writes, the clock, the minted
-- IDs, and what others do to the table before each of its later statements.
pub record Env : Type 0 where
  pub crossed_io : Option String
  pub lookup_io : Option String
  pub reread_io : Option String
  pub insert_fate : Fate
  pub settle_fate : Fate
  pub insert_now : ℕ
  pub settle_now : ℕ
  pub operation_id : String
  pub minted_tmp_id : String
  pub crashes : Bool
  pub before_lookup : Table → Table
  pub before_insert : Table → Table
  pub before_reread : Table → Table
  pub before_settle : Table → Table

-- `Result`, its error, the operations that the library call was made with, and the table.
pub record Run : Type 0 where
  pub answer : Option Operation
  pub replayed : Bool
  pub changed : Bool
  pub error : Option OpError
  pub sent : List Operation
  pub table : Table

abbrev pub refused : OpError → Table → Run
refused e t = record {
  answer = none;
  replayed = false;
  changed = false;
  error = some e;
  sent = [];
  table = t;
}
