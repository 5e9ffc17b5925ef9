-- ===== src/Core/Operations.antt =====
-- internal/core/operations.go: the pipeline that every mutation goes through, and the correlation
-- of the remote echo. What other goroutines do to the table between two statements of a request is
-- a function of the request's environment; the library call is a function, and a run records the
-- operations that it was made with.
pub mod Pipeline
pub mod Settle
pub mod Echo
mod Tests
use agent_gm.Prelude.{
  ℕ, suc, ◌<◌, Bool, true, false, not, ◌&&◌, ◌||◌, Option, none, some, String, List, [], ◌∷◌, ltb,
  length, str_eq, ◌==◌, if◌then◌else◌,
}
use agent_gm.Prelude.Int.{ℤ, pos, eqz}
use agent_gm.Gm.Errors.{
  GoError, Class, Code, Message, classify_err, phone_not_responding, disconnected,
  unsupported_capability, google_permission_denied, google_error, google_http_error,
  google_undocumented_status, not_default_sms_app, pairing_no_cookies, pairing_no_devices,
  pairing_wrong_emoji, pairing_cancelled, pairing_timeout, pairing_init_timeout, pairing_no_account,
  pairing_wrong_account, internal_error,
}
use agent_gm.Gm.Delivery.{DeliveryState, same_state}
use agent_gm.Gm.Delivery
use agent_gm.Store.Write.{
  Status, running, succeeded, pending, failed, unknown, StoreError, operation_not_found, Result, ok,
  err, Fate,
}
use agent_gm.Store.Operations.{
  Operation, Table, Settlement, insert_operation, settle_operation, operation, operation_by_key,
  key_used_by_another_account, operation_by_tmp_id,
}
unfoldable pub use agent_gm.Core.Requests.{contains_control, validate_idempotency_key}
pub use agent_gm.Core.Requests.{
  Kind, KeyFault, OpError, Runtime, Request, Outcome, Env, Run, send_text, send_media,
  start_conversation, mark_read, add_reaction, remove_reaction, delete_message, delete_conversation,
  archive, unarchive, too_long, not_utf8, has_control, invalid_key, malformed_body,
  crossed_accounts, conflict, store_failed, crashed, call_failed, kind_text, code_text,
  max_idempotency_key_bytes, Call, refused, is_control,
}

-- The settlement that `settle` records.
unfoldable pub settlement_for : Runtime → Outcome → Option GoError → Settlement
unfolding classify_err
settlement_for rt o none = record {
  status = succeeded;
  message_id = o.message_id;
  conversation_id = o.conversation_id;
  error_code = "";
  error_message = "";
  error_retryable = false;
  google_status_raw = o.google_status_raw;
}
settlement_for rt o (some e) =
    let c = (classify_err e).0 in
    record {
      status = if c.keeps_operation_pending then pending else failed;
      message_id = o.message_id;
      conversation_id = o.conversation_id;
      error_code = code_text c.code;
      error_message = rt.render c.message;
      error_retryable = c.retryable;
      google_status_raw =
          if eqz c.google_status_raw (pos 0) then o.google_status_raw else c.google_status_raw;
    }

unfoldable pub settle :
    Runtime → Fate → ℕ → Operation → Outcome → Option GoError → Table → Result Operation × Table
settle rt fate now op o call_error =
    settle_operation fate now op.id (settlement_for rt o call_error)

abbrev pub mints_tmp_id : Kind → Bool
mints_tmp_id send_text = true
mints_tmp_id send_media = true
mints_tmp_id _ = false

unfoldable pub tmp_id_for : Kind → String → String
tmp_id_for kind minted = if mints_tmp_id kind then minted else ""

abbrev call_error : Option GoError → Option OpError
call_error none = none
call_error (some e) = some (call_failed e)

abbrev succeeded_call : Option GoError → Bool
succeeded_call none = true
succeeded_call (some e) = false

-- Steps 10 and 11.
respond : Operation → Option GoError → Result Operation × Table → Run
respond op ce (ok settled, t) = record {
  answer = some settled;
  replayed = false;
  changed = succeeded_call ce;
  error = call_error ce;
  sent = op ∷ [];
  table = t;
}
respond op ce (err e, t) = record {
  answer = some op;
  replayed = false;
  changed = false;
  error = some (store_failed e);
  sent = op ∷ [];
  table = t;
}

abbrev settle_call : Runtime → Env → Operation → Table → Outcome × Option GoError → Run
settle_call rt env op t (o, ce) =
    respond op ce (settle rt env.settle_fate env.settle_now op o ce (env.before_settle t))

-- Step 9, behind the seam that stands in for a crash.
call_and_settle : Runtime → Env → Call → Result Operation → Table → Run
call_and_settle rt env call (err e) t = refused (store_failed e) t
call_and_settle rt env call (ok op) t =
    if env.crashes
    then (record {
      answer = some op;
      replayed = false;
      changed = false;
      error = some crashed;
      sent = [];
      table = t;
    })
    else settle_call rt env op t (call op)

unfoldable pub new_operation : Env → Kind → String → Request → String → Operation
unfolding tmp_id_for
new_operation env kind account req fingerprint = record {
  id = env.operation_id;
  account_id = account;
  kind = kind_text kind;
  authorization_id = req.authorization_id;
  idempotency_key = req.key;
  request_fingerprint = fingerprint;
  conversation_id = req.conversation_id;
  message_id = "";
  tmp_id = tmp_id_for kind env.minted_tmp_id;
  status = running;
  terminal = false;
  terminal_at_ms = 0;
  corrected_at_ms = 0;
  error_code = "";
  error_message = "";
  error_retryable = false;
  has_error_retryable = false;
  google_status_raw = pos 0;
  request_payload_json = "";
  media_size_bytes = 0;
  created_at_ms = 0;
  updated_at_ms = 0;
}

after_insert : Runtime → Env → Call → Result (Unit {0}) × Table → Run
after_insert rt env call (err e, t) = refused (store_failed e) t
after_insert rt env call (ok u, t) =
    let t' = env.before_reread t in
    call_and_settle rt env call (operation env.reread_io env.operation_id t') t'

-- Step 8 and what follows it.
insert_and_call : Runtime → Env → Kind → String → Request → Call → String → Table → Run
insert_and_call rt env kind account req call fingerprint t = after_insert rt env call (
    insert_operation env.insert_fate env.insert_now ""
      (new_operation env kind account req fingerprint) (env.before_insert t))

abbrev replay : Operation → Table → Run
replay existing t = record {
  answer = some existing;
  replayed = true;
  changed = false;
  error = none;
  sent = [];
  table = t;
}

abbrev not_found : StoreError → Bool
not_found operation_not_found = true
not_found _ = false

-- Step 7c on the answer of the lookup.
replay_or : Request → String → Table → Result Operation → Run → Run
replay_or req fingerprint t (ok existing) fresh =
    if str_eq existing.request_fingerprint fingerprint
    then replay existing t
    else refused (conflict req.key) t
replay_or req fingerprint t (err e) fresh =
    if not_found e then fresh else refused (store_failed e) t

look_up : Runtime → Env → Kind → String → Request → Call → String → Table → Run
look_up rt env kind account req call fingerprint t =
    replay_or req fingerprint t
      (operation_by_key env.lookup_io req.authorization_id account (kind_text kind) req.key t)
      (insert_and_call rt env kind account req call fingerprint t)

-- Step 7b on the answer of the query.
refuse_crossed : String → Request → Table → Result (Option String) → Run → Run
refuse_crossed account req t (err e) next = refused (store_failed e) t
refuse_crossed account req t (ok none) next = next
refuse_crossed account req t (ok (some other)) next =
    refused (crossed_accounts req.key other account) t

keyed_or_not : Runtime → Env → Kind → String → Request → Call → String → Table → Run
keyed_or_not rt env kind account req call fingerprint t =
    if str_eq req.key ""
    then insert_and_call rt env kind account req call fingerprint t
    else refuse_crossed account req t
        (key_used_by_another_account env.crossed_io req.authorization_id (kind_text kind) req.key
          account t)
        (look_up rt env kind account req call fingerprint (env.before_lookup t))

with_fingerprint : Runtime → Env → Kind → String → Request → Call → Option String → Table → Run
with_fingerprint rt env kind account req call none t = refused malformed_body t
with_fingerprint rt env kind account req call (some fp) t =
    keyed_or_not rt env kind account req call fp t

with_key : Runtime → Env → Kind → String → Request → Call → Option KeyFault → Table → Run
with_key rt env kind account req call (some fault) t = refused (invalid_key fault) t
with_key rt env kind account req call none t =
    with_fingerprint rt env kind account req call req.fingerprint t

pub run_operation : Runtime → Env → Kind → String → Request → Call → Table → Run
run_operation rt env kind account req call t =
    with_key rt env kind account req call (validate_idempotency_key rt req.key) t

-- What correlateEcho reads of a gm.Message.
pub record EchoMessage : Type 0 where
  pub tmp_id : String
  pub delivery_state : DeliveryState
  pub status_raw : ℤ

-- The writes on the message's own rows, which are best effort: the operation that
-- LinkMessageOperation links, and the size that FillMissingAttachmentSize fills.
pub record EchoRun : Type 0 where
  pub error : Option StoreError
  pub linked : Option String
  pub filled : Option ℕ
  pub table : Table

abbrev evidence : EchoMessage → String → Settlement
evidence m message_id =
    if same_state m.delivery_state Delivery.failed
    then (record {
      status = failed;
      message_id = message_id;
      conversation_id = "";
      error_code = code_text google_error;
      error_message = "the phone reported the message as failed";
      error_retryable = false;
      google_status_raw = m.status_raw;
    })
    else record {
      status = succeeded;
      message_id = message_id;
      conversation_id = "";
      error_code = "";
      error_message = "";
      error_retryable = false;
      google_status_raw = m.status_raw;
    }

abbrev no_news : Status → String → Settlement
no_news status message_id = record {
  status = status;
  message_id = message_id;
  conversation_id = "";
  error_code = "";
  error_message = "";
  error_retryable = false;
  google_status_raw = pos 0;
}

-- The settlement that the echo of a message makes of an operation's status.
unfoldable pub echo_settlement : Status → EchoMessage → String → Settlement
unfolding same_state
echo_settlement pending m message_id = evidence m message_id
echo_settlement unknown m message_id = evidence m message_id
echo_settlement running m message_id = no_news running message_id
echo_settlement succeeded m message_id = no_news succeeded message_id
echo_settlement failed m message_id = no_news failed message_id

correlate_found :
    Fate → ℕ → (Table → Table) → String → EchoMessage → Result Operation → Table → EchoRun
unfolding settle_operation
correlate_found fate now meanwhile message_id m (err e) t = record {
  error = if not_found e then none else some e;
  linked = none;
  filled = none;
  table = t;
}
correlate_found fate now meanwhile message_id m (ok op) t = record {
  error = none;
  linked = some op.id;
  filled = if ltb 0 op.media_size_bytes then some op.media_size_bytes else none;
  table =
      (settle_operation fate now op.id (echo_settlement op.status m message_id) (meanwhile t)).1;
}

-- `meanwhile` is what others do to the table between the lookup and the settlement.
unfoldable pub correlate_echo :
    Option String → Fate → ℕ → (Table → Table) → String → String → EchoMessage → Table → EchoRun
unfolding correlate_found operation_by_tmp_id
correlate_echo io fate now meanwhile account message_id m t =
    correlate_found fate now meanwhile message_id m (operation_by_tmp_id io account m.tmp_id t) t
