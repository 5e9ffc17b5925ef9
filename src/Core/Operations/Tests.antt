-- ===== src/Core/Operations/Tests.antt =====
-- internal/core/slice2_operations_test.go: the pipeline on single requests.
use agent_gm.Prelude.{
  ◌≡◌, refl, ◌≢◌, ◌↔◌, true, false, none, some, String, [], ◌∷◌, arith, str_eq, eq_iff,
  if◌then◌else◌,
}
use agent_gm.Prelude.Int.{pos}
use agent_gm.Prelude.Rows.{first_where, select_where}
use agent_gm.Gm.Delivery
use agent_gm.Gm.Errors.{GoError, sentinel, err_phone_not_responding, is_err, as_classified}
use agent_gm.Store.Write.{pending, succeeded, failed, commits, ok}
use agent_gm.Store.Operations.{
  Row, Table, has_id, scan_operation, key_used_by_another_account, newest, new_row,
}
use agent_gm.Core.Operations.{
  Runtime, Env, Request, Call, Outcome, EchoMessage, send_text, run_operation,
  validate_idempotency_key, replay, refused, conflict, settlement_for, settle, correlate_echo,
  new_operation,
}
use agent_gm.Core.Operations.Pipeline.{
  run_operation-replay, SendsOnce, run_operation-SendsOnce, run_operation-key_taken,
}
use agent_gm.Core.Operations.Settle.{settlement_for-status, IsTold, settle-answered}
use agent_gm.Store.Operations.Outcomes.{IsSettled}
use agent_gm.Core.Operations.Echo.{settled_as, correlate_echo-settles}

abbrev plain : Runtime
plain = record { bytes = λ s. []; valid_utf8 = λ b. true; render = λ m. "" }

abbrev quiet : Env
quiet = record {
  crossed_io = none;
  lookup_io = none;
  reread_io = none;
  insert_fate = commits;
  settle_fate = commits;
  insert_now = 10;
  settle_now = 11;
  operation_id = "op_2";
  minted_tmp_id = "tmp_2";
  crashes = false;
  before_lookup = λ t. t;
  before_insert = λ t. t;
  before_reread = λ t. t;
  before_settle = λ t. t;
}

abbrev hello : Request
hello = record {
  authorization_id = "authz_1";
  key = "k";
  fingerprint = some "f";
  conversation_id = "conv_1";
}

abbrev accepted : Outcome
accepted = record { message_id = ""; conversation_id = "conv_1"; google_status_raw = pos 1 }

abbrev answers : Call
answers op = (accepted, none)

-- The operation of an earlier request with the key "k".
abbrev sent_row : Row
sent_row =
    record (new_row 5
      (new_operation (record quiet { operation_id = "op_1" }) send_text "acct_1" hello "f")) {
        id = "op_1";
        account_id = "acct_1";
        kind = "send_text";
        authorization_id = "authz_1";
        idempotency_key = some "k";
        request_fingerprint = "f";
        tmp_id = some "tmp_1";
        conversation_id = some "conv_1";
        message_id = none;
        request_payload_json = "{}";
      }

abbrev one : Table
one = sent_row ∷ []

keyed : ◌≢◌ {A = String} "k" ""
keyed = ground (arith, eq_iff "k" "")

run_operation-replay_example :
    run_operation plain quiet send_text "acct_1" hello answers one
    ≡ (if str_eq "f" "f" then replay (scan_operation sent_row) one else refused (conflict "k") one)
unfolding validate_idempotency_key key_used_by_another_account first_where
run_operation-replay_example =
    run_operation-replay plain quiet send_text "acct_1" hello answers one "f" sent_row keyed refl
      refl refl refl refl

run_operation-SendsOnce_example :
    SendsOnce plain quiet send_text "acct_1" hello answers []
      (run_operation plain quiet send_text "acct_1" hello answers [])
run_operation-SendsOnce_example =
    run_operation-SendsOnce plain quiet send_text "acct_1" hello answers []

run_operation-key_taken_example :
    (run_operation plain quiet send_text "acct_1" hello answers one).sent ≡ []
unfolding first_where
run_operation-key_taken_example =
    run_operation-key_taken plain quiet send_text "acct_1" hello answers one sent_row keyed refl

settlement_for-status_example :
    ((settlement_for plain accepted none).status ≡ succeeded)
    × ((e : GoError)
        → as_classified e ≡ none
        → let status = (settlement_for plain accepted (some e)).status in
          ((status ≡ pending) ↔ (is_err e err_phone_not_responding ≡ true))
          × ((status ≡ failed) ↔ (is_err e err_phone_not_responding ≡ false)))
settlement_for-status_example = settlement_for-status plain accepted

settle-answered_example :
    (r : Row) × ((settle plain commits 11
        (scan_operation sent_row)
        accepted
        (some (sentinel err_phone_not_responding))
        one).0
      ≡ ok (scan_operation r))
    × (first_where
          (has_id "op_1")
          (settle plain commits 11
            (scan_operation sent_row)
            accepted
            (some (sentinel err_phone_not_responding))
            one).1
        ≡ some r)
    × IsSettled 11
        (settlement_for plain accepted (some (sentinel err_phone_not_responding)))
        sent_row
        r
    × ((r.status ≡ succeeded) ↔ (some (sentinel err_phone_not_responding) ≡ none))
    × IsTold r
unfolding first_where scan_operation
settle-answered_example =
    settle-answered plain 11 (scan_operation sent_row) accepted
      (some (sentinel err_phone_not_responding)) one sent_row refl refl

abbrev delivered_echo : EchoMessage
delivered_echo = record { tmp_id = "tmp_1"; delivery_state = Delivery.sent; status_raw = pos 1 }

abbrev waiting : Row
waiting = record sent_row { status = pending }

correlate_echo-settles_example :
    (r' : Row) × (first_where
        (has_id "op_1")
        (correlate_echo none commits 12
          (λ t. t)
          "acct_1"
          "msg_1"
          delivered_echo
          (waiting ∷ [])).table
      ≡ some r')
    × (r'.status ≡ settled_as pending delivered_echo)
    × (r'.message_id ≡ some "msg_1")
unfolding first_where newest select_where
correlate_echo-settles_example =
    correlate_echo-settles 12 "acct_1" "msg_1" delivered_echo (waiting ∷ []) waiting (refl, tt)
      (ground (arith, eq_iff "msg_1" "")) refl

abbrev finished : Row
finished = record sent_row { status = succeeded; terminal = true; terminal_at_ms = some 11 }
