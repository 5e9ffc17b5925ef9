-- ===== src/Store/Operations/Tests.antt =====
-- internal/store/operations_test.go: the calls of the store on a table of three operations.
use agent_gm.Prelude.{
  ◌-◌, ◌≡◌, refl, Bool, true, false, none, some, String, List, [], ◌∷◌, arith, All, length,
}
use agent_gm.Prelude.Int.{pos}
use agent_gm.Prelude.Rows.{first_where, select_where}
use agent_gm.Store.Write.{Status, running, succeeded, pending, ok, commits, abandoned}
use agent_gm.Store.Operations.{
  Row, Table, Settlement, operation_terminal, recover_running_operations, reap_pending_operations,
  sweep_idempotency_keys,
}
use agent_gm.Store.Operations.Rules.{IsRowOk}
use agent_gm.Store.Operations.Distinct.{Distinct}
use agent_gm.Store.Operations.Changes.{IsSound}
use agent_gm.Store.Operations.Sweeps.{
  GivesUp, Overdue, recover-GivesUp, reap-GivesUp, sweep-keeps_live, live,
}
use agent_gm.Store.Operations.Settles.{Settles}
use agent_gm.Store.Operations.History.{
  Event, Dated, settle, recover, reap, sweep, erase, run, run-IsSound, Outlives, run-Outlives,
}

abbrev row : String → Status → Bool → Row
row id status terminal = record {
  id = id;
  account_id = "acct_1";
  kind = "send_text";
  authorization_id = "authz_1";
  idempotency_key = some id;
  request_fingerprint = "f";
  conversation_id = none;
  message_id = none;
  tmp_id = none;
  status = status;
  terminal = terminal;
  terminal_at_ms = none;
  corrected_at_ms = none;
  error_code = none;
  error_message = none;
  error_retryable = none;
  google_status_raw = none;
  request_payload_json = "{}";
  media_size_bytes = none;
  created_at_ms = 10;
  updated_at_ms = 10;
}

abbrev done : Row
done = record (row "op_c" succeeded true) { terminal_at_ms = some 12 }

abbrev three : Table
three = row "op_a" running false ∷ row "op_b" pending false ∷ done ∷ []

three-Distinct : Distinct three
unfolding first_where
three-Distinct = (refl, (refl, (refl, tt)))

three-rows : All IsRowOk three
unfolding operation_terminal
three-rows = (ground arith, (ground arith, (ground arith, tt)))

three-IsSound : IsSound three
three-IsSound = record { rows = three-rows; distinct = three-Distinct }

abbrev success : Settlement
success = record {
  status = succeeded;
  message_id = "msg_1";
  conversation_id = "";
  error_code = "";
  error_message = "";
  error_retryable = false;
  google_status_raw = pos 1;
}

recover-GivesUp_example :
    GivesUp 20 "crash_recovered"
      (λ r. r.status ≡ running)
      three
      (recover_running_operations commits 20 three)
recover-GivesUp_example = recover-GivesUp 20 three three-Distinct

reap-GivesUp_example :
    GivesUp 20 "pending_timeout" (Overdue 20 5) three (reap_pending_operations commits 20 5 three)
reap-GivesUp_example = reap-GivesUp 20 5 three three-Distinct

sweep-keeps_live_example :
    let left = (sweep_idempotency_keys commits 20 5 three).1 in
    ((sweep_idempotency_keys commits 20 5 three).0 ≡ ok (length three - length left))
    × (select_where live left ≡ select_where live three)
sweep-keeps_live_example = sweep-keeps_live 20 5 three three-rows

abbrev morning : List Event
morning =
    record { fate = abandoned; now = 15; call = settle "op_a" success }
    ∷ record { fate = commits; now = 20; call = reap 5 }
    ∷ record { fate = commits; now = 30; call = sweep 5 }
    ∷ record { fate = commits; now = 31; call = recover }
    ∷ record { fate = commits; now = 32; call = erase "acct_2" }
    ∷ []

morning-Dated : All Dated morning
morning-Dated = (omega arith, (omega arith, (omega arith, (omega arith, (omega arith, tt)))))

run-IsSound_example : IsSound (run three morning)
run-IsSound_example = run-IsSound three morning morning-Dated three-IsSound

run-Outlives_example : Outlives "op_a" (row "op_a" running false) three morning
unfolding first_where
run-Outlives_example =
    run-Outlives three morning "op_a" (row "op_a" running false) morning-Dated three-IsSound refl
