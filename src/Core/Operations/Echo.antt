-- ===== src/Core/Operations/Echo.antt =====
-- internal/core/operations.go: what the remote echo does to the operation that it is the echo of.
use agent_gm.Prelude.{
  ℕ, ◌≡◌, refl, ◌≢◌, true, none, some, String, arith, str_eq, eq_iff, if◌then◌else◌,
}
use agent_gm.Prelude.Rows.{first_where, select_where}
use agent_gm.Gm.Delivery
use agent_gm.Gm.Delivery.{same_state}
use agent_gm.Store.Write.{Status, running, succeeded, pending, failed, unknown, commits}
use agent_gm.Store.Operations.{
  Row, Table, has_id, has_tmp_id, newest, scan_operation, settle_row, operation_transition_allowed,
  operation_by_tmp_id,
}
use agent_gm.Store.Operations.Distinct.{Distinct}
use agent_gm.Store.Operations.Settles.{settle_operation_lem, newest-found, first-set}
use agent_gm.Store.Operations.Rules.{settle_row-id}
use agent_gm.Core.Operations.{EchoMessage, echo_settlement, correlate_found, correlate_echo}

-- The status that the echo's evidence settles an operation to.
abbrev pub settled_as : Status → EchoMessage → Status
settled_as pending m = if same_state m.delivery_state Delivery.failed then failed else succeeded
settled_as unknown m = if same_state m.delivery_state Delivery.failed then failed else succeeded
settled_as status m = status

echo_allowed :
    (status : Status) (m : EchoMessage) (message_id : String)
    → operation_transition_allowed status (echo_settlement status m message_id).status ≡ true
unfolding operation_transition_allowed echo_settlement
echo_allowed running m message_id = refl
echo_allowed succeeded m message_id = refl
echo_allowed pending m message_id = ground arith
echo_allowed failed m message_id = refl
echo_allowed unknown m message_id = ground arith

settle_row-echo :
    (now : ℕ) (r : Row) (m : EchoMessage) (message_id : String)
    → message_id ≢ ""
    → let r' = settle_row now (echo_settlement r.status m message_id) r in
      (r'.status ≡ settled_as r.status m) × (r'.message_id ≡ some message_id)
unfolding settle_row echo_settlement
settle_row-echo now r m message_id named = ground (arith, eq_iff message_id "")

-- The echo of the newest operation under the message's tmp_id, with nobody writing in between and a
-- committed transaction: a pending or an unknown operation becomes failed if the message is, and
-- succeeded if not; any other keeps its status; and each gains the message's ID.
pub correlate_echo-settles :
    (now : ℕ) (account message_id : String) (m : EchoMessage) (t : Table) (r : Row)
    → Distinct t
    → message_id ≢ ""
    → newest none (select_where (has_tmp_id account m.tmp_id) t) ≡ some r
    → (r' : Row) × (first_where
          (has_id r.id)
          (correlate_echo none commits now (λ t. t) account message_id m t).table
        ≡ some r')
      × (r'.status ≡ settled_as r.status m)
      × (r'.message_id ≡ some message_id)
unfolding correlate_echo correlate_found operation_by_tmp_id scan_operation
correlate_echo-settles now account message_id m t r d named found =
    let st = echo_settlement r.status m message_id in
    let by_id = newest-found (has_tmp_id account m.tmp_id) t r d found in
    let move = echo_allowed r.status m message_id in
    let same : str_eq (settle_row now st r).id r.id ≡ true =
      rw (settle_row-id now st r) (ground (arith, eq_iff r.id r.id)) in
    let (status, message) = settle_row-echo now r m message_id named in
    (
      settle_row now st r,
      rw (found, settle_operation_lem now r.id st t)
          (rw by_id (rw move (first-set r.id (settle_row now st r) t r same by_id))),
      status,
      message,
    )
