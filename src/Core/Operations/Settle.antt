-- ===== src/Core/Operations/Settle.antt =====
-- internal/core/operations.go: the status vocabulary of an outcome, and the crash between the
-- insert and the library call.
use agent_gm.Prelude.{
  ℕ, ◌≡◌, refl, ◌↔◌, true, false, Option, none, some, arith, ◌⊎◌, inl, inr, str_eq, Bool-cases,
}
use agent_gm.Prelude.Rows.{first_where}
use agent_gm.Gm.Errors.{GoError, err_phone_not_responding, is_err, as_classified, classify_err}
use agent_gm.Gm.Errors.Classified.{classify-pending_iff}
use agent_gm.Store.Write.{running, succeeded, pending, failed, ok, commits}
use agent_gm.Store.Operations.{
  Row, Table, Operation, has_id, scan_operation, settle_row, operation_transition_allowed,
  operation_terminal,
}
use agent_gm.Store.Operations.Settles.{settle_operation_lem, first-set, found_id}
use agent_gm.Store.Operations.Outcomes.{IsSettled, settle_row-IsSettled}
use agent_gm.Store.Operations.Rules.{settle_row-id}
use agent_gm.Core.Operations.{Runtime, Outcome, settlement_for, settle}

-- A call that answers succeeds; one that fails with an error that is not classified yet stays
-- pending exactly when the phone not responding is in the error's chain, and fails otherwise.
pub settlement_for-status :
    (rt : Runtime) (o : Outcome)
    → ((settlement_for rt o none).status ≡ succeeded)
      × ((e : GoError)
          → as_classified e ≡ none
          → let status = (settlement_for rt o (some e)).status in
            ((status ≡ pending) ↔ (is_err e err_phone_not_responding ≡ true))
            × ((status ≡ failed) ↔ (is_err e err_phone_not_responding ≡ false)))
unfolding settlement_for
settlement_for-status rt o = (refl, λ e raw. ground (arith, classify-pending_iff e raw))

settles_running :
    (rt : Runtime) (o : Outcome) (ce : Option GoError)
    → operation_transition_allowed running (settlement_for rt o ce).status ≡ true
unfolding settlement_for operation_transition_allowed
settles_running rt o none = refl
settles_running rt o (some e) = ground arith

-- What the request is told: that it ended, or that it is open.
abbrev pub IsTold : Row → Type 0
IsTold r =
    (((r.status ≡ succeeded) ⊎ (r.status ≡ failed)) × (r.terminal ≡ true))
    ⊎ ((r.status ≡ pending) × (r.terminal ≡ false))

told :
    (rt : Runtime) (now : ℕ) (o : Outcome) (ce : Option GoError) (cur : Row)
    → IsTold (settle_row now (settlement_for rt o ce) cur)
unfolding settle_row settlement_for operation_terminal
told rt now o none cur = inl (inl refl, refl)
told rt now o (some e) cur = elim (Bool-cases ((classify_err e).0).keeps_operation_pending) [
  | inl keeps ↦ inr (rw keeps refl, rw keeps refl)
  | inr fails ↦ inl (inr (rw fails refl), rw fails refl)
]

succeeded_iff :
    (rt : Runtime) (now : ℕ) (o : Outcome) (ce : Option GoError) (cur : Row)
    → ((settle_row now (settlement_for rt o ce) cur).status ≡ succeeded) ↔ (ce ≡ none)
unfolding settle_row settlement_for
succeeded_iff rt now o none cur = (λ _. refl, λ _. refl)
succeeded_iff rt now o (some e) cur = ground arith

-- When the settlement's transaction commits and the request's operation is still running, the request
-- is answered with the row that the table now holds, which is the running row settled by the call's
-- outcome: succeeded if the call returned no error, and only then; else failed, or pending. It is
-- terminal if it succeeded or failed, and not if it is pending.
pub settle-answered :
    (rt : Runtime) (now : ℕ) (op : Operation) (o : Outcome) (ce : Option GoError) (t : Table)
    (cur : Row)
    → first_where (has_id op.id) t ≡ some cur
    → cur.status ≡ running
    → (r : Row) × ((settle rt commits now op o ce t).0 ≡ ok (scan_operation r))
      × (first_where (has_id op.id) (settle rt commits now op o ce t).1 ≡ some r)
      × IsSettled now (settlement_for rt o ce) cur r
      × ((r.status ≡ succeeded) ↔ (ce ≡ none))
      × IsTold r
unfolding settle
settle-answered rt now op o ce t cur found run =
    let st = settlement_for rt o ce in
    let move : operation_transition_allowed cur.status st.status ≡ true =
      rw run (settles_running rt o ce) in
    let same : str_eq (settle_row now st cur).id op.id ≡ true =
      rw (settle_row-id now st cur) (found_id op.id t cur found) in
    (
      settle_row now st cur,
      rw (settle_operation_lem now op.id st t) (rw found (rw move)),
      rw (settle_operation_lem now op.id st t)
          (rw found (rw move (first-set op.id (settle_row now st cur) t cur same found))),
      settle_row-IsSettled now st cur,
      succeeded_iff rt now o ce cur,
      told rt now o ce cur,
    )
