-- ===== src/Store/Operations/Sweeps.antt =====
-- internal/store/operations.go: the three process-wide sweeps, each against what it promises: the
-- crash recovery, the reaper of pending operations and the retention sweep.
use agent_gm.Prelude.{
  ℕ, ◌-◌, ◌+◌, ◌≤◌, ◌↔◌, ap, ◌≡◌, refl, Bool, true, false, not, none, String, List, [], ◌∷◌, map,
  arith, str_eq, eq_iff, All, length,
}
use agent_gm.Prelude.Rows.{
  first_where, select_where, update_where, delete_where, count-delete_where,
}
use agent_gm.Store.Write.{Result, ok, err, commits, running, pending}
use agent_gm.Store.Operations.{
  Row, Table, Operation, has_id, scan_operation, is_running, is_overdue, is_stale, give_up, ids_of,
  read_back, reap_each, recover_running_operations, reap_pending_operations, sweep_idempotency_keys,
  operation_terminal,
}
use agent_gm.Store.Operations.Rules.{IsRowOk, give_up-id}
use agent_gm.Store.Operations.Outcomes.{IsGivenUp, give_up-IsGivenUp, same_status_iff}
use agent_gm.Store.Operations.Distinct.{Distinct, update_absent, absent-select}

others :
    (id : String) (t : Table)
    → first_where (has_id id) t ≡ none
    → All (λ i. str_eq id i ≡ false) (ids_of t)
unfolding first_where
others id [] h = tt
others id (r ∷ t) h = (ground (arith, eq_iff r.id id, eq_iff id r.id), others id t (ground arith))

abbrev consed : Row → Result (List Operation × Table) → Result (List Operation × Table)
consed r (ok (os, t)) = ok (os, r ∷ t)
consed r (err e) = err e

read_back_skip :
    (a : String) (r : Row) (ids : List String) (t : Table)
    → r.id ≡ a
    → All (λ i. str_eq a i ≡ false) ids
    → read_back ids (r ∷ t) ≡ read_back ids t
unfolding read_back first_where
read_back_skip a r [] t e h = refl
read_back_skip a r (i ∷ ids) t e h = ground (arith, h.0, read_back_skip a r ids t e h.1)

reap_each_skip :
    (now : ℕ) (a : String) (r : Row) (ids : List String) (t : Table)
    → r.id ≡ a
    → All (λ i. str_eq a i ≡ false) ids
    → reap_each now ids (r ∷ t) ≡ consed r (reap_each now ids t)
unfolding reap_each first_where update_where
reap_each_skip now a r [] t e h = refl
reap_each_skip now a r (i ∷ ids) t e h = ground (
  arith,
  h.0,
  reap_each_skip now a r ids (update_where (has_id i) (give_up now "pending_timeout") t) e h.1,
)

module _ (p : Row → Bool) (f : Row → Row) (keeps_id : (r : Row) → (f r).id ≡ r.id) where
  pub read_back-update :
      (t : Table)
      → Distinct t
      → read_back (ids_of (select_where p t)) (update_where p f t)
        ≡ ok (map (λ r. scan_operation (f r)) (select_where p t))
  unfolding select_where update_where read_back first_where
  read_back-update [] d = refl
  read_back-update (r ∷ t) d =
      let unseen = others r.id (select_where p t) (absent-select p r.id t d.0) in
      ground (
        arith,
        keeps_id r,
        eq_iff (f r).id r.id,
        read_back_skip r.id (f r) (ids_of (select_where p t)) (update_where p f t) (keeps_id r)
            unseen,
        read_back_skip r.id r (ids_of (select_where p t)) (update_where p f t) refl unseen,
        read_back-update t d.1,
      )

pub reap_each-update :
    (now : ℕ) (p : Row → Bool) (t : Table)
    → Distinct t
    → let f = give_up now "pending_timeout" in
      reap_each now (ids_of (select_where p t)) t
      ≡ ok (map (λ r. scan_operation (f r)) (select_where p t), update_where p f t)
unfolding select_where update_where reap_each first_where give_up
reap_each-update now p [] d = refl
reap_each-update now p (r ∷ t) d =
    let unseen = others r.id (select_where p t) (absent-select p r.id t d.0) in
    let f = give_up now "pending_timeout" in
    ground (
      arith,
      eq_iff r.id r.id,
      update_absent f r.id t d.0,
      reap_each_skip now r.id (f r) (ids_of (select_where p t)) t refl unseen,
      reap_each_skip now r.id r (ids_of (select_where p t)) t refl unseen,
      reap_each-update now p t d.1,
    )

-- A sweep that answers so gave up exactly the rows that are due: every other row is as it was, and the
-- answer lists the operations of the rows that it gave up as they now stand.
pub record GivesUp (now : ℕ) (code : String) (Due : Row → Type 0) (t : Table)
    (answer : Result (List Operation) × Table) : Type 0 where
  pub chosen : Row → Bool
  pub chosen_iff : (r : Row) → (chosen r ≡ true) ↔ Due r
  pub given_up : Row → Row
  pub is_given_up : (r : Row) → IsGivenUp now code r (given_up r)
  pub answers : answer ≡ (
    ok (map (λ r. scan_operation (given_up r)) (select_where chosen t)),
    update_where chosen given_up t,
  )

abbrev pub Overdue : ℕ → ℕ → Row → Type 0
Overdue now timeout r = (r.status ≡ pending) × (r.created_at_ms + timeout ≤ now)

is_overdue_iff :
    (now timeout : ℕ) (r : Row) → (is_overdue now timeout r ≡ true) ↔ Overdue now timeout r
is_overdue_iff now timeout r = (
  λ h. ((same_status_iff r.status pending).0 (ground arith), ground arith),
  λ due. let same = (same_status_iff r.status pending).1 due.0 in let k = due.1 in ground arith,
)

-- When its transaction commits, the crash sweep gives up exactly the running operations, with the code
-- `crash_recovered`: each becomes unknown, which is final, and keeps its request and what it had of a
-- message; every other row is as it was, and the answer lists the operations that it gave up as they
-- now stand. No two rows are of one ID.
pub recover-GivesUp :
    (now : ℕ) (t : Table)
    → Distinct t
    → GivesUp now "crash_recovered"
        (λ r. r.status ≡ running)
        t
        (recover_running_operations commits now t)
unfolding recover_running_operations
recover-GivesUp now t d = record {
  chosen = is_running;
  chosen_iff = λ r. same_status_iff r.status running;
  given_up = give_up now "crash_recovered";
  is_given_up = give_up-IsGivenUp now "crash_recovered";
  answers =
      rw
        (read_back-update is_running (give_up now "crash_recovered")
          (give_up-id now "crash_recovered") t d)
        refl;
}

-- When its transaction commits, the reaper gives up exactly the pending operations that are as old as
-- the timeout, with the code `pending_timeout`: each becomes unknown, which is final, and keeps its
-- request and what it had of a message; every other row is as it was, and the answer lists the
-- operations that it gave up as they now stand. No two rows are of one ID.
pub reap-GivesUp :
    (now timeout : ℕ) (t : Table)
    → Distinct t
    → GivesUp now "pending_timeout"
        (Overdue now timeout)
        t
        (reap_pending_operations commits now timeout t)
unfolding reap_pending_operations
reap-GivesUp now timeout t d = record {
  chosen = is_overdue now timeout;
  chosen_iff = is_overdue_iff now timeout;
  given_up = give_up now "pending_timeout";
  is_given_up = give_up-IsGivenUp now "pending_timeout";
  answers = rw (reap_each-update now (is_overdue now timeout) t d) refl;
}

abbrev pub live : Row → Bool
live r = not (operation_terminal r.status)

live-delete :
    (p : Row → Bool) (t : Table)
    → ((r : Row) → IsRowOk r → p r ≡ true → live r ≡ false)
    → All IsRowOk t
    → select_where live (delete_where p t) ≡ select_where live t
unfolding select_where delete_where
live-delete p [] dead h = refl
live-delete p (r ∷ t) dead h = ground (arith, dead r h.0, live-delete p t dead h.1)

-- When its transaction commits, the retention sweep answers how many rows it deleted, and on a
-- table of sound rows every operation that is not terminal is still there, in the same order.
pub sweep-keeps_live :
    (now ttl : ℕ) (t : Table)
    → All IsRowOk t
    → let left = (sweep_idempotency_keys commits now ttl t).1 in
      ((sweep_idempotency_keys commits now ttl t).0 ≡ ok (length t - length left))
      × (select_where live left ≡ select_where live t)
unfolding sweep_idempotency_keys
sweep-keeps_live now ttl t h = (
  ap ok (omega (arith, count-delete_where (is_stale now ttl) t)),
  live-delete (is_stale now ttl) t (λ r okr k. ground (arith, okr)) h,
)
