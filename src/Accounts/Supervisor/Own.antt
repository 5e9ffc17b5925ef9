-- ===== src/Accounts/Supervisor/Own.antt =====
-- internal/accounts/supervisor.go: a start leaves the row of its own account served.
use agent_gm.Prelude.{
  ◌≡◌, refl, true, false, Option, none, some, String, arith, eq_iff, All, All-each, All-both,
  if-both,
}
use agent_gm.Prelude.Rows.{first_where}
use agent_gm.Store.Write.{commits}
use agent_gm.Store.Accounts.{
  AccountState, error, signed_out, parked, Reason, credentials, listen_error, has_account_id,
  same_state,
}
use agent_gm.Accounts.Supervisor.{
  Supervised, Supervisor, StartEnv, Outcome, Connecting, up, down, Failure, connect_failed,
  prepare_failed, is_named, running_count, capped, set_one, set_running, set_client, set_looping,
  transition, fail_start, after_connecting, bring_up, start_found, start,
}
use agent_gm.Accounts.Supervisor.Stages.{IsKeptUp, up_keeps, save_keeps}
use agent_gm.Accounts.Supervisor.Rebalancing.{idle}
use agent_gm.Accounts.Supervisor.Moves.{
  IsServed, transition-fleet, transition-rows, marked, idle-same, idle-admitted,
}

module _ (env : StartEnv) (id : String) (commits_ : env.transition.fate ≡ commits) where
  -- The rows of the account that is started are served.
  abbrev pub OwnServed : Supervisor → Type 0
  OwnServed s = All (λ row. has_account_id id row ≡ true → IsServed s.fleet row) s.rows

  busy-OwnServed : (s : Supervisor) → idle s.fleet id ≡ false → OwnServed s
  busy-OwnServed s busy =
      All-each (λ row. has_account_id id row ≡ true → IsServed s.fleet row) s.rows
        λ row named. let e : row.id ≡ id = (eq_iff row.id id).0 named in rw (e, busy) (ground arith)

  moved-OwnServed :
      (to : AccountState) (why : Reason) (s : Supervisor)
      → same_state to parked ≡ false
      → OwnServed (transition env.transition id to why s).1
  moved-OwnServed to why s h =
      let m = marked env.transition.fate env.transition.now id to why s.rows commits_ h in
      rw (transition-rows env.transition id to why s) (
        All-both (λ row. has_account_id id row ≡ true → same_state row.state parked ≡ false)
          (λ row. has_account_id id row ≡ true → same_state row.state parked ≡ false)
          (λ row.
            has_account_id id row ≡ true
            → IsServed (transition env.transition id to why s).1.fleet row)
          _ (λ row p _ named. rw (p named) refl) m m)

  abbrev Busy : Supervisor → Type 0
  Busy s = idle s.fleet id ≡ false

  Busy-IsKeptUp : IsKeptUp env id Busy
  Busy-IsKeptUp = record {
    by_transition = λ to why s v. rw (transition-fleet env.transition id to why s) v;
    by_client = λ s v. idle-same id (set_client true) s.fleet (λ a. refl) (λ a h. h) v;
    by_loop = λ s v. idle-same id (set_looping true) s.fleet (λ a. refl) (λ a h. h) v;
    by_saving = λ saving s. save_keeps Busy (λ t r v. v) saving id s;
  }

  fail-OwnServed :
      (e : Failure) (to : AccountState) (why : Reason) (s : Supervisor)
      → same_state to parked ≡ false
      → OwnServed (fail_start env id e to why s).1
  unfolding fail_start
  fail-OwnServed e to why s h = moved-OwnServed to why (set_one id (set_running false) s) h

  connecting-OwnServed :
      (c : Connecting) (s : Supervisor) → Busy s → OwnServed (after_connecting env id c s).1
  unfolding after_connecting same_state
  connecting-OwnServed up s busy =
      busy-OwnServed (after_connecting env id up s).1 (up_keeps env id Busy Busy-IsKeptUp s busy)
  connecting-OwnServed (down true) s busy =
      fail-OwnServed connect_failed signed_out credentials s refl
  connecting-OwnServed (down false) s busy = fail-OwnServed connect_failed error listen_error s refl

  admitted-OwnServed :
      (s : Supervisor) → OwnServed (bring_up env id (set_one id (set_running true) s)).1
  unfolding bring_up same_state
  admitted-OwnServed s =
      let s' = set_one id (set_running true) s in
      if-both (λ (r : Outcome). OwnServed r.1) env.prepare_fails _ _
        (λ _. fail-OwnServed prepare_failed error listen_error s' refl)
        λ _. connecting-OwnServed env.connecting s' (idle-admitted id s.fleet)

  found-OwnServed :
      (o : Option Supervised) (s : Supervisor)
      → first_where (is_named id) s.fleet ≡ o
      → capped s.max_concurrent (running_count s.fleet) ≡ false
      → OwnServed (start_found env id o s).1
  unfolding start_found idle
  found-OwnServed none s found free = busy-OwnServed s (rw found refl)
  found-OwnServed (some a) s found free =
      if-both (λ (r : Outcome). OwnServed r.1) a.running _ _
        (λ runs. busy-OwnServed s (rw found (rw runs refl))) λ _. rw free (admitted-OwnServed s)

  pub start-OwnServed :
      (s : Supervisor)
      → capped s.max_concurrent (running_count s.fleet) ≡ false
      → OwnServed (start env id s).1
  unfolding start
  start-OwnServed s free = found-OwnServed (first_where (is_named id) s.fleet) s refl free
