-- ===== src/Accounts/Supervisor/Stages.antt =====
-- internal/accounts/supervisor.go: what every part of a start keeps, the whole start keeps.
use agent_gm.Prelude.{◌≡◌, true, false, Option, none, some, String, if-both}
use agent_gm.Prelude.Rows.{first_where}
use agent_gm.Store.Write.{Result, ok, err}
use agent_gm.Store.Accounts.{
  AccountState, connected, error, signed_out, parked, Reason, no_reason, capacity, listen_error,
  credentials, Rows,
}
use agent_gm.Accounts.Supervisor.{
  Supervised, Supervisor, prepare_failed, connect_failed, Failure, StartEnv, Saving, cannot_persist,
  save_fails, saves, Outcome, Connecting, up, down, is_named, running_count, capped, transition,
  set_one, set_running, set_client, set_looping, persist_session, saved, fail_start,
  list_and_settle, after_saving, after_connecting, bring_up, start_found, start,
}

-- What a predicate has to withstand once the account `id` connects, and in a start of it.
pub record IsKeptUp (env : StartEnv) (id : String) (P : Supervisor → Type 0) : Type 0 where
  pub by_transition :
      (to : AccountState) (why : Reason) (s : Supervisor)
      → P s
      → P (transition env.transition id to why s).1
  pub by_client : (s : Supervisor) → P s → P (set_one id (set_client true) s)
  pub by_loop : (s : Supervisor) → P s → P (set_one id (set_looping true) s)
  pub by_saving : (saving : Saving) (s : Supervisor) → P s → P (persist_session saving id s).1

pub record IsKept (env : StartEnv) (id : String) (P : Supervisor → Type 0) : Type 0 where
  pub once_up : IsKeptUp env id P
  pub by_admission :
      (s : Supervisor)
      → capped s.max_concurrent (running_count s.fleet) ≡ false
      → P s
      → P (set_one id (set_running true) s)
  pub by_failure : (s : Supervisor) → P s → P (set_one id (set_running false) s)

module _ (env : StartEnv) (id : String) (P : Supervisor → Type 0) where
  abbrev Holds : Outcome → Type 0
  Holds r = P r.1

  module _ (k : IsKeptUp env id P) where
    settle_keeps : (s : Supervisor) → P s → Holds (list_and_settle env id s)
    unfolding list_and_settle
    settle_keeps s v =
        if-both Holds env.list_fails _ _ (λ _. v) λ _. k.by_transition connected no_reason s v

    saving_keeps : (r : Outcome) → Holds r → Holds (after_saving env id r)
    unfolding after_saving
    saving_keeps (some e, s) v = v
    saving_keeps (none, s) v =
        settle_keeps _ (if-both P s.manual_ingest _ _ (λ _. v) λ _. k.by_loop s v)

    pub up_keeps : (s : Supervisor) → P s → Holds (after_connecting env id up s)
    unfolding after_connecting
    up_keeps s v =
        saving_keeps _ (k.by_saving env.saving (set_one id (set_client true) s) (k.by_client s v))

  module _ (k : IsKept env id P) where
    fail_keeps :
        (e : Failure) (to : AccountState) (why : Reason) (s : Supervisor)
        → P s
        → Holds (fail_start env id e to why s)
    unfolding fail_start
    fail_keeps e to why s v =
        k.once_up.by_transition to why (set_one id (set_running false) s) (k.by_failure s v)

    connecting_keeps : (c : Connecting) (s : Supervisor) → P s → Holds (after_connecting env id c s)
    unfolding after_connecting
    connecting_keeps up s v = up_keeps k.once_up s v
    connecting_keeps (down true) s v = fail_keeps connect_failed signed_out credentials s v
    connecting_keeps (down false) s v = fail_keeps connect_failed error listen_error s v

    bring_up_keeps : (s : Supervisor) → P s → Holds (bring_up env id s)
    unfolding bring_up
    bring_up_keeps s v =
        if-both Holds env.prepare_fails _ _ (λ _. fail_keeps prepare_failed error listen_error s v)
          λ _. connecting_keeps env.connecting s v

    found_keeps : (o : Option Supervised) (s : Supervisor) → P s → Holds (start_found env id o s)
    unfolding start_found
    found_keeps none s v = v
    found_keeps (some a) s v =
        if-both Holds a.running _ _ (λ _. v)
          λ _.
            if-both Holds (capped s.max_concurrent (running_count s.fleet)) _ _
              (λ _. k.once_up.by_transition parked capacity s v)
              λ free. bring_up_keeps (set_one id (set_running true) s) (k.by_admission s free v)

    pub start_keeps : (s : Supervisor) → P s → Holds (start env id s)
    unfolding start
    start_keeps s v = found_keeps (first_where (is_named id) s.fleet) s v

-- A transition and a session that is saved change the rows only, and the fleet not at all.
module _ (P : Supervisor → Type 0)
    (rows : (s : Supervisor) (r : Rows) → P s → P (record s { rows = r })) where
  pub save_keeps :
      (saving : Saving) (id : String) (s : Supervisor) → P s → P (persist_session saving id s).1
  unfolding persist_session
  save_keeps cannot_persist id s v = v
  save_keeps save_fails id s v = v
  save_keeps (saves now fate) id s v = saved_keeps _
    where
      saved_keeps : (r : Result (Unit {0}) × Rows) → P (saved s r).1
      saved_keeps (ok u, r) = rows s r v
      saved_keeps (err e, r) = rows s r v
