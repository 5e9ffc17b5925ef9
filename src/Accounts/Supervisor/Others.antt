-- ===== src/Accounts/Supervisor/Others.antt =====
-- internal/accounts/supervisor.go: a start keeps the rows of the accounts tried before it served.
use agent_gm.Prelude.{
  ℕ, ◌≡◌, refl, sym, ◌∙◌, true, false, String, List, arith, str_eq, All, All-both,
}
use agent_gm.Prelude.Rows.{update_where, All-update_where}
use agent_gm.Store.Write.{Result, ok, err, Fate, write, write-keeps}
use agent_gm.Store.Accounts.{
  AccountState, Reason, Account, Rows, has_account_id, set_account_state, set_session_present,
}
use agent_gm.Accounts.Supervisor.{
  Supervised, Supervisor, StartEnv, is_named, set_one, set_running, set_client, set_looping,
  transition, start, Saving, cannot_persist, save_fails, saves, saved, persist_session,
}
use agent_gm.Accounts.Supervisor.Stages.{start_keeps}
use agent_gm.Accounts.Supervisor.Rebalancing.{is_tried, idle}
use agent_gm.Accounts.Supervisor.Moves.{
  IsServed, transition-fleet, transition-rows, true-false, idle-other,
}

-- The rows of the accounts tried before stay served.
module _ (env : StartEnv) (id : String) (tried : List String) where
  abbrev pub IsOther : List Supervised → Account → Type 0
  IsOther fleet row = str_eq row.id id ≡ false → is_tried row.id tried ≡ true → IsServed fleet row

  abbrev pub OthersServed : Supervisor → Type 0
  OthersServed s = All (IsOther s.fleet) s.rows

  same_idle :
      (fleet fleet' : List Supervised) (rows : Rows)
      → ((other : String) → str_eq other id ≡ false → idle fleet' other ≡ idle fleet other)
      → All (IsOther fleet) rows
      → All (IsOther fleet') rows
  same_idle fleet fleet' rows same v =
      All-both (IsOther fleet) (IsOther fleet) (IsOther fleet') rows
        (λ row p _ differ t. rw (same row.id differ) (p differ t)) v v

  set-OthersServed :
      (f : Supervised → Supervised) (s : Supervisor)
      → ((a : Supervised) → (f a).id ≡ a.id)
      → OthersServed s
      → OthersServed (set_one id f s)
  set-OthersServed f s same v =
      same_idle s.fleet (update_where (is_named id) f s.fleet) s.rows
        (λ other differ. idle-other id f s.fleet other same differ) v

  -- A write to the account's own rows.
  own_write :
      (fleet : List Supervised) (f : Account → Account) (rows : Rows)
      → ((a : Account) → (f a).id ≡ a.id)
      → All (IsOther fleet) rows
      → All (IsOther fleet) (update_where (has_account_id id) f rows)
  own_write fleet f rows same v =
      All-update_where (IsOther fleet) (has_account_id id) f rows
        (λ row _ named differ. absurd (true-false (sym named ∙ rw (same row) at differ))) v

  state-kept :
      (fleet : List Supervised) (fate : Fate) (now : ℕ) (to : AccountState) (why : Reason)
      (rows : Rows)
      → All (IsOther fleet) rows
      → All (IsOther fleet) (write fate (set_account_state now id to why) rows).1
  unfolding set_account_state
  state-kept fleet fate now to why rows v =
      write-keeps (λ r. All (IsOther fleet) r) fate (set_account_state now id to why) rows v
        (λ u r e.
          let f : Account → Account =
            λ a. record a { state = to; state_reason = why; updated_at_ms = now } in
          let made : r ≡ update_where (has_account_id id) f rows = ground arith in
          rw made (own_write fleet f rows (λ a. refl) v))

  transition-OthersServed :
      (to : AccountState) (why : Reason) (s : Supervisor)
      → OthersServed s
      → OthersServed (transition env.transition id to why s).1
  transition-OthersServed to why s v =
      rw (transition-fleet env.transition id to why s, transition-rows env.transition id to why s)
        (state-kept s.fleet env.transition.fate env.transition.now to why s.rows v)

  saving-OthersServed :
      (saving : Saving) (s : Supervisor)
      → OthersServed s
      → OthersServed (persist_session saving id s).1
  unfolding persist_session set_session_present
  saving-OthersServed cannot_persist s v = v
  saving-OthersServed save_fails s v = v
  saving-OthersServed (saves now fate) s v = saved-kept _ (
      write-keeps (λ r. All (IsOther s.fleet) r) fate (set_session_present now id true) s.rows v
        (λ u r e.
          let f : Account → Account =
            λ a. record a { session_present = true; updated_at_ms = now } in
          let made : r ≡ update_where (has_account_id id) f s.rows = ground arith in
          rw made (own_write s.fleet f s.rows (λ a. refl) v)))
    where
      saved-kept :
          (r : Result (Unit {0}) × Rows) → All (IsOther s.fleet) r.1 → OthersServed (saved s r).1
      saved-kept (ok u, rows) k = k
      saved-kept (err e, rows) k = k

  pub start-OthersServed : (s : Supervisor) → OthersServed s → OthersServed (start env id s).1
  start-OthersServed s v =
      start_keeps env id OthersServed
        (record {
          once_up = record {
            by_transition = transition-OthersServed;
            by_client = λ t. set-OthersServed (set_client true) t (λ a. refl);
            by_loop = λ t. set-OthersServed (set_looping true) t (λ a. refl);
            by_saving = saving-OthersServed;
          };
          by_admission = λ t free. set-OthersServed (set_running true) t (λ a. refl);
          by_failure = λ t. set-OthersServed (set_running false) t (λ a. refl);
        })
        s v
