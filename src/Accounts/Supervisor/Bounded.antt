-- ===== src/Accounts/Supervisor/Bounded.antt =====
-- internal/accounts/supervisor.go and lifecycle.go: any sequence of the operations ends, and keeps to
-- the slots.
use agent_gm.Prelude.{
  ℕ, suc, ◌≤◌, ◌≡◌, refl, ap, Bool, true, false, Option, none, some, String, List, [], ◌∷◌, length,
  arith, All, if-both,
}
use agent_gm.Prelude.Int.{ℤ}
use agent_gm.Store.Write.{Result, ok, err, write}
use agent_gm.Store.Accounts.{AccountState, Reason, Rows, set_session_present}
use agent_gm.Accounts.Supervisor.{
  Supervisor, StartEnv, TransitionEnv, Outcome, Failure, running_count, register, start, stop,
  transition,
}
use agent_gm.Accounts.Supervisor.Slots.{
  IsLimit, IsWithin, Within, transition-still, start-Within, stop-Within, register-Within,
}
use agent_gm.Accounts.Supervisor.Rebalancing.{
  Round, SignOutEnv, done_with, rounds, rebalance, with_answer, start_account, reconnect,
  set_max_concurrent, sign_out, after_sign_out, mark_signed_out,
}
use agent_gm.Accounts.Supervisor.Filling.{rounds-Ended, left-all}

pub data Call : Type 0 where
  registers : String → Call
  starts : StartEnv → (ℕ → Round) → String → Call
  stops : String → Call
  reconnects : StartEnv → (ℕ → Round) → String → Call
  signs_out : SignOutEnv → (ℕ → Round) → String → Call
  sets_max : (ℕ → Round) → ℤ → Call
  rebalances : (ℕ → Round) → Call
  -- of an event, or of MarkUnresumable
  transitions : TransitionEnv → String → AccountState → Reason → Call

abbrev left_by : Option Outcome → Option Supervisor
left_by none = none
left_by (some (r, s)) = some s

unfoldable pub run_call : (String → String → Bool) → Call → Supervisor → Option Supervisor
unfolding register stop start_account reconnect sign_out set_max_concurrent rebalance transition
run_call le (registers id) s = some (register id s)
run_call le (starts env rs id) s = left_by (start_account le env rs id s)
run_call le (stops id) s = some (stop id s)
run_call le (reconnects env rs id) s = left_by (reconnect le env rs id s)
run_call le (signs_out env rs id) s = left_by (sign_out le env rs id s)
run_call le (sets_max rs n) s = set_max_concurrent le rs n s
run_call le (rebalances rs) s = rebalance le rs s
run_call le (transitions env id to why) s = some (transition env id to why s).1

abbrev and_then : Option Supervisor → (Supervisor → Option Supervisor) → Option Supervisor
and_then none f = none
and_then (some s) f = f s

unfoldable pub run_calls : (String → String → Bool) → List Call → Supervisor → Option Supervisor
unfolding run_call
run_calls le [] s = some s
run_calls le (call ∷ rest) s = and_then (run_call le call s) (run_calls le rest)

-- A limit that is set is one, and at most c.
abbrev pub AllowsAtMost : ℕ → Call → Type 0
AllowsAtMost c (sets_max rs n) = IsLimit c n
AllowsAtMost c _ = Unit {0}

module _ (le : String → String → Bool) (c : ℕ) where
  abbrev Bounded : Option Supervisor → Type 0
  Bounded o = (s' : Supervisor) × (o ≡ some s') × Within c s'

  abbrev BoundedOutcome : Option Outcome → Type 0
  BoundedOutcome o = (r : Outcome) × (o ≡ some r) × Within c r.1

  rounds-Bounded :
      (rs : ℕ → Round) (s : Supervisor)
      → Within c s
      → Bounded (rounds le rs (suc (length s.fleet)) [] s)
  rounds-Bounded rs s v =
      rounds-Ended le rs (λ _ t. Within c t) (Within c)
        (record {
          goes_on = λ n tried t row w _ _. start-Within c (rs n).start row.id t w;
          is_full = λ tried t w _. w;
          is_unread = λ n tried t e w _. w;
          is_served = λ tried t w _. w;
        })
        (suc (length s.fleet)) [] s (let l = left-all s.fleet in omega arith) v

  done_with-Bounded : (o : Option Supervisor) → Bounded o → Bounded (done_with o)
  done_with-Bounded o (s, e, v) = (record s { rebalancing = false }, ap done_with e, v)

  rebalance-Bounded : (rs : ℕ → Round) (s : Supervisor) → Within c s → Bounded (rebalance le rs s)
  unfolding rebalance
  rebalance-Bounded rs s v =
      if-both Bounded s.rebalancing _ _ (λ _. (s, refl, v))
        λ _. done_with-Bounded _ (rounds-Bounded rs (record s { rebalancing = true }) v)

  with_answer-Bounded :
      (r : Option Failure) (o : Option Supervisor) → Bounded o → BoundedOutcome (with_answer r o)
  with_answer-Bounded r o (s, e, v) = ((r, s), ap (with_answer r) e, v)

  left_by-Bounded : (o : Option Outcome) → BoundedOutcome o → Bounded (left_by o)
  left_by-Bounded o (r, e, v) = (r.1, ap left_by e, v)

  start_account-Bounded :
      (env : StartEnv) (rs : ℕ → Round) (id : String) (s : Supervisor)
      → Within c s
      → BoundedOutcome (start_account le env rs id s)
  unfolding start_account
  start_account-Bounded env rs id s v =
      with_answer-Bounded _ _ (rebalance-Bounded rs (start env id s).1 (start-Within c env id s v))

  after_sign_out-Bounded :
      (rs : ℕ → Round) (r : Outcome) → Within c r.1 → BoundedOutcome (after_sign_out le rs r)
  unfolding after_sign_out
  after_sign_out-Bounded rs (some e, s) v = ((some e, s), refl, v)
  after_sign_out-Bounded rs (none, s) v = with_answer-Bounded none _ (rebalance-Bounded rs s v)

  mark-Within :
      (env : SignOutEnv) (id : String) (s : Supervisor) (r : Result (Unit {0}) × Rows)
      → Within c s
      → Within c (mark_signed_out env id s r).1
  unfolding mark_signed_out
  mark-Within env id s (err e, rows) v = v
  mark-Within env id s (ok u, rows) v =
      transition-still (IsWithin c) env.transition id _ _ (record s { rows = rows }) v

  sign_out-Bounded :
      (env : SignOutEnv) (rs : ℕ → Round) (id : String) (s : Supervisor)
      → Within c s
      → BoundedOutcome (sign_out le env rs id s)
  unfolding sign_out
  sign_out-Bounded env rs id s v =
      let w = stop-Within c id s v in
      if-both BoundedOutcome env.shred_fails _ _ (λ _. (_, refl, w))
        λ _.
          let marks = write env.fate (set_session_present env.now id false) (stop id s).rows in
          after_sign_out-Bounded rs (mark_signed_out env id (stop id s) marks)
            (mark-Within env id (stop id s) marks w)

  run_call-Bounded :
      (call : Call) (s : Supervisor)
      → AllowsAtMost c call
      → Within c s
      → Bounded (run_call le call s)
  unfolding run_call reconnect set_max_concurrent
  run_call-Bounded (registers id) s a v = (register id s, refl, register-Within c id s v)
  run_call-Bounded (starts env rs id) s a v =
      left_by-Bounded _ (start_account-Bounded env rs id s v)
  run_call-Bounded (stops id) s a v = (stop id s, refl, stop-Within c id s v)
  run_call-Bounded (reconnects env rs id) s a v =
      left_by-Bounded _ (start_account-Bounded env rs id (stop id s) (stop-Within c id s v))
  run_call-Bounded (signs_out env rs id) s a v = left_by-Bounded _ (sign_out-Bounded env rs id s v)
  run_call-Bounded (sets_max rs n) s a v =
      rebalance-Bounded rs (record s { max_concurrent = n })
        (record { distinct = v.distinct; bound = v.bound; limited = a })
  run_call-Bounded (rebalances rs) s a v = rebalance-Bounded rs s v
  run_call-Bounded (transitions env id to why) s a v =
      ((transition env id to why s).1, refl, transition-still (IsWithin c) env id to why s v)

  run_calls-Bounded :
      (calls : List Call) (s : Supervisor)
      → All (AllowsAtMost c) calls
      → Within c s
      → Bounded (run_calls le calls s)
  unfolding run_calls
  run_calls-Bounded [] s a v = (s, refl, v)
  run_calls-Bounded (call ∷ rest) s a v =
      let (t, e, w) = run_call-Bounded call s a.0 v in rw e (run_calls-Bounded rest t a.1 w)

-- Every sequence of the supervisor's operations runs to its end, and never are more accounts running
-- than the largest of the limits, whatever the backends and the store answer: from a fleet that
-- holds each account once and has no more than c running, under a limit and later limits that are
-- positive and at most c.
pub run_calls-Within :
    (le : String → String → Bool) (c : ℕ) (calls : List Call) (s : Supervisor)
    → All (AllowsAtMost c) calls
    → Within c s
    → (s' : Supervisor) × (run_calls le calls s ≡ some s') × (running_count s'.fleet ≤ c)
run_calls-Within le c calls s a v =
    let (s', e, w) = run_calls-Bounded le c calls s a v in (s', e, w.bound)
