-- ===== src/Accounts/Supervisor/Rebalancing.antt =====
-- internal/accounts/lifecycle.go: rebalance, and the operations that end with it. The loop runs on
-- fuel: none is that the fuel ran out.
use agent_gm.Prelude.{
  ℕ, zero, suc, Bool, true, false, not, ◌&&◌, ◌||◌, Option, none, some, String, List, [], ◌∷◌,
  length, str_eq, if◌then◌else◌,
}
use agent_gm.Prelude.Int.{ℤ}
use agent_gm.Prelude.Rows.{first_where}
use agent_gm.Store.Write.{StoreError, Result, ok, err, Fate, write}
use agent_gm.Store.Accounts.{
  signed_out, parked, credentials, Account, Rows, accounts, same_state, set_session_present,
}
use agent_gm.Accounts.Supervisor.{
  Supervised, Supervisor, Failure, store_failed, shred_failed, StartEnv, TransitionEnv, Outcome,
  is_named, running_count, capped, start, stop, transition,
}

-- One round of the loop: the listing of the rows, and what the start of the candidate meets.
pub record Round : Type 0 where
  pub rows_error : Option StoreError
  pub start : StartEnv

abbrev pub is_tried : String → List String → Bool
is_tried id [] = false
is_tried id (x ∷ rest) = str_eq id x || is_tried id rest

abbrev pub not_running : Option Supervised → Bool
not_running none = false
not_running (some a) = not a.running

-- In the fleet, and not running.
unfoldable pub idle : List Supervised → String → Bool
unfolding first_where
idle fleet id = not_running (first_where (is_named id) fleet)

unfoldable pub eligible : List String → List Supervised → Account → Bool
unfolding idle same_state
eligible tried fleet row =
    same_state row.state parked && not (is_tried row.id tried) && idle fleet row.id

unfoldable pub next_parked :
    (String → String → Bool) → List String → List Supervised → Rows → Option Account
unfolding eligible first_where accounts
next_parked le tried fleet rows = first_where (eligible tried fleet) (accounts le rows)

-- What follows the choice of the candidate, with what follows its start.
unfoldable pub start_next :
    StartEnv
    → List String
    → Option Account
    → Supervisor
    → (List String → Supervisor → Option Supervisor)
    → Option Supervisor
unfolding start
start_next env tried none s rest = some s
start_next env tried (some row) s rest = rest (row.id ∷ tried) (start env row.id s).1

unfoldable pub run_round :
    (String → String → Bool)
    → Round
    → List String
    → Option StoreError
    → Supervisor
    → (List String → Supervisor → Option Supervisor)
    → Option Supervisor
unfolding start_next next_parked
run_round le r tried (some e) s rest = some s
run_round le r tried none s rest =
    start_next r.start tried (next_parked le tried s.fleet s.rows) s rest

unfoldable pub rounds :
    (String → String → Bool) → (ℕ → Round) → ℕ → List String → Supervisor → Option Supervisor
unfolding run_round capped running_count
rounds le env zero tried s = none
rounds le env (suc fuel) tried s =
    let rest = rounds le env fuel in
    if capped s.max_concurrent (running_count s.fleet)
    then some s
    else run_round le (env fuel) tried (env fuel).rows_error s rest

abbrev pub done_with : Option Supervisor → Option Supervisor
done_with none = none
done_with (some s) = some (record s { rebalancing = false })

unfoldable pub rebalance : (String → String → Bool) → (ℕ → Round) → Supervisor → Option Supervisor
unfolding rounds
rebalance le env s =
    if s.rebalancing
    then some s
    else done_with (rounds le env (suc (length s.fleet)) [] (record s { rebalancing = true }))

abbrev pub with_answer : Option Failure → Option Supervisor → Option Outcome
with_answer r none = none
with_answer r (some s) = some (r, s)

-- Start
unfoldable pub start_account :
    (String → String → Bool) → StartEnv → (ℕ → Round) → String → Supervisor → Option Outcome
unfolding start rebalance
start_account le env rs id s =
    let started = start env id s in with_answer started.0 (rebalance le rs started.1)

unfoldable pub reconnect :
    (String → String → Bool) → StartEnv → (ℕ → Round) → String → Supervisor → Option Outcome
unfolding start_account stop
reconnect le env rs id s = start_account le env rs id (stop id s)

unfoldable pub set_max_concurrent :
    (String → String → Bool) → (ℕ → Round) → ℤ → Supervisor → Option Supervisor
unfolding rebalance
set_max_concurrent le rs n s = rebalance le rs (record s { max_concurrent = n })

-- Shredding the file, the session's column, and the state.
pub record SignOutEnv : Type 0 where
  pub shred_fails : Bool
  pub now : ℕ
  pub fate : Fate
  pub transition : TransitionEnv

unfoldable pub after_sign_out : (String → String → Bool) → (ℕ → Round) → Outcome → Option Outcome
unfolding rebalance
after_sign_out le rs (some e, s) = some (some e, s)
after_sign_out le rs (none, s) = with_answer none (rebalance le rs s)

unfoldable pub mark_signed_out :
    SignOutEnv → String → Supervisor → Result (Unit {0}) × Rows → Outcome
unfolding transition
mark_signed_out env id s (err e, rows) = (some (store_failed e), record s { rows = rows })
mark_signed_out env id s (ok u, rows) =
    transition env.transition id signed_out credentials (record s { rows = rows })

unfoldable pub sign_out :
    (String → String → Bool) → SignOutEnv → (ℕ → Round) → String → Supervisor → Option Outcome
unfolding after_sign_out mark_signed_out stop write set_session_present
sign_out le env rs id s =
    let s' = stop id s in
    if env.shred_fails
    then some (some shred_failed, s')
    else after_sign_out le rs
        (mark_signed_out env id s' (write env.fate (set_session_present env.now id false) s'.rows))
