-- ===== src/Accounts/Supervisor.antt =====
-- internal/accounts/supervisor.go: the supervised accounts, and how one is started and stopped. The
-- backend of an account answers as the environment says. The sweep, the backfill and the cached
-- health are other components: what they do here is started by a call whose failure is only logged.
pub mod Rebalancing
pub mod Stages
pub mod Slots
pub mod Filling
pub mod Bounded
pub mod Moves
pub mod Own
pub mod Others
pub mod Served
pub mod Announced
pub mod Events
pub mod HalfUp
use agent_gm.Prelude.{
  ℕ, zero, suc, Bool, true, false, not, ◌&&◌, Option, none, some, String, List, [], ◌∷◌, ◌++◌, leb,
  str_eq, if◌then◌else◌,
}
use agent_gm.Prelude.Int.{ℤ, pos, negsuc}
use agent_gm.Prelude.Rows.{first_where, update_where, count_where}
use agent_gm.Store.Write.{StoreError, Result, ok, err, Fate, write}
use agent_gm.Store.Accounts.{
  AccountState, connected, error, signed_out, parked, Reason, no_reason, capacity, listen_error,
  credentials, Account, Rows, account, set_account_state, set_session_present, same_state,
}
use agent_gm.Accounts.State.{StateChange, same_reason}
use agent_gm.Accounts.Feed.{Feed, publish}

-- Account of the package accounts: `looping` is that its goroutine drains events.
pub record Supervised : Type 0 where
  pub id : String
  pub running : Bool
  pub looping : Bool
  pub has_client : Bool

-- `announced` is the calls of announce, in order.
pub record Supervisor : Type 0 where
  pub max_concurrent : ℤ
  pub manual_ingest : Bool
  pub rebalancing : Bool
  pub fleet : List Supervised
  pub rows : Rows
  pub feed : Feed
  pub announced : List StateChange

pub data Failure : Type 0 where
  prepare_failed connect_failed save_failed list_failed shred_failed : Failure
  store_failed : StoreError → Failure

pub record TransitionEnv : Type 0 where
  pub read_error : Option StoreError
  pub now : ℕ
  pub fate : Fate
  pub at : ℕ

pub data Connecting : Type 0 where
  up : Connecting
  -- with SignsOutAccount of the error
  down : Bool → Connecting

pub data Saving : Type 0 where
  -- the backend is no SessionPersister
  cannot_persist : Saving
  save_fails : Saving
  saves : ℕ → Fate → Saving

pub record StartEnv : Type 0 where
  pub prepare_fails : Bool
  pub connecting : Connecting
  pub saving : Saving
  pub list_fails : Bool
  pub transition : TransitionEnv

abbrev pub Outcome : Type 0
Outcome = Option Failure × Supervisor

abbrev pub is_named : String → Supervised → Bool
is_named id a = str_eq a.id id

abbrev pub is_running : Supervised → Bool
is_running a = a.running

unfoldable pub running_count : List Supervised → ℕ
unfolding count_where
running_count fleet = count_where is_running fleet

-- MaxConcurrent > 0 && running >= MaxConcurrent
unfoldable pub capped : ℤ → ℕ → Bool
capped (pos zero) n = false
capped (pos (suc m)) n = leb (suc m) n
capped (negsuc m) n = false

unfoldable pub announce :
    ℕ → String → Option AccountState → AccountState → Reason → Supervisor → Supervisor
unfolding publish
announce at id from to why s =
    let ev : StateChange = record {
      account_id = id;
      from = from;
      to = to;
      reason = why;
      at = at;
    } in
    record s { feed = publish ev s.feed; announced = s.announced ++ ev ∷ [] }

-- The state and the why that the row had, if it could be read.
unfoldable pub previous_of : Result Account → Option AccountState × Reason
previous_of (ok a) = (some a.state, a.state_reason)
previous_of (err e) = (none, no_reason)

abbrev read_if : Option StoreError → Result Account → Result Account
read_if none r = r
read_if (some e) r = err e

unfoldable pub same_as : Option AccountState × Reason → AccountState → Reason → Bool
unfolding same_state same_reason
same_as (none, r) to why = false
same_as (some st, r) to why = same_state st to && same_reason r why

unfoldable pub transitioned :
    TransitionEnv
    → String
    → AccountState
    → Reason
    → Option AccountState × Reason
    → Supervisor
    → Result (Unit {0}) × Rows
    → Outcome
unfolding announce same_as
transitioned env id to why from s (err e, rows) = (some (store_failed e), record s { rows = rows })
transitioned env id to why from s (ok u, rows) = (
  none,
  if same_as from to why
      then record s { rows = rows }
      else announce env.at id from.0 to why (record s { rows = rows }),
)

unfoldable pub transition : TransitionEnv → String → AccountState → Reason → Supervisor → Outcome
unfolding transitioned previous_of account write set_account_state
transition env id to why s =
    transitioned env id to why (previous_of (read_if env.read_error (account id s.rows))) s
      (write env.fate (set_account_state env.now id to why) s.rows)

abbrev pub set_one : String → (Supervised → Supervised) → Supervisor → Supervisor
set_one id f s = record s { fleet = update_where (is_named id) f s.fleet }

abbrev pub set_running : Bool → Supervised → Supervised
set_running b a = record a { running = b }

abbrev pub set_client : Bool → Supervised → Supervised
set_client b a = record a { has_client = b }

abbrev pub set_looping : Bool → Supervised → Supervised
set_looping b a = record a { looping = b }

abbrev pub new_one : String → Supervised
new_one id = record { id = id; running = false; looping = false; has_client = false }

unfoldable pub registered : String → Option Supervised → Supervisor → Supervisor
registered id (some a) s = s
registered id none s = record s { fleet = s.fleet ++ new_one id ∷ [] }

-- register: a backend that is adopted or paired
unfoldable pub register : String → Supervisor → Supervisor
unfolding first_where registered
register id s = registered id (first_where (is_named id) s.fleet) s

abbrev saved : Supervisor → Result (Unit {0}) × Rows → Outcome
saved s (ok u, rows) = (none, record s { rows = rows })
saved s (err e, rows) = (some (store_failed e), record s { rows = rows })

unfoldable pub persist_session : Saving → String → Supervisor → Outcome
unfolding write set_session_present
persist_session cannot_persist id s = (none, s)
persist_session save_fails id s = (some save_failed, s)
persist_session (saves now fate) id s =
    saved s (write fate (set_session_present now id true) s.rows)

-- A start that is given up: what the transition returns is dropped.
abbrev pub give_up : Failure → Outcome → Outcome
give_up e (r, s) = (some e, s)

unfoldable pub fail_start :
    StartEnv → String → Failure → AccountState → Reason → Supervisor → Outcome
unfolding update_where transition
fail_start env id e state why s =
    give_up e (transition env.transition id state why (set_one id (set_running false) s))

unfoldable pub list_and_settle : StartEnv → String → Supervisor → Outcome
unfolding transition
list_and_settle env id s =
    if env.list_fails
    then (some list_failed, s)
    else transition env.transition id connected no_reason s

-- What follows PersistSession: the goroutine, the first ListConversations and the state.
unfoldable pub after_saving : StartEnv → String → Outcome → Outcome
unfolding list_and_settle update_where
after_saving env id (some e, s) = (some e, s)
after_saving env id (none, s) =
    list_and_settle env id (if s.manual_ingest then s else set_one id (set_looping true) s)

unfoldable pub after_connecting : StartEnv → String → Connecting → Supervisor → Outcome
unfolding fail_start after_saving persist_session update_where
after_connecting env id up s =
    after_saving env id (persist_session env.saving id (set_one id (set_client true) s))
after_connecting env id (down true) s = fail_start env id connect_failed signed_out credentials s
after_connecting env id (down false) s = fail_start env id connect_failed error listen_error s

unfoldable pub bring_up : StartEnv → String → Supervisor → Outcome
unfolding fail_start after_connecting
bring_up env id s =
    if env.prepare_fails
    then fail_start env id prepare_failed error listen_error s
    else after_connecting env id env.connecting s

unfoldable pub start_found : StartEnv → String → Option Supervised → Supervisor → Outcome
unfolding capped running_count transition bring_up update_where
start_found env id none s = (none, s)
start_found env id (some a) s =
    if a.running
    then (none, s)
    else if capped s.max_concurrent (running_count s.fleet)
    then transition env.transition id parked capacity s
    else bring_up env id (set_one id (set_running true) s)

-- Every account that is started is in the fleet.
unfoldable pub start : StartEnv → String → Supervisor → Outcome
unfolding start_found first_where
start env id s = start_found env id (first_where (is_named id) s.fleet) s

abbrev pub stopped : Supervised → Supervised
stopped a = record a { running = false; looping = false; has_client = false }

unfoldable pub stop : String → Supervisor → Supervisor
unfolding update_where
stop id s = record s { fleet = update_where (λ a. is_named id a && a.running) stopped s.fleet }
