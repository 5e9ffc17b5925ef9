-- ===== src/Accounts/Tests.antt =====
-- internal/accounts: two accounts and one slot.
use agent_gm.Prelude.{
  ℕ, ◌≤◌, ◌≡◌, ◌⊎◌, refl, Bool, true, false, none, some, String, List, [], ◌∷◌, ◌++◌, arith, str_eq,
  eq_iff, subst, Bool-cases, inl, inr,
}
use agent_gm.Prelude.Int.{pos}
use agent_gm.Prelude.Rows.{first_where, count_where}
use agent_gm.Store.Write.{commits}
use agent_gm.Store.Accounts.{
  pairing, SweepEnv, sweep_abandoned_pairings, Account, parked, connected, capacity, no_reason,
}
use agent_gm.Accounts.State.{StateChange}
use agent_gm.Accounts.Feed.{Feed, Subscription, subscribe, has_sub_id}
use agent_gm.Accounts.Feed.Delivering.{
  Happening, publishes, receives, joins, leaves, IsServed, followed_in, reading_after,
  subscribe-IsServed,
}
use agent_gm.Store.Accounts.Sweeping.{settled_rows, sweep-settled_rows}
use agent_gm.Accounts.Supervisor.{
  Supervised, Supervisor, StartEnv, up, save_fails, cannot_persist, TransitionEnv, is_named,
  running_count, capped, start, stop, save_failed,
}
use agent_gm.Accounts.Supervisor.Slots.{Within}
use agent_gm.Accounts.Supervisor.Rebalancing.{Round, rebalance}
use agent_gm.Accounts.Supervisor.Bounded.{
  Call, starts, stops, rebalances, run_calls, run_calls-Within,
}
use agent_gm.Accounts.Supervisor.Served.{IsFull, AllServed, rebalance-AllServed}
use agent_gm.Accounts.Supervisor.Events.{
  ApplyEnv, listen_temporary_error, apply, IsOwnChange, apply-IsOwnChange,
}
use agent_gm.Accounts.Supervisor.HalfUp.{start-half_up}

abbrev row_of : String → ℕ → Account
row_of id at = record {
  id = id;
  google_account = id;
  label = none;
  state = parked;
  state_reason = capacity;
  phone_id = none;
  gaia_dest_reg_uuid = none;
  gaia_device_last_seen_ms = none;
  session_present = true;
  paired_at_ms = some 10;
  last_event_at_ms = some at;
  last_sweep_at_ms = none;
  backfill_complete_at_ms = none;
  created_at_ms = 10;
  updated_at_ms = at;
}

abbrev resting_one : String → Supervised
resting_one id = record { id = id; running = false; looping = false; has_client = false }

abbrev two : Supervisor
two = record {
  max_concurrent = pos 1;
  manual_ingest = false;
  rebalancing = false;
  fleet = resting_one "acct_a" ∷ resting_one "acct_b" ∷ [];
  rows = row_of "acct_a" 100 ∷ row_of "acct_b" 200 ∷ [];
  feed = record { next = 0; subs = [] };
  announced = [];
}

abbrev moving : TransitionEnv
moving = record { read_error = none; now = 300; fate = commits; at = 300 }

abbrev good : StartEnv
good = record {
  prepare_fails = false;
  connecting = up;
  saving = cannot_persist;
  list_fails = false;
  transition = moving;
}

abbrev good_rounds : ℕ → Round
good_rounds n = record { rows_error = none; start = good }

abbrev first_id : String → String → Bool
first_id a b = true

abbrev calls : List Call
calls = starts good good_rounds "acct_a" ∷ stops "acct_a" ∷ rebalances good_rounds ∷ []

distinct_two : (id : String) → count_where (is_named id) two.fleet ≤ 1
unfolding count_where
distinct_two id = elim (Bool-cases (str_eq "acct_a" id)) [
  | inl same ↦
      subst (λ i. count_where (is_named i) two.fleet ≤ 1) ((eq_iff "acct_a" id).0 same)
        (omega arith)
  | inr other ↦ rw other (ground arith)
]

two-Within : Within 1 two
unfolding running_count
two-Within = record { distinct = distinct_two; bound = omega arith; limited = omega arith }

run_calls-Within_example :
    (s' : Supervisor) × (run_calls first_id calls two ≡ some s') × (running_count s'.fleet ≤ 1)
run_calls-Within_example = run_calls-Within first_id 1 calls two (tt, (tt, (tt, tt))) two-Within

rebalance-AllServed_example :
    (s' : Supervisor) × (rebalance first_id good_rounds two ≡ some s') × (IsFull s' ⊎ AllServed s')
rebalance-AllServed_example =
    rebalance-AllServed first_id good_rounds two refl (λ n. refl) (λ n. refl)

abbrev applying : ApplyEnv
applying = record {
  transition = moving;
  saving = cannot_persist;
  touch_at = 300;
  touch_fate = commits;
}

apply-IsOwnChange_example :
    IsOwnChange moving "acct_a" two (apply applying "acct_a" listen_temporary_error two)
apply-IsOwnChange_example = apply-IsOwnChange applying "acct_a" listen_temporary_error two

abbrev no_disk : StartEnv
no_disk = record good { saving = save_fails }

start-half_up_example :
    (a' : Supervised) × ((start no_disk "acct_a" two).0 ≡ some save_failed)
    × (first_where (is_named "acct_a") (start no_disk "acct_a" two).1.fleet ≡ some a')
    × (a'.running ≡ true)
    × (a'.has_client ≡ true)
    × (a'.looping ≡ false)
    × ((start no_disk "acct_a" two).1.rows ≡ two.rows)
    × ((start no_disk "acct_a" two).1.announced ≡ two.announced)
    × (start good "acct_a" (start no_disk "acct_a" two).1 ≡ (none, (start no_disk "acct_a" two).1))
    × ((down : Supervised) × (first_where
            (is_named "acct_a")
            (stop "acct_a" (start no_disk "acct_a" two).1).fleet
          ≡ some down)
        × (down.running ≡ false)
        × (down.has_client ≡ false))
unfolding first_where capped running_count
start-half_up_example =
    start-half_up no_disk good "acct_a" two (resting_one "acct_a") refl refl refl refl refl refl
      refl

abbrev change_1 : StateChange
change_1 = record {
  account_id = "acct_a";
  from = none;
  to = connected;
  reason = no_reason;
  at = 300;
}

-- A feed that another reader, of all accounts, follows already.
abbrev followed_feed : Feed
followed_feed = (subscribe "" (record { next = 0; subs = [] })).1

abbrev happened : List Happening
happened = publishes change_1 ∷ receives ∷ joins "acct_b" ∷ leaves 1 ∷ publishes change_1 ∷ []

subscribe-IsServed_example :
    let w = reading_after "acct_a" followed_feed happened in
    (sub : Subscription) × (first_where (has_sub_id 2) w.feed.subs ≡ some sub)
    × IsServed "acct_a"
        (followed_in "acct_a" happened)
        (record { sub = sub; received = w.received })
    × (sub.dropped ≡ 0 → w.received ++ sub.queue ≡ followed_in "acct_a" happened)
unfolding subscribe
subscribe-IsServed_example =
    subscribe-IsServed "acct_a" followed_feed happened (omega arith, tt)
      (tt, (tt, (tt, (refl, (tt, tt)))))

abbrev sweeping : SweepEnv
sweeping = record {
  now = 1000;
  list_error = none;
  read_error = λ id. none;
  delete_fate = λ id. commits;
}

abbrev half_paired : Account
half_paired = record (row_of "acct_c" 50) { state = pairing; paired_at_ms = none }

sweep-settled_rows_example :
    settled_rows (sweep_abandoned_pairings sweeping [] 300 (half_paired ∷ two.rows)).1
    ≡ settled_rows (half_paired ∷ two.rows)
sweep-settled_rows_example = sweep-settled_rows sweeping [] 300 (half_paired ∷ two.rows)
