-- ===== src/Accounts/Supervisor/Served.antt =====
-- internal/accounts/lifecycle.go: what rebalance leaves waiting.
use agent_gm.Prelude.{
  ℕ, suc, ◌≡◌, sym, ap, ◌∙◌, Bool, true, false, none, some, String, List, [], ◌∷◌, ◌⊎◌, length,
  arith, str_eq, Bool-cases, inl, inr, All, All-each, All-both,
}
use agent_gm.Prelude.Rows.{first_where}
use agent_gm.Store.Write.{StoreError, commits}
use agent_gm.Store.Accounts.{Account, Rows, accounts, insert_ordered, comes_before, has_account_id}
use agent_gm.Accounts.Supervisor.{Supervised, Supervisor, StartEnv, running_count, capped, start}
use agent_gm.Accounts.Supervisor.Rebalancing.{
  Round, is_tried, eligible, next_parked, done_with, rebalance,
}
use agent_gm.Accounts.Supervisor.Filling.{rounds-Ended, left-all}
use agent_gm.Accounts.Supervisor.Moves.{IsServed}
use agent_gm.Accounts.Supervisor.Own.{start-OwnServed}
use agent_gm.Accounts.Supervisor.Others.{IsOther, start-OthersServed}

-- What the loop keeps: the accounts that it tried are served.
abbrev TriedServed : List String → Supervisor → Type 0
TriedServed tried s = All (λ row. is_tried row.id tried ≡ true → IsServed s.fleet row) s.rows

start-TriedServed :
    (env : StartEnv) (id : String) (tried : List String) (s : Supervisor)
    → env.transition.fate ≡ commits
    → capped s.max_concurrent (running_count s.fleet) ≡ false
    → TriedServed tried s
    → TriedServed (id ∷ tried) (start env id s).1
start-TriedServed env id tried s c free v =
    let s' = (start env id s).1 in
    All-both (λ row. has_account_id id row ≡ true → IsServed s'.fleet row)
      (IsOther env id tried s'.fleet)
      (λ row. is_tried row.id (id ∷ tried) ≡ true → IsServed s'.fleet row) s'.rows
      (λ row own others t. elim (Bool-cases (str_eq row.id id)) [
        | inl same ↦ own same
        | inr differ ↦ others differ (rw differ at t)
      ])
      (start-OwnServed env id c s free)
      (start-OthersServed env id tried s (
        All-both (λ row. is_tried row.id tried ≡ true → IsServed s.fleet row)
          (λ row. is_tried row.id tried ≡ true → IsServed s.fleet row)
          (IsOther env id tried s.fleet) s.rows (λ row p _ differ t. p t) v v))

-- The order of the rows, and what holds of each.
insert-All :
    (le : String → String → Bool) (P : Account → Type 0) (a : Account) (rows : Rows)
    → All P (insert_ordered le a rows)
    → P a × All P rows
unfolding insert_ordered
insert-All le P a [] h = (h.0, tt)
insert-All le P a (b ∷ rest) h = elim (Bool-cases (comes_before le a b)) [
  | inl first ↦ let k : All P (a ∷ b ∷ rest) = rw first at h in (k.0, k.1)
  | inr later ↦
      let k : All P (b ∷ insert_ordered le a rest) = rw later at h in
      let (x, xs) = insert-All le P a rest k.1 in (x, (k.0, xs))
]

accounts-All :
    (le : String → String → Bool) (P : Account → Type 0) (rows : Rows)
    → All P (accounts le rows)
    → All P rows
unfolding accounts
accounts-All le P [] h = tt
accounts-All le P (a ∷ rest) h =
    let (x, xs) = insert-All le P a (accounts le rest) h in (x, accounts-All le P rest xs)

none-All :
    (p : Account → Bool) (rows : Rows) → first_where p rows ≡ none → All (λ row. p row ≡ false) rows
unfolding first_where
none-All p [] h = tt
none-All p (a ∷ rest) h = elim (Bool-cases (p a)) [
  | inl here ↦ absurd (some_none a (rw here at h))
  | inr away ↦ (away, none-All p rest (rw away at h))
]
  where
    some_none : (a : Account) → some a ≡ none → ⊥
    some_none a h = cc

IsServed-here :
    (tried : List String) (fleet : List Supervised) (row : Account)
    → eligible tried fleet row ≡ false
    → (is_tried row.id tried ≡ true → IsServed fleet row)
    → IsServed fleet row
unfolding eligible
IsServed-here tried fleet row h k = ground (arith, k)

-- No slot is free, or no idle account is parked.
abbrev pub IsFull : Supervisor → Type 0
IsFull s = capped s.max_concurrent (running_count s.fleet) ≡ true

abbrev pub AllServed : Supervisor → Type 0
AllServed s = All (IsServed s.fleet) s.rows

end-AllServed :
    (le : String → String → Bool) (tried : List String) (s : Supervisor)
    → TriedServed tried s
    → next_parked le tried s.fleet s.rows ≡ none
    → AllServed s
unfolding next_parked
end-AllServed le tried s v h =
    All-both (λ row. eligible tried s.fleet row ≡ false)
      (λ row. is_tried row.id tried ≡ true → IsServed s.fleet row) (IsServed s.fleet) s.rows
      (λ row p q. IsServed-here tried s.fleet row p q)
      (accounts-All le (λ row. eligible tried s.fleet row ≡ false) s.rows
        (none-All (eligible tried s.fleet) (accounts le s.rows) h))
      v

-- A rebalance that is not inside another ends, and leaves no slot free or no account waiting: every
-- row that is parked is of an account that is running or that has no client to run. The store
-- lists the accounts and commits each transition; a start may fail in any other way.
pub rebalance-AllServed :
    (le : String → String → Bool) (rs : ℕ → Round) (s : Supervisor)
    → s.rebalancing ≡ false
    → ((n : ℕ) → (rs n).rows_error ≡ none)
    → ((n : ℕ) → (rs n).start.transition.fate ≡ commits)
    → (s' : Supervisor) × (rebalance le rs s ≡ some s') × (IsFull s' ⊎ AllServed s')
unfolding rebalance
rebalance-AllServed le rs s calm reads c =
    let (s', e, r) =
      rounds-Ended le rs TriedServed (λ t. IsFull t ⊎ AllServed t)
        (record {
          goes_on =
              λ n tried t row w free _. start-TriedServed (rs n).start row.id tried t (c n) free w;
          is_full = λ tried t w full. inl full;
          is_unread = λ n tried t e w unread. absurd (some_error e (sym (reads n) ∙ unread));
          is_served = λ tried t w none_left. inr (end-AllServed le tried t w none_left);
        })
        (suc (length s.fleet)) [] (record s { rebalancing = true })
        (let l = left-all s.fleet in omega arith)
        (All-each (λ row. is_tried row.id [] ≡ true → IsServed s.fleet row) s.rows (λ row h. cc)) in
    (record s' { rebalancing = false }, rw calm (ap done_with e), r)
  where
    some_error : (e : StoreError) → none ≡ some e → ⊥
    some_error e h = cc
