-- ===== src/Accounts/Supervisor/Moves.antt =====
-- internal/accounts/supervisor.go: what a change of one account does to the rows and to who is idle.
use agent_gm.Prelude.{
  ℕ, ◌≡◌, refl, sym, ap, ◌∙◌, true, false, not, ◌&&◌, Option, String, List, [], ◌∷◌, arith, str_eq,
  eq_iff, Bool-cases, Option-cases, inl, inr, All, All-each, if-both,
}
use agent_gm.Prelude.Rows.{
  first_where, first-where_holds, first-update_where, update_where, All-update_where_makes,
}
use agent_gm.Store.Write.{Result, ok, err, Fate, commits, write}
use agent_gm.Store.Accounts.{
  AccountState, parked, Reason, Account, Rows, account, has_account_id, set_account_state,
  same_state, is_some,
}
use agent_gm.Accounts.Supervisor.{
  Supervised, Supervisor, TransitionEnv, is_named, set_running, transition, transitioned,
  previous_of, read_if, announce, same_as,
}
use agent_gm.Accounts.Supervisor.Slots.{transition-still}
use agent_gm.Accounts.Supervisor.Rebalancing.{idle}

-- The row is not parked, or its account is not idle.
abbrev pub IsServed : List Supervised → Account → Type 0
IsServed fleet row = (same_state row.state parked && idle fleet row.id) ≡ false

pub transition-fleet :
    (env : TransitionEnv) (id : String) (to : AccountState) (why : Reason) (s : Supervisor)
    → (transition env id to why s).1.fleet ≡ s.fleet
transition-fleet env id to why s =
    transition-still (λ most fleet. fleet ≡ s.fleet) env id to why s refl

transitioned-rows :
    (env : TransitionEnv) (id : String) (to : AccountState) (why : Reason)
    (from : Option AccountState × Reason) (s : Supervisor) (r : Result (Unit {0}) × Rows)
    → (transitioned env id to why from s r).1.rows ≡ r.1
unfolding transitioned announce
transitioned-rows env id to why from s (err e, rows) = refl
transitioned-rows env id to why from s (ok u, rows) =
    if-both (λ (x : Supervisor). x.rows ≡ rows) (same_as from to why) _ _ (λ _. refl) λ _. refl

pub transition-rows :
    (env : TransitionEnv) (id : String) (to : AccountState) (why : Reason) (s : Supervisor)
    → (transition env id to why s).1.rows
      ≡ (write env.fate (set_account_state env.now id to why) s.rows).1
unfolding transition
transition-rows env id to why s =
    transitioned-rows env id to why (previous_of (read_if env.read_error (account id s.rows))) s
      (write env.fate (set_account_state env.now id to why) s.rows)

pub true-false : true ≡ false → ⊥
true-false h = cc

-- A committed change of an account's state, whether or not it finds a row.
none_named :
    (id : String) (rows : Rows) (P : Account → Type 0)
    → is_some (first_where (has_account_id id) rows) ≡ false
    → All (λ row. has_account_id id row ≡ true → P row) rows
unfolding first_where
none_named id [] P h = tt
none_named id (a ∷ rows) P h = elim (Bool-cases (has_account_id id a)) [
  | inl same ↦ absurd (true-false (rw same at h))
  | inr other ↦ (λ k. absurd (true-false (sym k ∙ other)), none_named id rows P (rw other at h))
]

pub marked :
    (fate : Fate) (now : ℕ) (id : String) (to : AccountState) (why : Reason) (rows : Rows)
    → fate ≡ commits
    → same_state to parked ≡ false
    → All
        (λ row. has_account_id id row ≡ true → same_state row.state parked ≡ false)
        (write fate (set_account_state now id to why) rows).1
unfolding write set_account_state
marked fate now id to why rows c h =
    rw c (elim (Bool-cases (is_some (first_where (has_account_id id) rows))) [
      | inl found ↦ rw found (
          All-update_where_makes (λ _. Unit {0})
            (λ row. has_account_id id row ≡ true → same_state row.state parked ≡ false)
            (has_account_id id)
            (λ a. record a { state = to; state_reason = why; updated_at_ms = now }) rows
            (λ row _. ground (arith, h)) (All-each (λ _. Unit {0}) rows (λ _. tt)))
      | inr absent ↦
          rw absent (none_named id rows (λ row. same_state row.state parked ≡ false) absent)
    ])

-- What a change of one account does to who is idle.
pub idle-other :
    (id : String) (f : Supervised → Supervised) (fleet : List Supervised) (other : String)
    → ((a : Supervised) → (f a).id ≡ a.id)
    → str_eq other id ≡ false
    → idle (update_where (is_named id) f fleet) other ≡ idle fleet other
unfolding idle
idle-other id f fleet other same differ =
    let moved =
      first-update_where (is_named other) (is_named id) f fleet
        (λ a. ap (λ i. str_eq i other) (same a)) in
    elim (Option-cases (first_where (is_named other) fleet)) [
      | inl absent ↦ rw moved (rw absent refl)
      | inr (a, found) ↦
          let e : a.id ≡ other =
            (eq_iff a.id other).0 (first-where_holds (is_named other) fleet a found) in
          let apart : is_named id a ≡ false = rw e differ in rw moved (rw found (rw apart refl))
    ]

pub idle-same :
    (id : String) (f : Supervised → Supervised) (fleet : List Supervised)
    → ((a : Supervised) → (f a).id ≡ a.id)
    → ((a : Supervised) → a.running ≡ true → (f a).running ≡ true)
    → idle fleet id ≡ false
    → idle (update_where (is_named id) f fleet) id ≡ false
unfolding idle
idle-same id f fleet same keeps busy =
    let moved =
      first-update_where (is_named id) (is_named id) f fleet
        (λ a. ap (λ i. str_eq i id) (same a)) in
    elim (Option-cases (first_where (is_named id) fleet)) [
      | inl absent ↦ rw moved (rw absent refl)
      | inr (a, found) ↦
          let runs : not (a.running) ≡ false = rw found at busy in
          let still = keeps a (ground arith) in
          rw moved (
            rw found (
              if-both (λ (x : Supervised). not (x.running) ≡ false) (is_named id a) _ _
                (λ _. rw still refl) λ _. runs))
    ]

pub idle-admitted :
    (id : String) (fleet : List Supervised)
    → idle (update_where (is_named id) (set_running true) fleet) id ≡ false
unfolding idle
idle-admitted id fleet =
    let moved =
      first-update_where (is_named id) (is_named id) (set_running true) fleet (λ a. refl) in
    elim (Option-cases (first_where (is_named id) fleet)) [
      | inl absent ↦ rw moved (rw absent refl)
      | inr (a, found) ↦
          let named = first-where_holds (is_named id) fleet a found in
          rw moved (rw found (rw named refl))
    ]
