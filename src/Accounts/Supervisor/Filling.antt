-- ===== src/Accounts/Supervisor/Filling.antt =====
-- internal/accounts/lifecycle.go: the loop of rebalance ends, and what it leaves.
use agent_gm.Prelude.{
  ℕ, zero, suc, ◌≤◌, ◌<◌, ◌≡◌, refl, ◌∙◌, Bool, true, false, Option, none, some, String, List, [],
  ◌∷◌, length, arith, str_eq, eq_iff, Bool-cases, Option-cases, inl, inr, if-both, if◌then◌else◌,
}
use agent_gm.Prelude.Rows.{first_where, first-where_holds, update_where}
use agent_gm.Store.Write.{StoreError}
use agent_gm.Store.Accounts.{Account, accounts}
use agent_gm.Accounts.Supervisor.{
  Supervised, Supervisor, StartEnv, is_named, running_count, capped, set_one, set_running,
  set_client, set_looping, start,
}
use agent_gm.Accounts.Supervisor.Stages.{start_keeps, save_keeps}
use agent_gm.Accounts.Supervisor.Slots.{transition-still}
use agent_gm.Accounts.Supervisor.Rebalancing.{
  Round, is_tried, idle, eligible, next_parked, start_next, run_round, rounds,
}

unfoldable pub names : List Supervised → List String
names [] = []
names (a ∷ rest) = a.id ∷ names rest

names-update :
    (p : Supervised → Bool) (f : Supervised → Supervised) (fleet : List Supervised)
    → ((a : Supervised) → (f a).id ≡ a.id)
    → names (update_where p f fleet) ≡ names fleet
unfolding names update_where
names-update p f [] same = refl
names-update p f (a ∷ rest) same = ground (arith, same a, names-update p f rest same)

-- A start keeps who is in the fleet.
start-names :
    (env : StartEnv) (id : String) (s : Supervisor) → names (start env id s).1.fleet ≡ names s.fleet
start-names env id s =
    let P : Supervisor → Type 0 = λ t. names t.fleet ≡ names s.fleet in
    let named : (f : Supervised → Supervised)
        → ((a : Supervised) → (f a).id ≡ a.id)
        → (t : Supervisor) → P t
        → P (set_one id f t) =
      λ f same t v. names-update (is_named id) f t.fleet same ∙ v in
    start_keeps env id P
      (record {
        once_up = record {
          by_transition = λ to why t.
              transition-still (λ most fleet. names fleet ≡ names s.fleet) env.transition id to why
                t;
          by_client = named (set_client true) (λ a. refl);
          by_loop = named (set_looping true) (λ a. refl);
          by_saving = λ saving t. save_keeps P (λ t' r v. v) saving id t;
        };
        by_admission = λ t free. named (set_running true) (λ a. refl) t;
        by_failure = named (set_running false) (λ a. refl);
      })
      s refl

-- How many accounts the loop has still to try.
unfoldable pub left : List String → List String → ℕ
left tried [] = 0
left tried (n ∷ ns) = let rest = left tried ns in if is_tried n tried then rest else suc rest

left-le : (x : String) (tried ns : List String) → left (x ∷ tried) ns ≤ left tried ns
unfolding left
left-le x tried [] = omega arith
left-le x tried (n ∷ ns) = ground (arith, left-le x tried ns)

left-less :
    (x : String) (tried : List String) (fleet : List Supervised) (a : Supervised)
    → first_where (is_named x) fleet ≡ some a
    → is_tried x tried ≡ false
    → left (x ∷ tried) (names fleet) < left tried (names fleet)
unfolding left names first_where
left-less x tried [] a found fresh = cc
left-less x tried (b ∷ rest) a found fresh = elim (Bool-cases (str_eq b.id x)) [
  | inl same ↦
      let e : b.id ≡ x = (eq_iff b.id x).0 same in
      let le = left-le x tried (names rest) in
      let fresh' : is_tried b.id tried ≡ false = rw e fresh in ground arith
  | inr different ↦
      let more = left-less x tried rest a (rw different at found) fresh in ground arith
]

idle-found :
    (fleet : List Supervised) (id : String)
    → idle fleet id ≡ true
    → (a : Supervised) × (first_where (is_named id) fleet ≡ some a)
unfolding idle
idle-found fleet id h = elim (Option-cases (first_where (is_named id) fleet)) [
  | inl absent ↦ absurd (false_true (rw absent at h))
  | inr (a, found) ↦ (a, found)
]
  where
    false_true : false ≡ true → ⊥
    false_true h = cc

next-eligible :
    (le : String → String → Bool) (tried : List String) (s : Supervisor) (row : Account)
    → next_parked le tried s.fleet s.rows ≡ some row
    → (is_tried row.id tried ≡ false) × (idle s.fleet row.id ≡ true)
unfolding next_parked eligible
next-eligible le tried s row h =
    let e = first-where_holds (eligible tried s.fleet) (accounts le s.rows) row h in ground arith

-- The loop on enough fuel, for what its rounds keep and what its ends give.
module _ (le : String → String → Bool) (env : ℕ → Round) (I : List String → Supervisor → Type 0)
    (R : Supervisor → Type 0) where
  pub record IsLoop : Type 0 where
    pub goes_on :
        (n : ℕ) (tried : List String) (s : Supervisor) (row : Account)
        → I tried s
        → capped s.max_concurrent (running_count s.fleet) ≡ false
        → next_parked le tried s.fleet s.rows ≡ some row
        → I (row.id ∷ tried) (start (env n).start row.id s).1
    pub is_full :
        (tried : List String) (s : Supervisor)
        → I tried s
        → capped s.max_concurrent (running_count s.fleet) ≡ true
        → R s
    pub is_unread :
        (n : ℕ) (tried : List String) (s : Supervisor) (e : StoreError)
        → I tried s
        → (env n).rows_error ≡ some e
        → R s
    pub is_served :
        (tried : List String) (s : Supervisor)
        → I tried s
        → next_parked le tried s.fleet s.rows ≡ none
        → R s

  abbrev pub Ended : Option Supervisor → Type 0
  Ended o = (s' : Supervisor) × (o ≡ some s') × R s'

  pub rounds-Ended :
      IsLoop
      → (fuel : ℕ) (tried : List String) (s : Supervisor) → left tried (names s.fleet) < fuel
      → I tried s
      → Ended (rounds le env fuel tried s)
  unfolding rounds run_round start_next
  rounds-Ended l zero tried s enough i = absurd (omega arith)
  rounds-Ended l (suc fuel) tried s enough i =
      if-both Ended (capped s.max_concurrent (running_count s.fleet)) _ _
        (λ full. (s, refl, l.is_full tried s i full))
        λ free. elim (Option-cases (env fuel).rows_error) [
          | inr (e, unread) ↦ rw unread (s, refl, l.is_unread fuel tried s e i unread)
          | inl read ↦ rw read (elim (Option-cases (next_parked le tried s.fleet s.rows)) [
            | inl served ↦ rw served (s, refl, l.is_served tried s i served)
            | inr (row, next) ↦
                let (fresh, idles) = next-eligible le tried s row next in
                let (a, found) = idle-found s.fleet row.id idles in
                let less = left-less row.id tried s.fleet a found fresh in
                let same = start-names (env fuel).start row.id s in
                rw next (
                  rounds-Ended l fuel (row.id ∷ tried) (start (env fuel).start row.id s).1
                    (rw same (omega arith)) (l.goes_on fuel tried s row i free next))
          ])
        ]

pub left-all : (fleet : List Supervised) → left [] (names fleet) ≤ length fleet
unfolding left names
left-all [] = omega arith
left-all (a ∷ rest) = omega (arith, left-all rest)
