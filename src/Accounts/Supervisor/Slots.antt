-- ===== src/Accounts/Supervisor/Slots.antt =====
-- internal/accounts/supervisor.go: what a start and a stop do to the slots in use.
use agent_gm.Prelude.{
  zero, suc, ℕ, ◌+◌, ◌≤◌, ◌<◌, ◌≡◌, refl, ap, Bool, true, false, ◌&&◌, Option, none, some, String,
  List, [], ◌∷◌, ◌++◌, arith, str_eq, eq_iff, if-both, Bool-cases, inl, inr, subst,
}
use agent_gm.Prelude.Int.{ℤ, pos, negsuc}
use agent_gm.Prelude.Rows.{
  first_where, update_where, count_where, count-update_where_le, count-update_where_eq,
  count-update_where_more,
}
use agent_gm.Store.Write.{Result, ok, err, write}
use agent_gm.Store.Accounts.{AccountState, Reason, Rows, account, set_account_state}
use agent_gm.Accounts.Supervisor.{
  Supervised, Supervisor, StartEnv, TransitionEnv, is_named, is_running, running_count, capped,
  announce, same_as, transitioned, transition, previous_of, read_if, set_one, set_running,
  set_client, set_looping, register, registered, new_one, start, stop, stopped,
}
use agent_gm.Accounts.Supervisor.Stages.{start_keeps, save_keeps}

-- A limit that is set, and at most c.
abbrev pub IsLimit : ℕ → ℤ → Type 0
IsLimit c (pos zero) = ⊥
IsLimit c (pos (suc m)) = suc m ≤ c
IsLimit c (negsuc m) = ⊥

IsLimit-room : (c : ℕ) (most : ℤ) (n : ℕ) → IsLimit c most → capped most n ≡ false → n < c
unfolding capped
IsLimit-room c (pos zero) n l h = absurd l
IsLimit-room c (pos (suc m)) n l h = ground arith
IsLimit-room c (negsuc m) n l h = absurd l

-- No more than c accounts run, an account is in the fleet once, and there is a limit of at most c.
pub record IsWithin (c : ℕ) (most : ℤ) (fleet : List Supervised) : Type 0 where
  pub distinct : (id : String) → count_where (is_named id) fleet ≤ 1
  pub bound : running_count fleet ≤ c
  pub limited : IsLimit c most

abbrev pub Within : ℕ → Supervisor → Type 0
Within c s = IsWithin c s.max_concurrent s.fleet

-- A transition writes rows and announces.
transitioned-still :
    (P : ℤ → List Supervised → Type 0) (env : TransitionEnv) (id : String) (to : AccountState)
    (why : Reason) (from : Option AccountState × Reason) (s : Supervisor)
    (r : Result (Unit {0}) × Rows)
    → P s.max_concurrent s.fleet
    → P
        (transitioned env id to why from s r).1.max_concurrent
        (transitioned env id to why from s r).1.fleet
unfolding transitioned announce
transitioned-still P env id to why from s (err e, rows) v = v
transitioned-still P env id to why from s (ok u, rows) v =
    if-both (λ (x : Supervisor). P x.max_concurrent x.fleet) (same_as from to why) _ _ (λ _. v)
      λ _. v

pub transition-still :
    (P : ℤ → List Supervised → Type 0) (env : TransitionEnv) (id : String) (to : AccountState)
    (why : Reason) (s : Supervisor)
    → P s.max_concurrent s.fleet
    → P (transition env id to why s).1.max_concurrent (transition env id to why s).1.fleet
unfolding transition
transition-still P env id to why s v =
    transitioned-still P env id to why (previous_of (read_if env.read_error (account id s.rows))) s
      (write env.fate (set_account_state env.now id to why) s.rows) v

module _ (c : ℕ) where
  -- A change of one account that keeps its name and starts nothing.
  set_one-Within :
      (p : Supervised → Bool) (f : Supervised → Supervised) (most : ℤ) (fleet : List Supervised)
      → ((a : Supervised) → (f a).id ≡ a.id)
      → ((a : Supervised) → (f a).running ≡ true → a.running ≡ true)
      → IsWithin c most fleet
      → IsWithin c most (update_where p f fleet)
  unfolding running_count
  set_one-Within p f most fleet same calm v = record {
    distinct = λ other.
        rw
          (count-update_where_eq (is_named other) p f fleet
            (λ a. ap (λ i. str_eq i other) (same a)))
          (v.distinct other);
    bound =
        let le = count-update_where_le is_running p f fleet (λ a _. calm a) in
        let b = v.bound in omega arith;
    limited = v.limited;
  }

  pub stop-Within : (id : String) (s : Supervisor) → Within c s → Within c (stop id s)
  unfolding stop
  stop-Within id s v =
      set_one-Within (λ a. is_named id a && a.running) stopped s.max_concurrent s.fleet (λ a. refl)
        (λ a h. cc) v

  -- The one change that takes a slot.
  admit-Within :
      (id : String) (s : Supervisor)
      → capped s.max_concurrent (running_count s.fleet) ≡ false
      → Within c s
      → Within c (set_one id (set_running true) s)
  unfolding running_count
  admit-Within id s free v = record {
    distinct = λ other.
        rw
          (count-update_where_eq (is_named other) (is_named id) (set_running true) s.fleet
            (λ a. refl))
          (v.distinct other);
    bound =
        let more = count-update_where_more is_running (is_named id) (set_running true) s.fleet in
        let one = v.distinct id in
        let below = IsLimit-room c s.max_concurrent (running_count s.fleet) v.limited free in
        omega arith;
    limited = v.limited;
  }

  pub start-Within :
      (env : StartEnv) (id : String) (s : Supervisor) → Within c s → Within c (start env id s).1
  start-Within env id s v =
      start_keeps env id (Within c)
        (record {
          once_up = record {
            by_transition = λ to why s. transition-still (IsWithin c) env.transition id to why s;
            by_client = λ s.
                set_one-Within (is_named id) (set_client true) s.max_concurrent s.fleet (λ a. refl)
                  (λ a h. h);
            by_loop = λ s.
                set_one-Within (is_named id) (set_looping true) s.max_concurrent s.fleet (λ a. refl)
                  (λ a h. h);
            by_saving = λ saving s. save_keeps (Within c) (λ s r v. v) saving id s;
          };
          by_admission = admit-Within id;
          by_failure = λ s.
              set_one-Within (is_named id) (set_running false) s.max_concurrent s.fleet (λ a. refl)
                (λ a h. cc);
        })
        s v

  count-snoc :
      (p : Supervised → Bool) (xs : List Supervised) (x : Supervised)
      → p x ≡ false
      → count_where p (xs ++ x ∷ []) ≡ count_where p xs
  unfolding count_where
  count-snoc p [] x h = rw h refl
  count-snoc p (y ∷ xs) x h = ground (arith, count-snoc p xs x h)

  count-snoc_le :
      (p : Supervised → Bool) (xs : List Supervised) (x : Supervised)
      → count_where p (xs ++ x ∷ []) ≤ count_where p xs + 1
  unfolding count_where
  count-snoc_le p [] x = ground arith
  count-snoc_le p (y ∷ xs) x = ground (arith, count-snoc_le p xs x)

  count-none :
      (p : Supervised → Bool) (xs : List Supervised)
      → first_where p xs ≡ none
      → count_where p xs ≡ 0
  unfolding count_where first_where
  count-none p [] h = refl
  count-none p (y ∷ xs) h = ground (arith, count-none p xs)

  registered-Within :
      (id : String) (o : Option Supervised) (s : Supervisor)
      → first_where (is_named id) s.fleet ≡ o
      → Within c s
      → Within c (registered id o s)
  unfolding registered running_count
  registered-Within id (some a) s found v = v
  registered-Within id none s absent v = record {
    distinct = λ other. elim (Bool-cases (str_eq id other)) [
      | inl same ↦
          let e : id ≡ other = (eq_iff id other).0 same in
          let none_yet = count-none (is_named id) s.fleet absent in
          let le = count-snoc_le (is_named id) s.fleet (new_one id) in
          subst (λ o. count_where (is_named o) (s.fleet ++ new_one id ∷ []) ≤ 1) e (omega arith)
      | inr different ↦
          rw (count-snoc (is_named other) s.fleet (new_one id) different) (v.distinct other)
    ];
    bound = rw (count-snoc is_running s.fleet (new_one id) refl) (v.bound);
    limited = v.limited;
  }

  pub register-Within : (id : String) (s : Supervisor) → Within c s → Within c (register id s)
  unfolding register
  register-Within id s v = registered-Within id (first_where (is_named id) s.fleet) s refl v
