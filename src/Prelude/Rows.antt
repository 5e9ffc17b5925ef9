-- ===== src/Prelude/Rows.antt =====
-- A table of the database as the list of its rows in rowid order, and the four statements that the
-- store runs on one: SELECT ... WHERE, UPDATE ... WHERE, DELETE ... WHERE and a count.
use Prim.Native.Nat.{ℕ, suc, ◌+◌, ◌≤◌}
use mathlib.Core.Path.{◌≡◌, refl, ap, subst}
use mathlib.Core.Logic.{inl, inr}
use mathlib.Core.Bool.{Bool, true}
use mathlib.Core.Option.{Option, none, some}
use mathlib.Core.List.{List, [], ◌∷◌, ◌++◌}
use native.Mathlib.Omega.{arith}
use agent_gm.Prelude.Tests.{if◌then◌else◌, Bool-cases}
use agent_gm.Prelude.Lists.{length, All}

module _ {ℓ} {A : Type ℓ} where
  -- The first row that the condition accepts.
  unfoldable pub first_where : (A → Bool) → List A → Option A
  first_where p [] = none
  first_where p (x ∷ xs) = if p x then some x else first_where p xs

  -- Every row that the condition accepts, in order.
  unfoldable pub select_where : (A → Bool) → List A → List A
  select_where p [] = []
  select_where p (x ∷ xs) = let rest = select_where p xs in if p x then x ∷ rest else rest

  -- SET on the rows that the condition accepts.
  unfoldable pub update_where : (A → Bool) → (A → A) → List A → List A
  update_where p f [] = []
  update_where p f (x ∷ xs) = (if p x then f x else x) ∷ update_where p f xs

  -- The rows that a DELETE leaves.
  unfoldable pub delete_where : (A → Bool) → List A → List A
  delete_where p [] = []
  delete_where p (x ∷ xs) = let rest = delete_where p xs in if p x then rest else x ∷ rest

  unfoldable pub count_where : (A → Bool) → List A → ℕ
  count_where p [] = 0
  count_where p (x ∷ xs) = let rest = count_where p xs in if p x then suc rest else rest

  pub length-update_where :
      (p : A → Bool) (f : A → A) (xs : List A) → length (update_where p f xs) ≡ length xs
  unfolding update_where
  length-update_where p f [] = refl
  length-update_where p f (x ∷ xs) = ap suc (length-update_where p f xs)

  pub count-delete_where :
      (p : A → Bool) (xs : List A) → length (delete_where p xs) + count_where p xs ≡ length xs
  unfolding delete_where count_where
  count-delete_where p [] = omega arith
  count-delete_where p (x ∷ xs) = ground (arith, count-delete_where p xs)

  -- The rows that an update leaves alone.
  pub delete-update_where :
      (p : A → Bool) (f : A → A) (xs : List A)
      → ((x : A) → p (f x) ≡ p x)
      → delete_where p (update_where p f xs) ≡ delete_where p xs
  unfolding delete_where update_where
  delete-update_where p f [] same = refl
  delete-update_where p f (x ∷ xs) same = ground (arith, delete-update_where p f xs same, same x)

  -- What an update does to a count, by what it does to a row.
  pub count-update_where_le :
      (q p : A → Bool) (f : A → A) (xs : List A)
      → ((x : A) → p x ≡ true → q (f x) ≡ true → q x ≡ true)
      → count_where q (update_where p f xs) ≤ count_where q xs
  unfolding count_where update_where
  count-update_where_le q p f [] h = omega arith
  count-update_where_le q p f (x ∷ xs) h = ground (arith, count-update_where_le q p f xs h, h x)

  pub count-update_where_eq :
      (q p : A → Bool) (f : A → A) (xs : List A)
      → ((x : A) → q (f x) ≡ q x)
      → count_where q (update_where p f xs) ≡ count_where q xs
  unfolding count_where update_where
  count-update_where_eq q p f [] h = refl
  count-update_where_eq q p f (x ∷ xs) h = ground (arith, count-update_where_eq q p f xs h, h x)

  pub count-update_where_more :
      (q p : A → Bool) (f : A → A) (xs : List A)
      → count_where q (update_where p f xs) ≤ count_where q xs + count_where p xs
  unfolding count_where update_where
  count-update_where_more q p f [] = omega arith
  count-update_where_more q p f (x ∷ xs) = ground (arith, count-update_where_more q p f xs)

  -- An update that sets a row to itself wherever the condition fails keeps what holds of all rows.
  pub All-update_where {κ} :
      (P : A → Type κ) (p : A → Bool) (f : A → A) (xs : List A)
      → ((x : A) → P x → p x ≡ true → P (f x))
      → All P xs
      → All P (update_where p f xs)
  unfolding update_where
  All-update_where P p f [] keep h = tt
  All-update_where P p f (x ∷ xs) keep h = elim (Bool-cases (p x)) [
    | inl e ↦ rw e (keep x h.0 e, All-update_where P p f xs keep h.1)
    | inr e ↦ rw e (h.0, All-update_where P p f xs keep h.1)
  ]

  -- An update that makes each row what is to hold of all, from what held before.
  pub All-update_where_makes {κ μ} :
      (P : A → Type κ) (Q : A → Type μ) (p : A → Bool) (f : A → A) (xs : List A)
      → ((x : A) → P x → Q (if p x then f x else x))
      → All P xs
      → All Q (update_where p f xs)
  unfolding update_where
  All-update_where_makes P Q p f [] makes h = tt
  All-update_where_makes P Q p f (x ∷ xs) makes h =
      (makes x h.0, All-update_where_makes P Q p f xs makes h.1)

  pub All-delete_where {κ} :
      (P : A → Type κ) (p : A → Bool) (xs : List A) → All P xs → All P (delete_where p xs)
  unfolding delete_where
  All-delete_where P p [] h = tt
  All-delete_where P p (x ∷ xs) h = elim (Bool-cases (p x)) [
    | inl e ↦ rw e (All-delete_where P p xs h.1)
    | inr e ↦ rw e (h.0, All-delete_where P p xs h.1)
  ]

  pub All-append {κ} :
      (P : A → Type κ) (xs : List A) (x : A) → All P xs → P x → All P (xs ++ x ∷ [])
  All-append P [] x h e = (e, tt)
  All-append P (y ∷ xs) x h e = (h.0, All-append P xs x h.1 e)

  pub first-append :
      (p : A → Bool) (xs : List A) (x y : A)
      → first_where p xs ≡ some x
      → first_where p (xs ++ y ∷ []) ≡ some x
  unfolding first_where
  first-append p [] x y h = cc
  first-append p (z ∷ xs) x y h = ground (arith, first-append p xs x y)

  -- What an update does to the first row of a condition that it does not change.
  pub first-update_where :
      (q p : A → Bool) (f : A → A) (xs : List A)
      → ((x : A) → q (f x) ≡ q x)
      → first_where q (update_where p f xs)
        ≡ elim (first_where q xs) [ none ↦ none | some x ↦ some (if p x then f x else x) ]
  unfolding first_where update_where
  first-update_where q p f [] same = refl
  first-update_where q p f (x ∷ xs) same = ground (arith, same x, first-update_where q p f xs same)

  pub first-where_holds :
      (p : A → Bool) (xs : List A) (x : A) → first_where p xs ≡ some x → p x ≡ true
  unfolding first_where
  first-where_holds p [] x h = cc
  first-where_holds p (y ∷ xs) x h = ground (arith, first-where_holds p xs x)

  some_eq : {x y : A} → some x ≡ some y → x ≡ y
  some_eq h = cc

  pub All-first_where {κ} :
      (P : A → Type κ) (p : A → Bool) (xs : List A) (x : A)
      → All P xs
      → first_where p xs ≡ some x
      → P x
  unfolding first_where
  All-first_where P p [] x h e = cc
  All-first_where P p (y ∷ xs) x h e = elim (Bool-cases (p y)) [
    | inl t ↦ let q : some y ≡ some x = rw t at e in subst P (some_eq q) h.0
    | inr t ↦ All-first_where P p xs x h.1 (rw t at e)
  ]
