-- ===== src/Authz/Concurrency/Slots.antt =====
-- internal/authz/limits.go: the limits hold, and the counts are those of the slots in use.
use agent_gm.Prelude.{
  ℕ, zero, suc, ◌+◌, ◌≤◌, ◌≡◌, refl, Bool, true, false, Option, none, some, String, List, [], ◌∷◌,
  ◌++◌, ◌⊎◌, ◌||◌, arith, leb, str_eq, eq_iff, get_elem?, if◌then◌else◌, Bool-cases, inl, inr,
}
use agent_gm.Authz.Concurrency.{
  ConcurrencySpec, Pool, Event, acquires, releases, release, mark, run_release, step, run, new_pool,
}

-- The slots in use, and those of one key.
unfoldable pub in_use : List (String × Bool) → ℕ
in_use [] = 0
in_use ((k, ran) ∷ rest) = (if ran then 0 else 1) + in_use rest

unfoldable pub in_use_by : String → List (String × Bool) → ℕ
in_use_by key [] = 0
in_use_by key ((k, ran) ∷ rest) =
    (if ran then 0 else if str_eq k key then 1 else 0) + in_use_by key rest

pub record IsExact (spec : ConcurrencySpec) (p : Pool) : Type 0 where
  pub total_exact : p.limiter.total ≡ in_use p.slots
  pub key_exact : (k : String) → p.limiter.per_key k ≡ in_use_by k p.slots
  pub total_bound : p.limiter.total ≤ spec.global
  pub key_bound : (k : String) → p.limiter.per_key k ≤ spec.per_authorization

in_use-append :
    (s : List (String × Bool)) (key : String) → in_use (s ++ (key, false) ∷ []) ≡ in_use s + 1
unfolding in_use
in_use-append [] key = omega arith
in_use-append ((k, ran) ∷ rest) key = omega (arith, in_use-append rest key)

in_use_by-append :
    (k : String) (s : List (String × Bool)) (key : String)
    → in_use_by k (s ++ (key, false) ∷ []) ≡ in_use_by k s + (if str_eq key k then 1 else 0)
unfolding in_use_by
in_use_by-append k [] key = omega arith
in_use_by-append k ((j, ran) ∷ rest) key = omega (arith, in_use_by-append k rest key)

in_use-mark :
    (n : ℕ) (s : List (String × Bool)) (key : String)
    → get_elem? s n ≡ some (key, false)
    → in_use s ≡ in_use (mark n s) + 1
unfolding in_use mark
in_use-mark n [] key e = cc
in_use-mark zero ((k, ran) ∷ rest) key e = ground arith
in_use-mark (suc n) ((k, ran) ∷ rest) key e = omega (arith, in_use-mark n rest key e)

in_use_by-mark :
    (k : String) (n : ℕ) (s : List (String × Bool)) (key : String)
    → get_elem? s n ≡ some (key, false)
    → in_use_by k s ≡ in_use_by k (mark n s) + (if str_eq key k then 1 else 0)
unfolding in_use_by mark
in_use_by-mark k n [] key e = cc
in_use_by-mark k zero ((j, ran) ∷ rest) key e = ground arith
in_use_by-mark k (suc n) ((j, ran) ∷ rest) key e = omega (arith, in_use_by-mark k n rest key e)

acquire-IsExact :
    (spec : ConcurrencySpec) (p : Pool) (key : String)
    → IsExact spec p
    → IsExact spec (step spec p (acquires key))
unfolding step
acquire-IsExact spec p key v =
    elim (Bool-cases
      (leb spec.global p.limiter.total || leb spec.per_authorization (p.limiter.per_key key))) [
        | inl full ↦ rw full v
        | inr room ↦ rw room (record {
          total_exact = omega (arith, v.total_exact, in_use-append p.slots key);
          key_exact = λ k.
              ground (
                arith,
                v.key_exact k,
                v.key_exact key,
                in_use_by-append k p.slots key,
                eq_iff key k,
              );
          total_bound = ground (arith, v.total_bound);
          key_bound = λ k. ground (arith, v.key_bound k, eq_iff key k);
        })
      ]

used :
    (n : ℕ) (p : Pool) (key : String) (spec : ConcurrencySpec)
    → IsExact spec p
    → get_elem? p.slots n ≡ some (key, false)
    → IsExact spec (record { limiter = release key p.limiter; slots = mark n p.slots })
unfolding release
used n p key spec v e = record {
  total_exact = ground (arith, v.total_exact, in_use-mark n p.slots key e);
  key_exact = λ k. ground (
    arith,
    v.key_exact k,
    v.key_exact key,
    in_use_by-mark k n p.slots key e,
    in_use_by-mark key n p.slots key e,
    eq_iff key k,
    eq_iff key key,
  );
  total_bound = ground (arith, v.total_bound);
  key_bound = λ k. ground (arith, v.key_bound k, eq_iff key k);
}

slot-cases :
    (o : Option (String × Bool)) (n : ℕ) (p : Pool)
    → ((key : String) × (o ≡ some (key, false))
        × (run_release n o p ≡ record { limiter = release key p.limiter; slots = mark n p.slots }))
      ⊎ (run_release n o p ≡ p)
unfolding run_release
slot-cases none n p = inr refl
slot-cases (some (key, true)) n p = inr refl
slot-cases (some (key, false)) n p = inl (key, refl, refl)

release-IsExact :
    (spec : ConcurrencySpec) (p : Pool) (n : ℕ)
    → IsExact spec p
    → IsExact spec (step spec p (releases n))
unfolding step
release-IsExact spec p n v = elim (slot-cases (get_elem? p.slots n) n p) [
  | inl (key, e, ran) ↦ rw ran (used n p key spec v e)
  | inr idle ↦ rw idle v
]

from-IsExact :
    (spec : ConcurrencySpec) (es : List Event) (p : Pool)
    → IsExact spec p
    → IsExact spec (run spec p es)
unfolding run
from-IsExact spec [] p v = v
from-IsExact spec (acquires key ∷ es) p v =
    from-IsExact spec es (step spec p (acquires key)) (acquire-IsExact spec p key v)
from-IsExact spec (releases n ∷ es) p v =
    from-IsExact spec es (step spec p (releases n)) (release-IsExact spec p n v)

-- After any acquisitions and any calls of the release functions, also repeated ones, the limiter's
-- counts are the numbers of slots in use, in all and under each key, and neither passes its limit.
pub run-IsExact : (spec : ConcurrencySpec) (es : List Event) → IsExact spec (run spec new_pool es)
unfolding new_pool in_use in_use_by
run-IsExact spec es = from-IsExact spec es new_pool (record {
  total_exact = refl;
  key_exact = λ k. refl;
  total_bound = omega arith;
  key_bound = λ k. omega arith;
})
