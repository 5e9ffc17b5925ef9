-- ===== src/Authz/Cooldown/Escalation.antt =====
-- internal/authz/limits.go: how long a source that keeps failing is shut out.
use agent_gm.Prelude.{
  ℕ, zero, suc, ◌+◌, ◌-◌, ◌*◌, ◌^◌, ◌≤◌, ◌<◌, ◌≡◌, ◌≢◌, min, none, some, String, List, [], ◌∷◌, All,
  length, arith, ap, leb→le, leb, str_eq, eq_iff, if◌then◌else◌, Bool-cases, inl, inr,
}
use native.Mathlib.Nat.{pow-suc}
use agent_gm.Authz.Limits.{RateLimited, rate_limited}
use agent_gm.Authz.Cooldown.{
  Attempt, LimitSpec, doubled, cooldown_for, advance_attempt, Attempts, attempt_row, put_attempt,
  check, count_against, record_failure, row_or_new, global_source, no_attempt,
}

pow_pos : (n : ℕ) → 1 ≤ 2 ^ n
pow_pos zero = omega arith
pow_pos (suc n) = omega (arith, pow_pos n, pow-suc 2 n)

grows : (d p : ℕ) → 1 ≤ p → d ≤ d * p
grows d p h = grind arith

-- Under the cap, the doubling loop meets its closed form.
min-doubled : (cap rounds d : ℕ) → min cap (doubled cap rounds d) ≡ min cap (d * 2 ^ rounds)
unfolding doubled
min-doubled cap zero d = omega arith
min-doubled cap (suc rounds) d = elim (Bool-cases (leb cap d)) [
  | inl over ↦
      rw over (omega (arith, leb→le cap d over, grows d (2 ^ suc rounds) (pow_pos (suc rounds))))
  | inr under ↦
      rw under
        (omega (arith, min-doubled cap rounds (d * 2), ap (λ (p : ℕ). d * p) (pow-suc 2 rounds)))
]

doubled_pos : (cap rounds d : ℕ) → 0 < d → 0 < doubled cap rounds d
unfolding doubled
doubled_pos cap zero d h = h
doubled_pos cap (suc rounds) d h = ground (arith, doubled_pos cap rounds (d * 2))

-- The cooldown doubles with each step, from a base that is not zero, and stops at the cap: the first
-- step has the base.
pub cooldown_for-eq :
    (spec : LimitSpec) (steps : ℕ)
    → 0 < spec.base_cooldown
    → cooldown_for spec (steps + 1) ≡ min spec.max_cooldown (spec.base_cooldown * 2 ^ steps)
unfolding cooldown_for
cooldown_for-eq spec steps h =
    let e : steps + 1 - 1 ≡ steps = omega arith in
    rw e (
      ground (
        arith,
        min-doubled spec.max_cooldown steps spec.base_cooldown,
        doubled_pos spec.max_cooldown steps spec.base_cooldown h,
      ))

attempt_row-put :
    (kind source source' : String) (a : Attempt) (rows : Attempts)
    → attempt_row kind source (put_attempt kind source' a rows)
      ≡ (if str_eq source' source then some a else attempt_row kind source rows)
unfolding attempt_row put_attempt
attempt_row-put kind source source' a [] = ground (arith, eq_iff kind kind)
attempt_row-put kind source source' a (((k, s), old) ∷ rest) = ground (
  arith,
  eq_iff k kind,
  eq_iff s source',
  eq_iff s source,
  eq_iff source' source,
  attempt_row-put kind source source' a rest,
)

-- The window in which the failures of a run fall, and how far the run has come.
abbrev Counted : ℕ → ℕ → Attempt → Type 0
Counted start n a = (a.window_start_ms ≡ start) × (a.failures ≡ n)

-- A failure in the window counts one more, and from the limit on shuts the source out for at least
-- the first cooldown, or the cap.
advance_in_window :
    (a : Attempt) (now : ℕ) (spec : LimitSpec) (limit start n : ℕ)
    → 0 < start
    → Counted start n a
    → now < start + spec.window
    → let a' = advance_attempt a now spec limit in
      Counted start (n + 1) a'
      × (0 < limit
          → limit ≤ n + 1
          → a'.cooldown_until_ms ≡ now + cooldown_for spec (a.cooldown_steps + 1))
unfolding advance_attempt
advance_in_window a now spec limit start n h c w = ground arith

-- The first failure of a source without a row opens its window.
advance_new :
    (now : ℕ) (spec : LimitSpec) (limit : ℕ)
    → Counted now 1 (advance_attempt no_attempt now spec limit)
unfolding advance_attempt
advance_new now spec limit = ground arith

module _ (spec : LimitSpec) (source : String) (own : source ≢ global_source) where
  counted_row :
      (now : ℕ) (rows : Attempts)
      → attempt_row spec.kind source (record_failure spec now source rows)
        ≡ some (
            advance_attempt
              (row_or_new (attempt_row spec.kind source rows))
              now
              spec
              spec.per_source)
  unfolding record_failure count_against
  counted_row now rows =
      let self =
        attempt_row-put spec.kind source source
          (advance_attempt (row_or_new (attempt_row spec.kind source rows)) now spec
            spec.per_source)
          rows in
      let rows' =
        put_attempt spec.kind source
          (advance_attempt (row_or_new (attempt_row spec.kind source rows)) now spec
            spec.per_source)
          rows in
      let other =
        attempt_row-put spec.kind source global_source
          (advance_attempt (row_or_new (attempt_row spec.kind global_source rows')) now spec
            spec.global)
          rows' in
      ground (arith, self, other, eq_iff source source, eq_iff global_source source)

  -- Failures of the source at each of the times.
  pub fail_all : List ℕ → Attempts → Attempts
  fail_all [] rows = rows
  fail_all (t ∷ ts) rows = fail_all ts (record_failure spec t source rows)

  fail_all-Counted :
      (start : ℕ) (ts : List ℕ) (n : ℕ) (rows : Attempts) (a : Attempt)
      → 0 < start
      → attempt_row spec.kind source rows ≡ some a
      → Counted start n a
      → All (λ t. t < start + spec.window) ts
      → (a' : Attempt) × (attempt_row spec.kind source (fail_all ts rows) ≡ some a')
        × Counted start (n + length ts) a'
  unfolding fail_all
  fail_all-Counted start [] n rows a h found c w = (a, found, (c.0, ground arith))
  fail_all-Counted start (t ∷ ts) n rows a h found c w =
      let e = counted_row t rows in
      let c' = (advance_in_window a t spec spec.per_source start n h c w.0).0 in
      let (a', found', c2) =
        fail_all-Counted start ts (n + 1) (record_failure spec t source rows)
          (advance_attempt a t spec spec.per_source) h (rw found at e) c' w.1 in
      (a', found', (c2.0, ground arith))

  refuses :
      (now : ℕ) (rows : Attempts) (a : Attempt)
      → attempt_row spec.kind source rows ≡ some a
      → now < a.cooldown_until_ms
      → (wait : RateLimited) × (check spec now source rows ≡ some wait)
  unfolding check
  refuses now rows a found h =
      (rate_limited spec.surface ((a.cooldown_until_ms - now) * 1000000), rw found (ground arith))

  -- A source that is not the server-wide one and has no row yet, and that fails as often as its
  -- limit in one window, is refused for the first cooldown, or the cap where that is shorter,
  -- counted from its last failure.
  pub check-fail_all :
      (first : ℕ) (ts : List ℕ) (last now : ℕ) (rows : Attempts)
      → 0 < first
      → 0 < spec.per_source
      → 0 < spec.base_cooldown
      → attempt_row spec.kind source rows ≡ none
      → All (λ t. t < first + spec.window) ts
      → last < first + spec.window
      → spec.per_source ≤ length ts + 2
      → now < last + min spec.max_cooldown spec.base_cooldown
      → (wait : RateLimited) × (check spec now source
            (record_failure spec last source (fail_all ts (record_failure spec first source rows)))
          ≡ some wait)
  check-fail_all first ts last now rows h limited based fresh w wl enough soon =
      let e1 = counted_row first rows in
      let (a, found, c) =
        fail_all-Counted first ts 1 (record_failure spec first source rows)
          (advance_attempt no_attempt first spec spec.per_source) h (rw fresh at e1)
          (advance_new first spec spec.per_source) w in
      let (c', shut) = advance_in_window a last spec spec.per_source first (1 + length ts) h c wl in
      let e2 = counted_row last (fail_all ts (record_failure spec first source rows)) in
      refuses now _ (advance_attempt a last spec spec.per_source) (rw found at e2) (
        omega (
          arith,
          shut limited (omega arith),
          cooldown_for-eq spec a.cooldown_steps based,
          grows spec.base_cooldown (2 ^ a.cooldown_steps) (pow_pos a.cooldown_steps),
        ))
