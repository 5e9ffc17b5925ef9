-- ===== src/Authz/Buckets/Rate.antt =====
-- internal/authz/limits.go: how many requests a bucket lets through.
use agent_gm.Prelude.{
  ℕ, ◌+◌, ◌-◌, ◌*◌, ◌≤◌, ◌≡◌, refl, ◌↔◌, true, false, Option, none, some, String, List, [], ◌∷◌,
  ◌∙◌, arith, leb, eq_iff, if◌then◌else◌, Bool-cases, inl, inr,
}
use agent_gm.Authz.Buckets.{
  BucketSpec, BucketState, Surface, Buckets, Key, spec_of, same_surface, same_key, token, bucket_of,
  put_bucket, refill, take_token, allow,
}

same_surface_iff : (a b : Surface) → (same_surface a b ≡ true) ↔ (a ≡ b)
unfolding same_surface
same_surface_iff a b = ground arith

same_key_iff : (a b : Key) → (same_key a b ≡ true) ↔ (a ≡ b)
unfolding same_key
same_key_iff (s, k) (s', k') = ground (arith, same_surface_iff s s', eq_iff k k')

bucket_of-put :
    (k k' : Key) (st : BucketState) (b : Buckets)
    → bucket_of k (put_bucket k' st b) ≡ (if same_key k' k then some st else bucket_of k b)
unfolding bucket_of put_bucket
bucket_of-put k k' st [] = refl
bucket_of-put k k' st ((j, old) ∷ rest) =
    ground
      (arith, same_key_iff j k', same_key_iff k' k, same_key_iff j k, bucket_of-put k k' st rest)

-- Requests in the order in which they come: when, on which surface, and under which key.
abbrev pub Requests : Type 0
Requests = List (ℕ × Surface × String)

abbrev passed : {A : Type 0} → Option A → ℕ
passed none = 1
passed (some r) = 0

-- How many requests on the surface `s` under the key `k` the limiter lets through.
unfoldable pub admitted : Surface → String → Buckets → Requests → ℕ
admitted s k b [] = 0
admitted s k b ((now, s', k') ∷ rs) =
    let (answer, b') = allow s' now k' b in
    (if same_key (s', k') (s, k) then passed answer else 0) + admitted s k b' rs

-- Times that do not fall, from `start` up to `end`.
abbrev pub Within : ℕ → ℕ → Requests → Type 0
Within start end [] = start ≤ end
Within start end ((now, s, k) ∷ rs) = (start ≤ now) × Within now end rs

Within-le : (start end : ℕ) (rs : Requests) → Within start end rs → start ≤ end
Within-le start end [] h = h
Within-le start end ((now, s, k) ∷ rs) h = omega (arith, h.0, Within-le now end rs h.1)

-- What a request takes from a bucket, when the bucket has been refilled to `st`.
take_token-keeps :
    (spec : BucketSpec) (k : Key) (st : BucketState) (b : Buckets)
    → (st' : BucketState) × (bucket_of k (take_token spec k st b).1 ≡ some st')
      × (st'.last ≡ st.last)
      × (passed (take_token spec k st b).0 * token + st'.tokens ≡ st.tokens)
unfolding take_token
take_token-keeps spec k st b =
    let self : same_key k k ≡ true = (same_key_iff k k).1 refl in
    elim (Bool-cases (leb token st.tokens)) [
      | inl enough ↦
          let st' : BucketState = record st { tokens = st.tokens - token } in
          (st', rw (enough, bucket_of-put k k st' b) (rw self), refl, rw enough (ground arith))
      | inr short ↦ (st, rw (short, bucket_of-put k k st b) (rw self), refl, rw short (omega arith))
    ]

take_token-other :
    (spec : BucketSpec) (k k' : Key) (st : BucketState) (b : Buckets)
    → same_key k' k ≡ false
    → bucket_of k (take_token spec k' st b).1 ≡ bucket_of k b
unfolding take_token
take_token-other spec k k' st b other = elim (Bool-cases (leb token st.tokens)) [
  | inl enough ↦ rw (enough, bucket_of-put k k' _ b) (rw other)
  | inr short ↦ rw (short, bucket_of-put k k' st b) (rw other)
]

split_time :
    (r start now end : ℕ)
    → start ≤ now
    → now ≤ end
    → (now - start) * r + (end - now) * r ≡ (end - start) * r
split_time r start now end h k =
    let e : end - start ≡ (now - start) + (end - now) = omega arith in rw e (omega arith)

key_parts : (s s' : Surface) (k k' : String) → same_key (s', k') (s, k) ≡ true → (s' ≡ s) × (k' ≡ k)
unfolding same_key
key_parts s s' k k' h = ground (arith, same_surface_iff s' s, eq_iff k' k)

refill-le :
    (spec : BucketSpec) (now : ℕ) (st : BucketState)
    → (refill spec now (some st)).tokens ≤ st.tokens + (now - st.last) * spec.per_minute
unfolding refill
refill-le spec now st = omega arith

refill_cap :
    (spec : BucketSpec) (now : ℕ) (o : Option BucketState)
    → (refill spec now o).tokens ≤ spec.burst * token
unfolding refill
refill_cap spec now none = omega arith
refill_cap spec now (some st) = omega arith

refill-last :
    (spec : BucketSpec) (now : ℕ) (o : Option BucketState) → (refill spec now o).last ≡ now
unfolding refill
refill-last spec now none = refl
refill-last spec now (some st) = refl

-- What a request finds in a bucket, and what it leaves.
allow_own :
    (s : Surface) (k : String) (now : ℕ) (b : Buckets)
    → let st = refill (spec_of s) now (bucket_of (s, k) b) in
      (st' : BucketState) × (bucket_of (s, k) (allow s now k b).1 ≡ some st')
      × (st'.last ≡ now)
      × (passed (allow s now k b).0 * token + st'.tokens ≡ st.tokens)
unfolding allow
allow_own s k now b =
    let st = refill (spec_of s) now (bucket_of (s, k) b) in
    let (st', found, last, kept) = take_token-keeps (spec_of s) (s, k) st b in
    (st', found, last ∙ refill-last (spec_of s) now (bucket_of (s, k) b), kept)

allow_other :
    (s s' : Surface) (k k' : String) (now : ℕ) (b : Buckets)
    → same_key (s', k') (s, k) ≡ false
    → bucket_of (s, k) (allow s' now k' b).1 ≡ bucket_of (s, k) b
unfolding allow
allow_other s s' k k' now b other =
    take_token-other (spec_of s') (s, k) (s', k') (refill (spec_of s') now (bucket_of (s', k') b)) b
      other

Within-weaken : (a c end : ℕ) (rs : Requests) → a ≤ c → Within c end rs → Within a end rs
Within-weaken a c end [] h w = omega arith
Within-weaken a c end ((now, s, k) ∷ rs) h w = (omega arith, w.1)

-- From a bucket that is there, the tokens that pass are those it holds and those that it gains.
admitted_from :
    (s : Surface) (k : String) (end : ℕ) (rs : Requests) (b : Buckets) (st : BucketState)
    → bucket_of (s, k) b ≡ some st
    → Within st.last end rs
    → admitted s k b rs * token ≤ st.tokens + (end - st.last) * (spec_of s).per_minute
unfolding admitted
admitted_from s k end [] b st found h = omega arith
admitted_from s k end ((now, s', k') ∷ rs) b st found h =
    elim (Bool-cases (same_key (s', k') (s, k))) [
      | inl own ↦
          let (es, ek) = key_parts s s' k k' own in
          let (st', found', last, kept) = allow_own s k now b in
          let refilled : (refill (spec_of s) now (bucket_of (s, k) b)).tokens
              ≤ st.tokens + (now - st.last) * (spec_of s).per_minute =
            rw found (refill-le (spec_of s) now st) in
          let later = admitted_from s k end rs (allow s now k b).1 st' found' (rw last h.1) in
          let later' : admitted s k (allow s now k b).1 rs * token
              ≤ st'.tokens + (end - now) * (spec_of s).per_minute =
            rw last at later in
          let time =
            split_time (spec_of s).per_minute st.last now end h.0 (Within-le now end rs h.1) in
          rw (es, ek, (same_key_iff (s, k) (s, k)).1 refl) (omega arith)
      | inr other ↦
          let there : bucket_of (s, k) (allow s' now k' b).1 ≡ some st =
            allow_other s s' k k' now b other ∙ found in
          let later =
            admitted_from s k end rs (allow s' now k' b).1 st there
              (Within-weaken st.last now end rs h.0 h.1) in
          rw other (omega arith)
    ]

-- On one surface and under one key, the requests that come while the clock does not go back, from
-- `start` to `end`, are let through at most as often as the burst and the refill of that time allow,
-- whatever else the limiter serves in between and whatever its state.
pub admitted_rate :
    (s : Surface) (k : String) (start end : ℕ) (rs : Requests) (b : Buckets)
    → Within start end rs
    → admitted s k b rs * token ≤ (spec_of s).burst * token + (end - start) * (spec_of s).per_minute
unfolding admitted
admitted_rate s k start end [] b h = omega arith
admitted_rate s k start end ((now, s', k') ∷ rs) b h =
    elim (Bool-cases (same_key (s', k') (s, k))) [
      | inl own ↦
          let (es, ek) = key_parts s s' k k' own in
          let (st', found', last, kept) = allow_own s k now b in
          let full = refill_cap (spec_of s) now (bucket_of (s, k) b) in
          let later = admitted_from s k end rs (allow s now k b).1 st' found' (rw last h.1) in
          let later' : admitted s k (allow s now k b).1 rs * token
              ≤ st'.tokens + (end - now) * (spec_of s).per_minute =
            rw last at later in
          let time =
            split_time (spec_of s).per_minute start now end h.0 (Within-le now end rs h.1) in
          rw (es, ek, (same_key_iff (s, k) (s, k)).1 refl) (omega arith)
      | inr other ↦
          let later =
            admitted_rate s k start end rs (allow s' now k' b).1
              (Within-weaken start now end rs h.0 h.1) in
          rw other (omega arith)
    ]
