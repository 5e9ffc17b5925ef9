-- ===== src/Authz/Buckets.antt =====
-- internal/authz/limits.go: TokenBuckets. The float64 tokens are exact here, counted in units of
-- which a token has 6 * 10^10, so that a nanosecond refills PerMinute units.
pub mod Rate
use agent_gm.Prelude.{
  ℕ, ◌+◌, ◌-◌, ◌*◌, ◌/◌, min, Bool, true, false, ◌&&◌, Option, none, some, String, List, [], ◌∷◌,
  leb, str_eq, if◌then◌else◌,
}
use agent_gm.Authz.Limits.{RateLimited, rate_limited}

abbrev pub token : ℕ
token = 60000000000

pub record BucketSpec : Type 0 where
  pub name : String
  pub per_minute : ℕ
  pub burst : ℕ

pub record BucketState : Type 0 where
  pub tokens : ℕ
  pub last : ℕ

-- The four rows of the table.
pub data Surface : Type 0 where
  reads mutations admin unauthenticated : Surface

unfoldable pub spec_of : Surface → BucketSpec
spec_of reads = record { name = "reads"; per_minute = 300; burst = 100 }
spec_of mutations = record { name = "mutations"; per_minute = 120; burst = 30 }
spec_of admin = record { name = "admin"; per_minute = 120; burst = 30 }
spec_of unauthenticated = record { name = "unauthenticated"; per_minute = 60; burst = 20 }

unfoldable pub same_surface : Surface → Surface → Bool
same_surface reads reads = true
same_surface mutations mutations = true
same_surface admin admin = true
same_surface unauthenticated unauthenticated = true
same_surface _ _ = false

abbrev pub Key : Type 0
Key = Surface × String

-- The map: a key is the surface's name and the authorization or source.
abbrev pub Buckets : Type 0
Buckets = List (Key × BucketState)

unfoldable pub same_key : Key → Key → Bool
unfolding same_surface
same_key (s, k) (s', k') = same_surface s s' && str_eq k k'

unfoldable pub bucket_of : Key → Buckets → Option BucketState
bucket_of key [] = none
bucket_of key ((k, st) ∷ rest) = if same_key k key then some st else bucket_of key rest

unfoldable pub put_bucket : Key → BucketState → Buckets → Buckets
put_bucket key st [] = (key, st) ∷ []
put_bucket key st ((k, old) ∷ rest) =
    if same_key k key then (key, st) ∷ rest else (k, old) ∷ put_bucket key st rest

-- The state before a token is taken: a new bucket is full, an old one has been refilled. A clock
-- that went back refills nothing.
unfoldable pub refill : BucketSpec → ℕ → Option BucketState → BucketState
refill spec now none = record { tokens = spec.burst * token; last = now }
refill spec now (some st) = record {
  tokens = min (spec.burst * token) (st.tokens + (now - st.last) * spec.per_minute);
  last = now;
}

take_token : BucketSpec → Key → BucketState → Buckets → Option RateLimited × Buckets
take_token spec key st b =
    if leb token st.tokens
    then (none, put_bucket key (record st { tokens = st.tokens - token }) b)
    else (
      some (rate_limited spec.name ((token - st.tokens) / spec.per_minute)),
      put_bucket key st b,
    )

-- None lets the request proceed.
unfoldable pub allow : Surface → ℕ → String → Buckets → Option RateLimited × Buckets
unfolding take_token
allow surface now key b =
    let spec = spec_of surface in
    take_token spec (surface, key) (refill spec now (bucket_of (surface, key) b)) b
