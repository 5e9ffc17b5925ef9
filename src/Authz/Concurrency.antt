-- ===== src/Authz/Concurrency.antt =====
-- internal/authz/limits.go: ConcurrencyLimiter. A Go map to int is the function that reads it; the
-- release function of an acquired slot is its number, and `once` a flag of it.
pub mod Slots
use agent_gm.Prelude.{
  ℕ, zero, suc, ◌+◌, ◌-◌, Bool, true, false, ◌||◌, Option, none, some, String, List, [], ◌∷◌, ◌++◌,
  ltb, leb, str_eq, get_elem?, if◌then◌else◌,
}
use agent_gm.Authz.Limits.{RateLimited, rate_limited, second}

pub record ConcurrencySpec : Type 0 where
  pub name : String
  pub per_authorization : ℕ
  pub global : ℕ

abbrev pub concurrency_uploads : ConcurrencySpec
concurrency_uploads = record { name = "uploads"; per_authorization = 4; global = 16 }

abbrev pub concurrency_downloads : ConcurrencySpec
concurrency_downloads = record { name = "downloads"; per_authorization = 8; global = 32 }

pub record Limiter : Type 0 where
  pub per_key : String → ℕ
  pub total : ℕ

abbrev pub update : String → ℕ → (String → ℕ) → String → ℕ
update key n f k = if str_eq key k then n else f k

-- The refusal, if there is one, and the limiter.
unfoldable pub acquire : ConcurrencySpec → String → Limiter → Option RateLimited × Limiter
acquire spec key c =
    if leb spec.global c.total || leb spec.per_authorization (c.per_key key)
    then (some (rate_limited spec.name second), c)
    else (none, record { per_key = update key (c.per_key key + 1) c.per_key; total = c.total + 1 })

-- The body of the release function: both counts stop at 0.
unfoldable pub release : String → Limiter → Limiter
release key c = record {
  per_key = if ltb 0 (c.per_key key) then update key (c.per_key key - 1) c.per_key else c.per_key;
  total = if ltb 0 c.total then c.total - 1 else c.total;
}

-- A limiter with the release functions it has handed out: the key of each, and whether it ran.
pub record Pool : Type 0 where
  pub limiter : Limiter
  pub slots : List (String × Bool)

pub data Event : Type 0 where
  acquires : String → Event
  releases : ℕ → Event

unfoldable pub mark : ℕ → List (String × Bool) → List (String × Bool)
mark n [] = []
mark zero ((k, ran) ∷ rest) = (k, true) ∷ rest
mark (suc n) (s ∷ rest) = s ∷ mark n rest

grant : String → List (String × Bool) → Option RateLimited × Limiter → Pool
grant key slots (none, c) = record { limiter = c; slots = slots ++ (key, false) ∷ [] }
grant key slots (some r, c) = record { limiter = c; slots = slots }

run_release : ℕ → Option (String × Bool) → Pool → Pool
unfolding release mark
run_release n (some (key, false)) p = record {
  limiter = release key p.limiter;
  slots = mark n p.slots;
}
run_release n (some (key, true)) p = p
run_release n none p = p

unfoldable pub step : ConcurrencySpec → Pool → Event → Pool
unfolding grant run_release acquire
step spec p (acquires key) = grant key p.slots (acquire spec key p.limiter)
step spec p (releases n) = run_release n (get_elem? p.slots n) p

unfoldable pub run : ConcurrencySpec → Pool → List Event → Pool
unfolding step
run spec p [] = p
run spec p (e ∷ es) = run spec (step spec p e) es

unfoldable pub new_pool : Pool
new_pool = record { limiter = record { per_key = λ k. 0; total = 0 }; slots = [] }
