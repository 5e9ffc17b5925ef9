-- ===== src/Authz/Limits.antt =====
-- internal/authz/errors.go: the one refusal that all limiters share. Durations are nanoseconds.
use agent_gm.Prelude.{ℕ, ◌+◌, ◌-◌, ◌/◌, ◌==◌, String, if◌then◌else◌}

abbrev pub second : ℕ
second = 1000000000

-- RateLimitedError: the surface, and Retry-After in whole seconds.
pub record RateLimited : Type 0 where
  pub surface : String
  pub retry_after : ℕ

-- rateLimited, for a wait that is not negative.
unfoldable pub rate_limited : String → ℕ → RateLimited
rate_limited surface wait =
    let secs = (wait + second - 1) / second in
    record { surface = surface; retry_after = if secs == 0 then 1 else secs }
