-- ===== src/Authz/Cooldown.antt =====
-- internal/authz/limits.go: the durable limiter's rule, and internal/store/authz.go: its rows. Times
-- and durations are milliseconds, which the windows and cooldowns are whole numbers of.
pub mod Escalation
use agent_gm.Prelude.{
  ℕ, zero, suc, ◌+◌, ◌-◌, ◌*◌, Bool, true, false, not, ◌&&◌, ◌||◌, Option, none, some, String, List,
  [], ◌∷◌, ltb, leb, ◌==◌, str_eq, if◌then◌else◌,
}
use agent_gm.Authz.Limits.{RateLimited, rate_limited}

pub record Attempt : Type 0 where
  pub window_start_ms : ℕ
  pub failures : ℕ
  pub cooldown_steps : ℕ
  pub cooldown_until_ms : ℕ

abbrev pub no_attempt : Attempt
no_attempt = record { window_start_ms = 0; failures = 0; cooldown_steps = 0; cooldown_until_ms = 0 }

pub record LimitSpec : Type 0 where
  pub kind : String
  pub surface : String
  pub per_source : ℕ
  pub global : ℕ
  pub window : ℕ
  pub base_cooldown : ℕ
  pub max_cooldown : ℕ

abbrev pub limit_admin_secret : LimitSpec
limit_admin_secret = record {
  kind = "admin_secret";
  surface = "admin_secret";
  per_source = 5;
  global = 20;
  window = 900000;
  base_cooldown = 60000;
  max_cooldown = 86400000;
}

abbrev pub limit_refresh_token : LimitSpec
limit_refresh_token = record {
  kind = "refresh_token";
  surface = "refresh_token";
  per_source = 30;
  global = 0;
  window = 900000;
  base_cooldown = 60000;
  max_cooldown = 86400000;
}

abbrev pub limit_oauth_token : LimitSpec
limit_oauth_token = record {
  kind = "oauth_token";
  surface = "oauth_token";
  per_source = 30;
  global = 0;
  window = 900000;
  base_cooldown = 60000;
  max_cooldown = 86400000;
}

-- The loop of cooldownFor: at most `steps - 1` doublings, and none from the cap on.
unfoldable pub doubled : ℕ → ℕ → ℕ → ℕ
doubled cap zero d = d
doubled cap (suc rounds) d = let rest = doubled cap rounds (d * 2) in if leb cap d then d else rest

unfoldable pub cooldown_for : LimitSpec → ℕ → ℕ
unfolding doubled
cooldown_for spec steps =
    let d = doubled spec.max_cooldown (steps - 1) spec.base_cooldown in
    if ltb spec.max_cooldown d || d == 0 then spec.max_cooldown else d

-- The window that a failure at `now` falls into: a new one where there is none, or the old one ran
-- out. The escalation starts over unless the source is cooling down.
unfoldable pub roll_window : ℕ → ℕ → Attempt → Attempt
roll_window now window a =
    if a.window_start_ms == 0 || leb (a.window_start_ms + window) now
    then record a {
      window_start_ms = now;
      failures = 0;
      cooldown_steps =
          if not (a.cooldown_until_ms == 0) && ltb now a.cooldown_until_ms
          then a.cooldown_steps
          else 0;
    }
    else a

count_failure : ℕ → LimitSpec → ℕ → Attempt → Attempt
unfolding cooldown_for
count_failure now spec limit a =
    let failures = a.failures + 1 in
    if ltb 0 limit && leb limit failures
    then record a {
      failures = failures;
      cooldown_steps = a.cooldown_steps + 1;
      cooldown_until_ms = now + cooldown_for spec (a.cooldown_steps + 1);
    }
    else record a { failures = failures }

unfoldable pub advance_attempt : Attempt → ℕ → LimitSpec → ℕ → Attempt
unfolding roll_window count_failure
advance_attempt a now spec limit = count_failure now spec limit (roll_window now spec.window a)

-- The rows of `oauth_attempts` of one kind, by source.
abbrev pub Attempts : Type 0
Attempts = List ((String × String) × Attempt)

abbrev same_row : String × String → String × String → Bool
same_row (kind, source) (kind', source') = str_eq kind kind' && str_eq source source'

unfoldable pub attempt_row : String → String → Attempts → Option Attempt
attempt_row kind source [] = none
attempt_row kind source ((k, a) ∷ rest) =
    if same_row k (kind, source) then some a else attempt_row kind source rest

-- INSERT ... ON CONFLICT DO UPDATE
unfoldable pub put_attempt : String → String → Attempt → Attempts → Attempts
put_attempt kind source a [] = ((kind, source), a) ∷ []
put_attempt kind source a ((k, old) ∷ rest) =
    if same_row k (kind, source) then (k, a) ∷ rest else (k, old) ∷ put_attempt kind source a rest

abbrev cools_down : ℕ → String → Option Attempt → Option RateLimited → Option RateLimited
cools_down now surface none next = next
cools_down now surface (some a) next =
    if not (a.cooldown_until_ms == 0) && ltb now a.cooldown_until_ms
    then some (rate_limited surface ((a.cooldown_until_ms - now) * 1000000))
    else next

abbrev pub global_source : String
global_source = "*global*"

-- DurableLimiter.Check, over rows that can be read.
unfoldable pub check : LimitSpec → ℕ → String → Attempts → Option RateLimited
unfolding attempt_row
check spec now source rows = cools_down now spec.surface (attempt_row spec.kind source rows) (
    if ltb 0 spec.global
    then cools_down now spec.surface (attempt_row spec.kind global_source rows) none
    else none)

abbrev row_or_new : Option Attempt → Attempt
row_or_new none = no_attempt
row_or_new (some a) = a

-- UpdateAttempt with advanceAttempt, when its transaction commits.
unfoldable pub count_against : LimitSpec → ℕ → ℕ → String → Attempts → Attempts
unfolding attempt_row put_attempt advance_attempt
count_against spec limit now source rows =
    put_attempt spec.kind source
      (advance_attempt (row_or_new (attempt_row spec.kind source rows)) now spec limit) rows

-- DurableLimiter.RecordFailure.
unfoldable pub record_failure : LimitSpec → ℕ → String → Attempts → Attempts
record_failure spec now source rows =
    let rows' = count_against spec spec.per_source now source rows in
    if ltb 0 spec.global then count_against spec spec.global now global_source rows' else rows'
