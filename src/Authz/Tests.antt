-- ===== src/Authz/Tests.antt =====
-- internal/authz/limits_test.go and scopes_test.go: the limiters and the scopes at concrete values.
use agent_gm.Prelude.{
  ℕ, ◌+◌, ◌-◌, ◌*◌, ◌^◌, ◌≤◌, ◌≡◌, refl, ◌≢◌, min, true, false, some, String, List, [], ◌∷◌, arith,
  eq_iff,
}
use agent_gm.Authz.Limits.{RateLimited}
use agent_gm.Authz.Buckets as Buckets
use agent_gm.Authz.Buckets.Rate.{Requests, Within, admitted, admitted_rate}
use agent_gm.Authz.Concurrency as Concurrency
use agent_gm.Authz.Concurrency.Slots.{IsExact, run-IsExact}
use agent_gm.Authz.Cooldown.{
  limit_admin_secret, cooldown_for, check, record_failure, attempt_row, global_source,
}
use agent_gm.Authz.Cooldown.Escalation.{fail_all, cooldown_for-eq, check-fail_all}
use agent_gm.Authz.Scopes.{to_string, parse_scope_string}
use agent_gm.Authz.Scopes.Words.{held, runtime, runtime-IsLawful}
use agent_gm.Authz.Scopes.Narrowing.{parse_scope_string-to_string}

abbrev two_writes : Requests
two_writes =
    (1000, Buckets.mutations, "authz_1")
    ∷ (1500, Buckets.reads, "authz_1")
    ∷ (2000, Buckets.mutations, "authz_1")
    ∷ []

two_writes-Within : Within 0 5000 two_writes
two_writes-Within = (omega arith, (omega arith, (omega arith, omega arith)))

admitted_rate_example :
    admitted Buckets.mutations "authz_1" [] two_writes * Buckets.token
    ≤ (Buckets.spec_of Buckets.mutations).burst * Buckets.token
      + (5000 - 0) * (Buckets.spec_of Buckets.mutations).per_minute
admitted_rate_example =
    admitted_rate Buckets.mutations "authz_1" 0 5000 two_writes [] two_writes-Within

abbrev uploads : List Concurrency.Event
uploads =
    Concurrency.acquires "authz_1"
    ∷ Concurrency.acquires "authz_2"
    ∷ Concurrency.releases 0
    ∷ Concurrency.releases 0
    ∷ []

run-IsExact_example :
    IsExact Concurrency.concurrency_uploads
      (Concurrency.run Concurrency.concurrency_uploads Concurrency.new_pool uploads)
run-IsExact_example = run-IsExact Concurrency.concurrency_uploads uploads

cooldown_for-eq_example :
    cooldown_for limit_admin_secret (3 + 1)
    ≡ min limit_admin_secret.max_cooldown (limit_admin_secret.base_cooldown * 2 ^ 3)
cooldown_for-eq_example = cooldown_for-eq limit_admin_secret 3 (omega arith)

abbrev address : String
address = "192.0.2.7"

address_own : address ≢ global_source
address_own = ground (arith, eq_iff address global_source)

abbrev wrong : List ℕ
wrong = 2000 ∷ 3000 ∷ 4000 ∷ []

check-fail_all_example :
    (wait : RateLimited) × (check limit_admin_secret 6000 address (
        record_failure limit_admin_secret 5000 address (
          fail_all limit_admin_secret address address_own wrong
            (record_failure limit_admin_secret 1000 address [])))
      ≡ some wait)
unfolding attempt_row
check-fail_all_example =
    check-fail_all limit_admin_secret address address_own 1000 wrong 5000 6000 [] (omega arith)
      (omega arith) (omega arith) refl (omega arith, (omega arith, (omega arith, tt))) (omega arith)
      (omega arith) (omega arith)

parse_scope_string-to_string_example :
    parse_scope_string runtime (to_string runtime (held false true true false))
    ≡ some (held false true true false)
parse_scope_string-to_string_example =
    parse_scope_string-to_string runtime (held false true true false) runtime-IsLawful
