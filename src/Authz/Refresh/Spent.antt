-- ===== src/Authz/Refresh/Spent.antt =====
-- internal/authz/service.go: what the presentation of a spent refresh token does.
use agent_gm.Prelude.{
  ◌<◌, ◌≡◌, refl, true, false, Option, none, some, String, arith, leb, ltb, Bool-cases, inl, inr,
}
use agent_gm.Prelude.Rows.{first_where}
use agent_gm.Store.Write.{StoreError, ok, commits, write}
use agent_gm.Store.Credentials.{Token, Credentials, has_hash, spent, revoked, token_by_hash}
use agent_gm.Authz.Limits.{RateLimited}
use agent_gm.Authz.Cooldown.{Attempts, LimitSpec}
use agent_gm.Authz.Buckets.{Buckets, unauthenticated, allow}
use agent_gm.Authz.Session.{
  token_reused, refused, AuthRuntime, RefreshParams, RefreshEnv, FailureEnv, AuthzState,
  count_reuse, detect_reuse, revoke_family_tx, record_failure_of, read_with,
}
use agent_gm.Authz.Refresh.{refresh_session, with_bucket, with_check, with_row, check_with}
use agent_gm.Authz.Refresh.Stages.{presented, origin}

bucket_pass :
    (rt : AuthRuntime) (env : RefreshEnv) (p : RefreshParams) (source : String)
    (r : Option RateLimited × Buckets) (s : AuthzState)
    → r.0 ≡ none
    → with_bucket rt env p source r s
      ≡ with_check rt env p source
          (check_with env.check_error env.check_now p.limit source s.attempts)
          (record s { buckets = r.1 })
unfolding with_bucket
bucket_pass rt env p source (none, b) s h = refl
bucket_pass rt env p source (some r, b) s h = cc

row_read :
    (o : Option StoreError) (hash : String) (c : Credentials) (row : Token)
    → o ≡ none
    → first_where (has_hash hash) c.tokens ≡ some row
    → read_with o (token_by_hash hash c) ≡ ok row
unfolding token_by_hash
row_read o hash c row h k = ground arith

pub record_failure_of-ok :
    (env : FailureEnv) (spec : LimitSpec) (source : String) (rows : Attempts)
    → env.failure_fate ≡ commits
    → env.global_fate ≡ commits
    → (record_failure_of env spec source rows).0 ≡ ok tt
unfolding record_failure_of write
record_failure_of-ok env spec source rows h k = elim (Bool-cases (ltb 0 spec.global)) [
  | inl global ↦ rw (h, global, k) refl
  | inr own ↦ rw (h, own) refl
]

detect_reuse-answer :
    (env : RefreshEnv) (p : RefreshParams) (source : String) (row : Token) (s : AuthzState)
    → env.tx_fate ≡ commits
    → env.failures.failure_fate ≡ commits
    → env.failures.global_fate ≡ commits
    → (detect_reuse env p source row s).answer ≡ refused token_reused
unfolding detect_reuse write revoke_family_tx count_reuse
detect_reuse-answer env p source row s t f g =
    rw t (rw (record_failure_of-ok env.failures p.limit source s.attempts f g) refl)

-- A spent refresh token, neither revoked nor expired, that gets past both limiters is answered as
-- reuse, when the store reads and commits. The constant-time comparison accepts the hash that the
-- primary key found.
pub refresh_session-spent :
    (rt : AuthRuntime) (env : RefreshEnv) (p : RefreshParams) (s : AuthzState) (row : Token)
    → (allow unauthenticated env.bucket_now (origin rt env p) s.buckets).0 ≡ none
    → check_with env.check_error env.check_now p.limit (origin rt env p) s.attempts ≡ none
    → env.lookup_error ≡ none
    → first_where (has_hash (presented rt env p)) s.credentials.tokens ≡ some row
    → rt.equal_hash (presented rt env p) row.token_hash ≡ true
    → revoked row ≡ false
    → env.now < row.expires_at_ms
    → spent row ≡ true
    → env.tx_fate ≡ commits
    → env.failures.failure_fate ≡ commits
    → env.failures.global_fate ≡ commits
    → (refresh_session rt env p s).answer ≡ refused token_reused
unfolding refresh_session with_check with_row
refresh_session-spent rt env p s row passed free readable found same live young used t f g =
    let e =
      bucket_pass rt env p (origin rt env p)
        (allow unauthenticated env.bucket_now (origin rt env p) s.buckets) s passed in
    let r = row_read env.lookup_error (presented rt env p) s.credentials row readable found in
    let y : leb row.expires_at_ms env.now ≡ false = ground arith in
    rw (e, free, r, same, live, y, used) (detect_reuse-answer env p (origin rt env p) row _ t f g)
