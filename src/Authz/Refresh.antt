-- ===== src/Authz/Refresh.antt =====
-- internal/authz/service.go: refreshSession, a function for each part between two early returns.
pub mod Stages
pub mod Reuse
pub mod Spent
pub mod Refused
pub mod Once
mod Tests
use agent_gm.Prelude.{
  ℕ, ◌+◌, ◌<◌, Bool, true, false, not, ◌&&◌, ◌||◌, Option, none, some, String, List, [], ◌∷◌, ltb,
  leb, min, str_eq, ◌==◌, if◌then◌else◌,
}
use agent_gm.Store.Write.{
  StoreError, token_not_found, authorization_not_found, Result, ok, err, Fate, write,
}
use agent_gm.Store.Credentials.{
  Authorization, AuthKind, admin_bootstrap, oauth, Token, TokenKind, access, refresh, Credentials,
  Tx, ◌>>=◌, ◌>>◌, return, authorization_revoked, spent, revoked, token_by_hash, authorization,
  token, set_authorization_scopes, revoke_authorization, insert_token, spend_token,
  revoke_token_family, revoke_tokens_for_authorization, append_audit,
}
use agent_gm.Authz.Limits.{RateLimited}
use agent_gm.Authz.Buckets.{Buckets, unauthenticated, allow}
use agent_gm.Authz.Cooldown.{Attempts, LimitSpec, check, count_against, global_source}
use agent_gm.Authz.Scopes.{
  ScopeSet, TextRuntime, parse_scopes, parse_scope_string, to_string, is_empty, widens, equal,
}
use agent_gm.Authz.Session.{
  is_past, AuthError, AuthRuntime, RefreshParams, RefreshEnv, AuthzState, RefreshRun, refuse,
  normalize_source, same_kind, read_with, record_refresh_failure, detect_reuse, token_unknown,
  token_expired, token_revoked, invalid_scope, limited, store_failed, entropy_failed,
}
use agent_gm.Authz.Rotation.{next_scopes, new_session, rotate}

with_values :
    AuthRuntime
    → RefreshEnv
    → RefreshParams
    → String
    → String
    → Authorization
    → ScopeSet
    → ScopeSet × Bool
    → ℕ × ℕ
    → Option String
    → Option String
    → AuthzState
    → RefreshRun
with_values rt env p source hash a minted next ttls (some v) (some w) s =
    rotate rt env p source hash (new_session env a minted next ttls v w) s
with_values rt env p source hash a minted next ttls (some v) none s = refuse entropy_failed s
with_values rt env p source hash a minted next ttls none w s = refuse entropy_failed s

with_lifetimes :
    AuthRuntime
    → RefreshEnv
    → RefreshParams
    → String
    → String
    → Authorization
    → ScopeSet
    → ScopeSet × Bool
    → Result (ℕ × ℕ)
    → AuthzState
    → RefreshRun
with_lifetimes rt env p source hash a minted next (err e) s = refuse (store_failed e) s
with_lifetimes rt env p source hash a minted next (ok ttls) s =
    with_values rt env p source hash a minted next ttls env.access_value env.refresh_value s

with_next :
    AuthRuntime
    → RefreshEnv
    → RefreshParams
    → String
    → String
    → Authorization
    → ScopeSet
    → Option (ScopeSet × Bool)
    → AuthzState
    → RefreshRun
with_next rt env p source hash a minted none s = refuse invalid_scope s
with_next rt env p source hash a minted (some next) s =
    with_lifetimes rt env p source hash a minted next env.lifetimes s

with_scopes :
    AuthRuntime
    → RefreshEnv
    → RefreshParams
    → String
    → String
    → Authorization
    → Option ScopeSet
    → Option ScopeSet
    → AuthzState
    → RefreshRun
with_scopes rt env p source hash a (some current) (some minted) s =
    with_next rt env p source hash a minted (next_scopes rt p.requested_scopes current minted) s
with_scopes rt env p source hash a none minted s = refuse invalid_scope s
with_scopes rt env p source hash a (some current) none s = refuse invalid_scope s

with_authorization :
    AuthRuntime
    → RefreshEnv
    → RefreshParams
    → String
    → String
    → Result Authorization
    → AuthzState
    → RefreshRun
with_authorization rt env p source hash (err e) s = refuse (store_failed e) s
with_authorization rt env p source hash (ok a) s =
    if not (same_kind a.kind p.kind)
    then record_refresh_failure env p source p.wrong_kind s
    else if not (str_eq p.client_id "") && not (str_eq a.client p.client_id)
    then record_refresh_failure env p source p.wrong_kind s
    else if authorization_revoked a
    then record_refresh_failure env p source token_revoked s
    else if is_past env.now a.expires_at_ms
    then record_refresh_failure env p source token_expired s
    else with_scopes rt env p source hash a (parse_scope_string rt.text a.scopes)
        (parse_scope_string rt.text a.minted_scopes) s

abbrev seen : (Credentials → Credentials) → AuthzState → AuthzState
seen f s = record s { credentials = f s.credentials }

with_row :
    AuthRuntime
    → RefreshEnv
    → RefreshParams
    → String
    → String
    → Result Token
    → AuthzState
    → RefreshRun
unfolding authorization
with_row rt env p source hash (err token_not_found) s =
    record_refresh_failure env p source token_unknown s
with_row rt env p source hash (err e) s = refuse (store_failed e) s
with_row rt env p source hash (ok row) s =
    if not (rt.equal_hash hash row.token_hash)
    then record_refresh_failure env p source token_unknown s
    else if revoked row
    then record_refresh_failure env p source token_revoked s
    else if leb row.expires_at_ms env.now
    then record_refresh_failure env p source token_expired s
    else if spent row
    then detect_reuse env p source row s
    else with_authorization rt env p source hash
        (read_with env.authorization_error
          (authorization row.authorization_id (env.before_authorization s.credentials)))
        (seen env.before_authorization s)

with_check :
    AuthRuntime → RefreshEnv → RefreshParams → String → Option AuthError → AuthzState → RefreshRun
with_check rt env p source (some e) s = refuse e s
with_check rt env p source none s =
    let hash = rt.token_hash refresh p.presented_token in
    with_row rt env p source hash (read_with env.lookup_error (token_by_hash hash s.credentials)) s

-- DurableLimiter.Check, with the error of its reads.
unfoldable pub check_with : Option StoreError → ℕ → LimitSpec → String → Attempts → Option AuthError
unfolding check
check_with failed now spec source rows = elim failed [
  | some e ↦ some (store_failed e)
  | none ↦ elim (check spec now source rows) [ none ↦ none | some r ↦ some (limited r) ]
]

with_bucket :
    AuthRuntime
    → RefreshEnv
    → RefreshParams
    → String
    → Option RateLimited × Buckets
    → AuthzState
    → RefreshRun
with_bucket rt env p source (some r, b) s = refuse (limited r) (record s { buckets = b })
with_bucket rt env p source (none, b) s =
    with_check rt env p source (check_with env.check_error env.check_now p.limit source s.attempts)
      (record s { buckets = b })

pub refresh_session : AuthRuntime → RefreshEnv → RefreshParams → AuthzState → RefreshRun
refresh_session rt env p s =
    let source = normalize_source rt p.source in
    with_bucket rt env p source (allow unauthenticated env.bucket_now source s.buckets) s
