-- ===== src/Authz/Session.antt =====
-- internal/authz/service.go: what a refresh reads, answers and writes, with the failures that it counts
-- and the revocation of a family. Times are milliseconds, but for the clock of the buckets. What
-- other goroutines do to the tables between two statements of one refresh is a function of its
-- environment, and so are the fates of its writes.
use agent_gm.Prelude.{
  ◌&&◌, not, ◌==◌, leb, ℕ, Bool, true, false, Option, none, some, String, List, ltb, str_eq,
  if◌then◌else◌,
}
use agent_gm.Store.Write.{StoreError, Result, ok, err, Fate, write}
use agent_gm.Store.Credentials.{
  AuthKind, admin_bootstrap, oauth, Token, TokenKind, Credentials, Tx, ◌>>◌, revoke_authorization,
  revoke_token_family, revoke_tokens_for_authorization, append_audit,
}
use agent_gm.Authz.Limits.{RateLimited}
use agent_gm.Authz.Buckets.{Buckets}
use agent_gm.Authz.Cooldown.{Attempts, LimitSpec, count_against, global_source}
use agent_gm.Authz.Scopes.{ScopeSet, TextRuntime}

pub data AuthError : Type 0 where
  token_absent token_unknown token_expired token_revoked token_reused : AuthError
  invalid_scope invalid_grant grant_replayed : AuthError
  limited : RateLimited → AuthError
  store_failed : StoreError → AuthError
  -- crypto/rand fails
  entropy_failed : AuthError

pub data Answer (A : Type 0) : Type 0 where
  granted : A → Answer A
  refused : AuthError → Answer A

-- The strings package, tokenHash over the service's audience, and equalHashHex on the hex forms.
pub record AuthRuntime : Type 0 where
  pub text : TextRuntime
  pub token_hash : TokenKind → String → String
  pub equal_hash : String → String → Bool

pub record RefreshParams : Type 0 where
  pub presented_token : String
  pub requested_scopes : List String
  pub source : String
  pub kind : AuthKind
  pub limit : LimitSpec
  pub client_id : String
  pub audit_refreshed : String
  pub audit_narrowed : String
  pub audit_failed : String
  pub wrong_kind : AuthError

-- What the two transactions of RecordFailure and that of its audit row meet.
pub record FailureEnv : Type 0 where
  pub failure_now : ℕ
  pub failure_fate : Fate
  pub global_fate : Fate
  pub audit_fate : Fate
  pub audit_now : ℕ

-- The clock's readings, the errors and fates, the random values, the settings' lifetimes, and what
-- others do to the tables before each access after the first.
pub record RefreshEnv : Type 0 where
  pub bucket_now : ℕ
  pub check_now : ℕ
  -- the error that reading the attempts makes Check return
  pub check_error : Option StoreError
  pub lookup_error : Option StoreError
  pub now : ℕ
  pub before_authorization : Credentials → Credentials
  pub authorization_error : Option StoreError
  pub lifetimes : Result (ℕ × ℕ)
  pub access_value : Option String
  pub refresh_value : Option String
  pub before_tx : Credentials → Credentials
  pub tx_now : ℕ
  pub tx_fate : Fate
  pub failures : FailureEnv

pub record AuthzState : Type 0 where
  pub credentials : Credentials
  pub attempts : Attempts
  pub buckets : Buckets

pub record Session : Type 0 where
  pub authorization_id : String
  pub access_token : String
  pub refresh_token : String
  pub scopes : ScopeSet
  pub minted_scopes : ScopeSet
  pub access_expires_at : ℕ
  pub refresh_expires_at : ℕ
  pub narrowed : Bool

pub record RefreshRun : Type 0 where
  pub answer : Answer Session
  pub state : AuthzState

abbrev pub refuse : AuthError → AuthzState → RefreshRun
refuse e s = record { answer = refused e; state = s }

abbrev pub normalize_source : AuthRuntime → String → String
normalize_source rt source =
    if str_eq (rt.text.trim_space source) "" then "unknown" else rt.text.trim_space source

abbrev pub same_kind : AuthKind → AuthKind → Bool
same_kind admin_bootstrap admin_bootstrap = true
same_kind oauth oauth = true
same_kind _ _ = false

-- A read of the read pool.
abbrev pub read_with {ℓ} : {A : Type ℓ} → Option StoreError → Result A → Result A
read_with none r = r
read_with (some e) r = err e

-- The refusal that stands once a write succeeded.
abbrev pub refusal_after : Result (Unit {0}) → AuthError → Answer Session
refusal_after (ok u) e = refused e
refusal_after (err x) e = refused (store_failed x)

count_globally :
    FailureEnv → LimitSpec → Result (Unit {0}) × Attempts → Result (Unit {0}) × Attempts
unfolding write count_against
count_globally env spec (err e, rows) = (err e, rows)
count_globally env spec (ok u, rows) =
    if ltb 0 spec.global
    then write env.global_fate
        (λ r. ok (tt, count_against spec spec.global env.failure_now global_source r)) rows
    else (ok tt, rows)

-- RecordFailure with the fates of its two transactions.
unfoldable pub record_failure_of :
    FailureEnv → LimitSpec → String → Attempts → Result (Unit {0}) × Attempts
unfolding count_globally
record_failure_of env spec source rows = count_globally env spec (
    write env.failure_fate
      (λ r. ok (tt, count_against spec spec.per_source env.failure_now source r)) rows)

unfoldable pub audit_failure :
    RefreshEnv
    → RefreshParams
    → String
    → AuthError
    → AuthzState
    → Result (Unit {0}) × Attempts
    → RefreshRun
unfolding write append_audit
audit_failure env p source refusal s (err e, rows) =
    refuse (store_failed e) (record s { attempts = rows })
audit_failure env p source refusal s (ok u, rows) =
    let audited =
      write env.failures.audit_fate
        (append_audit env.failures.audit_now p.audit_failed "refused" "" source) s.credentials in
    record {
      answer = refusal_after audited.0 refusal;
      state = record s { attempts = rows; credentials = audited.1 };
    }

-- recordRefreshFailure
unfoldable pub record_refresh_failure :
    RefreshEnv → RefreshParams → String → AuthError → AuthzState → RefreshRun
unfolding audit_failure record_failure_of
record_refresh_failure env p source refusal s =
    audit_failure env p source refusal s (record_failure_of env.failures p.limit source s.attempts)

unfoldable pub revoke_family_tx : ℕ → String → String → String → Tx (Unit {0})
unfolding revoke_token_family revoke_authorization revoke_tokens_for_authorization append_audit
revoke_family_tx now authorization_id family_id source =
    revoke_token_family now family_id
    >> revoke_authorization now authorization_id
    >> revoke_tokens_for_authorization now authorization_id
    >> append_audit now "auth.refresh_token_reuse_detected" "refused" authorization_id source

unfoldable pub count_reuse :
    RefreshEnv → RefreshParams → String → AuthzState → Result (Unit {0}) × Credentials → RefreshRun
count_reuse env p source s (err e, c) = refuse (store_failed e) (record s { credentials = c })
count_reuse env p source s (ok u, c) =
    let counted = record_failure_of env.failures p.limit source s.attempts in
    record {
      answer = refusal_after counted.0 token_reused;
      state = record s { credentials = c; attempts = counted.1 };
    }

-- detectReuse
unfoldable pub detect_reuse : RefreshEnv → RefreshParams → String → Token → AuthzState → RefreshRun
unfolding write revoke_family_tx count_reuse
detect_reuse env p source row s = count_reuse env p source s (
    write env.tx_fate (revoke_family_tx env.tx_now row.authorization_id row.family_id source)
      (env.before_tx s.credentials))

-- An end that is set and has come.
abbrev pub is_past : ℕ → ℕ → Bool
is_past now expires = not (expires == 0) && leb expires now
