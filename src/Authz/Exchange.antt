-- ===== src/Authz/Exchange.antt =====
-- internal/authz/oauth.go: ExchangeAuthorizationCode, a function for each part between two early
-- returns, with the replay's revocation and the failures that it counts; internal/oauth/token.go: the
-- binding check that it is given. Times are milliseconds, but for the clock of the buckets. What
-- other goroutines do to the tables between two accesses is a function of the environment.
pub mod Stages
pub mod Bought
pub mod Replayed
mod Tests
use agent_gm.Prelude.{
  ℕ, ◌+◌, Bool, true, false, not, Option, none, some, String, leb, min, str_eq, if◌then◌else◌,
}
use agent_gm.Store.Write.{StoreError, authorization_code_not_found, Result, ok, err, Fate, write}
use agent_gm.Store.Credentials.{
  oauth, access, refresh, Tx, TxOn, ◌>>=◌, ◌>>◌, return, create_authorization, insert_token,
  revoke_authorization, revoke_tokens_for_authorization, append_audit,
}
use agent_gm.Store.Codes.{
  AuthorizationCode, Grants, consumed, authorization_code_by_hash, consume_authorization_code,
  on_credentials,
}
use agent_gm.Authz.Limits.{RateLimited}
use agent_gm.Authz.Buckets.{Buckets, unauthenticated, allow}
use agent_gm.Authz.Cooldown.{Attempts, LimitSpec, limit_oauth_token}
use agent_gm.Authz.Scopes.{ScopeSet, parse_scope_string, to_string, is_empty, has, admin}
use agent_gm.Authz.Session.{
  AuthError, grant_replayed, invalid_grant, invalid_scope, limited, store_failed, entropy_failed,
  Answer, granted, refused, AuthRuntime, FailureEnv, Session, normalize_source, read_with,
  record_failure_of, refusal_after,
}
use agent_gm.Authz.Refresh.{check_with}

-- hmac.Equal of two texts, and the unpadded base64url form of their SHA-256.
pub record BindingRuntime : Type 0 where
  pub equal : String → String → Bool
  pub s256 : String → String

-- What the token endpoint was sent, and the resource that it stands for.
pub record Presented : Type 0 where
  pub client_id : String
  pub redirect_uri : String
  pub verifier : String
  pub resource : String

unfoldable pub verify_pkce : BindingRuntime → String → String → Bool
verify_pkce bt verifier challenge = bt.equal (bt.s256 verifier) challenge

-- The Verify of grantAuthorizationCode.
unfoldable pub binding_check : BindingRuntime → Presented → AuthorizationCode → Option AuthError
unfolding verify_pkce
binding_check bt q code =
    if not (bt.equal q.client_id code.client_id)
    then some invalid_grant
    else if not (bt.equal q.redirect_uri code.redirect_uri)
    then some invalid_grant
    else if not (verify_pkce bt q.verifier code.code_challenge)
    then some invalid_grant
    else if not (str_eq code.resource q.resource)
    then some invalid_grant
    else none

pub record CodeExchange : Type 0 where
  pub code_hash : String
  pub source : String
  pub verify : Option (AuthorizationCode → Option AuthError)

-- What grantAuthorizationCode asks for.
abbrev pub endpoint : BindingRuntime → Presented → String → String → CodeExchange
endpoint bt q hash source = record {
  code_hash = hash;
  source = source;
  verify = some (binding_check bt q);
}

pub record ExchangeEnv : Type 0 where
  pub bucket_now : ℕ
  pub check_now : ℕ
  pub check_error : Option StoreError
  pub lookup_error : Option StoreError
  pub now : ℕ
  -- of the access token, of an idle session and of any session
  pub lifetimes : Result (ℕ × ℕ × ℕ)
  pub new_authorization_id : String
  pub new_family_id : String
  pub access_value : Option String
  pub refresh_value : Option String
  pub before_tx : Grants → Grants
  pub tx_now : ℕ
  pub tx_fate : Fate
  pub before_reread : Grants → Grants
  pub reread_error : Option StoreError
  pub before_replay : Grants → Grants
  pub replay_now : ℕ
  pub replay_fate : Fate
  pub failures : FailureEnv

pub record ExchangeState : Type 0 where
  pub grants : Grants
  pub attempts : Attempts
  pub buckets : Buckets

pub record ExchangeRun : Type 0 where
  pub answer : Answer Session
  pub state : ExchangeState

abbrev pub refuse : AuthError → ExchangeState → ExchangeRun
refuse e s = record { answer = refused e; state = s }

-- RecordFailure, and the answer that stands if it succeeds.
unfoldable pub count_then : ExchangeEnv → String → AuthError → ExchangeState → ExchangeRun
unfolding record_failure_of
count_then env source e s =
    let counted = record_failure_of env.failures limit_oauth_token source s.attempts in
    record { answer = refusal_after counted.0 e; state = record s { attempts = counted.1 } }

unfoldable pub audit_refusal :
    ExchangeEnv → String → AuthError → ExchangeState → Result (Unit {0}) × Attempts → ExchangeRun
unfolding write append_audit on_credentials
audit_refusal env source refusal s (err e, rows) =
    refuse (store_failed e) (record s { attempts = rows })
audit_refusal env source refusal s (ok u, rows) =
    let audited =
      write env.failures.audit_fate
        (on_credentials
          (append_audit env.failures.audit_now "authorization.token_failed" "refused" "" source))
        s.grants in
    record {
      answer = refusal_after audited.0 refusal;
      state = record s { attempts = rows; grants = audited.1 };
    }

unfoldable pub record_oauth_failure : ExchangeEnv → String → AuthError → ExchangeState → ExchangeRun
unfolding audit_refusal record_failure_of
record_oauth_failure env source refusal s =
    audit_refusal env source refusal s
      (record_failure_of env.failures limit_oauth_token source s.attempts)

unfoldable pub revoke_bought_tx : ℕ → String → String → Tx (Unit {0})
unfolding revoke_tokens_for_authorization revoke_authorization append_audit
revoke_bought_tx now id source =
    revoke_tokens_for_authorization now id
    >> revoke_authorization now id
    >> append_audit now "authorization.revoked" "refused" id source

unfoldable pub count_replay :
    ExchangeEnv → String → ExchangeState → Result (Unit {0}) × Grants → ExchangeRun
unfolding count_then
count_replay env source s (err e, g) = refuse (store_failed e) (record s { grants = g })
count_replay env source s (ok u, g) = count_then env source grant_replayed (record s { grants = g })

-- What the code bought, if it bought anything.
abbrev pub bought : AuthorizationCode → Option String
bought code = elim code.authorization_id [
  | none ↦ none
  | some id ↦ if str_eq id "" then none else some id
]

unfoldable pub revoke_replayed : ExchangeEnv → String → Option String → ExchangeState → ExchangeRun
unfolding write revoke_bought_tx count_replay count_then on_credentials
revoke_replayed env source none s = count_then env source grant_replayed s
revoke_replayed env source (some id) s = count_replay env source s (
    write env.replay_fate (on_credentials (revoke_bought_tx env.replay_now id source))
      (env.before_replay s.grants))

-- revokeAfterReplay
unfoldable pub revoke_after_replay :
    ExchangeEnv → String → AuthorizationCode → ExchangeState → ExchangeRun
unfolding revoke_replayed
revoke_after_replay env source code s = revoke_replayed env source (bought code) s

-- The code is consumed with the refusal.
unfoldable pub burn_tx : ℕ → String → String → TxOn Grants (Unit {0})
unfolding consume_authorization_code on_credentials append_audit
burn_tx now hash source =
    consume_authorization_code now hash none
    >> on_credentials (append_audit now "authorization.token_failed" "refused" "" source)

unfoldable pub count_burnt :
    ExchangeEnv → String → AuthError → ExchangeState → Result (Unit {0}) × Grants → ExchangeRun
unfolding count_then
count_burnt env source e s (err x, g) = refuse (store_failed x) (record s { grants = g })
count_burnt env source e s (ok u, g) = count_then env source e (record s { grants = g })

unfoldable pub burn : ExchangeEnv → String → String → AuthError → ExchangeState → ExchangeRun
unfolding write burn_tx count_burnt
burn env source hash e s =
    count_burnt env source e s
      (write env.tx_fate (burn_tx env.tx_now hash source) (env.before_tx s.grants))

-- The three rows of a grant, of the session that it is answered with.
unfoldable pub grant_tx :
    AuthRuntime → ExchangeEnv → String → AuthorizationCode → ℕ → Session → Tx (Unit {0})
unfolding create_authorization insert_token append_audit to_string
grant_tx rt env source code deadline session =
    create_authorization env.tx_now (record {
      id = session.authorization_id;
      kind = oauth;
      client = code.client_id;
      scopes = to_string rt.text session.scopes;
      minted_scopes = to_string rt.text session.scopes;
      secret_generation = "";
      source = source;
      revoked_at_ms = none;
      expires_at_ms = deadline;
      created_at_ms = env.now;
      updated_at_ms = 0;
    })
    >> insert_token env.tx_now (record {
      token_hash = rt.token_hash access session.access_token;
      authorization_id = session.authorization_id;
      kind = access;
      family_id = env.new_family_id;
      spent_at_ms = none;
      revoked_at_ms = none;
      expires_at_ms = session.access_expires_at;
      created_at_ms = 0;
    })
    >> insert_token env.tx_now (record {
      token_hash = rt.token_hash refresh session.refresh_token;
      authorization_id = session.authorization_id;
      kind = refresh;
      family_id = env.new_family_id;
      spent_at_ms = none;
      revoked_at_ms = none;
      expires_at_ms = session.refresh_expires_at;
      created_at_ms = 0;
    })
    >> append_audit env.tx_now "authorization.token_issued" "ok" session.authorization_id source

unfoldable pub grant_if_won :
    AuthRuntime → ExchangeEnv → String → AuthorizationCode → ℕ → Session → Bool → TxOn Grants Bool
unfolding grant_tx on_credentials
grant_if_won rt env source code deadline session won =
    if won
    then on_credentials (grant_tx rt env source code deadline session) >> return false
    else return true

-- The transaction of the exchange: true is `raced`.
unfoldable pub exchange_tx :
    AuthRuntime → ExchangeEnv → String → AuthorizationCode → ℕ → Session → TxOn Grants Bool
unfolding consume_authorization_code grant_if_won
exchange_tx rt env source code deadline session =
    consume_authorization_code env.tx_now code.code_hash (some session.authorization_id)
    >>= grant_if_won rt env source code deadline session

unfoldable pub reread :
    ExchangeEnv → String → Result AuthorizationCode → ExchangeState → ExchangeRun
unfolding record_oauth_failure revoke_after_replay
reread env source (err e) s = record_oauth_failure env source invalid_grant s
reread env source (ok fresh) s = revoke_after_replay env source fresh s

abbrev pub seen : (Grants → Grants) → ExchangeState → ExchangeState
seen f s = record s { grants = f s.grants }

unfoldable pub after_exchange :
    ExchangeEnv → String → String → Session → ExchangeState → Result Bool → ExchangeRun
unfolding reread authorization_code_by_hash
after_exchange env source hash session s (err e) = refuse (store_failed e) s
after_exchange env source hash session s (ok false) = record { answer = granted session; state = s }
after_exchange env source hash session s (ok true) =
    let s' = seen env.before_reread s in
    reread env source (read_with env.reread_error (authorization_code_by_hash hash s'.grants)) s'

-- From the session on.
unfoldable pub mint :
    AuthRuntime
    → ExchangeEnv
    → String
    → String
    → AuthorizationCode
    → ℕ
    → Session
    → ExchangeState
    → ExchangeRun
unfolding write exchange_tx after_exchange
mint rt env source hash code deadline session s =
    let done =
      write env.tx_fate (exchange_tx rt env source code deadline session)
        (env.before_tx s.grants) in
    after_exchange env source hash session (record s { grants = done.1 }) done.0

unfoldable pub session_of : ExchangeEnv → ScopeSet → ℕ × ℕ × ℕ → String → String → Session
session_of env scopes (access_ttl, idle_ttl, absolute_ttl) access_value refresh_value = record {
  authorization_id = env.new_authorization_id;
  access_token = access_value;
  refresh_token = refresh_value;
  scopes = scopes;
  minted_scopes = scopes;
  access_expires_at = env.now + access_ttl;
  refresh_expires_at = min (env.now + idle_ttl) (env.now + absolute_ttl);
  narrowed = false;
}

with_values :
    AuthRuntime
    → ExchangeEnv
    → String
    → String
    → AuthorizationCode
    → ScopeSet
    → ℕ × ℕ × ℕ
    → Option String
    → Option String
    → ExchangeState
    → ExchangeRun
unfolding session_of mint
with_values rt env source hash code scopes ttls (some v) (some w) s =
    mint rt env source hash code (env.now + ttls.1) (session_of env scopes ttls v w) s
with_values rt env source hash code scopes ttls (some v) none s = refuse entropy_failed s
with_values rt env source hash code scopes ttls none w s = refuse entropy_failed s

with_lifetimes :
    AuthRuntime
    → ExchangeEnv
    → String
    → String
    → AuthorizationCode
    → ScopeSet
    → Result (ℕ × ℕ × ℕ)
    → ExchangeState
    → ExchangeRun
unfolding with_values
with_lifetimes rt env source hash code scopes (err e) s = refuse (store_failed e) s
with_lifetimes rt env source hash code scopes (ok ttls) s =
    with_values rt env source hash code scopes ttls env.access_value env.refresh_value s

with_scopes :
    AuthRuntime
    → ExchangeEnv
    → String
    → String
    → AuthorizationCode
    → Option ScopeSet
    → ExchangeState
    → ExchangeRun
unfolding with_lifetimes is_empty has
with_scopes rt env source hash code none s = refuse invalid_scope s
with_scopes rt env source hash code (some scopes) s =
    if is_empty scopes
    then refuse invalid_grant s
    else if has scopes admin
    then refuse invalid_scope s
    else with_lifetimes rt env source hash code scopes env.lifetimes s

abbrev verdict :
    Option (AuthorizationCode → Option AuthError) → AuthorizationCode → Option AuthError
verdict none code = none
verdict (some verify) code = verify code

with_verdict :
    AuthRuntime
    → ExchangeEnv
    → String
    → String
    → AuthorizationCode
    → Option AuthError
    → ExchangeState
    → ExchangeRun
unfolding burn with_scopes parse_scope_string
with_verdict rt env source hash code (some e) s = burn env source code.code_hash e s
with_verdict rt env source hash code none s =
    with_scopes rt env source hash code (parse_scope_string rt.text code.scopes) s

with_code :
    AuthRuntime
    → ExchangeEnv
    → CodeExchange
    → String
    → Result AuthorizationCode
    → ExchangeState
    → ExchangeRun
unfolding record_oauth_failure revoke_after_replay consumed with_verdict
with_code rt env p source (err authorization_code_not_found) s =
    record_oauth_failure env source invalid_grant s
with_code rt env p source (err e) s = refuse (store_failed e) s
with_code rt env p source (ok code) s =
    if consumed code
    then revoke_after_replay env source code s
    else if leb code.expires_at_ms env.now
    then record_oauth_failure env source invalid_grant s
    else with_verdict rt env source p.code_hash code (verdict p.verify code) s

with_check :
    AuthRuntime
    → ExchangeEnv
    → CodeExchange
    → String
    → Option AuthError
    → ExchangeState
    → ExchangeRun
unfolding with_code authorization_code_by_hash
with_check rt env p source (some e) s = refuse e s
with_check rt env p source none s =
    with_code rt env p source
      (read_with env.lookup_error (authorization_code_by_hash p.code_hash s.grants)) s

with_bucket :
    AuthRuntime
    → ExchangeEnv
    → CodeExchange
    → String
    → Option RateLimited × Buckets
    → ExchangeState
    → ExchangeRun
unfolding with_check check_with
with_bucket rt env p source (some r, b) s = refuse (limited r) (record s { buckets = b })
with_bucket rt env p source (none, b) s =
    with_check rt env p source
      (check_with env.check_error env.check_now limit_oauth_token source s.attempts)
      (record s { buckets = b })

unfoldable pub exchange_authorization_code :
    AuthRuntime → ExchangeEnv → CodeExchange → ExchangeState → ExchangeRun
unfolding with_bucket allow
exchange_authorization_code rt env p s =
    let source = normalize_source rt p.source in
    with_bucket rt env p source (allow unauthenticated env.bucket_now source s.buckets) s
