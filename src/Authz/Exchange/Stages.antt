-- ===== src/Authz/Exchange/Stages.antt =====
-- internal/authz/oauth.go: how an exchange ends, read off its stages.
use agent_gm.Prelude.{
  ℕ, ◌+◌, ◌≡◌, refl, true, false, Option, none, some, String, arith, leb, if-both,
}
use agent_gm.Prelude.Rows.{first_where}
use agent_gm.Store.Write.{StoreError, authorization_code_not_found, Result, ok, err}
use agent_gm.Store.Codes.{
  AuthorizationCode, Grants, has_code_hash, consumed, authorization_code_by_hash,
}
use agent_gm.Authz.Limits.{RateLimited}
use agent_gm.Authz.Buckets.{Buckets, unauthenticated, allow}
use agent_gm.Authz.Cooldown.{limit_oauth_token}
use agent_gm.Authz.Scopes.{ScopeSet, parse_scope_string, is_empty, has, admin}
use agent_gm.Authz.Session.{
  AuthError, invalid_grant, invalid_scope, limited, store_failed, entropy_failed, AuthRuntime,
  normalize_source, read_with,
}
use agent_gm.Authz.Refresh.{check_with}
use agent_gm.Authz.Exchange.{
  CodeExchange, ExchangeEnv, ExchangeState, ExchangeRun, refuse, record_oauth_failure,
  revoke_after_replay, burn, mint, session_of, with_values, with_lifetimes, with_scopes, verdict,
  with_verdict, with_code, with_check, with_bucket, exchange_authorization_code,
}

code-read :
    (o : Option StoreError) (hash : String) (g : Grants) (code : AuthorizationCode)
    → read_with o (authorization_code_by_hash hash g) ≡ ok code
    → first_where (has_code_hash hash) g.codes ≡ some code
unfolding authorization_code_by_hash
code-read o hash g code h = ground arith

module _ (rt : AuthRuntime) (env : ExchangeEnv) (p : CodeExchange) where
  abbrev pub origin : String
  origin = normalize_source rt p.source

  -- What an exchange has established once it mints.
  pub record IsGrantOf (code : AuthorizationCode) (scopes : ScopeSet) (ttls : ℕ × ℕ × ℕ)
      : Type 0 where
    pub fresh : consumed code ≡ false
    pub young : leb code.expires_at_ms env.now ≡ false
    pub bound : verdict p.verify code ≡ none
    pub holds : parse_scope_string rt.text code.scopes ≡ some scopes
    pub some_scope : is_empty scopes ≡ false
    pub no_admin : has scopes admin ≡ false
    pub lives : env.lifetimes ≡ ok ttls

  module _ (s : ExchangeState) where
    abbrev pub Found : AuthorizationCode → Type 0
    Found code = first_where (has_code_hash p.code_hash) s.grants.codes ≡ some code

    abbrev pub at_bucket : Buckets → ExchangeState
    at_bucket b = record s { buckets = b }

    -- What is to be shown of the five ways in which an exchange ends.
    pub record Ends (P : ExchangeRun → Type 0) : Type 0 where
      pub refuses : (e : AuthError) (b : Buckets) → P (refuse e (at_bucket b))
      pub fails :
          (e : AuthError) (b : Buckets) → P (record_oauth_failure env origin e (at_bucket b))
      pub replays :
          (code : AuthorizationCode) (b : Buckets)
          → Found code
          → consumed code ≡ true
          → P (revoke_after_replay env origin code (at_bucket b))
      pub burns :
          (code : AuthorizationCode) (e : AuthError) (b : Buckets)
          → Found code
          → verdict p.verify code ≡ some e
          → P (burn env origin code.code_hash e (at_bucket b))
      pub mints :
          (code : AuthorizationCode) (scopes : ScopeSet) (ttls : ℕ × ℕ × ℕ) (v w : String)
          (b : Buckets)
          → Found code
          → IsGrantOf code scopes ttls
          → P (
              mint rt env origin p.code_hash code
                (env.now + ttls.1)
                (session_of env scopes ttls v w)
                (at_bucket b))

    module _ (P : ExchangeRun → Type 0) (ends : Ends P) where
      values-end :
          (code : AuthorizationCode) (scopes : ScopeSet) (ttls : ℕ × ℕ × ℕ) (v w : Option String)
          (b : Buckets)
          → Found code
          → IsGrantOf code scopes ttls
          → P (with_values rt env origin p.code_hash code scopes ttls v w (at_bucket b))
      unfolding with_values
      values-end code scopes ttls (some v) (some w) b found g =
          ends.mints code scopes ttls v w b found g
      values-end code scopes ttls (some v) none b found g = ends.refuses entropy_failed b
      values-end code scopes ttls none w b found g = ends.refuses entropy_failed b

      lifetimes-end :
          (code : AuthorizationCode) (scopes : ScopeSet) (r : Result (ℕ × ℕ × ℕ)) (b : Buckets)
          → Found code
          → ((ttls : ℕ × ℕ × ℕ) → r ≡ ok ttls → IsGrantOf code scopes ttls)
          → P (with_lifetimes rt env origin p.code_hash code scopes r (at_bucket b))
      unfolding with_lifetimes
      lifetimes-end code scopes (err e) b found g = ends.refuses (store_failed e) b
      lifetimes-end code scopes (ok ttls) b found g =
          values-end code scopes ttls env.access_value env.refresh_value b found (g ttls refl)

      scopes-end :
          (code : AuthorizationCode) (o : Option ScopeSet) (b : Buckets)
          → Found code
          → consumed code ≡ false
          → leb code.expires_at_ms env.now ≡ false
          → verdict p.verify code ≡ none
          → parse_scope_string rt.text code.scopes ≡ o
          → P (with_scopes rt env origin p.code_hash code o (at_bucket b))
      unfolding with_scopes
      scopes-end code none b found fresh young bound holds = ends.refuses invalid_scope b
      scopes-end code (some scopes) b found fresh young bound holds =
          if-both P (is_empty scopes) _ _ (λ h. ends.refuses invalid_grant b)
            λ some_scope.
              if-both P (has scopes admin) _ _ (λ h. ends.refuses invalid_scope b)
                λ no_admin. lifetimes-end code scopes env.lifetimes b found λ ttls lives. record {
                  fresh = fresh;
                  young = young;
                  bound = bound;
                  holds = holds;
                  some_scope = some_scope;
                  no_admin = no_admin;
                  lives = lives;
                }

      verdict-end :
          (code : AuthorizationCode) (o : Option AuthError) (b : Buckets)
          → Found code
          → consumed code ≡ false
          → leb code.expires_at_ms env.now ≡ false
          → verdict p.verify code ≡ o
          → P (with_verdict rt env origin p.code_hash code o (at_bucket b))
      unfolding with_verdict
      verdict-end code (some e) b found fresh young bound = ends.burns code e b found bound
      verdict-end code none b found fresh young bound =
          scopes-end code _ b found fresh young bound refl

      code-end :
          (r : Result AuthorizationCode) (b : Buckets)
          → ((code : AuthorizationCode) → r ≡ ok code → Found code)
          → P (with_code rt env p origin r (at_bucket b))
      unfolding with_code
      code-end (err authorization_code_not_found) b found = ends.fails invalid_grant b
      code-end (err e) b found = ends.refuses (store_failed e) b
      code-end (ok code) b found =
          if-both P (consumed code) _ _ (λ used. ends.replays code b (found code refl) used)
            λ fresh.
              if-both P (leb code.expires_at_ms env.now) _ _ (λ old. ends.fails invalid_grant b)
                λ young. verdict-end code _ b (found code refl) fresh young refl

      check-end :
          (o : Option AuthError) (b : Buckets) → P (with_check rt env p origin o (at_bucket b))
      unfolding with_check
      check-end (some e) b = ends.refuses e b
      check-end none b = code-end _ b (code-read env.lookup_error p.code_hash s.grants)

      bucket-end : (r : Option RateLimited × Buckets) → P (with_bucket rt env p origin r s)
      unfolding with_bucket
      bucket-end (some r, b) = ends.refuses (limited r) b
      bucket-end (none, b) =
          check-end (check_with env.check_error env.check_now limit_oauth_token origin s.attempts) b

      pub exchange-end : P (exchange_authorization_code rt env p s)
      unfolding exchange_authorization_code
      exchange-end = bucket-end (allow unauthenticated env.bucket_now origin s.buckets)
