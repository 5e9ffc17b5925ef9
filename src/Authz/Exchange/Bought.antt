-- ===== src/Authz/Exchange/Bought.antt =====
-- internal/authz/oauth.go: what an exchange that is granted was given, and that it is the only one.
use agent_gm.Prelude.{
  ℕ, ◌+◌, ◌<◌, ◌≡◌, ◌≢◌, refl, sym, ap, subst, Bool, true, false, Option, none, some, String, arith,
  eq_iff, Bool-cases, inl, inr,
}
use agent_gm.Prelude.Rows.{first_where, first-where_holds}
use agent_gm.Store.Write.{Result, ok, err, write, write-ok}
use agent_gm.Store.Credentials.{return}
use agent_gm.Store.Credentials.Revoking.{then_ok, after_ok}
use agent_gm.Store.Codes.{
  AuthorizationCode, Grants, has_code_hash, consumed, consume_authorization_code, on_credentials,
  authorization_code_by_hash,
}
use agent_gm.Store.Codes.Consuming.{Taken, consume-Taken, consume-lost, on_credentials-ok}
use agent_gm.Authz.Cooldown.{Attempts}
use agent_gm.Authz.Scopes.{ScopeSet, parse_scope_string, is_empty, has, admin}
use agent_gm.Authz.Session.{
  AuthError, AuthRuntime, Answer, granted, refused, Session, refusal_after, read_with,
  grant_replayed,
}
use agent_gm.Authz.Exchange.{
  BindingRuntime, Presented, verify_pkce, binding_check, endpoint, CodeExchange, ExchangeEnv,
  ExchangeState, ExchangeRun, record_oauth_failure, audit_refusal, count_then, count_replay,
  count_burnt, revoke_replayed, bought, revoke_after_replay, burn, mint, session_of, reread,
  after_exchange, exchange_tx, grant_if_won, grant_tx, exchange_authorization_code, seen,
}
use agent_gm.Authz.Exchange.Stages.{origin, IsGrantOf, Found, at_bucket, exchange-end}

refusal_after-granted :
    (r : Result (Unit {0})) (e : AuthError) (session : Session)
    → refusal_after r e ≢ granted session
refusal_after-granted (ok u) e session h = cc
refusal_after-granted (err x) e session h = cc

refused_granted :
    (e : AuthError) (session : Session) → Path (Answer Session) (refused e) (granted session) → ⊥
refused_granted e session h = cc

module _ (env : ExchangeEnv) (source : String) (session : Session) where
  count_then-granted :
      (e : AuthError) (s : ExchangeState) → (count_then env source e s).answer ≢ granted session
  unfolding count_then
  count_then-granted e s h = refusal_after-granted _ e session h

  audit_refusal-granted :
      (e : AuthError) (s : ExchangeState) (r : Result (Unit {0}) × Attempts)
      → (audit_refusal env source e s r).answer ≢ granted session
  unfolding audit_refusal
  audit_refusal-granted e s (err x, rows) h = cc
  audit_refusal-granted e s (ok u, rows) h = refusal_after-granted _ e session h

  failure-granted :
      (e : AuthError) (s : ExchangeState)
      → (record_oauth_failure env source e s).answer ≢ granted session
  unfolding record_oauth_failure
  failure-granted e s h = audit_refusal-granted e s _ h

  count_replay-granted :
      (s : ExchangeState) (r : Result (Unit {0}) × Grants)
      → (count_replay env source s r).answer ≢ granted session
  unfolding count_replay
  count_replay-granted s (err x, g) h = cc
  count_replay-granted s (ok u, g) h = count_then-granted grant_replayed (record s { grants = g }) h

  replayed-granted :
      (o : Option String) (s : ExchangeState)
      → (revoke_replayed env source o s).answer ≢ granted session
  unfolding revoke_replayed
  replayed-granted none s h = count_then-granted grant_replayed s h
  replayed-granted (some id) s h = count_replay-granted s _ h

  replay-granted :
      (code : AuthorizationCode) (s : ExchangeState)
      → (revoke_after_replay env source code s).answer ≢ granted session
  unfolding revoke_after_replay
  replay-granted code s h = replayed-granted (bought code) s h

  count_burnt-granted :
      (e : AuthError) (s : ExchangeState) (r : Result (Unit {0}) × Grants)
      → (count_burnt env source e s r).answer ≢ granted session
  unfolding count_burnt
  count_burnt-granted e s (err x, g) h = cc
  count_burnt-granted e s (ok u, g) h = count_then-granted e (record s { grants = g }) h

  burn-granted :
      (hash : String) (e : AuthError) (s : ExchangeState)
      → (burn env source hash e s).answer ≢ granted session
  unfolding burn
  burn-granted hash e s h = count_burnt-granted e s _ h

  reread-granted :
      (r : Result AuthorizationCode) (s : ExchangeState)
      → (reread env source r s).answer ≢ granted session
  unfolding reread
  reread-granted (err e) s h = failure-granted _ s h
  reread-granted (ok fresh) s h = replay-granted fresh s h

  after_exchange-granted :
      (hash : String) (made : Session) (s : ExchangeState) (r : Result Bool)
      → (after_exchange env source hash made s r).answer ≡ granted session
      → (r ≡ ok false) × (made ≡ session) × ((after_exchange env source hash made s r).state ≡ s)
  unfolding after_exchange
  after_exchange-granted hash made s (err e) h = cc
  after_exchange-granted hash made s (ok false) h = (refl, cc, refl)
  after_exchange-granted hash made s (ok true) h = absurd (
      reread-granted
        (read_with env.reread_error
          (authorization_code_by_hash hash (seen env.before_reread s).grants))
        (seen env.before_reread s) h)

-- A granted exchange is a committed one.
module _ (rt : AuthRuntime) (env : ExchangeEnv) (p : CodeExchange) (s : ExchangeState)
    (session : Session) where
  pub record IsBought (r : ExchangeRun) : Type 0 where
    pub code : AuthorizationCode
    pub scopes : ScopeSet
    pub ttls : ℕ × ℕ × ℕ
    pub access_value : String
    pub refresh_value : String
    pub found : Found rt env p s code
    pub grants : IsGrantOf rt env p code scopes ttls
    pub made : session_of env scopes ttls access_value refresh_value ≡ session
    pub committed :
        exchange_tx rt env
          (origin rt env p)
          code
          (env.now + ttls.1)
          session
          (env.before_tx s.grants)
        ≡ ok (false, r.state.grants)

  pub exchange-IsBought :
      (exchange_authorization_code rt env p s).answer ≡ granted session
      → IsBought (exchange_authorization_code rt env p s)
  unfolding mint
  exchange-IsBought =
      exchange-end rt env p s (λ r. r.answer ≡ granted session → IsBought r)
        (record {
          refuses = λ e b h. absurd (refused_granted e session h);
          fails = λ e b h. absurd (failure-granted env (origin rt env p) session e _ h);
          replays =
              λ code b found used h. absurd (replay-granted env (origin rt env p) session code _ h);
          burns =
              λ code e b found bad h. absurd (burn-granted env (origin rt env p) session _ e _ h);
          mints = λ code scopes ttls v w b found g h.
              let made = session_of env scopes ttls v w in
              let f = exchange_tx rt env (origin rt env p) code (env.now + ttls.1) made in
              let c = env.before_tx s.grants in
              let (done, same, left) =
                after_exchange-granted env (origin rt env p) session p.code_hash made
                  (record (at_bucket rt env p s b) { grants = (write env.tx_fate f c).1 })
                  (write env.tx_fate f c).0 h in
              record {
                code = code;
                scopes = scopes;
                ttls = ttls;
                access_value = v;
                refresh_value = w;
                found = found;
                grants = g;
                made = same;
                committed = rw left (
                    subst
                      (λ (x : Session).
                        exchange_tx rt env (origin rt env p) code (env.now + ttls.1) x c
                        ≡ ok (false, (write env.tx_fate f c).1))
                      same (write-ok env.tx_fate f c false done));
              };
        })

pub not_raced : (d g' : Grants) → Path (Result (Bool × Grants)) (ok (true, d)) (ok (false, g')) → ⊥
not_raced d g' h = cc

-- A code that an exchange consumed is taken.
exchange_tx-Taken :
    (rt : AuthRuntime) (env : ExchangeEnv) (source : String) (code : AuthorizationCode)
    (deadline : ℕ) (session : Session) (g g' : Grants)
    → exchange_tx rt env source code deadline session g ≡ ok (false, g')
    → Taken code.code_hash g'
unfolding exchange_tx grant_if_won
exchange_tx-Taken rt env source code deadline session g g' e =
    let id = session.authorization_id in
    let (won, d, et, ek) =
      then_ok (consume_authorization_code env.tx_now code.code_hash (some id))
        (grant_if_won rt env source code deadline session) g g' false e in
    let taken = consume-Taken env.tx_now code.code_hash (some id) g d won et in
    elim (Bool-cases won) [
      | inl w ↦
          let (u, d', eg, er) =
            after_ok (on_credentials (grant_tx rt env source code deadline session)) (return false)
              d g' false (rw w at ek) in
          let (same, kept) =
            on_credentials-ok (grant_tx rt env source code deadline session) d d' u eg in
          let last : d' ≡ g' = cc in
          let there : Taken code.code_hash d' = rw same taken in rw last at there
      | inr lost ↦ absurd (not_raced d g' (rw lost at ek))
    ]

-- No exchange of a code that is taken is committed.
exchange_tx-refuses :
    (rt : AuthRuntime) (env : ExchangeEnv) (source : String) (code : AuthorizationCode)
    (deadline : ℕ) (session : Session) (g g' : Grants)
    → Taken code.code_hash g
    → exchange_tx rt env source code deadline session g ≢ ok (false, g')
unfolding exchange_tx grant_if_won
exchange_tx-refuses rt env source code deadline session g g' taken e =
    let id = session.authorization_id in
    let (won, d, et, ek) =
      then_ok (consume_authorization_code env.tx_now code.code_hash (some id))
        (grant_if_won rt env source code deadline session) g g' false e in
    let lost = consume-lost env.tx_now code.code_hash (some id) g d won taken et in
    not_raced d g' (rw lost at ek)

pub hash-found :
    (hash : String) (g : Grants) (code : AuthorizationCode)
    → first_where (has_code_hash hash) g.codes ≡ some code
    → code.code_hash ≡ hash
hash-found hash g code found =
    (eq_iff code.code_hash hash).0 (first-where_holds (has_code_hash hash) g.codes code found)

-- An exchange is not granted where the code is taken when its transaction begins.
pub exchange-shut :
    (rt : AuthRuntime) (env : ExchangeEnv) (p : CodeExchange) (s : ExchangeState)
    (session : Session)
    → Taken p.code_hash (env.before_tx s.grants)
    → (exchange_authorization_code rt env p s).answer ≢ granted session
exchange-shut rt env p s session taken h =
    let two = exchange-IsBought rt env p s session h in
    let e : two.code.code_hash ≡ p.code_hash = hash-found p.code_hash s.grants two.code two.found in
    exchange_tx-refuses rt env (origin rt env p) two.code (env.now + two.ttls.1) session
      (env.before_tx s.grants) _ (rw e taken) two.committed

-- Two exchanges of one code are not both granted, even if the second read the code before the first
-- was answered. It is taken that a code that is consumed when the first is answered is consumed when
-- the transaction of the second begins.
pub exchange_authorization_code-once :
    (rt : AuthRuntime) (env env' : ExchangeEnv) (p p' : CodeExchange) (s s' : ExchangeState)
    (session session' : Session)
    → p'.code_hash ≡ p.code_hash
    → (exchange_authorization_code rt env p s).answer ≡ granted session
    → (Taken p.code_hash (exchange_authorization_code rt env p s).state.grants
        → Taken p.code_hash (env'.before_tx s'.grants))
    → (exchange_authorization_code rt env' p' s').answer ≢ granted session'
exchange_authorization_code-once rt env env' p p' s s' session session' same first keeps second =
    let one = exchange-IsBought rt env p s session first in
    let taken =
      exchange_tx-Taken rt env (origin rt env p) one.code (env.now + one.ttls.1) session _ _
        one.committed in
    let there = keeps (rw (hash-found p.code_hash s.grants one.code one.found) at taken) in
    exchange-shut rt env' p' s' session' (rw same there) second

bound_by :
    (bt : BindingRuntime) (q : Presented) (code : AuthorizationCode)
    → binding_check bt q code ≡ none
    → (bt.equal q.client_id code.client_id ≡ true)
      × (bt.equal q.redirect_uri code.redirect_uri ≡ true)
      × (bt.equal (bt.s256 q.verifier) code.code_challenge ≡ true)
unfolding binding_check verify_pkce
bound_by bt q code h = ground arith

-- A session that an exchange of the token endpoint grants was bought by a code that was neither
-- consumed nor past its end, for the client and the redirect URI that the code is bound to, with a
-- verifier whose hash is the code's challenge; its scopes are those of the code, at least one and not admin. hmac.Equal accepts equal texts only.
pub exchange_authorization_code-bound :
    (rt : AuthRuntime) (env : ExchangeEnv) (bt : BindingRuntime) (q : Presented)
    (hash source : String) (s : ExchangeState) (session : Session)
    → ((x y : String) → bt.equal x y ≡ true → x ≡ y)
    → (exchange_authorization_code rt env (endpoint bt q hash source) s).answer ≡ granted session
    → (code : AuthorizationCode) × (first_where (has_code_hash hash) s.grants.codes ≡ some code)
      × (consumed code ≡ false)
      × (env.now < code.expires_at_ms)
      × (q.client_id ≡ code.client_id)
      × (q.redirect_uri ≡ code.redirect_uri)
      × (bt.s256 q.verifier ≡ code.code_challenge)
      × (parse_scope_string rt.text code.scopes ≡ some session.scopes)
      × (has session.scopes admin ≡ false)
      × (is_empty session.scopes ≡ false)
unfolding session_of binding_check verify_pkce
exchange_authorization_code-bound rt env bt q hash source s session lawful granted_ =
    let b = exchange-IsBought rt env (endpoint bt q hash source) s session granted_ in
    let g = b.grants in
    let e : session.scopes ≡ b.scopes = ap (λ (x : Session). x.scopes) (sym b.made) in
    let (client, uri, challenge) = bound_by bt q b.code g.bound in
    (
      b.code,
      b.found,
      g.fresh,
      ground arith,
      lawful _ _ client,
      lawful _ _ uri,
      lawful _ _ challenge,
      rw e g.holds,
      rw e g.no_admin,
      rw e g.some_scope,
    )
