-- ===== src/Authz/Exchange/Replayed.antt =====
-- internal/authz/oauth.go: a code that is presented again, and a binding check that fails.
use agent_gm.Prelude.{
  ℕ, ◌+◌, ◌≤◌, ◌<◌, ◌≡◌, ◌≢◌, ◌∙◌, refl, subst, true, false, Option, none, some, String, arith, leb,
  str_eq, eq_iff, Bool-cases, inl, inr,
}
use agent_gm.Prelude.Rows.{first_where, count_where}
use agent_gm.Store.Write.{Result, ok, err, commits, write, write-ok}
use agent_gm.Store.Credentials.{Credentials, append_audit, return}
use agent_gm.Store.Credentials.Revoking.{IsStamped, Dead, revoked_all-Dead, after_ok, then_ok}
use agent_gm.Store.Codes.{
  AuthorizationCode, Grants, has_code_hash, consumed, consume_authorization_code, on_credentials,
  authorization_code_by_hash,
}
use agent_gm.Store.Codes.Consuming.{Taken, consume-Taken, consume-found, on_credentials-ok}
use agent_gm.Authz.Limits.{RateLimited}
use agent_gm.Authz.Buckets.{Buckets, unauthenticated, allow}
use agent_gm.Authz.Cooldown.{limit_oauth_token}
use agent_gm.Authz.Session.{AuthError, AuthRuntime, granted, refused, Session}
use agent_gm.Authz.Refresh.{check_with}
use agent_gm.Authz.Refresh.Spent.{record_failure_of-ok}
use agent_gm.Authz.Exchange.{
  CodeExchange, ExchangeEnv, ExchangeState, count_then, count_replay, count_burnt, bought,
  revoke_bought_tx, revoke_replayed, revoke_after_replay, burn, burn_tx, exchange_tx, grant_if_won,
  grant_tx, verdict, with_verdict, with_code, with_check, with_bucket, exchange_authorization_code,
}
use agent_gm.Authz.Exchange.Stages.{origin, at_bucket, Found}
use agent_gm.Authz.Exchange.Bought.{exchange-IsBought, exchange-shut, hash-found, not_raced}

-- Both limiters and the lookup let the request through.
pub record IsAdmitted (rt : AuthRuntime) (env : ExchangeEnv) (p : CodeExchange) (s : ExchangeState)
    : Type 0 where
  pub in_bucket : (allow unauthenticated env.bucket_now (origin rt env p) s.buckets).0 ≡ none
  pub not_cooling :
      check_with env.check_error env.check_now limit_oauth_token (origin rt env p) s.attempts ≡ none
  pub reads : env.lookup_error ≡ none

bucket_pass :
    (rt : AuthRuntime) (env : ExchangeEnv) (p : CodeExchange) (source : String)
    (r : Option RateLimited × Buckets) (s : ExchangeState)
    → r.0 ≡ none
    → with_bucket rt env p source r s
      ≡ with_check rt env p source
          (check_with env.check_error env.check_now limit_oauth_token source s.attempts)
          (record s { buckets = r.1 })
unfolding with_bucket
bucket_pass rt env p source (none, b) s h = refl
bucket_pass rt env p source (some r, b) s h = cc

code_read :
    (hash : String) (g : Grants) (code : AuthorizationCode)
    → first_where (has_code_hash hash) g.codes ≡ some code
    → authorization_code_by_hash hash g ≡ ok code
unfolding authorization_code_by_hash
code_read hash g code h = ground arith

module _ (rt : AuthRuntime) (env : ExchangeEnv) (p : CodeExchange) (s : ExchangeState) where
  abbrev admitted_state : ExchangeState
  admitted_state =
      at_bucket rt env p s (allow unauthenticated env.bucket_now (origin rt env p) s.buckets).1

  exchange-admitted :
      (code : AuthorizationCode)
      → IsAdmitted rt env p s
      → Found rt env p s code
      → exchange_authorization_code rt env p s
        ≡ with_code rt env p (origin rt env p) (ok code) admitted_state
  unfolding exchange_authorization_code with_check
  exchange-admitted code a found =
      bucket_pass rt env p (origin rt env p) _ s a.in_bucket
      ∙ rw a.not_cooling (rw a.reads (rw (code_read p.code_hash s.grants code found) refl))

revoke_bought_tx-Dead :
    (now : ℕ) (id source : String) (c c' : Credentials) (u : Unit {0})
    → 0 < now
    → IsStamped c
    → revoke_bought_tx now id source c ≡ ok (u, c')
    → Dead id c'
unfolding revoke_bought_tx
revoke_bought_tx-Dead now id source c c' u h v e =
    revoked_all-Dead now id c c' h v (ground arith) (ground arith)

count_replay-grants :
    (env : ExchangeEnv) (source : String) (s : ExchangeState) (r : Result (Unit {0}) × Grants)
    → (count_replay env source s r).state.grants ≡ r.1
unfolding count_replay count_then
count_replay-grants env source s (err e, g) = refl
count_replay-grants env source s (ok u, g) = refl

revoked_tx-ok :
    (env : ExchangeEnv) (source id : String) (g : Grants)
    → env.replay_fate ≡ commits
    → (write env.replay_fate (on_credentials (revoke_bought_tx env.replay_now id source)) g).0
      ≡ ok tt
unfolding write on_credentials revoke_bought_tx
revoked_tx-ok env source id g f = rw f refl

revoke_replayed-Dead :
    (env : ExchangeEnv) (source id : String) (s : ExchangeState)
    → 0 < env.replay_now
    → env.replay_fate ≡ commits
    → IsStamped (env.before_replay s.grants).credentials
    → Dead id (revoke_replayed env source (some id) s).state.grants.credentials
unfolding revoke_replayed
revoke_replayed-Dead env source id s h f v =
    let m = on_credentials (revoke_bought_tx env.replay_now id source) in
    let g = env.before_replay s.grants in
    rw (count_replay-grants env source s (write env.replay_fate m g)) (
      revoke_bought_tx-Dead env.replay_now id source g.credentials
        (write env.replay_fate m g).1.credentials tt h v
        (on_credentials-ok (revoke_bought_tx env.replay_now id source) g
          (write env.replay_fate m g).1 tt
          (write-ok env.replay_fate m g tt (revoked_tx-ok env source id g f))).1)

bought-some :
    (code : AuthorizationCode) (id : String)
    → id ≢ ""
    → code.authorization_id ≡ some id
    → bought code ≡ some id
bought-some code id full e = rw e (elim (Bool-cases (str_eq id "")) [
  | inl empty ↦ absurd (full ((eq_iff id "").0 empty))
  | inr set ↦ rw set refl
])

with_code-consumed :
    (rt : AuthRuntime) (env : ExchangeEnv) (p : CodeExchange) (s : ExchangeState)
    (code : AuthorizationCode) (id : String)
    → consumed code ≡ true
    → bought code ≡ some id
    → with_code rt env p (origin rt env p) (ok code) s
      ≡ revoke_replayed env (origin rt env p) (some id) s
unfolding with_code revoke_after_replay
with_code-consumed rt env p s code id used b = rw used (rw b refl)

exchange_tx-found :
    (rt : AuthRuntime) (env : ExchangeEnv) (source : String) (code : AuthorizationCode)
    (deadline : ℕ) (session : Session) (g g' : Grants)
    → 0 < env.tx_now
    → count_where (has_code_hash code.code_hash) g.codes ≤ 1
    → exchange_tx rt env source code deadline session g ≡ ok (false, g')
    → (left : AuthorizationCode) × (first_where (has_code_hash code.code_hash) g'.codes ≡ some left)
      × (consumed left ≡ true)
      × (left.authorization_id ≡ some session.authorization_id)
unfolding exchange_tx grant_if_won
exchange_tx-found rt env source code deadline session g g' h key e =
    let id = session.authorization_id in
    let (won, d, et, ek) =
      then_ok (consume_authorization_code env.tx_now code.code_hash (some id))
        (grant_if_won rt env source code deadline session) g g' false e in
    elim (Bool-cases won) [
      | inl w ↦
          let (u, d', eg, er) =
            after_ok (on_credentials (grant_tx rt env source code deadline session)) (return false)
              d g' false (rw w at ek) in
          let (same, kept) =
            on_credentials-ok (grant_tx rt env source code deadline session) d d' u eg in
          let last : d' ≡ g' = cc in
          let codes : g'.codes ≡ d.codes = rw last at same in
          let (left, found, used, bought) =
            consume-found env.tx_now code.code_hash id g d h key (rw w at et) in
          (left, rw codes found, used, bought)
      | inr lost ↦ absurd (not_raced d g' (rw lost at ek))
    ]

-- A replay of a code that was exchanged: the authorization that the first exchange created and every
-- token of it are revoked, in whatever state the replay finds the code as the first exchange left
-- it. The replay gets past both limiters, the store reads and commits, no two codes have one hash,
-- the clock reads past the epoch and so does each time that the replay's transaction finds.
pub exchange_authorization_code-replayed :
    (rt : AuthRuntime) (env env' : ExchangeEnv) (p p' : CodeExchange) (s s' : ExchangeState)
    (session : Session)
    → 0 < env.tx_now
    → 0 < env'.replay_now
    → p'.code_hash ≡ p.code_hash
    → session.authorization_id ≢ ""
    → count_where (has_code_hash p.code_hash) (env.before_tx s.grants).codes ≤ 1
    → (exchange_authorization_code rt env p s).answer ≡ granted session
    → first_where (has_code_hash p.code_hash) s'.grants.codes
      ≡ first_where
          (has_code_hash p.code_hash)
          (exchange_authorization_code rt env p s).state.grants.codes
    → IsAdmitted rt env' p' s'
    → IsStamped (env'.before_replay s'.grants).credentials
    → env'.replay_fate ≡ commits
    → Dead session.authorization_id
        (exchange_authorization_code rt env' p' s').state.grants.credentials
exchange_authorization_code-replayed rt env env' p p' s s' session h h' same full key first kept
      admitted v commits_ =
    let one = exchange-IsBought rt env p s session first in
    let named = hash-found p.code_hash s.grants one.code one.found in
    let (code, found, used, id) =
      exchange_tx-found rt env (origin rt env p) one.code (env.now + one.ttls.1) session
        (env.before_tx s.grants) _ h (rw named key) one.committed in
    let there : Found rt env' p' s' code = rw same (kept ∙ rw named at found) in
    let runs =
      exchange-admitted rt env' p' s' code admitted there
      ∙ with_code-consumed rt env' p' (admitted_state rt env' p' s') code session.authorization_id
          used (bought-some code session.authorization_id full id) in
    rw runs (
      revoke_replayed-Dead env' (origin rt env' p') session.authorization_id
        (admitted_state rt env' p' s') h' commits_ v)

burn_tx-Taken :
    (env : ExchangeEnv) (hash source : String) (g g' : Grants) (u : Unit {0})
    → burn_tx env.tx_now hash source g ≡ ok (u, g')
    → Taken hash g'
unfolding burn_tx
burn_tx-Taken env hash source g g' u e =
    let audit = append_audit env.tx_now "authorization.token_failed" "refused" "" source in
    let (won, d, et, ea) =
      after_ok (consume_authorization_code env.tx_now hash none) (on_credentials audit) g g' u e in
    let (same, kept) = on_credentials-ok audit d g' u ea in
    rw same (consume-Taken env.tx_now hash none g d won et)

count_burnt-grants :
    (env : ExchangeEnv) (source : String) (e : AuthError) (s : ExchangeState)
    (r : Result (Unit {0}) × Grants)
    → (count_burnt env source e s r).state.grants ≡ r.1
unfolding count_burnt count_then
count_burnt-grants env source e s (err x, g) = refl
count_burnt-grants env source e s (ok u, g) = refl

burnt_tx-ok :
    (env : ExchangeEnv) (hash source : String) (g : Grants)
    → env.tx_fate ≡ commits
    → (write env.tx_fate (burn_tx env.tx_now hash source) g).0 ≡ ok tt
unfolding write on_credentials burn_tx consume_authorization_code append_audit
burnt_tx-ok env hash source g f = rw f refl

burn-Taken :
    (env : ExchangeEnv) (source hash : String) (e : AuthError) (s : ExchangeState)
    → env.tx_fate ≡ commits
    → Taken hash (burn env source hash e s).state.grants
unfolding burn
burn-Taken env source hash e s f =
    let m = burn_tx env.tx_now hash source in
    let g = env.before_tx s.grants in
    rw (count_burnt-grants env source e s (write env.tx_fate m g)) (
      burn_tx-Taken env hash source g (write env.tx_fate m g).1 tt
        (write-ok env.tx_fate m g tt (burnt_tx-ok env hash source g f)))

count_burnt-answer :
    (env : ExchangeEnv) (source : String) (e : AuthError) (s : ExchangeState)
    (r : Result (Unit {0}) × Grants)
    → r.0 ≡ ok tt
    → env.failures.failure_fate ≡ commits
    → env.failures.global_fate ≡ commits
    → (count_burnt env source e s r).answer ≡ refused e
unfolding count_burnt count_then
count_burnt-answer env source e s (err x, g) h f k = cc
count_burnt-answer env source e s (ok u, g) h f k =
    rw (record_failure_of-ok env.failures limit_oauth_token source s.attempts f k) refl

burn-answer :
    (env : ExchangeEnv) (source hash : String) (e : AuthError) (s : ExchangeState)
    → env.tx_fate ≡ commits
    → env.failures.failure_fate ≡ commits
    → env.failures.global_fate ≡ commits
    → (burn env source hash e s).answer ≡ refused e
unfolding burn
burn-answer env source hash e s t f k =
    count_burnt-answer env source e s _ (burnt_tx-ok env hash source (env.before_tx s.grants) t) f k

with_code-burns :
    (rt : AuthRuntime) (env : ExchangeEnv) (p : CodeExchange) (s : ExchangeState)
    (code : AuthorizationCode) (e : AuthError)
    → consumed code ≡ false
    → leb code.expires_at_ms env.now ≡ false
    → verdict p.verify code ≡ some e
    → with_code rt env p (origin rt env p) (ok code) s
      ≡ burn env (origin rt env p) code.code_hash e s
unfolding with_code with_verdict
with_code-burns rt env p s code e fresh young bad = rw fresh (rw young (rw bad refl))

-- A binding check that fails on a live code is answered with its own refusal and burns the code: no
-- exchange of it is granted afterwards, as long as a code that is consumed stays so. The request gets
-- past both limiters, and the store reads and commits.
pub exchange_authorization_code-burns :
    (rt : AuthRuntime) (env env' : ExchangeEnv) (p p' : CodeExchange) (s s' : ExchangeState)
    (code : AuthorizationCode) (e : AuthError) (session' : Session)
    → IsAdmitted rt env p s
    → first_where (has_code_hash p.code_hash) s.grants.codes ≡ some code
    → consumed code ≡ false
    → leb code.expires_at_ms env.now ≡ false
    → verdict p.verify code ≡ some e
    → env.tx_fate ≡ commits
    → env.failures.failure_fate ≡ commits
    → env.failures.global_fate ≡ commits
    → p'.code_hash ≡ p.code_hash
    → (Taken p.code_hash (exchange_authorization_code rt env p s).state.grants
        → Taken p.code_hash (env'.before_tx s'.grants))
    → ((exchange_authorization_code rt env p s).answer ≡ refused e)
      × ((exchange_authorization_code rt env' p' s').answer ≢ granted session')
exchange_authorization_code-burns rt env env' p p' s s' code e session' a found fresh young bad t f
      k same keeps =
    let at = admitted_state rt env p s in
    let runs =
      exchange-admitted rt env p s code a found
      ∙ with_code-burns rt env p at code e fresh young bad in
    let named = hash-found p.code_hash s.grants code found in
    let taken : Taken p.code_hash (exchange_authorization_code rt env p s).state.grants = rw runs (
      subst (λ h. Taken h (burn env (origin rt env p) code.code_hash e at).state.grants) named
        (burn-Taken env (origin rt env p) code.code_hash e at t)) in
    (
      rw runs (burn-answer env (origin rt env p) code.code_hash e at t f k),
      exchange-shut rt env' p' s' session' (rw same (keeps taken)),
    )
