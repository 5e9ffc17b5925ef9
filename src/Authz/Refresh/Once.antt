-- ===== src/Authz/Refresh/Once.antt =====
-- internal/authz/service.go: a refresh token is redeemed once, and a session is never widened.
use agent_gm.Prelude.{
  ◌<◌, ◌≡◌, ◌≢◌, refl, subst, Bool, true, false, not, ◌||◌, Option, none, some, String, List, [],
  ◌∷◌, arith, Bool-cases, inl, inr, ◌⊎◌,
}
use agent_gm.Prelude.Rows.{first_where}
use agent_gm.Store.Write.{Result, ok, err, write, write-ok}
use agent_gm.Store.Credentials.{Authorization, Token, refresh, Credentials, has_auth_id}
use agent_gm.Store.Credentials.Revoking.{IsStamped, UsedUp}
use agent_gm.Authz.Scopes.{ScopeSet, subset, widens, is_empty, parse_scope_string}
use agent_gm.Authz.Scopes.Narrowing.{subset_refl}
use agent_gm.Authz.Cooldown.{Attempts}
use agent_gm.Authz.Session.{
  AuthError, token_reused, granted, refused, Answer, AuthRuntime, RefreshParams, RefreshEnv,
  AuthzState, RefreshRun, Session, record_refresh_failure, detect_reuse, audit_failure, count_reuse,
  refusal_after, record_failure_of, revoke_family_tx,
}
use agent_gm.Authz.Rotation.{
  rotate, rotate_tx, rotation_of, answer_of, new_session, next_of, next_scopes,
}
use agent_gm.Authz.Rotation.Redeeming.{rotate_tx-UsedUp, rotate_tx-refuses}
use agent_gm.Authz.Refresh.{refresh_session}
use agent_gm.Authz.Refresh.Stages.{IsSessionOf, presented, origin, refresh_session-end}

refusal_after-granted :
    (r : Result (Unit {0})) (e : AuthError) (session : Session)
    → refusal_after r e ≢ granted session
refusal_after-granted (ok u) e session h = cc
refusal_after-granted (err x) e session h = cc

audit_failure-granted :
    (env : RefreshEnv) (p : RefreshParams) (source : String) (e : AuthError) (s : AuthzState)
    (r : Result (Unit {0}) × Attempts) (session : Session)
    → (audit_failure env p source e s r).answer ≢ granted session
unfolding audit_failure
audit_failure-granted env p source e s (err x, rows) session h = cc
audit_failure-granted env p source e s (ok u, rows) session h = refusal_after-granted _ e session h

failure-granted :
    (env : RefreshEnv) (p : RefreshParams) (source : String) (e : AuthError) (s : AuthzState)
    (session : Session)
    → (record_refresh_failure env p source e s).answer ≢ granted session
unfolding record_refresh_failure
failure-granted env p source e s session h =
    audit_failure-granted env p source e s
      (record_failure_of env.failures p.limit source s.attempts) session h

count_reuse-granted :
    (env : RefreshEnv) (p : RefreshParams) (source : String) (s : AuthzState)
    (r : Result (Unit {0}) × Credentials) (session : Session)
    → (count_reuse env p source s r).answer ≢ granted session
unfolding count_reuse
count_reuse-granted env p source s (err x, c) session h = cc
count_reuse-granted env p source s (ok u, c) session h =
    refusal_after-granted _ token_reused session h

reuse-granted :
    (env : RefreshEnv) (p : RefreshParams) (source : String) (row : Token) (s : AuthzState)
    (session : Session)
    → (detect_reuse env p source row s).answer ≢ granted session
unfolding detect_reuse
reuse-granted env p source row s session h =
    count_reuse-granted env p source s
      (write env.tx_fate (revoke_family_tx env.tx_now row.authorization_id row.family_id source)
        (env.before_tx s.credentials))
      session h

answer_of-granted :
    (made : Session) (r : Result Bool) (session : Session)
    → answer_of made r ≡ granted session
    → (r ≡ ok false) × (made ≡ session)
answer_of-granted made (err e) session h = cc
answer_of-granted made (ok true) session h = cc
answer_of-granted made (ok false) session h = (refl, cc)

refused_granted :
    (e : AuthError) (session : Session) → Path (Answer Session) (refused e) (granted session) → ⊥
refused_granted e session h = cc

-- A granted refresh is a committed rotation.
module _ (rt : AuthRuntime) (env : RefreshEnv) (p : RefreshParams) (s : AuthzState)
    (session : Session) where
  record IsRotation (r : RefreshRun) : Type 0 where
    a : Authorization
    row : Token
    from : IsSessionOf rt env p a session
    held :
        first_where
          (has_auth_id row.authorization_id)
          (env.before_authorization s.credentials).authorizations
        ≡ some a
    committed :
        rotate_tx env.tx_now p
          (presented rt env p)
          session.authorization_id
          (origin rt env p)
          (rotation_of rt session)
          (env.before_tx (env.before_authorization s.credentials))
        ≡ ok (false, r.state.credentials)

  refresh_session-IsRotation :
      p.wrong_kind ≢ token_reused
      → (refresh_session rt env p s).answer ≡ granted session
      → IsRotation (refresh_session rt env p s)
  unfolding rotate
  refresh_session-IsRotation own =
      refresh_session-end rt env p (λ r. r.answer ≡ granted session → IsRotation r) s
        (record {
          refuses = λ e s' other at h. absurd (refused_granted e session h);
          fails =
              λ e s' other at h. absurd (failure-granted env p (origin rt env p) e s' session h);
          reuses = λ row b found h. absurd (reuse-granted env p (origin rt env p) row _ session h);
          rotates = λ row a made b found held from h.
              let f =
                rotate_tx env.tx_now p (presented rt env p) made.authorization_id (origin rt env p)
                  (rotation_of rt made) in
              let c = env.before_tx (env.before_authorization s.credentials) in
              let (done, same) = answer_of-granted made (write env.tx_fate f c).0 session h in
              record {
                a = a;
                row = row;
                from = subst (λ x. IsSessionOf rt env p a x) same from;
                held = held;
                committed =
                    subst
                      (λ (x : Session).
                        rotate_tx env.tx_now p (presented rt env p) x.authorization_id
                          (origin rt env p) (rotation_of rt x) c
                        ≡ ok (false, (write env.tx_fate f c).1))
                      same (write-ok env.tx_fate f c false done);
              };
        })
        own

-- Two refreshes that present one token are not both granted, whatever else they ask for: not even if
-- the second read its row before the first was answered. It is taken that a token that is used up
-- when the first is answered is used up when the transaction of the second begins, that the clock
-- reads past the epoch and so does each time in the tables that the first transaction finds, and
-- that no refusal for the other kind of credential is that of reuse.
pub refresh_session-once :
    (rt : AuthRuntime) (env env' : RefreshEnv) (p p' : RefreshParams) (s s' : AuthzState)
    (session session' : Session)
    → p.wrong_kind ≢ token_reused
    → p'.wrong_kind ≢ token_reused
    → p'.presented_token ≡ p.presented_token
    → 0 < env.tx_now
    → IsStamped (env.before_tx (env.before_authorization s.credentials))
    → (refresh_session rt env p s).answer ≡ granted session
    → (UsedUp (presented rt env p) (refresh_session rt env p s).state.credentials
        → UsedUp (presented rt env p) (env'.before_tx (env'.before_authorization s'.credentials)))
    → (refresh_session rt env' p' s').answer ≢ granted session'
refresh_session-once rt env env' p p' s s' session session' own own' same now v first keeps second =
    let one = refresh_session-IsRotation rt env p s session own first in
    let two = refresh_session-IsRotation rt env' p' s' session' own' second in
    let c = env.before_tx (env.before_authorization s.credentials) in
    let c' = env'.before_tx (env'.before_authorization s'.credentials) in
    let gone =
      (rotate_tx-UsedUp env.tx_now p (presented rt env p) session.authorization_id (origin rt env p)
        (rotation_of rt session) c _ now v one.committed).0 in
    let gone' : UsedUp (rt.token_hash refresh p'.presented_token) c' = rw same (keeps gone) in
    rotate_tx-refuses env'.tx_now p' (presented rt env' p') session'.authorization_id
      (origin rt env' p') (rotation_of rt session') c' _ gone' two.committed

none-some : {A : Type 0} (x : A) → Path (Option A) none (some x) → ⊥
none-some x h = cc

not_wider : (e m c : Bool) → (e || not m || not c) ≡ false → (c ≡ true) × (m ≡ true)
not_wider e m c h = ground arith

pair_same : {A B : Type 0} {x y : A × B} → Path (Option (A × B)) (some x) (some y) → y.0 ≡ x.0
pair_same h = cc

next_of-subset :
    (current minted : ScopeSet) (o : Option ScopeSet) (next : ScopeSet × Bool)
    → next_of current minted o ≡ some next
    → (subset next.0 current ≡ true) × (subset next.0 minted ≡ true)
unfolding next_of widens
next_of-subset current minted none next h = cc
next_of-subset current minted (some req) next h =
    elim (Bool-cases (is_empty req || widens req minted || widens req current)) [
      | inl bad ↦ absurd (none-some next (rw bad at h))
      | inr good ↦
          let e = pair_same (rw good at h) in
          rw e (not_wider (is_empty req) (subset req minted) (subset req current) good)
    ]

next_scopes-subset :
    (rt : AuthRuntime) (l : List String) (current minted : ScopeSet) (next : ScopeSet × Bool)
    → next_scopes rt l current minted ≡ some next
    → (subset next.0 current ≡ true) × ((l ≡ []) ⊎ (subset next.0 minted ≡ true))
unfolding next_scopes
next_scopes-subset rt [] current minted next h = (rw (pair_same h) (subset_refl current), inl refl)
next_scopes-subset rt (r ∷ rest) current minted next h =
    let (a, b) = next_of-subset current minted _ next h in (a, inr b)

-- A granted refresh never widens its session: its scopes are among those of the authorization that
-- it read for the session, and among the minted ones too, unless it asked for none. The refusal for
-- the other kind of credential is not that of reuse.
pub refresh_session-narrows :
    (rt : AuthRuntime) (env : RefreshEnv) (p : RefreshParams) (s : AuthzState) (session : Session)
    → p.wrong_kind ≢ token_reused
    → (refresh_session rt env p s).answer ≡ granted session
    → (a : Authorization) × (current : ScopeSet) × (row : Token) × (first_where
          (has_auth_id row.authorization_id)
          (env.before_authorization s.credentials).authorizations
        ≡ some a)
      × (session.authorization_id ≡ a.id)
      × (parse_scope_string rt.text a.scopes ≡ some current)
      × (parse_scope_string rt.text a.minted_scopes ≡ some session.minted_scopes)
      × (subset session.scopes current ≡ true)
      × ((p.requested_scopes ≡ []) ⊎ (subset session.scopes session.minted_scopes ≡ true))
unfolding new_session
refresh_session-narrows rt env p s session own first =
    let one = refresh_session-IsRotation rt env p s session own first in
    let from = one.from in
    let (ttls, v, w, made) = from.is_new in
    let (a, b) =
      next_scopes-subset rt p.requested_scopes from.current from.minted from.next from.follows in
    (
      one.a,
      from.current,
      one.row,
      one.held,
      rw made refl,
      from.holds,
      rw made from.held_first,
      rw made a,
      rw made b,
    )
