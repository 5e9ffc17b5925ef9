-- ===== src/Authz/Refresh/Reuse.antt =====
-- internal/authz/service.go: a refresh token that is presented again.
use agent_gm.Prelude.{
  ◌<◌, ◌≡◌, ◌≢◌, refl, sym, ap, subst, ◌∙◌, Bool, true, false, Option, some, String, arith,
  Bool-cases, inl, inr, str_eq, eq_iff,
}
use agent_gm.Prelude.Rows.{first_where, first-where_holds, All-first_where}
use agent_gm.Store.Write.{StoreError, token_not_found, Result, ok, err, write, write-ok}
use agent_gm.Store.Credentials.{
  Authorization, Token, access, Credentials, has_hash, has_auth_id, revoked, token_by_hash,
}
use agent_gm.Store.Credentials.Revoking.{IsStamped, Dead, IsRevokedOf}
use agent_gm.Authz.Cooldown.{Attempts}
use agent_gm.Authz.Session.{
  AuthError, token_absent, token_reused, granted, refused, Answer, AuthRuntime, RefreshParams,
  RefreshEnv, AuthzState, RefreshRun, record_refresh_failure, record_failure_of, audit_failure,
  refusal_after, count_reuse, detect_reuse, revoke_family_tx, Session, read_with,
}
use agent_gm.Authz.Rotation.{rotate, rotate_tx, rotation_of, answer_of, new_session}
use agent_gm.Authz.Rotation.Redeeming.{revoke_family_tx-Dead, rotate_tx-Dead}
use agent_gm.Authz.Refresh.{refresh_session, seen}
use agent_gm.Authz.Refresh.Stages.{IsSessionOf, presented, origin, refresh_session-end}
use agent_gm.Authz.Bearer.{Bearer, BearerEnv, authenticate, of_token}

refusal_after-reused :
    (r : Result (Unit {0})) (e : AuthError)
    → refusal_after r e ≡ refused token_reused
    → e ≡ token_reused
refusal_after-reused (ok u) e h = cc
refusal_after-reused (err x) e h = cc

audit_failure-reused :
    (env : RefreshEnv) (p : RefreshParams) (source : String) (e : AuthError) (s : AuthzState)
    (r : Result (Unit {0}) × Attempts)
    → (audit_failure env p source e s r).answer ≡ refused token_reused
    → e ≡ token_reused
unfolding audit_failure
audit_failure-reused env p source e s (err x, rows) h = cc
audit_failure-reused env p source e s (ok u, rows) h = refusal_after-reused _ e h

pub record_refresh_failure-reused :
    (env : RefreshEnv) (p : RefreshParams) (source : String) (e : AuthError) (s : AuthzState)
    → (record_refresh_failure env p source e s).answer ≡ refused token_reused
    → e ≡ token_reused
unfolding record_refresh_failure
record_refresh_failure-reused env p source e s h =
    audit_failure-reused env p source e s (record_failure_of env.failures p.limit source s.attempts)
      h

count_reuse-reused :
    (env : RefreshEnv) (p : RefreshParams) (source : String) (s : AuthzState)
    (r : Result (Unit {0}) × Credentials)
    → (count_reuse env p source s r).answer ≡ refused token_reused
    → (r.0 ≡ ok tt) × ((count_reuse env p source s r).state.credentials ≡ r.1)
unfolding count_reuse
count_reuse-reused env p source s (err x, c) h = cc
count_reuse-reused env p source s (ok u, c) h = (refl, refl)

answer_of-reused :
    (session : Session) (r : Result Bool) → answer_of session r ≡ refused token_reused → r ≡ ok true
answer_of-reused session (err e) h = cc
answer_of-reused session (ok true) h = refl
answer_of-reused session (ok false) h = cc

refuse_injective :
    {A : Type 0} (e e' : AuthError) → Path (Answer A) (refused e) (refused e') → e ≡ e'
refuse_injective e e' h = cc

module _ (rt : AuthRuntime) (env : RefreshEnv) (p : RefreshParams) (s : AuthzState)
    (now : 0 < env.tx_now) where
  abbrev Kills : RefreshRun → Type 0
  Kills r =
      r.answer ≡ refused token_reused
      → (row : Token) × (first_where (has_hash (presented rt env p)) s.credentials.tokens
          ≡ some row)
        × Dead row.authorization_id r.state.credentials

  detect_reuse-Dead :
      (source : String) (row : Token) (s' : AuthzState)
      → IsStamped (env.before_tx s'.credentials)
      → (detect_reuse env p source row s').answer ≡ refused token_reused
      → Dead row.authorization_id (detect_reuse env p source row s').state.credentials
  unfolding detect_reuse
  detect_reuse-Dead source row s' v e =
      let f = revoke_family_tx env.tx_now row.authorization_id row.family_id source in
      let c = env.before_tx s'.credentials in
      let (done, left) = count_reuse-reused env p source s' (write env.tx_fate f c) e in
      rw left (
        revoke_family_tx-Dead env.tx_now row.authorization_id row.family_id source c _ tt now v
          (write-ok env.tx_fate f c tt done))

  rotate-Dead :
      (source hash : String) (session : Session) (s' : AuthzState)
      → IsStamped (env.before_tx s'.credentials)
      → (rotate rt env p source hash session s').answer ≡ refused token_reused
      → Dead session.authorization_id (rotate rt env p source hash session s').state.credentials
  unfolding rotate
  rotate-Dead source hash session s' v e =
      let f =
        rotate_tx env.tx_now p hash session.authorization_id source (rotation_of rt session) in
      let c = env.before_tx s'.credentials in
      rotate_tx-Dead env.tx_now p hash session.authorization_id source (rotation_of rt session) c _
        now v (write-ok env.tx_fate f c true (answer_of-reused session (write env.tx_fate f c).0 e))

  -- Where the session comes from the authorization that the token names, it is that one that dies.
  session_id :
      (row : Token) (a : Authorization) (session : Session) (c : Credentials)
      → first_where (has_auth_id row.authorization_id) c.authorizations ≡ some a
      → IsSessionOf rt env p a session
      → session.authorization_id ≡ row.authorization_id
  unfolding new_session
  session_id row a session c held from =
      let (ttls, v, w, made) = from.is_new in
      let named = first-where_holds (has_auth_id row.authorization_id) c.authorizations a held in
      rw made ((eq_iff a.id row.authorization_id).0 named)

  refresh_session-Kills :
      p.wrong_kind ≢ token_reused
      → IsStamped (env.before_tx s.credentials)
      → IsStamped (env.before_tx (env.before_authorization s.credentials))
      → Kills (refresh_session rt env p s)
  refresh_session-Kills own v v' =
      refresh_session-end rt env p Kills s
        (record {
          refuses = λ e s' other at h. absurd (other (refuse_injective e token_reused h));
          fails = λ e s' other at h.
              absurd (other (record_refresh_failure-reused env p (origin rt env p) e s' h));
          reuses = λ row b found h. (row, found, detect_reuse-Dead (origin rt env p) row _ v h);
          rotates = λ row a session b found held from h. (
            row,
            found,
            subst
                (λ id.
                  Dead id
                    (rotate rt env p (origin rt env p) (presented rt env p) session
                      (seen env.before_authorization (record s { buckets = b }))).state.credentials)
                (session_id row a session (env.before_authorization s.credentials) held from)
                (rotate-Dead (origin rt env p) (presented rt env p) session _ v' h),
          );
        })
        own

not_granted : (e : AuthError) (b : Bearer) → Path (Answer Bearer) (refused e) (granted b) → ⊥
not_granted e b h = cc

some_same : {A : Type 0} {x y : A} {o : Option A} → o ≡ some x → o ≡ some y → x ≡ y
some_same h k = cc

of_token-shut :
    (rt : AuthRuntime) (env : BearerEnv) (hash : String) (c : Credentials) (r : Result Token)
    (b : Bearer)
    → ((t : Token) → r ≡ ok t → revoked t ≡ true)
    → of_token rt env hash c r ≢ granted b
unfolding of_token
of_token-shut rt env hash c (err token_not_found) b dead h = cc
of_token-shut rt env hash c (err e) b dead h = cc
of_token-shut rt env hash c (ok t) b dead h = ground (arith, dead t refl)

token-read :
    (o : Option StoreError) (hash : String) (c : Credentials) (t : Token)
    → read_with o (token_by_hash hash c) ≡ ok t
    → first_where (has_hash hash) c.tokens ≡ some t
unfolding token_by_hash
token-read o hash c t h = ground arith

authenticate-shut :
    (rt : AuthRuntime) (env : BearerEnv) (value : String) (c : Credentials) (b : Bearer)
    → ((t : Token)
        → first_where (has_hash (rt.token_hash access value)) c.tokens ≡ some t
        → revoked t ≡ true)
    → authenticate rt env value c ≢ granted b
unfolding authenticate
authenticate-shut rt env value c b dead h =
    elim (Bool-cases (str_eq (rt.text.trim_space value) "")) [
      | inl empty ↦ absurd (not_granted token_absent b (rw empty at h))
      | inr present ↦
          let hash = rt.token_hash access value in
          of_token-shut rt env hash c (read_with env.lookup_error (token_by_hash hash c)) b
            (λ t e. dead t (token-read env.lookup_error hash c t e)) (rw present at h)
    ]

-- Once a refresh was answered as reuse, no bearer whose token belongs to the authorization of the
-- presented token authenticates on the tables that the refresh left. The clock reads past the epoch,
-- every time in the tables that the refresh's transaction finds is past it too, and the refusal for
-- the other kind of credential is not that of reuse.
pub refresh_session-reused :
    (rt : AuthRuntime) (env : RefreshEnv) (p : RefreshParams) (s : AuthzState) (row : Token)
    (benv : BearerEnv) (value : String) (t : Token) (b : Bearer)
    → 0 < env.tx_now
    → p.wrong_kind ≢ token_reused
    → IsStamped (env.before_tx s.credentials)
    → IsStamped (env.before_tx (env.before_authorization s.credentials))
    → first_where (has_hash (presented rt env p)) s.credentials.tokens ≡ some row
    → (refresh_session rt env p s).answer ≡ refused token_reused
    → first_where
        (has_hash (rt.token_hash access value))
        (refresh_session rt env p s).state.credentials.tokens
      ≡ some t
    → t.authorization_id ≡ row.authorization_id
    → authenticate rt benv value (refresh_session rt env p s).state.credentials ≢ granted b
refresh_session-reused rt env p s row benv value t b now own v v' found reused there same =
    let c = (refresh_session rt env p s).state.credentials in
    let (row', found', dead) = refresh_session-Kills rt env p s now own v v' reused in
    let own_row : row' ≡ row = some_same found' found in
    let same' : t.authorization_id ≡ row'.authorization_id =
      same ∙ ap (λ (x : Token). x.authorization_id) (sym own_row) in
    authenticate-shut rt benv value c b λ t' there'.
      let e : t' ≡ t = some_same there' there in
      let of_it = (eq_iff t.authorization_id row'.authorization_id).1 same' in
      rw e (
        All-first_where (IsRevokedOf row'.authorization_id) (has_hash (rt.token_hash access value))
          c.tokens t dead.tokens there of_it)
