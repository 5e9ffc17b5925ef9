-- ===== src/Authz/Refresh/Refused.antt =====
-- internal/authz/service.go: the refusals that leave every grant as it is.
use agent_gm.Prelude.{ℕ, ◌≡◌, ◌≢◌, ◌⊎◌, refl, Bool, true, false, String, arith, inl, inr}
use agent_gm.Store.Write.{StoreError, Result, ok, err, write, write-keeps}
use agent_gm.Store.Credentials.{Token, Credentials, append_audit}
use agent_gm.Authz.Cooldown.{Attempts}
use agent_gm.Authz.Session.{
  AuthError, token_reused, store_failed, refused, AuthRuntime, RefreshParams, RefreshEnv,
  AuthzState, Session, record_refresh_failure, detect_reuse, audit_failure, count_reuse,
  refusal_after, record_failure_of, revoke_family_tx,
}
use agent_gm.Authz.Rotation.{rotate, rotate_tx, rotation_of, answer_of}
use agent_gm.Authz.Refresh.{refresh_session}
use agent_gm.Authz.Refresh.Stages.{Seen, presented, origin, refresh_session-end}

-- The tables of two states hold the same tokens and the same authorizations.
abbrev pub SameGrants : Credentials → Credentials → Type 0
SameGrants c d = (c.tokens ≡ d.tokens) × (c.authorizations ≡ d.authorizations)

-- What a refresh answers when it reaches a transaction that could change a grant.
abbrev IsLate : AuthError → Type 0
IsLate e = (e ≡ token_reused) ⊎ ((x : StoreError) × (e ≡ store_failed x))

refusal_after-IsLate :
    (r : Result (Unit {0})) (e : AuthError) → refusal_after r token_reused ≡ refused e → IsLate e
refusal_after-IsLate (ok u) e h = inl cc
refusal_after-IsLate (err x) e h = inr (x, cc)

count_reuse-IsLate :
    (env : RefreshEnv) (p : RefreshParams) (source : String) (s : AuthzState)
    (r : Result (Unit {0}) × Credentials) (e : AuthError)
    → (count_reuse env p source s r).answer ≡ refused e
    → IsLate e
unfolding count_reuse
count_reuse-IsLate env p source s (err x, c) e h = inr (x, cc)
count_reuse-IsLate env p source s (ok u, c) e h = refusal_after-IsLate _ e h

detect_reuse-IsLate :
    (env : RefreshEnv) (p : RefreshParams) (source : String) (row : Token) (s : AuthzState)
    (e : AuthError)
    → (detect_reuse env p source row s).answer ≡ refused e
    → IsLate e
unfolding detect_reuse
detect_reuse-IsLate env p source row s e h =
    count_reuse-IsLate env p source s
      (write env.tx_fate (revoke_family_tx env.tx_now row.authorization_id row.family_id source)
        (env.before_tx s.credentials))
      e h

answer_of-IsLate :
    (session : Session) (r : Result Bool) (e : AuthError)
    → answer_of session r ≡ refused e
    → IsLate e
answer_of-IsLate session (err x) e h = inr (x, cc)
answer_of-IsLate session (ok true) e h = inl cc
answer_of-IsLate session (ok false) e h = cc

rotate-IsLate :
    (rt : AuthRuntime) (env : RefreshEnv) (p : RefreshParams) (source hash : String)
    (session : Session) (s : AuthzState) (e : AuthError)
    → (rotate rt env p source hash session s).answer ≡ refused e
    → IsLate e
unfolding rotate
rotate-IsLate rt env p source hash session s e h =
    answer_of-IsLate session
      (write env.tx_fate
        (rotate_tx env.tx_now p hash session.authorization_id source (rotation_of rt session))
        (env.before_tx s.credentials)).0
      e h

audited :
    (c d : Credentials) (u : Unit {0}) (now : ℕ) (kind outcome id source : String)
    → append_audit now kind outcome id source c ≡ ok (u, d)
    → SameGrants d c
unfolding append_audit
audited c d u now kind outcome id source h = ground arith

audit_failure-SameGrants :
    (env : RefreshEnv) (p : RefreshParams) (source : String) (e : AuthError) (s : AuthzState)
    (r : Result (Unit {0}) × Attempts)
    → SameGrants (audit_failure env p source e s r).state.credentials s.credentials
unfolding audit_failure
audit_failure-SameGrants env p source e s (err x, rows) = (refl, refl)
audit_failure-SameGrants env p source e s (ok u, rows) =
    write-keeps (λ c. SameGrants c s.credentials) env.failures.audit_fate
      (append_audit env.failures.audit_now p.audit_failed "refused" "" source) s.credentials
      (refl, refl)
      (λ a c h.
        audited s.credentials c a env.failures.audit_now p.audit_failed "refused" "" source h)

failure-SameGrants :
    (env : RefreshEnv) (p : RefreshParams) (source : String) (e : AuthError) (s : AuthzState)
    → SameGrants (record_refresh_failure env p source e s).state.credentials s.credentials
unfolding record_refresh_failure
failure-SameGrants env p source e s =
    audit_failure-SameGrants env p source e s
      (record_failure_of env.failures p.limit source s.attempts)

early : (e : AuthError) → IsLate e → e ≢ token_reused → ((x : StoreError) → e ≢ store_failed x) → ⊥
early e (inl reused) other kept = other reused
early e (inr (x, failed)) other kept = kept x failed

module _ (rt : AuthRuntime) (env : RefreshEnv) (p : RefreshParams) where
  Seen-same :
      (s : AuthzState) (c d : Credentials)
      → SameGrants d c
      → Seen rt env p s c
      → SameGrants d s.credentials ⊎ SameGrants d (env.before_authorization s.credentials)
  Seen-same s c d same (inl first) = inl (rw (← first) same)
  Seen-same s c d same (inr later) = inr (rw (← later) same)

-- A refresh that is refused, be it for its limits, its token, its credential path, its client or its
-- scopes, leaves every token and every authorization as the refresh saw them: it spends and revokes
-- nothing. That leaves out reuse, and the errors of the store. The refusal for the other kind of
-- credential is not that of reuse.
pub refresh_session-SameGrants :
    (rt : AuthRuntime) (env : RefreshEnv) (p : RefreshParams) (s : AuthzState) (e : AuthError)
    → p.wrong_kind ≢ token_reused
    → e ≢ token_reused
    → ((x : StoreError) → e ≢ store_failed x)
    → (refresh_session rt env p s).answer ≡ refused e
    → SameGrants (refresh_session rt env p s).state.credentials s.credentials
      ⊎ SameGrants
          (refresh_session rt env p s).state.credentials
          (env.before_authorization s.credentials)
refresh_session-SameGrants rt env p s e own other kept =
    refresh_session-end rt env p
      (λ r.
        r.answer ≡ refused e
        → SameGrants r.state.credentials s.credentials
          ⊎ SameGrants r.state.credentials (env.before_authorization s.credentials))
      s
      (record {
        refuses =
            λ e' s' real at h. Seen-same rt env p s s'.credentials s'.credentials (refl, refl) at;
        fails = λ e' s' real at h.
            Seen-same rt env p s s'.credentials
              (record_refresh_failure env p (origin rt env p) e' s').state.credentials
              (failure-SameGrants env p (origin rt env p) e' s') at;
        reuses = λ row b found h.
            absurd (early e (detect_reuse-IsLate env p (origin rt env p) row _ e h) other kept);
        rotates = λ row a session b found held from h. absurd (
            early e (rotate-IsLate rt env p (origin rt env p) (presented rt env p) session _ e h)
              other kept);
      })
      own
