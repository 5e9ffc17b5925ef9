-- ===== src/Authz/Refresh/Stages.antt =====
-- internal/authz/service.go: how a refresh ends, read off its stages.
use agent_gm.Prelude.{
  ℕ, ◌≡◌, ◌≢◌, ◌⊎◌, inl, inr, refl, Bool, true, false, not, ◌&&◌, Option, none, some, String,
  if◌then◌else◌, arith, ap, leb, str_eq,
}
use agent_gm.Prelude.Rows.{first_where}
use agent_gm.Store.Write.{StoreError, token_not_found, Result, ok, err}
use agent_gm.Store.Credentials.{
  Authorization, Token, refresh, Credentials, has_hash, has_auth_id, authorization_revoked, spent,
  revoked, token_by_hash, authorization,
}
use agent_gm.Authz.Limits.{RateLimited}
use agent_gm.Authz.Buckets.{Buckets, unauthenticated, allow}
use agent_gm.Authz.Cooldown.{Attempts, LimitSpec}
use agent_gm.Authz.Scopes.{ScopeSet, parse_scope_string}
use agent_gm.Authz.Session.{
  AuthError, token_unknown, token_expired, token_revoked, token_reused, invalid_scope, limited,
  store_failed, entropy_failed, AuthRuntime, RefreshParams, RefreshEnv, AuthzState, RefreshRun,
  Session, refuse, normalize_source, same_kind, read_with, record_refresh_failure, detect_reuse,
  is_past,
}
use agent_gm.Authz.Rotation.{new_session, next_scopes, rotate}
use agent_gm.Authz.Refresh.{
  with_values, with_lifetimes, with_next, with_scopes, with_authorization, seen, with_row,
  with_check, check_with, with_bucket, refresh_session,
}

-- What becomes of an `if`, from what becomes of both its branches.
if-both :
    {A : Type 0} (P : A → Type 0) (b : Bool) (x y : A)
    → P x
    → (b ≡ false → P y)
    → P (if b then x else y)
if-both P true x y h k = h
if-both P false x y h k = k refl

failed_other : (e : StoreError) → store_failed e ≢ token_reused
failed_other e h = cc

check_with-other :
    (failed : Option StoreError) (now : ℕ) (spec : LimitSpec) (source : String) (rows : Attempts)
    → check_with failed now spec source rows ≢ some token_reused
unfolding check_with
check_with-other failed now spec source rows h = ground arith

token-read :
    (o : Option StoreError) (hash : String) (c : Credentials) (row : Token)
    → read_with o (token_by_hash hash c) ≡ ok row
    → first_where (has_hash hash) c.tokens ≡ some row
unfolding token_by_hash
token-read o hash c row h = ground arith

authorization-read :
    (o : Option StoreError) (id : String) (c : Credentials) (a : Authorization)
    → read_with o (authorization id c) ≡ ok a
    → first_where (has_auth_id id) c.authorizations ≡ some a
unfolding authorization
authorization-read o id c a h = ground arith

module _ (rt : AuthRuntime) (env : RefreshEnv) (p : RefreshParams) where
  abbrev pub presented : String
  presented = rt.token_hash refresh p.presented_token

  abbrev pub origin : String
  origin = normalize_source rt p.source

  -- Where a session comes from: the authorization read, its scopes, and the scopes that follow.
  pub record IsSessionOf (a : Authorization) (session : Session) : Type 0 where
    pub current : ScopeSet
    pub minted : ScopeSet
    pub next : ScopeSet × Bool
    pub holds : parse_scope_string rt.text a.scopes ≡ some current
    pub held_first : parse_scope_string rt.text a.minted_scopes ≡ some minted
    pub follows : next_scopes rt p.requested_scopes current minted ≡ some next
    pub is_new :
        (ttls : ℕ × ℕ) × (v : String) × (w : String) × (session
          ≡ new_session env a minted next ttls v w)

  -- The tables as a refresh saw them: first, or when it read the authorization.
  abbrev pub Seen : AuthzState → Credentials → Type 0
  Seen s c = (c ≡ s.credentials) ⊎ (c ≡ env.before_authorization s.credentials)

  -- What is to be shown of the four ways in which a refresh ends.
  pub record Ends (P : RefreshRun → Type 0) (s : AuthzState) : Type 0 where
    pub refuses :
        (e : AuthError) (s' : AuthzState)
        → e ≢ token_reused
        → Seen s s'.credentials
        → P (refuse e s')
    pub fails :
        (e : AuthError) (s' : AuthzState)
        → e ≢ token_reused
        → Seen s s'.credentials
        → P (record_refresh_failure env p origin e s')
    pub reuses :
        (row : Token) (b : Buckets)
        → first_where (has_hash presented) s.credentials.tokens ≡ some row
        → P (detect_reuse env p origin row (record s { buckets = b }))
    pub rotates :
        (row : Token) (a : Authorization) (session : Session) (b : Buckets)
        → first_where (has_hash presented) s.credentials.tokens ≡ some row
        → first_where
            (has_auth_id row.authorization_id)
            (env.before_authorization s.credentials).authorizations
          ≡ some a
        → IsSessionOf a session
        → P (
            rotate rt env p origin presented session
              (seen env.before_authorization (record s { buckets = b })))

  module _ (P : RefreshRun → Type 0) (s : AuthzState) (ends : Ends P s)
      (own : p.wrong_kind ≢ token_reused) where
    abbrev read_state : Buckets → AuthzState
    read_state b = seen env.before_authorization (record s { buckets = b })

    -- The session is made from the scopes `current` and `minted` of the authorization read.
    module _ (row : Token) (a : Authorization) (b : Buckets)
        (found : first_where (has_hash presented) s.credentials.tokens ≡ some row)
        (held : first_where
            (has_auth_id row.authorization_id)
            (env.before_authorization s.credentials).authorizations
          ≡ some a) where
      values-end :
          (current minted : ScopeSet) (next : ScopeSet × Bool) (ttls : ℕ × ℕ) (v w : Option String)
          → parse_scope_string rt.text a.scopes ≡ some current
          → parse_scope_string rt.text a.minted_scopes ≡ some minted
          → next_scopes rt p.requested_scopes current minted ≡ some next
          → P (with_values rt env p origin presented a minted next ttls v w (read_state b))
      unfolding with_values
      values-end current minted next ttls (some v) (some w) ec em en =
          ends.rotates row a (new_session env a minted next ttls v w) b found held (record {
            current = current;
            minted = minted;
            next = next;
            holds = ec;
            held_first = em;
            follows = en;
            is_new = (ttls, v, w, refl);
          })
      values-end current minted next ttls (some v) none ec em en =
          ends.refuses entropy_failed _ (λ h. cc) (inr refl)
      values-end current minted next ttls none w ec em en =
          ends.refuses entropy_failed _ (λ h. cc) (inr refl)

      lifetimes-end :
          (current minted : ScopeSet) (next : ScopeSet × Bool) (r : Result (ℕ × ℕ))
          → parse_scope_string rt.text a.scopes ≡ some current
          → parse_scope_string rt.text a.minted_scopes ≡ some minted
          → next_scopes rt p.requested_scopes current minted ≡ some next
          → P (with_lifetimes rt env p origin presented a minted next r (read_state b))
      unfolding with_lifetimes
      lifetimes-end current minted next (err e) ec em en =
          ends.refuses (store_failed e) _ (failed_other e) (inr refl)
      lifetimes-end current minted next (ok ttls) ec em en =
          values-end current minted next ttls env.access_value env.refresh_value ec em en

      next-end :
          (current minted : ScopeSet) (o : Option (ScopeSet × Bool))
          → parse_scope_string rt.text a.scopes ≡ some current
          → parse_scope_string rt.text a.minted_scopes ≡ some minted
          → next_scopes rt p.requested_scopes current minted ≡ o
          → P (with_next rt env p origin presented a minted o (read_state b))
      unfolding with_next
      next-end current minted none ec em en = ends.refuses invalid_scope _ (λ h. cc) (inr refl)
      next-end current minted (some next) ec em en =
          lifetimes-end current minted next env.lifetimes ec em en

      scopes-end :
          (o o' : Option ScopeSet)
          → parse_scope_string rt.text a.scopes ≡ o
          → parse_scope_string rt.text a.minted_scopes ≡ o'
          → P (with_scopes rt env p origin presented a o o' (read_state b))
      unfolding with_scopes
      scopes-end none o' ec em = ends.refuses invalid_scope _ (λ h. cc) (inr refl)
      scopes-end (some current) none ec em = ends.refuses invalid_scope _ (λ h. cc) (inr refl)
      scopes-end (some current) (some minted) ec em = next-end current minted _ ec em refl

    authorization-end :
        (row : Token) (r : Result Authorization) (b : Buckets)
        → first_where (has_hash presented) s.credentials.tokens ≡ some row
        → ((a : Authorization)
            → r ≡ ok a
            → first_where
                (has_auth_id row.authorization_id)
                (env.before_authorization s.credentials).authorizations
              ≡ some a)
        → P (with_authorization rt env p origin presented r (read_state b))
    unfolding with_authorization
    authorization-end row (err e) b found held =
        ends.refuses (store_failed e) _ (failed_other e) (inr refl)
    authorization-end row (ok a) b found held =
        if-both P (not (same_kind a.kind p.kind)) _ _ (ends.fails p.wrong_kind _ own (inr refl))
          λ kind.
            if-both P (not (str_eq p.client_id "") && not (str_eq a.client p.client_id)) _ _
              (ends.fails p.wrong_kind _ own (inr refl))
              λ client.
                if-both P (authorization_revoked a) _ _
                  (ends.fails token_revoked _ (λ h. cc) (inr refl))
                  λ live.
                    if-both P (is_past env.now a.expires_at_ms) _ _
                      (ends.fails token_expired _ (λ h. cc) (inr refl))
                      λ young. scopes-end row a b found (held a refl) _ _ refl refl

    row-end :
        (r : Result Token) (b : Buckets)
        → ((row : Token)
            → r ≡ ok row
            → first_where (has_hash presented) s.credentials.tokens ≡ some row)
        → P (with_row rt env p origin presented r (record s { buckets = b }))
    unfolding with_row
    row-end (err token_not_found) b found = ends.fails token_unknown _ (λ h. cc) (inl refl)
    row-end (err e) b found = ends.refuses (store_failed e) _ (failed_other e) (inl refl)
    row-end (ok row) b found =
        if-both P (not (rt.equal_hash presented row.token_hash)) _ _
          (ends.fails token_unknown _ (λ h. cc) (inl refl))
          λ same.
            if-both P (revoked row) _ _ (ends.fails token_revoked _ (λ h. cc) (inl refl)) λ live.
              if-both P (leb row.expires_at_ms env.now) _ _
                (ends.fails token_expired _ (λ h. cc) (inl refl))
                λ young. if-both P (spent row) _ _ (ends.reuses row b (found row refl)) λ fresh.
                  authorization-end row _ b (found row refl) (
                    authorization-read env.authorization_error row.authorization_id
                      (env.before_authorization s.credentials))

    check-end :
        (o : Option AuthError) (b : Buckets)
        → o ≢ some token_reused
        → P (with_check rt env p origin o (record s { buckets = b }))
    unfolding with_check
    check-end (some e) b other = ends.refuses e _ (λ h. other (ap some h)) (inl refl)
    check-end none b other = row-end _ b (token-read env.lookup_error presented s.credentials)

    bucket-end : (r : Option RateLimited × Buckets) → P (with_bucket rt env p origin r s)
    unfolding with_bucket
    bucket-end (some r, b) = ends.refuses (limited r) _ (λ h. cc) (inl refl)
    bucket-end (none, b) =
        check-end _ b (check_with-other env.check_error env.check_now p.limit origin s.attempts)

    pub refresh_session-end : P (refresh_session rt env p s)
    unfolding refresh_session
    refresh_session-end = bucket-end (allow unauthenticated env.bucket_now origin s.buckets)
