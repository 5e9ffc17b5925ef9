-- ===== src/Authz/Rotation.antt =====
-- internal/authz/service.go: the scopes and the tokens of a refreshed session, and the transaction
-- of refreshSession that re-reads the presented token and rotates it.
pub mod Redeeming
use agent_gm.Prelude.{
  ℕ, ◌+◌, Bool, true, false, not, ◌||◌, Option, none, some, String, List, [], ◌∷◌, min, ◌==◌,
  if◌then◌else◌,
}
use agent_gm.Store.Write.{Result, ok, err, write}
use agent_gm.Store.Credentials.{
  Authorization, Token, access, refresh, Tx, ◌>>=◌, ◌>>◌, return, spent, revoked, token,
  set_authorization_scopes, insert_token, spend_token, append_audit,
}
use agent_gm.Authz.Scopes.{ScopeSet, parse_scopes, to_string, is_empty, widens, equal}
use agent_gm.Authz.Session.{
  Answer, AuthRuntime, RefreshParams, RefreshEnv, AuthzState, Session, RefreshRun, revoke_family_tx,
  token_reused, store_failed, granted, refused,
}

-- What a refresh writes when it re-reads a token that is still to be redeemed.
pub record Rotation : Type 0 where
  pub access_token : Token
  pub refresh_token : Token
  -- the scopes' text form, when the request narrows them
  pub new_scopes : Option String

abbrev narrow_scopes : ℕ → RefreshParams → String → String → Option String → Tx (Unit {0})
narrow_scopes now p id source none = return tt
narrow_scopes now p id source (some scopes) =
    set_authorization_scopes now id scopes >> append_audit now p.audit_narrowed "ok" id source

unfoldable pub redeem :
    ℕ → RefreshParams → String → String → String → (String → Rotation) → Token → Tx (Unit {0})
unfolding spend_token insert_token set_authorization_scopes append_audit
redeem now p hash id source rotation cur =
    spend_token now hash
    >> insert_token now (rotation cur.family_id).access_token
    >> insert_token now (rotation cur.family_id).refresh_token
    >> narrow_scopes now p id source (rotation cur.family_id).new_scopes
    >> append_audit now p.audit_refreshed "ok" id source

-- The one transaction of a refresh: true is `raced`.
unfoldable pub rotate_tx :
    ℕ → RefreshParams → String → String → String → (String → Rotation) → Tx Bool
rotate_tx now p hash id source rotation = token hash >>= λ cur.
    if spent cur || revoked cur
    then revoke_family_tx now id cur.family_id source >> return true
    else redeem now p hash id source rotation cur >> return false

unfoldable pub next_of : ScopeSet → ScopeSet → Option ScopeSet → Option (ScopeSet × Bool)
unfolding is_empty widens equal
next_of current minted none = none
next_of current minted (some req) =
    if is_empty req || widens req minted || widens req current
    then none
    else some (req, not (equal req current))

-- The scopes that a refresh asks for, and whether they narrow the session.
unfoldable pub next_scopes :
    AuthRuntime → List String → ScopeSet → ScopeSet → Option (ScopeSet × Bool)
unfolding next_of
next_scopes rt [] current minted = some (current, false)
next_scopes rt (r ∷ rest) current minted = next_of current minted (parse_scopes rt.text (r ∷ rest))

-- The session of a refresh: two values, their lifetimes, and the scopes.
unfoldable pub new_session :
    RefreshEnv → Authorization → ScopeSet → ScopeSet × Bool → ℕ × ℕ → String → String → Session
new_session env a minted (next, narrowed) (access_ttl, idle_ttl) access_value refresh_value =
    record {
      authorization_id = a.id;
      access_token = access_value;
      refresh_token = refresh_value;
      scopes = next;
      minted_scopes = minted;
      access_expires_at = env.now + access_ttl;
      refresh_expires_at =
          if a.expires_at_ms == 0
          then env.now + idle_ttl
          else min (env.now + idle_ttl) a.expires_at_ms;
      narrowed = narrowed;
    }

unfoldable pub rotation_of : AuthRuntime → Session → String → Rotation
rotation_of rt session family = record {
  access_token = record {
    token_hash = rt.token_hash access session.access_token;
    authorization_id = session.authorization_id;
    kind = access;
    family_id = family;
    spent_at_ms = none;
    revoked_at_ms = none;
    expires_at_ms = session.access_expires_at;
    created_at_ms = 0;
  };
  refresh_token = record {
    token_hash = rt.token_hash refresh session.refresh_token;
    authorization_id = session.authorization_id;
    kind = refresh;
    family_id = family;
    spent_at_ms = none;
    revoked_at_ms = none;
    expires_at_ms = session.refresh_expires_at;
    created_at_ms = 0;
  };
  new_scopes = if session.narrowed then some (to_string rt.text session.scopes) else none;
}

abbrev pub answer_of : Session → Result Bool → Answer Session
answer_of session (err e) = refused (store_failed e)
answer_of session (ok true) = refused token_reused
answer_of session (ok false) = granted session

-- From the random values on.
unfoldable pub rotate :
    AuthRuntime → RefreshEnv → RefreshParams → String → String → Session → AuthzState → RefreshRun
unfolding write rotate_tx
rotate rt env p source hash session s =
    let done =
      write env.tx_fate
        (rotate_tx env.tx_now p hash session.authorization_id source (rotation_of rt session))
        (env.before_tx s.credentials) in
    record { answer = answer_of session done.0; state = record s { credentials = done.1 } }
