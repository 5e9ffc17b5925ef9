-- ===== src/Authz/Bearer.antt =====
-- internal/authz/service.go: Authenticate.
use agent_gm.Prelude.{ℕ, not, Option, none, some, String, leb, str_eq, if◌then◌else◌}
use agent_gm.Store.Write.{StoreError, token_not_found, authorization_not_found, Result, ok, err}
use agent_gm.Store.Credentials.{
  Authorization, AuthKind, Token, access, Credentials, authorization_revoked, revoked,
  token_by_hash, authorization,
}
use agent_gm.Authz.Scopes.{ScopeSet, parse_scope_string}
use agent_gm.Authz.Session.{
  AuthRuntime, Answer, granted, refused, token_absent, token_unknown, token_expired, token_revoked,
  invalid_scope, store_failed, read_with, is_past,
}

-- Authorization of the package authz: what a request holds. No end is 0.
pub record Bearer : Type 0 where
  pub id : String
  pub kind : AuthKind
  pub scopes : ScopeSet
  pub minted_scopes : ScopeSet
  pub source : String
  pub expires_at : ℕ

pub record BearerEnv : Type 0 where
  pub lookup_error : Option StoreError
  pub now : ℕ
  pub before_authorization : Credentials → Credentials
  pub authorization_error : Option StoreError

abbrev parsed : Authorization → Option ScopeSet → Option ScopeSet → Answer Bearer
parsed a (some scopes) (some minted) = granted (record {
  id = a.id;
  kind = a.kind;
  scopes = scopes;
  minted_scopes = minted;
  source = a.source;
  expires_at = a.expires_at_ms;
})
parsed a none minted = refused invalid_scope
parsed a (some scopes) none = refused invalid_scope

unfoldable pub of_authorization : AuthRuntime → BearerEnv → Result Authorization → Answer Bearer
of_authorization rt env (err authorization_not_found) = refused token_unknown
of_authorization rt env (err e) = refused (store_failed e)
of_authorization rt env (ok a) =
    if authorization_revoked a
    then refused token_revoked
    else if is_past env.now a.expires_at_ms
    then refused token_expired
    else parsed a (parse_scope_string rt.text a.scopes) (parse_scope_string rt.text a.minted_scopes)

unfoldable pub of_token :
    AuthRuntime → BearerEnv → String → Credentials → Result Token → Answer Bearer
of_token rt env hash c (err token_not_found) = refused token_unknown
of_token rt env hash c (err e) = refused (store_failed e)
of_token rt env hash c (ok row) =
    if not (rt.equal_hash hash row.token_hash)
    then refused token_unknown
    else if revoked row
    then refused token_revoked
    else if leb row.expires_at_ms env.now
    then refused token_expired
    else of_authorization rt env (
        read_with env.authorization_error
          (authorization row.authorization_id (env.before_authorization c)))

unfoldable pub authenticate : AuthRuntime → BearerEnv → String → Credentials → Answer Bearer
authenticate rt env presented c =
    if str_eq (rt.text.trim_space presented) ""
    then refused token_absent
    else let hash = rt.token_hash access presented in
      of_token rt env hash c (read_with env.lookup_error (token_by_hash hash c))
