-- ===== src/Authz/Refresh/Tests.antt =====
-- internal/authz/authz_test.go and refresh_race_internal_test.go: one session that is refreshed.
use Prim.Native.String.{◌++◌ as ◌then◌}
use agent_gm.Prelude.{
  ◌≡◌, ◌≢◌, refl, true, false, none, some, String, List, [], ◌∷◌, arith, str_eq, ◌⊎◌,
}
use agent_gm.Prelude.Rows.{first_where}
use agent_gm.Store.Write.{ok, commits}
use agent_gm.Store.Credentials.{
  authorization, authorization_revoked, token, token_by_hash, Authorization, admin_bootstrap, Token,
  TokenKind, access, refresh, has_hash, has_auth_id, spent, revoked,
}
use agent_gm.Store.Credentials.Revoking.{IsStamped}
use agent_gm.Authz.Buckets.{bucket_of, refill, spec_of, allow}
use agent_gm.Authz.Cooldown.{limit_refresh_token}
use agent_gm.Authz.Scopes.{
  widens, equal, parse_scopes, strings, to_string, ScopeSet, subset, parse_scope_string,
}
use agent_gm.Authz.Scopes.Words.{runtime}
use agent_gm.Authz.Session.{
  detect_reuse, record_failure_of, token_reused, token_unknown, invalid_scope, granted, refused,
  AuthRuntime, RefreshParams, RefreshEnv, AuthzState, Session,
}
use agent_gm.Authz.Bearer.{Bearer, BearerEnv, authenticate}
use agent_gm.Authz.Refresh.{
  with_authorization, with_bucket, with_check, with_lifetimes, with_next, with_row, with_scopes,
  with_values, refresh_session, check_with,
}
use agent_gm.Authz.Refresh.Reuse.{refresh_session-reused}
use agent_gm.Authz.Refresh.Spent.{refresh_session-spent}
use agent_gm.Authz.Refresh.Refused.{SameGrants, refresh_session-SameGrants}
use agent_gm.Authz.Refresh.Once.{refresh_session-once, refresh_session-narrows}
use agent_gm.Authz.Rotation.{
  next_of, new_session, next_scopes, redeem, rotate, rotate_tx, rotation_of,
}

abbrev hash_of : TokenKind → String → String
hash_of access v = "access/" then v
hash_of refresh v = "refresh/" then v

abbrev rt : AuthRuntime
rt = record { text = runtime; token_hash = hash_of; equal_hash = λ a b. str_eq a b }

abbrev grant_1 : Authorization
grant_1 = record {
  id = "authz_1";
  kind = admin_bootstrap;
  client = "";
  scopes = "messages:read messages:write";
  minted_scopes = "admin messages:read messages:write messages:delete";
  secret_generation = "g";
  source = "192.0.2.7";
  revoked_at_ms = none;
  expires_at_ms = 0;
  created_at_ms = 10;
  updated_at_ms = 10;
}

abbrev token_row : TokenKind → String → Token
token_row kind value = record {
  token_hash = hash_of kind value;
  authorization_id = "authz_1";
  kind = kind;
  family_id = "fam_1";
  spent_at_ms = none;
  revoked_at_ms = none;
  expires_at_ms = 5000;
  created_at_ms = 10;
}

abbrev spent_row : Token
spent_row = record (token_row refresh "r1") { spent_at_ms = some 100 }

abbrev state_of : List Token → AuthzState
state_of tokens = record {
  credentials = record { authorizations = grant_1 ∷ []; tokens = tokens; audit_events = [] };
  attempts = [];
  buckets = [];
}

abbrev fresh_state : AuthzState
fresh_state = state_of (token_row access "v1" ∷ token_row refresh "r1" ∷ [])

abbrev spent_state : AuthzState
spent_state = state_of (token_row access "v1" ∷ spent_row ∷ [])

abbrev env : RefreshEnv
env = record {
  bucket_now = 1000;
  check_now = 1000;
  check_error = none;
  lookup_error = none;
  now = 1000;
  before_authorization = λ c. c;
  authorization_error = none;
  lifetimes = ok (600, 9000);
  access_value = some "v2";
  refresh_value = some "r2";
  before_tx = λ c. c;
  tx_now = 1001;
  tx_fate = commits;
  failures = record {
    failure_now = 1002;
    failure_fate = commits;
    global_fate = commits;
    audit_fate = commits;
    audit_now = 1003;
  };
}

abbrev params : RefreshParams
params = record {
  presented_token = "r1";
  requested_scopes = "messages:read" ∷ [];
  source = "192.0.2.7";
  kind = admin_bootstrap;
  limit = limit_refresh_token;
  client_id = "";
  audit_refreshed = "auth.admin_session_refreshed";
  audit_narrowed = "auth.admin_session_narrowed";
  audit_failed = "auth.refresh_token_failed";
  wrong_kind = token_unknown;
}

abbrev refreshed : Session
refreshed = record {
  authorization_id = "authz_1";
  access_token = "v2";
  refresh_token = "r2";
  scopes = record { admin_held = false; read_held = true; write_held = false; delete_held = false };
  minted_scopes = record {
    admin_held = true;
    read_held = true;
    write_held = true;
    delete_held = true;
  };
  access_expires_at = 1600;
  refresh_expires_at = 10000;
  narrowed = true;
}

other_refusal : params.wrong_kind ≢ token_reused
other_refusal h = cc

fresh-IsStamped : IsStamped fresh_state.credentials
fresh-IsStamped = record {
  tokens = ((refl, refl), ((refl, refl), tt));
  authorizations = (refl, tt);
}

is_granted : (refresh_session rt env params fresh_state).answer ≡ granted refreshed
unfolding refresh_session with_bucket allow refill bucket_of spec_of with_check check_with with_row
    token_by_hash revoked spent with_authorization authorization_revoked with_scopes
    parse_scope_string parse_scopes with_next with_lifetimes with_values new_session next_scopes
    rotate rotate_tx redeem rotation_of token authorization to_string strings
is_granted = refl

is_reused : (refresh_session rt env params spent_state).answer ≡ refused token_reused
unfolding refresh_session with_bucket allow refill bucket_of spec_of with_check check_with with_row
    token_by_hash revoked spent detect_reuse record_failure_of
is_reused = refl

abbrev killed : Token
killed = record (token_row access "v1") { revoked_at_ms = some 1001 }

killed_found :
    first_where
      (has_hash (rt.token_hash access "v1"))
      (refresh_session rt env params spent_state).state.credentials.tokens
    ≡ some killed
unfolding refresh_session with_bucket allow refill bucket_of spec_of with_check check_with with_row
    token_by_hash revoked spent detect_reuse record_failure_of
killed_found = refl

spent-IsStamped : IsStamped spent_state.credentials
spent-IsStamped = record {
  tokens = ((refl, refl), ((refl, refl), tt));
  authorizations = (refl, tt);
}

refresh_session-spent_example :
    (refresh_session rt env params spent_state).answer ≡ refused token_reused
unfolding allow check_with first_where revoked spent refill bucket_of spec_of
refresh_session-spent_example =
    refresh_session-spent rt env params spent_state spent_row refl refl refl refl refl refl
      (omega arith) refl refl refl refl

abbrev later : BearerEnv
later = record {
  lookup_error = none;
  now = 1100;
  before_authorization = λ c. c;
  authorization_error = none;
}

abbrev reader : Bearer
reader = record {
  id = "authz_1";
  kind = admin_bootstrap;
  scopes = refreshed.scopes;
  minted_scopes = refreshed.minted_scopes;
  source = "192.0.2.7";
  expires_at = 0;
}

refresh_session-reused_example :
    authenticate rt later "v1" (refresh_session rt env params spent_state).state.credentials
    ≢ granted reader
unfolding first_where
refresh_session-reused_example =
    refresh_session-reused rt env params spent_state spent_row later "v1" killed reader
      (omega arith) other_refusal spent-IsStamped spent-IsStamped refl is_reused killed_found refl

refresh_session-once_example :
    (refresh_session rt env params (refresh_session rt env params fresh_state).state).answer
    ≢ granted refreshed
refresh_session-once_example =
    refresh_session-once rt env env params params fresh_state
      (refresh_session rt env params fresh_state).state refreshed refreshed other_refusal
      other_refusal refl (omega arith) fresh-IsStamped is_granted (λ used. used)

refresh_session-narrows_example :
    (a : Authorization) × (current : ScopeSet) × (row : Token) × (first_where
        (has_auth_id row.authorization_id)
        fresh_state.credentials.authorizations
      ≡ some a)
    × (refreshed.authorization_id ≡ a.id)
    × (parse_scope_string rt.text a.scopes ≡ some current)
    × (parse_scope_string rt.text a.minted_scopes ≡ some refreshed.minted_scopes)
    × (subset refreshed.scopes current ≡ true)
    × ((params.requested_scopes ≡ []) ⊎ (subset refreshed.scopes refreshed.minted_scopes ≡ true))
refresh_session-narrows_example =
    refresh_session-narrows rt env params fresh_state refreshed other_refusal is_granted

-- All scopes back, from a session that was narrowed.
abbrev widening : RefreshParams
widening = record params { requested_scopes = "admin" ∷ "messages:read" ∷ [] }

is_refused : (refresh_session rt env widening fresh_state).answer ≡ refused invalid_scope
unfolding refresh_session with_bucket allow refill bucket_of spec_of with_check check_with with_row
    token_by_hash revoked spent with_authorization authorization_revoked with_scopes
    parse_scope_string parse_scopes with_next with_lifetimes with_values new_session next_scopes
    rotate rotate_tx redeem rotation_of token authorization to_string strings next_of widens subset
    equal
is_refused = refl

refresh_session-SameGrants_example :
    SameGrants
      (refresh_session rt env widening fresh_state).state.credentials
      fresh_state.credentials
    ⊎ SameGrants
        (refresh_session rt env widening fresh_state).state.credentials
        fresh_state.credentials
refresh_session-SameGrants_example =
    refresh_session-SameGrants rt env widening fresh_state invalid_scope other_refusal (λ h. cc)
      (λ x h. cc) is_refused
