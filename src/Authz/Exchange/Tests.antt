-- ===== src/Authz/Exchange/Tests.antt =====
-- internal/authz/oauth.go: two exchanges of a code, and one with a wrong verifier.
use agent_gm.Prelude.{
  ◌<◌, ◌≡◌, ◌≢◌, refl, true, false, none, some, String, [], ◌∷◌, arith, str_eq, eq_iff,
}
use agent_gm.Prelude.Rows.{first_where, count_where}
use agent_gm.Store.Write.{ok, commits}
use agent_gm.Store.Credentials.{TokenKind, access, refresh}
use agent_gm.Store.Credentials.Revoking.{IsStamped, Dead}
use agent_gm.Store.Codes.{AuthorizationCode, has_code_hash, consumed}
use agent_gm.Authz.Buckets.{refill, bucket_of, spec_of, put_bucket, same_key}
use agent_gm.Authz.Scopes.{ScopeSet, parse_scope_string, parse_scopes, has, admin, is_empty}
use agent_gm.Authz.Scopes.Words.{runtime}
use agent_gm.Authz.Session.{AuthRuntime, granted, refused, invalid_grant, Session}
use agent_gm.Authz.Exchange.{
  BindingRuntime, Presented, CodeExchange, ExchangeEnv, ExchangeState, endpoint, binding_check,
  exchange_authorization_code,
}
use agent_gm.Authz.Exchange.Bought.{
  exchange_authorization_code-once, exchange_authorization_code-bound,
}
use agent_gm.Authz.Exchange.Replayed.{
  IsAdmitted, exchange_authorization_code-replayed, exchange_authorization_code-burns,
}

abbrev kind_prefix : TokenKind → String → String
kind_prefix access v = runtime.join ("access" ∷ v ∷ [])
kind_prefix refresh v = runtime.join ("refresh" ∷ v ∷ [])

abbrev rt : AuthRuntime
rt = record { text = runtime; token_hash = kind_prefix; equal_hash = str_eq }

abbrev bt : BindingRuntime
bt = record { equal = str_eq; s256 = λ v. v }

abbrev code_1 : AuthorizationCode
code_1 = record {
  code_hash = "h1";
  request_id = "req_1";
  client_id = "client_1";
  redirect_uri = "http://127.0.0.1:4000/cb";
  code_challenge = "secret";
  scopes = "messages:read messages:write";
  resource = "https://gm.example/mcp";
  authorization_id = none;
  consumed_at_ms = none;
  expires_at_ms = 5000;
  created_at_ms = 500;
}

abbrev start : ExchangeState
start = record {
  grants = record {
    credentials = record { authorizations = []; tokens = []; audit_events = [] };
    codes = code_1 ∷ [];
  };
  attempts = [];
  buckets = [];
}

abbrev presented : Presented
presented = record {
  client_id = "client_1";
  redirect_uri = "http://127.0.0.1:4000/cb";
  verifier = "secret";
  resource = "https://gm.example/mcp";
}

abbrev right : CodeExchange
right = endpoint bt presented "h1" "192.0.2.7"

abbrev wrong : CodeExchange
wrong = endpoint bt (record presented { verifier = "guess" }) "h1" "192.0.2.7"

abbrev env : ExchangeEnv
env = record {
  bucket_now = 1000;
  check_now = 1000;
  check_error = none;
  lookup_error = none;
  now = 1000;
  lifetimes = ok (600, 9000, 90000);
  new_authorization_id = "authz_1";
  new_family_id = "fam_1";
  access_value = some "v1";
  refresh_value = some "r1";
  before_tx = λ g. g;
  tx_now = 1001;
  tx_fate = commits;
  before_reread = λ g. g;
  reread_error = none;
  before_replay = λ g. g;
  replay_now = 1002;
  replay_fate = commits;
  failures = record {
    failure_now = 1002;
    failure_fate = commits;
    global_fate = commits;
    audit_fate = commits;
    audit_now = 1003;
  };
}

abbrev reader : ScopeSet
reader = record { admin_held = false; read_held = true; write_held = true; delete_held = false }

abbrev session : Session
session = record {
  authorization_id = "authz_1";
  access_token = "v1";
  refresh_token = "r1";
  scopes = reader;
  minted_scopes = reader;
  access_expires_at = 1600;
  refresh_expires_at = 10000;
  narrowed = false;
}

is_granted : (exchange_authorization_code rt env right start).answer ≡ granted session
unfolding exchange_authorization_code refill bucket_of spec_of binding_check parse_scopes
is_granted = refl

abbrev after : ExchangeState
after = (exchange_authorization_code rt env right start).state

exchange_authorization_code-once_example :
    (exchange_authorization_code rt env right after).answer ≢ granted session
exchange_authorization_code-once_example =
    exchange_authorization_code-once rt env env right right start after session session refl
      is_granted (λ t. t)

equal_lawful : (x y : String) → bt.equal x y ≡ true → x ≡ y
equal_lawful x y h = (eq_iff x y).0 h

exchange_authorization_code-bound_example :
    (code : AuthorizationCode) × (first_where (has_code_hash "h1") start.grants.codes ≡ some code)
    × (consumed code ≡ false)
    × (env.now < code.expires_at_ms)
    × (presented.client_id ≡ code.client_id)
    × (presented.redirect_uri ≡ code.redirect_uri)
    × (bt.s256 presented.verifier ≡ code.code_challenge)
    × (parse_scope_string rt.text code.scopes ≡ some session.scopes)
    × (has session.scopes admin ≡ false)
    × (is_empty session.scopes ≡ false)
exchange_authorization_code-bound_example =
    exchange_authorization_code-bound rt env bt presented "h1" "192.0.2.7" start session
      equal_lawful is_granted

after-IsAdmitted : IsAdmitted rt env right after
unfolding exchange_authorization_code refill bucket_of spec_of binding_check parse_scopes put_bucket
    same_key
after-IsAdmitted = record { in_bucket = refl; not_cooling = refl; reads = refl }

after-IsStamped : IsStamped after.grants.credentials
unfolding exchange_authorization_code refill bucket_of spec_of binding_check parse_scopes put_bucket
    same_key
after-IsStamped = record {
  tokens = ((refl, refl), ((refl, refl), tt));
  authorizations = (refl, tt);
}

some_id : session.authorization_id ≢ ""
some_id h = cc

exchange_authorization_code-replayed_example :
    Dead "authz_1" (exchange_authorization_code rt env right after).state.grants.credentials
unfolding count_where
exchange_authorization_code-replayed_example =
    exchange_authorization_code-replayed rt env env right right start after session (omega arith)
      (omega arith) refl some_id (omega arith) is_granted refl after-IsAdmitted after-IsStamped refl

start-IsAdmitted : IsAdmitted rt env wrong start
unfolding exchange_authorization_code refill bucket_of spec_of
start-IsAdmitted = record { in_bucket = refl; not_cooling = refl; reads = refl }

exchange_authorization_code-burns_example :
    ((exchange_authorization_code rt env wrong start).answer ≡ refused invalid_grant)
    × ((exchange_authorization_code rt env right
          (exchange_authorization_code rt env wrong start).state).answer
        ≢ granted session)
unfolding first_where consumed binding_check
exchange_authorization_code-burns_example =
    exchange_authorization_code-burns rt env env wrong right start
      (exchange_authorization_code rt env wrong start).state code_1 invalid_grant session
      start-IsAdmitted refl refl refl refl refl refl refl refl (λ t. t)
