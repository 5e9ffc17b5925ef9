-- ===== src/Store/Codes.antt =====
-- internal/store/oauth.go: the table `authorization_codes`, beside the credential tables in the same
-- transactions.
pub mod Consuming
use agent_gm.Prelude.{ℕ, Bool, true, false, ◌&&◌, Option, none, some, String, List, ◌==◌, str_eq}
use agent_gm.Prelude.Rows.{first_where, update_where, count_where}
use agent_gm.Store.Write.{StoreError, Result, ok, err, authorization_code_not_found}
use agent_gm.Store.Credentials.{Credentials, Tx, TxOn, first_time, is_null, is_time}

-- The columns that may be NULL are Options; a reader gets "" for an absent authorization_id.
pub record AuthorizationCode : Type 0 where
  pub code_hash : String
  pub request_id : String
  pub client_id : String
  pub redirect_uri : String
  pub code_challenge : String
  pub scopes : String
  pub resource : String
  pub authorization_id : Option String
  pub consumed_at_ms : Option ℕ
  pub expires_at_ms : ℕ
  pub created_at_ms : ℕ

pub record Grants : Type 0 where
  pub credentials : Credentials
  pub codes : List AuthorizationCode

unfoldable pub consumed : AuthorizationCode → Bool
consumed code = is_time code.consumed_at_ms

abbrev pub has_code_hash : String → AuthorizationCode → Bool
has_code_hash hash code = str_eq code.code_hash hash

abbrev scan_authorization_code : Option AuthorizationCode → Result AuthorizationCode
scan_authorization_code none = err authorization_code_not_found
scan_authorization_code (some code) = ok code

unfoldable pub authorization_code_by_hash : String → Grants → Result AuthorizationCode
unfolding first_where
authorization_code_by_hash hash g =
    scan_authorization_code (first_where (has_code_hash hash) g.codes)

-- The UPDATE's condition.
abbrev pub unconsumed : String → AuthorizationCode → Bool
unconsumed hash code = has_code_hash hash code && is_null code.consumed_at_ms

-- COALESCE(?, authorization_id) of a text that nullString makes NULL where it is empty
abbrev pub coalesced : Option String → Option String → Option String
coalesced none old = old
coalesced (some id) old = some id

abbrev pub consume_row : ℕ → Option String → AuthorizationCode → AuthorizationCode
consume_row now id code = record code {
  consumed_at_ms = some now;
  authorization_id = coalesced id code.authorization_id;
}

-- True where one row was set.
unfoldable pub consume_authorization_code : ℕ → String → Option String → TxOn Grants Bool
unfolding update_where count_where
consume_authorization_code now hash id g = ok (
  count_where (unconsumed hash) g.codes == 1,
  record g { codes = update_where (unconsumed hash) (consume_row now id) g.codes },
)

abbrev with_codes {ℓ} :
    {A : Type ℓ} → List AuthorizationCode → Result (A × Credentials) → Result (A × Grants)
with_codes codes (err e) = err e
with_codes codes (ok (a, c)) = ok (a, record { credentials = c; codes = codes })

-- A statement on the credential tables, in a transaction that may reach the codes too.
unfoldable pub on_credentials : {A : Type 0} → Tx A → TxOn Grants A
on_credentials m g = with_codes g.codes (m g.credentials)
