-- ===== src/Store/Credentials.antt =====
-- internal/store/authz.go: the tables `authorizations` and `tokens` with the audit log beside them,
-- and what one transaction may do to them. A nullable time that the code reads as 0 where it is NULL
-- is an Option, read by `value_or 0`.

pub mod Revoking
use agent_gm.Prelude.{
  ℕ, zero, suc, Bool, true, false, not, ◌&&◌, ◌||◌, Option, none, some, String, List, [], ◌∷◌, ◌++◌,
  ◌==◌, str_eq, if◌then◌else◌,
}
use agent_gm.Prelude.Rows.{first_where, update_where, count_where}
use agent_gm.Store.Write.{
  token_not_found, authorization_not_found, constraint_violated, Result, ok, err,
}

pub data AuthKind : Type 0 where
  admin_bootstrap oauth : AuthKind

pub data TokenKind : Type 0 where
  access refresh : TokenKind

pub record Authorization : Type 0 where
  pub id : String
  pub kind : AuthKind
  pub client : String
  pub scopes : String
  pub minted_scopes : String
  pub secret_generation : String
  pub source : String
  pub revoked_at_ms : Option ℕ
  pub expires_at_ms : ℕ
  pub created_at_ms : ℕ
  pub updated_at_ms : ℕ

pub record Token : Type 0 where
  pub token_hash : String
  pub authorization_id : String
  pub kind : TokenKind
  pub family_id : String
  pub spent_at_ms : Option ℕ
  pub revoked_at_ms : Option ℕ
  pub expires_at_ms : ℕ
  pub created_at_ms : ℕ

abbrev pub is_time : Option ℕ → Bool
is_time none = false
is_time (some zero) = false
is_time (some (suc at)) = true

unfoldable pub authorization_revoked : Authorization → Bool
authorization_revoked a = is_time a.revoked_at_ms

unfoldable pub spent : Token → Bool
spent t = is_time t.spent_at_ms

unfoldable pub revoked : Token → Bool
revoked t = is_time t.revoked_at_ms

-- A row of audit_events: its kind, its result and the authorization it names.
pub record AuditRow : Type 0 where
  pub kind : String
  pub outcome : String
  pub authorization_id : String
  pub source : String
  pub created_at_ms : ℕ

pub record Credentials : Type 0 where
  pub authorizations : List Authorization
  pub tokens : List Token
  pub audit_events : List AuditRow

-- What runs inside one transaction on the tables S.
abbrev pub TxOn : Type 0 → Type 0 → Type 0
TxOn S A = S → Result (A × S)

-- What runs inside one AuthzTx.
abbrev pub Tx : Type 0 → Type 0
Tx = TxOn Credentials

abbrev pub followed : {S A B : Type 0} → Result (A × S) → (A → TxOn S B) → Result (B × S)
followed (err e) f = err e
followed (ok (a, c)) f = f a c

infixl 5 ◌>>=◌ ◌>>◌
abbrev pub ◌>>=◌ : {S A B : Type 0} → TxOn S A → (A → TxOn S B) → TxOn S B
◌>>=◌ m f c = followed (m c) f

abbrev pub ◌>>◌ : {S A B : Type 0} → TxOn S A → TxOn S B → TxOn S B
m >> k = m >>= λ _. k

abbrev pub return : {S A : Type 0} → A → TxOn S A
return a c = ok (a, c)

abbrev pub has_hash : String → Token → Bool
has_hash hash t = str_eq t.token_hash hash

abbrev pub has_auth_id : String → Authorization → Bool
has_auth_id id a = str_eq a.id id

abbrev is_found {ℓ} : {A : Type ℓ} → Option A → Bool
is_found none = false
is_found (some a) = true

abbrev scan_token : Option Token → Result Token
scan_token none = err token_not_found
scan_token (some t) = ok t

abbrev scan_authorization : Option Authorization → Result Authorization
scan_authorization none = err authorization_not_found
scan_authorization (some a) = ok a

-- TokenByHash and Authorization, on the read pool.
unfoldable pub token_by_hash : String → Credentials → Result Token
unfolding first_where
token_by_hash hash c = scan_token (first_where (has_hash hash) c.tokens)

unfoldable pub authorization : String → Credentials → Result Authorization
unfolding first_where
authorization id c = scan_authorization (first_where (has_auth_id id) c.authorizations)

abbrev with_state {ℓ} : {A : Type ℓ} → Credentials → Result A → Result (A × Credentials)
with_state c (ok a) = ok (a, c)
with_state c (err e) = err e

-- AuthzTx.Token
unfoldable pub token : String → Tx Token
unfolding token_by_hash
token hash c = with_state c (token_by_hash hash c)

unfoldable pub create_authorization : ℕ → Authorization → Tx (Unit {0})
unfolding first_where
create_authorization now a c =
    if is_found (first_where (has_auth_id a.id) c.authorizations)
    then err constraint_violated
    else ok (
      tt,
      record c {
        authorizations =
            c.authorizations
            ++ record a {
              created_at_ms = if a.created_at_ms == 0 then now else a.created_at_ms;
              updated_at_ms = now;
            }
              ∷ [];
      },
    )

unfoldable pub set_authorization_scopes : ℕ → String → String → Tx (Unit {0})
unfolding update_where first_where
set_authorization_scopes now id scopes c =
    if is_found (first_where (has_auth_id id) c.authorizations)
    then ok (
      tt,
      record c {
        authorizations =
            update_where (has_auth_id id) (λ a. record a { scopes = scopes; updated_at_ms = now })
              c.authorizations;
      },
    )
    else err authorization_not_found

-- COALESCE(column, now)
abbrev pub first_time : ℕ → Option ℕ → Option ℕ
first_time now none = some now
first_time now (some at) = some at

unfoldable pub revoke_authorization : ℕ → String → Tx (Unit {0})
unfolding update_where
revoke_authorization now id c = ok (
  tt,
  record c {
    authorizations =
        update_where (has_auth_id id)
          (λ a. record a { revoked_at_ms = first_time now a.revoked_at_ms; updated_at_ms = now })
          c.authorizations;
  },
)

-- The primary key, and the reference to the authorization.
unfoldable pub insert_token : ℕ → Token → Tx (Unit {0})
unfolding first_where
insert_token now t c =
    if is_found (first_where (has_hash t.token_hash) c.tokens)
      || not (is_found (first_where (has_auth_id t.authorization_id) c.authorizations))
    then err constraint_violated
    else ok (
      tt,
      record c {
        tokens =
            c.tokens
            ++ record t { created_at_ms = if t.created_at_ms == 0 then now else t.created_at_ms }
              ∷ [];
      },
    )

unfoldable pub spend_token : ℕ → String → Tx (Unit {0})
unfolding update_where first_where
spend_token now hash c =
    if is_found (first_where (has_hash hash) c.tokens)
    then ok (
      tt,
      record c {
        tokens =
            update_where (has_hash hash)
              (λ t. record t { spent_at_ms = first_time now t.spent_at_ms }) c.tokens;
      },
    )
    else err token_not_found

abbrev pub is_null {ℓ} : {A : Type ℓ} → Option A → Bool
is_null none = true
is_null (some a) = false

abbrev pub live_in_family : String → Token → Bool
live_in_family family t = str_eq t.family_id family && is_null t.revoked_at_ms

abbrev pub live_of : String → Token → Bool
live_of id t = str_eq t.authorization_id id && is_null t.revoked_at_ms

abbrev pub revoke_at : ℕ → Token → Token
revoke_at now t = record t { revoked_at_ms = first_time now t.revoked_at_ms }

unfoldable pub revoke_token_family : ℕ → String → Tx ℕ
unfolding update_where count_where
revoke_token_family now family c = ok (
  count_where (live_in_family family) c.tokens,
  record c { tokens = update_where (live_in_family family) (revoke_at now) c.tokens },
)

unfoldable pub revoke_tokens_for_authorization : ℕ → String → Tx ℕ
unfolding update_where count_where
revoke_tokens_for_authorization now id c = ok (
  count_where (live_of id) c.tokens,
  record c { tokens = update_where (live_of id) (revoke_at now) c.tokens },
)

unfoldable pub append_audit : ℕ → String → String → String → String → Tx (Unit {0})
append_audit now kind outcome authorization_id source c = ok (
  tt,
  record c {
    audit_events =
        c.audit_events
        ++ record {
          kind = kind;
          outcome = outcome;
          authorization_id = authorization_id;
          source = source;
          created_at_ms = now;
        }
          ∷ [];
  },
)
