-- ===== src/Store/Credentials/Revoking.antt =====
-- internal/store/authz.go: tokens that are used up, authorizations that are dead, and the statements
-- that make them so.
use agent_gm.Prelude.{
  ℕ, ◌<◌, ◌≡◌, refl, Bool, true, ◌||◌, Option, none, some, String, [], ◌∷◌, ◌++◌, All, arith,
  str_eq, ◌==◌, if◌then◌else◌,
}
use agent_gm.Prelude.Rows.{first_where, update_where, All-update_where_makes}
use agent_gm.Store.Write.{Result, ok, err}
use agent_gm.Store.Credentials.{
  Authorization, Token, Credentials, is_time, is_null, first_time, has_hash, has_auth_id, live_of,
  live_in_family, revoke_at, authorization_revoked, spent, revoked, spend_token, insert_token,
  set_authorization_scopes, append_audit, token, TxOn, followed, ◌>>=◌, ◌>>◌,
}

-- Every time that is set is past the epoch.
abbrev pub is_stamped : Option ℕ → Bool
is_stamped at = is_null at || is_time at

abbrev pub IsTokenStamped : Token → Type 0
IsTokenStamped t = (is_stamped t.spent_at_ms ≡ true) × (is_stamped t.revoked_at_ms ≡ true)

abbrev pub IsAuthorizationStamped : Authorization → Type 0
IsAuthorizationStamped a = is_stamped a.revoked_at_ms ≡ true

pub record IsStamped (c : Credentials) : Type 0 where
  pub tokens : All IsTokenStamped c.tokens
  pub authorizations : All IsAuthorizationStamped c.authorizations

abbrev pub IsUsedUp : String → Token → Type 0
IsUsedUp hash t = has_hash hash t ≡ true → (spent t || revoked t) ≡ true

-- No token with this hash can be redeemed.
abbrev pub UsedUp : String → Credentials → Type 0
UsedUp hash c = All (IsUsedUp hash) c.tokens

abbrev pub IsRevokedOf : String → Token → Type 0
IsRevokedOf id t = str_eq t.authorization_id id ≡ true → revoked t ≡ true

abbrev pub IsRevokedAuthorization : String → Authorization → Type 0
IsRevokedAuthorization id a = has_auth_id id a ≡ true → authorization_revoked a ≡ true

-- The authorization and every token of it are revoked.
pub record Dead (id : String) (c : Credentials) : Type 0 where
  pub tokens : All (IsRevokedOf id) c.tokens
  pub authorizations : All (IsRevokedAuthorization id) c.authorizations

first_time-is_time :
    (now : ℕ) (at : Option ℕ) → 0 < now → is_stamped at ≡ true → is_time (first_time now at) ≡ true
first_time-is_time now at h k = ground arith

stamped_token :
    (now : ℕ) (t : Token) → 0 < now → IsTokenStamped t → revoked (revoke_at now t) ≡ true
unfolding revoked
stamped_token now t h k = first_time-is_time now t.revoked_at_ms h k.1

family_stamped :
    (now : ℕ) (family : String) (t : Token)
    → 0 < now
    → IsTokenStamped t
    → IsTokenStamped (if live_in_family family t then revoke_at now t else t)
family_stamped now family t h k = ground (arith, first_time-is_time now t.revoked_at_ms h k.1)

token_revoked :
    (now : ℕ) (id : String) (t : Token)
    → 0 < now
    → IsTokenStamped t
    → IsRevokedOf id (if live_of id t then revoke_at now t else t)
unfolding revoked
token_revoked now id t h k = ground (arith, first_time-is_time now t.revoked_at_ms h k.1)

revoke_row : ℕ → Authorization → Authorization
revoke_row now a = record a { revoked_at_ms = first_time now a.revoked_at_ms; updated_at_ms = now }

row_revoked :
    (now : ℕ) (id : String) (a : Authorization)
    → 0 < now
    → IsAuthorizationStamped a
    → IsRevokedAuthorization id (if has_auth_id id a then revoke_row now a else a)
unfolding authorization_revoked revoke_row
row_revoked now id a h k = ground (arith, first_time-is_time now a.revoked_at_ms h k)

-- The three revocations of a family leave its authorization dead.
pub revoked-Dead :
    (now : ℕ) (id family : String) (c c' : Credentials)
    → 0 < now
    → IsStamped c
    → c'.tokens
      ≡ update_where
          (live_of id)
          (revoke_at now)
          (update_where (live_in_family family) (revoke_at now) c.tokens)
    → c'.authorizations
      ≡ update_where
          (has_auth_id id)
          (λ a. record a { revoked_at_ms = first_time now a.revoked_at_ms; updated_at_ms = now })
          c.authorizations
    → Dead id c'
unfolding revoke_row
revoked-Dead now id family c c' h v et ea = record {
  tokens = rw et (
      All-update_where_makes IsTokenStamped (IsRevokedOf id) (live_of id) (revoke_at now) _
        (λ t k. token_revoked now id t h k)
        (All-update_where_makes IsTokenStamped IsTokenStamped (live_in_family family)
          (revoke_at now) c.tokens (λ t k. family_stamped now family t h k) v.tokens));
  authorizations = rw ea (
      All-update_where_makes IsAuthorizationStamped (IsRevokedAuthorization id) (has_auth_id id)
        (revoke_row now) c.authorizations (λ a k. row_revoked now id a h k) v.authorizations);
}

-- The two revocations of an authorization leave it dead.
pub revoked_all-Dead :
    (now : ℕ) (id : String) (c c' : Credentials)
    → 0 < now
    → IsStamped c
    → c'.tokens ≡ update_where (live_of id) (revoke_at now) c.tokens
    → c'.authorizations
      ≡ update_where
          (has_auth_id id)
          (λ a. record a { revoked_at_ms = first_time now a.revoked_at_ms; updated_at_ms = now })
          c.authorizations
    → Dead id c'
unfolding revoke_row
revoked_all-Dead now id c c' h v et ea = record {
  tokens = rw et (
      All-update_where_makes IsTokenStamped (IsRevokedOf id) (live_of id) (revoke_at now) c.tokens
        (λ t k. token_revoked now id t h k) v.tokens);
  authorizations = rw ea (
      All-update_where_makes IsAuthorizationStamped (IsRevokedAuthorization id) (has_auth_id id)
        (revoke_row now) c.authorizations (λ a k. row_revoked now id a h k) v.authorizations);
}

pub spent_row :
    (now : ℕ) (hash : String) (t : Token)
    → 0 < now
    → IsTokenStamped t
    → IsUsedUp hash
        (if has_hash hash t then record t { spent_at_ms = first_time now t.spent_at_ms } else t)
unfolding spent
spent_row now hash t h k = ground (arith, first_time-is_time now t.spent_at_ms h k.0)

-- What the statements of a rotation make of the tokens.
pub spend_token-tokens :
    (now : ℕ) (hash : String) (c c' : Credentials) (u : Unit {0})
    → spend_token now hash c ≡ ok (u, c')
    → c'.tokens
      ≡ update_where
          (has_hash hash)
          (λ t. record t { spent_at_ms = first_time now t.spent_at_ms })
          c.tokens
unfolding spend_token
spend_token-tokens now hash c c' u e = ground arith

pub insert_token-tokens :
    (now : ℕ) (t : Token) (c c' : Credentials) (u : Unit {0})
    → insert_token now t c ≡ ok (u, c')
    → (first_where (has_hash t.token_hash) c.tokens ≡ none)
      × (c'.tokens
          ≡ c.tokens
            ++ record t { created_at_ms = if t.created_at_ms == 0 then now else t.created_at_ms }
              ∷ [])
unfolding insert_token
insert_token-tokens now t c c' u e = ground arith

pub set_authorization_scopes-tokens :
    (now : ℕ) (id scopes : String) (c c' : Credentials) (u : Unit {0})
    → set_authorization_scopes now id scopes c ≡ ok (u, c')
    → c'.tokens ≡ c.tokens
unfolding set_authorization_scopes
set_authorization_scopes-tokens now id scopes c c' u e = ground arith

pub append_audit-tokens :
    (now : ℕ) (kind outcome id source : String) (c c' : Credentials) (u : Unit {0})
    → append_audit now kind outcome id source c ≡ ok (u, c')
    → c'.tokens ≡ c.tokens
unfolding append_audit
append_audit-tokens now kind outcome id source c c' u e = ground arith

pub token-found :
    (hash : String) (c c' : Credentials) (t : Token)
    → token hash c ≡ ok (t, c')
    → (first_where (has_hash hash) c.tokens ≡ some t) × (c' ≡ c)
unfolding token
token-found hash c c' t e = ground arith

followed_ok :
    {S A B : Type 0} (r : Result (A × S)) (f : A → TxOn S B) (c' : S) (b : B)
    → followed r f ≡ ok (b, c')
    → (a : A) × (d : S) × (r ≡ ok (a, d)) × (f a d ≡ ok (b, c'))
followed_ok (ok (a, d)) f c' b e = (a, d, refl, e)
followed_ok (err x) f c' b e = cc

-- One statement after another: what succeeds is made of two successes.
pub then_ok :
    {S A B : Type 0} (m : TxOn S A) (f : A → TxOn S B) (c c' : S) (b : B)
    → (m >>= f) c ≡ ok (b, c')
    → (a : A) × (d : S) × (m c ≡ ok (a, d)) × (f a d ≡ ok (b, c'))
then_ok m f c c' b e = followed_ok (m c) f c' b e

pub after_ok :
    {S A B : Type 0} (m : TxOn S A) (k : TxOn S B) (c c' : S) (b : B)
    → (m >> k) c ≡ ok (b, c')
    → (a : A) × (d : S) × (m c ≡ ok (a, d)) × (k d ≡ ok (b, c'))
after_ok m k c c' b e = followed_ok (m c) (λ _. k) c' b e
