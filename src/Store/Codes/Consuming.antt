-- ===== src/Store/Codes/Consuming.antt =====
-- internal/store/oauth.go: codes that are consumed, and the statement that consumes them.
use agent_gm.Prelude.{
  ℕ, ◌≤◌, ◌<◌, ◌≡◌, refl, Bool, true, false, Option, some, String, List, [], ◌∷◌, All, arith,
  if◌then◌else◌, Bool-cases, inl, inr,
}
use agent_gm.Prelude.Rows.{
  first_where, update_where, count_where, All-update_where_makes, first-update_where,
}
use agent_gm.Store.Write.{Result, ok, err}
use agent_gm.Store.Credentials.{Credentials, Tx, is_null}
use agent_gm.Store.Codes.{
  AuthorizationCode, Grants, has_code_hash, unconsumed, consume_row, consumed, with_codes,
  consume_authorization_code, on_credentials,
}

abbrev IsTaken : String → AuthorizationCode → Type 0
IsTaken hash code = has_code_hash hash code ≡ true → is_null code.consumed_at_ms ≡ false

-- Every code with this hash is consumed.
abbrev pub Taken : String → Grants → Type 0
Taken hash g = All (IsTaken hash) g.codes

row-IsTaken :
    (now : ℕ) (hash : String) (id : Option String) (code : AuthorizationCode)
    → IsTaken hash (if unconsumed hash code then consume_row now id code else code)
row-IsTaken now hash id code = ground arith

any_of : {A : Type 0} (xs : List A) → All (λ _. Unit {0}) xs
any_of [] = tt
any_of (x ∷ xs) = (tt, any_of xs)

pub consume-Taken :
    (now : ℕ) (hash : String) (id : Option String) (g g' : Grants) (won : Bool)
    → consume_authorization_code now hash id g ≡ ok (won, g')
    → Taken hash g'
unfolding consume_authorization_code
consume-Taken now hash id g g' won e =
    let ec : g'.codes ≡ update_where (unconsumed hash) (consume_row now id) g.codes =
      ground arith in
    rw ec (
      All-update_where_makes (λ _. Unit {0}) (IsTaken hash) (unconsumed hash) (consume_row now id)
        g.codes (λ code _. row-IsTaken now hash id code) (any_of g.codes))

none_left :
    (hash : String) (codes : List AuthorizationCode)
    → All (IsTaken hash) codes
    → count_where (unconsumed hash) codes ≡ 0
unfolding count_where
none_left hash [] h = refl
none_left hash (code ∷ codes) h = ground (arith, none_left hash codes h.1, h.0)

pub consume-lost :
    (now : ℕ) (hash : String) (id : Option String) (g g' : Grants) (won : Bool)
    → Taken hash g
    → consume_authorization_code now hash id g ≡ ok (won, g')
    → won ≡ false
unfolding consume_authorization_code
consume-lost now hash id g g' won h e = let n = none_left hash g.codes h in ground arith

-- A statement on the credential tables leaves the codes alone.
pub on_credentials-ok :
    {A : Type 0} (m : Tx A) (g g' : Grants) (a : A)
    → on_credentials m g ≡ ok (a, g')
    → (g'.codes ≡ g.codes) × (m g.credentials ≡ ok (a, g'.credentials))
unfolding on_credentials
on_credentials-ok m g g' a e = with_codes-ok (m g.credentials) e
  where
    with_codes-ok :
        (r : Result (_ × Credentials))
        → with_codes g.codes r ≡ ok (a, g')
        → (g'.codes ≡ g.codes) × (r ≡ ok (a, g'.credentials))
    with_codes-ok (err x) h = cc
    with_codes-ok (ok (b, c)) h = ground arith

none_with :
    (hash : String) (codes : List AuthorizationCode)
    → count_where (has_code_hash hash) codes ≡ 0
    → count_where (unconsumed hash) codes ≡ 0
unfolding count_where
none_with hash [] h = refl
none_with hash (code ∷ codes) h = ground (arith, none_with hash codes)

-- Where the hash is a key, a row that is won is the one that a lookup finds.
key_found :
    (hash : String) (codes : List AuthorizationCode)
    → count_where (has_code_hash hash) codes ≤ 1
    → 0 < count_where (unconsumed hash) codes
    → (code : AuthorizationCode) × (first_where (has_code_hash hash) codes ≡ some code)
      × (unconsumed hash code ≡ true)
unfolding count_where first_where
key_found hash [] u h = absurd (omega arith)
key_found hash (code ∷ codes) u h = elim (Bool-cases (has_code_hash hash code)) [
  | inl same ↦ elim (Bool-cases (is_null code.consumed_at_ms)) [
    | inl fresh ↦ (code, rw same refl, rw same (rw fresh refl))
    | inr taken ↦
        let few : count_where (has_code_hash hash) codes ≡ 0 = ground arith in
        let none_here = none_with hash codes few in absurd (ground arith)
  ]
  | inr other ↦
      let (found, e, k) = key_found hash codes (rw other at u) (rw other at h) in
      (found, rw other e, k)
]

pub consume-found :
    (now : ℕ) (hash id : String) (g g' : Grants)
    → 0 < now
    → count_where (has_code_hash hash) g.codes ≤ 1
    → consume_authorization_code now hash (some id) g ≡ ok (true, g')
    → (code : AuthorizationCode) × (first_where (has_code_hash hash) g'.codes ≡ some code)
      × (consumed code ≡ true)
      × (code.authorization_id ≡ some id)
unfolding consume_authorization_code consumed
consume-found now hash id g g' h u e =
    let won : 0 < count_where (unconsumed hash) g.codes = ground arith in
    let ec : g'.codes ≡ update_where (unconsumed hash) (consume_row now (some id)) g.codes =
      ground arith in
    let (code, found, fresh) = key_found hash g.codes u won in
    let moved =
      first-update_where (has_code_hash hash) (unconsumed hash) (consume_row now (some id)) g.codes
        (λ c. refl) in
    (consume_row now (some id) code, rw ec (rw (found, fresh) at moved), ground arith, refl)
