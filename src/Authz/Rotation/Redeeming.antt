-- ===== src/Authz/Rotation/Redeeming.antt =====
-- internal/authz/service.go: the two ends of a rotation's transaction.
use agent_gm.Prelude.{
  ℕ, ◌<◌, ◌≡◌, ◌≢◌, ◌∙◌, refl, Bool, true, false, ◌||◌, Option, none, some, String, List, All,
  arith, str_eq, eq_iff, ◌==◌, if◌then◌else◌, Bool-cases, inl, inr, subst,
}
use agent_gm.Prelude.Rows.{
  first_where, first-append, All-update_where_makes, All-append, All-first_where,
  first-update_where, first-where_holds,
}
use agent_gm.Store.Write.{ok}
use agent_gm.Store.Credentials.{
  Token, Credentials, token, has_hash, first_time, spent, revoked, spend_token, insert_token,
  set_authorization_scopes, append_audit, ◌>>◌, return,
}
use agent_gm.Store.Credentials.Revoking.{
  IsStamped, IsTokenStamped, IsUsedUp, UsedUp, Dead, revoked-Dead, spent_row, spend_token-tokens,
  insert_token-tokens, set_authorization_scopes-tokens, append_audit-tokens, token-found, then_ok,
  after_ok,
}
use agent_gm.Authz.Session.{RefreshParams, revoke_family_tx}
use agent_gm.Authz.Rotation.{Rotation, rotate_tx, redeem, narrow_scopes}

-- A token with the hash is there, and none with it can be redeemed.
record Gone (hash : String) (tokens : List Token) : Type 0 where
  row : Token
  found : first_where (has_hash hash) tokens ≡ some row
  used : All (IsUsedUp hash) tokens

same_hash :
    (hash other : String) (tokens : List Token) (row : Token)
    → str_eq other hash ≡ true
    → first_where (has_hash other) tokens ≡ none
    → first_where (has_hash hash) tokens ≡ some row
    → (b : Bool) → b ≡ true
same_hash hash other tokens row same fresh found b =
    let e : other ≡ hash = (eq_iff other hash).0 same in
    let gone : first_where (has_hash hash) tokens ≡ none =
      subst (λ o. first_where (has_hash o) tokens ≡ none) e fresh in
    cc

insert_token-Gone :
    (now : ℕ) (t : Token) (hash : String) (c c' : Credentials) (u : Unit {0})
    → insert_token now t c ≡ ok (u, c')
    → Gone hash c.tokens
    → Gone hash c'.tokens
insert_token-Gone now t hash c c' u e g =
    let (fresh, et) = insert_token-tokens now t c c' u e in
    let stored : Token = record t {
      created_at_ms = if t.created_at_ms == 0 then now else t.created_at_ms;
    } in
    record {
      row = g.row;
      found = rw et (first-append (has_hash hash) c.tokens g.row stored g.found);
      used = rw et (
          All-append (IsUsedUp hash) c.tokens stored g.used (λ same.
            same_hash hash t.token_hash c.tokens g.row same fresh g.found
              (spent stored || revoked stored)));
    }

abbrev mark_spent : ℕ → Token → Token
mark_spent now t = record t { spent_at_ms = first_time now t.spent_at_ms }

spend_token-Gone :
    (now : ℕ) (hash : String) (c c' : Credentials) (u : Unit {0}) (row : Token)
    → 0 < now
    → IsStamped c
    → first_where (has_hash hash) c.tokens ≡ some row
    → spend_token now hash c ≡ ok (u, c')
    → Gone hash c'.tokens
spend_token-Gone now hash c c' u row h v found e =
    let et = spend_token-tokens now hash c c' u e in
    let moved =
      first-update_where (has_hash hash) (has_hash hash) (mark_spent now) c.tokens (λ t. refl) in
    record {
      row = if has_hash hash row then mark_spent now row else row;
      found = rw et (rw found at moved);
      used = rw et (
          All-update_where_makes IsTokenStamped (IsUsedUp hash) (has_hash hash) (mark_spent now)
            c.tokens (λ t k. spent_row now hash t h k) v.tokens);
    }

narrow_scopes-tokens :
    (now : ℕ) (p : RefreshParams) (id source : String) (o : Option String) (c c' : Credentials)
    (u : Unit {0})
    → narrow_scopes now p id source o c ≡ ok (u, c')
    → c'.tokens ≡ c.tokens
narrow_scopes-tokens now p id source none c c' u e = ground arith
narrow_scopes-tokens now p id source (some scopes) c c' u e =
    let (w, d, es, ea) =
      after_ok (set_authorization_scopes now id scopes)
        (append_audit now p.audit_narrowed "ok" id source) c c' u e in
    append_audit-tokens now p.audit_narrowed "ok" id source d c' u ea
    ∙ set_authorization_scopes-tokens now id scopes c d w es

redeem-Gone :
    (now : ℕ) (p : RefreshParams) (hash id source : String) (rotation : String → Rotation)
    (cur : Token) (c c' : Credentials) (u : Unit {0})
    → 0 < now
    → IsStamped c
    → first_where (has_hash hash) c.tokens ≡ some cur
    → redeem now p hash id source rotation cur c ≡ ok (u, c')
    → Gone hash c'.tokens
unfolding redeem
redeem-Gone now p hash id source rotation cur c c' u h v found e =
    let r = rotation cur.family_id in
    let m1 = spend_token now hash in
    let m2 = m1 >> insert_token now r.access_token in
    let m3 = m2 >> insert_token now r.refresh_token in
    let m4 = m3 >> narrow_scopes now p id source r.new_scopes in
    let (u4, c4, e4, audited) =
      after_ok m4 (append_audit now p.audit_refreshed "ok" id source) c c' u e in
    let (u3, c3, e3, narrowed) =
      after_ok m3 (narrow_scopes now p id source r.new_scopes) c c4 u4 e4 in
    let (u2, c2, e2, inserted) = after_ok m2 (insert_token now r.refresh_token) c c3 u3 e3 in
    let (u1, c1, e1, first) = after_ok m1 (insert_token now r.access_token) c c2 u2 e2 in
    let gone = insert_token-Gone now r.refresh_token hash c2 c3 u3 inserted (
      insert_token-Gone now r.access_token hash c1 c2 u2 first
        (spend_token-Gone now hash c c1 u1 cur h v found e1)) in
    let kept =
      append_audit-tokens now p.audit_refreshed "ok" id source c4 c' u audited
      ∙ narrow_scopes-tokens now p id source r.new_scopes c3 c4 u4 narrowed in
    rw kept gone

never_raced :
    (now : ℕ) (id family source : String) (c c' : Credentials)
    → (revoke_family_tx now id family source >> return true) c ≢ ok (false, c')
never_raced now id family source c c' e =
    let (u, d, er, et) =
      after_ok (revoke_family_tx now id family source) (return true) c c' false e in
    cc

pub revoke_family_tx-Dead :
    (now : ℕ) (id family source : String) (c c' : Credentials) (u : Unit {0})
    → 0 < now
    → IsStamped c
    → revoke_family_tx now id family source c ≡ ok (u, c')
    → Dead id c'
unfolding revoke_family_tx
revoke_family_tx-Dead now id family source c c' u h v e =
    revoked-Dead now id family c c' h v (ground arith) (ground arith)

-- A rotation that is committed found the token redeemable, and leaves it used up.
pub rotate_tx-UsedUp :
    (now : ℕ) (p : RefreshParams) (hash id source : String) (rotation : String → Rotation)
    (c c' : Credentials)
    → 0 < now
    → IsStamped c
    → rotate_tx now p hash id source rotation c ≡ ok (false, c')
    → UsedUp hash c'
      × ((cur : Token) × (first_where (has_hash hash) c.tokens ≡ some cur)
          × ((spent cur || revoked cur) ≡ false))
unfolding rotate_tx
rotate_tx-UsedUp now p hash id source rotation c c' h v e =
    let (cur, d, et, ek) = then_ok (token hash) _ c c' false e in
    let (found, same) = token-found hash c d cur et in
    elim (Bool-cases (spent cur || revoked cur)) [
      | inl used ↦ absurd (never_raced now id cur.family_id source d c' (rw used at ek))
      | inr fresh ↦
          let (u, c1, er, done) =
            after_ok (redeem now p hash id source rotation cur) (return false) d c' false
              (rw fresh at ek) in
          let gone =
            redeem-Gone now p hash id source rotation cur c c1 u h v found (rw same at er) in
          let last : c1 ≡ c' = cc in (rw last at gone.used, (cur, found, fresh))
    ]

-- No rotation of a token that is used up is committed.
pub rotate_tx-refuses :
    (now : ℕ) (p : RefreshParams) (hash id source : String) (rotation : String → Rotation)
    (c c' : Credentials)
    → UsedUp hash c
    → rotate_tx now p hash id source rotation c ≢ ok (false, c')
unfolding rotate_tx
rotate_tx-refuses now p hash id source rotation c c' gone e =
    let (cur, d, et, ek) = then_ok (token hash) _ c c' false e in
    let (found, same) = token-found hash c d cur et in
    let used =
      All-first_where (IsUsedUp hash) (has_hash hash) c.tokens cur gone found
        (first-where_holds (has_hash hash) c.tokens cur found) in
    never_raced now id cur.family_id source d c' (rw used at ek)

-- A rotation that finds the token used up kills the authorization.
pub rotate_tx-Dead :
    (now : ℕ) (p : RefreshParams) (hash id source : String) (rotation : String → Rotation)
    (c c' : Credentials)
    → 0 < now
    → IsStamped c
    → rotate_tx now p hash id source rotation c ≡ ok (true, c')
    → Dead id c'
unfolding rotate_tx
rotate_tx-Dead now p hash id source rotation c c' h v e =
    let (cur, d, et, ek) = then_ok (token hash) _ c c' true e in
    let (found, same) = token-found hash c d cur et in
    elim (Bool-cases (spent cur || revoked cur)) [
      | inl used ↦
          let (u, c1, er, done) =
            after_ok (revoke_family_tx now id cur.family_id source) (return true) d c' true
              (rw used at ek) in
          let last : c1 ≡ c' = cc in
          rw last at (revoke_family_tx-Dead now id cur.family_id source c c1 u h v (rw same at er))
      | inr fresh ↦
          let (u, c1, er, done) =
            after_ok (redeem now p hash id source rotation cur) (return false) d c' true
              (rw fresh at ek) in
          cc
    ]
