-- ===== src/Store/Operations/Changes.antt =====
-- internal/store/operations.go: what one statement may make of the table, and what that keeps.
use agent_gm.Prelude.{
  ◌≡◌, refl, subst, ◌⊎◌, inl, inr, Bool, true, false, ◌&&◌, none, some, String, [], ◌∷◌, ◌++◌,
  arith, str_eq, eq_iff, All, Bool-cases,
}
use agent_gm.Prelude.Rows.{
  first_where, update_where, delete_where, All-update_where, All-delete_where, All-append,
}
use agent_gm.Store.Operations.{Row, Table, has_id, clashes}
use agent_gm.Store.Operations.Rules.{IsRowOk, Ages, Ages-refl}
use agent_gm.Store.Operations.Distinct.{
  Distinct, update-Distinct, delete-Distinct, absent-delete, append-Distinct, first-append,
  update_absent,
}

-- Rows that are sound, and have distinct IDs.
pub record IsSound (t : Table) : Type 0 where
  pub rows : All IsRowOk t
  pub distinct : Distinct t

-- A row that may be deleted: a terminal one, or one of those that the call may erase.
abbrev pub Spent : (Row → Type 0) → Row → Type 0
Spent Erased r = (r.terminal ≡ true) ⊎ Erased r

-- What a call may do that may erase such rows.
pub data Change (Erased : Row → Type 0) (t : Table) : Table → Type 0 where
  kept : Change Erased t t
  appended : (r : Row) → IsRowOk r → clashes r t ≡ false → Change Erased t (t ++ r ∷ [])
  updated :
      (p : Row → Bool) (f : Row → Row)
      → ((r : Row) → (f r).id ≡ r.id)
      → ((r : Row) → IsRowOk r → p r ≡ true → IsRowOk (f r) × Ages r (f r))
      → Change Erased t (update_where p f t)
  deleted :
      (p : Row → Bool)
      → ((r : Row) → p r ≡ true → Spent Erased r)
      → Change Erased t (delete_where p t)

unclashed : (r : Row) (t : Table) → clashes r t ≡ false → first_where (has_id r.id) t ≡ none
unclashed r t h = ground arith

pub Change-IsSound :
    {Erased : Row → Type 0} {t t' : Table} → Change Erased t t' → IsSound t → IsSound t'
Change-IsSound kept v = v
Change-IsSound {t = t} (appended r okr free) v = record {
  rows = All-append IsRowOk t r v.rows okr;
  distinct = append-Distinct t r (unclashed r t free) v.distinct;
}
Change-IsSound {t = t} (updated p f same_id keeps) v = record {
  rows = All-update_where IsRowOk p f t (λ r okr e. (keeps r okr e).0) v.rows;
  distinct = update-Distinct p f same_id t v.distinct;
}
Change-IsSound {t = t} (deleted p terminal) v = record {
  rows = All-delete_where IsRowOk p t v.rows;
  distinct = delete-Distinct p t v.distinct;
}

-- The row of an ID in a later table: the same operation, aged, or deleted when it might be.
abbrev pub Follows : (Row → Type 0) → String → Row → Table → Type 0
Follows Erased id r t =
    ((r' : Row) × (first_where (has_id id) t ≡ some r') × Ages r r')
    ⊎ ((first_where (has_id id) t ≡ none) × Spent Erased r)

follows_update :
    (id : String) (p : Row → Bool) (f : Row → Row) (t : Table) (r : Row)
    → ((x : Row) → (f x).id ≡ x.id)
    → ((x : Row) → IsRowOk x → p x ≡ true → IsRowOk (f x) × Ages x (f x))
    → All IsRowOk t
    → first_where (has_id id) t ≡ some r
    → (r' : Row) × (first_where (has_id id) (update_where p f t) ≡ some r') × Ages r r'
unfolding first_where update_where
follows_update id p f [] r same_id keeps h e = cc
follows_update id p f (x ∷ t) r same_id keeps h e = elim (Bool-cases (str_eq x.id id)) [
  | inl hit ↦ elim (Bool-cases (p x)) [
    | inl changed ↦ (f x, ground (arith, same_id x), ground (arith, (keeps x h.0 changed).1))
    | inr unchanged ↦ (x, ground arith, ground (arith, Ages-refl x))
  ]
  | inr miss ↦
      let (r', found, ages) = follows_update id p f t r same_id keeps h.1 (ground arith) in
      (r', ground (arith, same_id x), ages)
]

first_row :
    (x r : Row) (t : Table) (id : String)
    → str_eq x.id id ≡ true
    → first_where (has_id id) (x ∷ t) ≡ some r
    → x ≡ r
unfolding first_where
first_row x r t id hit e = some_row (rw hit at e)
  where
    some_row : some x ≡ some r → x ≡ r
    some_row h = cc

Follows-delete :
    (Erased : Row → Type 0) (id : String) (p : Row → Bool) (t : Table) (r : Row)
    → ((x : Row) → p x ≡ true → Spent Erased x)
    → Distinct t
    → first_where (has_id id) t ≡ some r
    → Follows Erased id r (delete_where p t)
unfolding first_where delete_where
Follows-delete Erased id p [] r terminal d e = cc
Follows-delete Erased id p (x ∷ t) r terminal d e = elim (Bool-cases (str_eq x.id id)) [
  | inl hit ↦ elim (Bool-cases (p x)) [
    | inl gone ↦ rw gone (
        inr (
          absent-delete p id t (rw ((eq_iff x.id id).0 hit) at d.0),
          subst (Spent Erased) (first_row x r t id hit e) (terminal x gone),
        ))
    | inr stays ↦ rw stays (inl (x, ground arith, ground (arith, Ages-refl x)))
  ]
  | inr miss ↦ elim (Bool-cases (p x)) [
    | inl gone ↦ rw gone (Follows-delete Erased id p t r terminal d.1 (ground arith))
    | inr stays ↦ rw (stays, miss) (Follows-delete Erased id p t r terminal d.1 (ground arith))
  ]
]

-- Under one change the row of an ID stays the same operation, and ages, unless it is deleted.
pub Change-Follows :
    {Erased : Row → Type 0} {t t' : Table} (id : String) (r : Row)
    → Change Erased t t'
    → IsSound t
    → first_where (has_id id) t ≡ some r
    → Follows Erased id r t'
Change-Follows id r kept v e = inl (r, e, Ages-refl r)
Change-Follows {t = t} id r (appended new okr free) v e =
    inl (r, rw (first-append (has_id id) t new, e), Ages-refl r)
Change-Follows {t = t} id r (updated p f same_id keeps) v e =
    inl (follows_update id p f t r same_id keeps v.rows e)
Change-Follows {Erased = Erased} {t = t} id r (deleted p terminal) v e =
    Follows-delete Erased id p t r terminal v.distinct e

update_absent_and :
    (g : Row → Row) (q : Row → Bool) (id : String) (t : Table)
    → first_where (has_id id) t ≡ none
    → update_where (λ r. has_id id r && q r) g t ≡ t
unfolding first_where update_where
update_absent_and g q id [] h = refl
update_absent_and g q id (x ∷ t) h = ground (arith, update_absent_and g q id t)

-- An UPDATE by ID that was computed from the row that was read is an update of that row.
pub update_found :
    (g : Row → Row) (q : Row → Bool) (id : String) (t : Table) (cur : Row)
    → Distinct t
    → first_where (has_id id) t ≡ some cur
    → q cur ≡ true
    → update_where (has_id id) (λ _. g cur) t ≡ update_where (λ r. has_id id r && q r) g t
unfolding first_where update_where
update_found g q id [] cur d e allowed = refl
update_found g q id (x ∷ t) cur d e allowed = elim (Bool-cases (str_eq x.id id)) [
  | inl hit ↦ ground (
    arith,
    eq_iff x.id id,
    update_absent (λ _. g cur) id t (rw ((eq_iff x.id id).0 hit) at d.0),
    update_absent_and g q id t (rw ((eq_iff x.id id).0 hit) at d.0),
  )
  | inr miss ↦ rw (miss, update_found g q id t cur d.1 (rw miss at e) allowed)
]
