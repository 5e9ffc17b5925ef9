-- ===== src/Store/Operations/Distinct.antt =====
-- internal/store/operations.go: the tables that the primary key allows.
use agent_gm.Prelude.{
  ◌≡◌, refl, Bool, false, none, some, String, [], ◌∷◌, ◌++◌, arith, str_eq, eq_iff, Bool-cases, inl,
  inr, if◌then◌else◌,
}
use agent_gm.Prelude.Rows.{first_where, select_where, update_where, delete_where}
use agent_gm.Store.Operations.{Row, Table, has_id}

-- No two rows have one ID.
abbrev pub Distinct : Table → Type 0
Distinct [] = Unit {0}
Distinct (r ∷ t) = (first_where (has_id r.id) t ≡ none) × Distinct t

module _ (p : Row → Bool) (f : Row → Row) (keeps_id : (r : Row) → (f r).id ≡ r.id) where
  pub absent-update :
      (id : String) (t : Table)
      → first_where (has_id id) t ≡ none
      → first_where (has_id id) (update_where p f t) ≡ none
  unfolding first_where update_where
  absent-update id [] h = refl
  absent-update id (r ∷ t) h = ground (arith, keeps_id r, absent-update id t)

  pub update-Distinct : (t : Table) → Distinct t → Distinct (update_where p f t)
  unfolding update_where
  update-Distinct [] h = tt
  update-Distinct (r ∷ t) h =
      (ground (arith, keeps_id r, absent-update r.id t h.0), update-Distinct t h.1)

pub absent-delete :
    (p : Row → Bool) (id : String) (t : Table)
    → first_where (has_id id) t ≡ none
    → first_where (has_id id) (delete_where p t) ≡ none
unfolding first_where delete_where
absent-delete p id [] h = refl
absent-delete p id (r ∷ t) h = ground (arith, absent-delete p id t)

pub delete-Distinct : (p : Row → Bool) (t : Table) → Distinct t → Distinct (delete_where p t)
unfolding delete_where
delete-Distinct p [] h = tt
delete-Distinct p (r ∷ t) h = elim (Bool-cases (p r)) [
  | inl e ↦ rw e (delete-Distinct p t h.1)
  | inr e ↦ rw e (absent-delete p r.id t h.0, delete-Distinct p t h.1)
]

absent-append :
    (id : String) (t : Table) (r : Row)
    → first_where (has_id id) t ≡ none
    → str_eq r.id id ≡ false
    → first_where (has_id id) (t ++ r ∷ []) ≡ none
unfolding first_where
absent-append id [] r h e = ground arith
absent-append id (x ∷ t) r h e = ground (arith, absent-append id t r)

pub append-Distinct :
    (t : Table) (r : Row) → first_where (has_id r.id) t ≡ none → Distinct t → Distinct (t ++ r ∷ [])
unfolding first_where
append-Distinct [] r h d = (refl, tt)
append-Distinct (x ∷ t) r h d = (
  absent-append x.id t r d.0 (ground (arith, eq_iff x.id r.id, eq_iff r.id x.id)),
  append-Distinct t r (ground arith) d.1,
)

pub first-append :
    (q : Row → Bool) (t : Table) (r : Row)
    → first_where q (t ++ r ∷ [])
      ≡ elim (first_where q t) [ none ↦ (if q r then some r else none) | some x ↦ some x ]
unfolding first_where
first-append q [] r = refl
first-append q (x ∷ t) r = ground (arith, first-append q t r)

pub update_absent :
    (f : Row → Row) (id : String) (t : Table)
    → first_where (has_id id) t ≡ none
    → update_where (has_id id) f t ≡ t
unfolding first_where update_where
update_absent f id [] h = refl
update_absent f id (r ∷ t) h = ground (arith, update_absent f id t)

pub absent-select :
    (p : Row → Bool) (id : String) (t : Table)
    → first_where (has_id id) t ≡ none
    → first_where (has_id id) (select_where p t) ≡ none
unfolding first_where select_where
absent-select p id [] h = refl
absent-select p id (r ∷ t) h = ground (arith, absent-select p id t)
