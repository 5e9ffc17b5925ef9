-- ===== src/Store/Operations/Settles.antt =====
-- internal/store/operations.go: SettleOperation on every branch, and the row that an operation's
-- tmp_id finds.
use agent_gm.Prelude.{
  ℕ, ◌≡◌, ◌⊎◌, inl, inr, Bool, true, Option, none, some, String, [], ◌∷◌, arith, leb, str_eq,
  eq_iff, if◌then◌else◌, Bool-cases, Option-cases,
}
use agent_gm.Prelude.Rows.{first_where, select_where, update_where}
use agent_gm.Store.Write.{Result, ok, err, commits, operation_not_found, transition_refused}
use agent_gm.Store.Operations.{
  Row, Table, Operation, Settlement, has_id, scan_operation, settle_row, settle_found, newest,
  operation_transition_allowed, settle_operation,
}
use agent_gm.Store.Operations.Rules.{settle_row-id}
use agent_gm.Store.Operations.Outcomes.{Arrow, IsSettled}
use agent_gm.Store.Operations.Distinct.{Distinct}

pub first-set :
    (id : String) (r : Row) (t : Table) (cur : Row)
    → str_eq r.id id ≡ true
    → first_where (has_id id) t ≡ some cur
    → first_where (has_id id) (update_where (has_id id) (λ _. r) t) ≡ some r
unfolding first_where update_where
first-set id r [] cur same e = cc
first-set id r (x ∷ t) cur same e = ground (arith, first-set id r t cur same)

pub found_id :
    (id : String) (t : Table) (r : Row) → first_where (has_id id) t ≡ some r → str_eq r.id id ≡ true
unfolding first_where
found_id id [] r e = cc
found_id id (x ∷ t) r e = ground (arith, found_id id t r)

-- What SettleOperation does with the row that it reads.
abbrev pub SettleOutcome : ℕ → String → Settlement → Table → Option Row → Result Operation × Table
SettleOutcome now id st t none = (err operation_not_found, t)
SettleOutcome now id st t (some cur) =
    if operation_transition_allowed cur.status st.status
    then (
      ok (scan_operation (settle_row now st cur)),
      update_where (has_id id) (λ _. settle_row now st cur) t,
    )
    else (err (transition_refused cur.status st.status), t)

pub settle_operation_lem :
    (now : ℕ) (id : String) (st : Settlement) (t : Table)
    → settle_operation commits now id st t ≡ SettleOutcome now id st t (first_where (has_id id) t)
unfolding settle_operation settle_found
settle_operation_lem now id st t = elim (Option-cases (first_where (has_id id) t)) [
  | inl absent ↦ rw absent
  | inr (cur, found) ↦
      let same : str_eq (settle_row now st cur).id id ≡ true =
        rw (settle_row-id now st cur) (found_id id t cur found) in
      elim (Bool-cases (operation_transition_allowed cur.status st.status)) [
        | inl move ↦ rw (found, move) (rw (first-set id (settle_row now st cur) t cur same found))
        | inr refused ↦ rw (found, refused)
      ]
]

-- What SettleOperation promises of the table that it finds.
pub data Settles (now : ℕ) (id : String) (st : Settlement) (t : Table)
    : Result Operation × Table → Type 0 where
  absent : first_where (has_id id) t ≡ none → Settles now id st t (err operation_not_found, t)
  refused :
      (cur : Row)
      → first_where (has_id id) t ≡ some cur
      → (Arrow cur.status st.status → ⊥)
      → Settles now id st t (err (transition_refused cur.status st.status), t)
  moved :
      (cur r : Row)
      → first_where (has_id id) t ≡ some cur
      → Arrow cur.status st.status
      → IsSettled now st cur r
      → Settles now id st t (ok (scan_operation r), update_where (has_id id) (λ _. r) t)

abbrev In : Row → Table → Type 0
In r [] = ⊥
In r (x ∷ t) = (x ≡ r) ⊎ In r t

In-select : (p : Row → Bool) (r : Row) (t : Table) → In r (select_where p t) → In r t
unfolding select_where
In-select p r [] h = h
In-select p r (x ∷ t) h = elim (Bool-cases (p x)) [
  | inl hit ↦
      let h' : (x ≡ r) ⊎ In r (select_where p t) = rw hit at h in
      elim h' [ inl e ↦ inl e | inr e ↦ inr (In-select p r t e) ]
  | inr miss ↦ inr (In-select p r t (rw miss at h))
]

In-newest :
    (best : Option Row) (r : Row) (t : Table) → newest best t ≡ some r → (best ≡ some r) ⊎ In r t
unfolding newest
In-newest best r [] e = inl e
In-newest none r (x ∷ t) e = elim (In-newest (some x) r t e) [
  | inl same ↦ inr (inl (cc))
  | inr later ↦ inr (inr later)
]
In-newest (some b) r (x ∷ t) e = elim (Bool-cases (leb x.created_at_ms b.created_at_ms)) [
  | inl keep ↦ elim (In-newest (some b) r t (rw keep at e)) [
    | inl same ↦ inl same
    | inr later ↦ inr (inr later)
  ]
  | inr newer ↦ elim (In-newest (some x) r t (rw newer at e)) [
    | inl same ↦ inr (inl (cc))
    | inr later ↦ inr (inr later)
  ]
]

In-found :
    (id : String) (r : Row) (t : Table)
    → In r t
    → str_eq r.id id ≡ true
    → (x : Row) × (first_where (has_id id) t ≡ some x)
unfolding first_where
In-found id r [] h e = absurd h
In-found id r (x ∷ t) (inl here) e = (x, ground arith)
In-found id r (x ∷ t) (inr there) e =
    let (y, found) = In-found id r t there e in
    elim (Bool-cases (str_eq x.id id)) [ inl hit ↦ (x, rw hit) | inr miss ↦ (y, rw miss found) ]

-- In a table of distinct IDs, a row is found under its own ID.
found_by_id : (r : Row) (t : Table) → Distinct t → In r t → first_where (has_id r.id) t ≡ some r
unfolding first_where
found_by_id r [] d h = absurd h
found_by_id r (x ∷ t) d (inl here) = ground (arith, eq_iff x.id r.id)
found_by_id r (x ∷ t) d (inr there) = elim (Bool-cases (str_eq x.id r.id)) [
  | inl hit ↦
      let (y, found) =
        In-found x.id r t there (ground (arith, eq_iff x.id r.id, eq_iff r.id x.id)) in
      absurd (cc (found, d.0))
  | inr miss ↦ rw miss (found_by_id r t d.1 there)
]

-- The row that a newest-first lookup finds is the row of its ID.
pub newest-found :
    (p : Row → Bool) (t : Table) (r : Row)
    → Distinct t
    → newest none (select_where p t) ≡ some r
    → first_where (has_id r.id) t ≡ some r
newest-found p t r d e = elim (In-newest none r (select_where p t) e) [
  | inl never ↦ cc never
  | inr in_it ↦ found_by_id r t d (In-select p r t in_it)
]
