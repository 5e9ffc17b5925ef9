-- ===== src/Store/Operations/Inserts.antt =====
-- internal/store/operations.go: what InsertOperation promises of the key and of the row.
use agent_gm.Prelude.{
  ℕ, ◌≡◌, ◌≢◌, false, some, String, [], ◌∷◌, ◌++◌, arith, str_eq, eq_iff, if◌then◌else◌,
}
use agent_gm.Prelude.Rows.{first_where}
use agent_gm.Store.Write.{Fate, ok, write-ok}
use agent_gm.Store.Operations.{
  Row, Table, Operation, has_key, new_row, clashes, insert_row, insert_operation,
}

accepted :
    (r : Row) (t t' : Table)
    → insert_row r t ≡ ok (tt, t')
    → (clashes r t ≡ false) × (t' ≡ t ++ r ∷ [])
unfolding insert_row
accepted r t t' h = ground arith

module _ (fate : Fate) (now : ℕ) (minted : String) (o : Operation) (t : Table) where
  abbrev pub named : Operation
  named = record o { id = if str_eq o.id "" then minted else o.id }

  -- A successful insert found neither its ID nor its key in the table, and added exactly its row.
  pub insert_operation-ok :
      (insert_operation fate now minted o t).0 ≡ ok tt
      → (clashes (new_row now named) t ≡ false)
        × ((insert_operation fate now minted o t).1 ≡ t ++ new_row now named ∷ [])
  unfolding insert_operation
  insert_operation-ok h = accepted (new_row now named) t _ (write-ok fate _ t tt h)

  -- A key that the table already holds makes the insert fail.
  pub insert_operation-taken :
      (r : Row)
      → o.idempotency_key ≢ ""
      → first_where (has_key o.authorization_id o.account_id o.kind o.idempotency_key) t ≡ some r
      → (insert_operation fate now minted o t).0 ≢ ok tt
  insert_operation-taken r keyed taken h =
      let free = (insert_operation-ok h).0 in ground (arith, eq_iff o.idempotency_key "")
