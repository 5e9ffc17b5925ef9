-- ===== src/Store/Accounts/Sweeping.antt =====
-- internal/store/accounts.go: the sweep of abandoned pairings, against one DELETE.
use agent_gm.Prelude.{
  ℕ, ◌≡◌, refl, ap, ◌∙◌, Bool, ◌&&◌, Option, none, some, String, List, [], ◌∷◌, arith, if-both,
}
use agent_gm.Prelude.Rows.{delete_where}
use agent_gm.Store.Write.{Result, ok, err, Fate, write, write-keeps, StoreError}
use agent_gm.Store.Accounts.{
  Account, Rows, never_connected, has_account_id, delete_pairing_account, SweepEnv, is_kept,
  sweep_candidates, sweep_read, sweep_deleted, sweep_abandoned_pairings, sweep_listed, Sweep,
  add_deleted,
}

-- The rows that were connected once, or are in another state.
abbrev pub settled_rows : Rows → Rows
settled_rows rows = delete_where never_connected rows

delete-settled :
    (q : Account → Bool) (rows : Rows)
    → settled_rows (delete_where (λ a. q a && never_connected a) rows) ≡ settled_rows rows
unfolding delete_where
delete-settled q [] = refl
delete-settled q (a ∷ rows) = ground (arith, delete-settled q rows)

module _ (kept : Rows) where
  Keeps : Rows → Type 0
  Keeps rows = settled_rows rows ≡ kept

  add_deleted-Keeps :
      (id : String) (r : Result (List String) × Rows) → Keeps r.1 → Keeps (add_deleted id r).1
  add_deleted-Keeps id (ok ids, rows) h = h
  add_deleted-Keeps id (err e, rows) h = h

  deleted-Keeps :
      (id : String) (rest : Sweep) (r : Result (Unit {0}) × Rows)
      → ((rows : Rows) → Keeps rows → Keeps (rest rows).1)
      → Keeps r.1
      → Keeps (sweep_deleted id rest r).1
  unfolding sweep_deleted
  deleted-Keeps id rest (err e, rows) k h = h
  deleted-Keeps id rest (ok u, rows) k h = add_deleted-Keeps id (rest rows) (k rows h)

  delete-Keeps :
      (fate : Fate) (id : String) (rows : Rows)
      → Keeps rows
      → Keeps (write fate (delete_pairing_account id) rows).1
  unfolding delete_pairing_account Keeps
  delete-Keeps fate id rows h = write-keeps Keeps fate (delete_pairing_account id) rows h (λ u r e.
      let made : r ≡ delete_where (λ a. has_account_id id a && never_connected a) rows =
        ground arith in
      ap settled_rows made ∙ (delete-settled (has_account_id id) rows ∙ h))

  read-Keeps :
      (env : SweepEnv) (live : List String) (timeout : ℕ) (id : String) (rest : Sweep)
      (r : Result Account) (rows : Rows)
      → ((rows' : Rows) → Keeps rows' → Keeps (rest rows').1)
      → Keeps rows
      → Keeps (sweep_read env live timeout id rest r rows).1
  unfolding sweep_read
  read-Keeps env live timeout id rest (err e) rows k h = h
  read-Keeps env live timeout id rest (ok a) rows k h =
      if-both (λ (x : Result (List String) × Rows). Keeps x.1) (is_kept env live timeout a) _ _
        (λ _. k rows h) λ _. deleted-Keeps id rest _ k (delete-Keeps (env.delete_fate id) id rows h)

  candidates-Keeps :
      (env : SweepEnv) (live : List String) (timeout : ℕ) (ids : List String) (rows : Rows)
      → Keeps rows
      → Keeps (sweep_candidates env live timeout ids rows).1
  unfolding sweep_candidates
  candidates-Keeps env live timeout [] rows h = h
  candidates-Keeps env live timeout (id ∷ ids) rows h =
      read-Keeps env live timeout id (sweep_candidates env live timeout ids) _ rows
        (candidates-Keeps env live timeout ids) h

  listed-Keeps :
      (env : SweepEnv) (live : List String) (timeout : ℕ) (o : Option StoreError) (rows : Rows)
      → Keeps rows
      → Keeps (sweep_listed env live timeout o rows).1
  unfolding sweep_listed
  listed-Keeps env live timeout (some e) rows h = h
  listed-Keeps env live timeout none rows h = candidates-Keeps env live timeout _ rows h

-- Whatever fails on the way, a sweep of the abandoned pairings leaves every account that was ever
-- connected, or that is in another state than `pairing`, exactly as it was.
pub sweep-settled_rows :
    (env : SweepEnv) (live : List String) (timeout : ℕ) (rows : Rows)
    → settled_rows (sweep_abandoned_pairings env live timeout rows).1 ≡ settled_rows rows
unfolding sweep_abandoned_pairings Keeps
sweep-settled_rows env live timeout rows =
    listed-Keeps (settled_rows rows) env live timeout env.list_error rows refl
