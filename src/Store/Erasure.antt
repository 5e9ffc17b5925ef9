-- ===== src/Store/Erasure.antt =====
-- internal/store/erasure.go: what EraseAccount does to the table `operations`. Its other statements are on
-- other tables, and where one of them fails the transaction is rolled back.
use agent_gm.Prelude.{ℕ, Bool, String, str_eq}
use agent_gm.Prelude.Rows.{delete_where, count_where}
use agent_gm.Store.Write.{Result, ok, Fate, write}
use agent_gm.Store.OperationRows.{Row, Table}

abbrev pub of_account : String → Row → Bool
of_account account r = str_eq r.account_id account

-- The count of the operations, and their deletion.
unfoldable pub erase_account : Fate → String → Table → Result ℕ × Table
unfolding write delete_where count_where
erase_account fate account =
    write fate λ t. ok (count_where (of_account account) t, delete_where (of_account account) t)
