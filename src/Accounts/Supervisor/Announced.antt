-- ===== src/Accounts/Supervisor/Announced.antt =====
-- internal/accounts/supervisor.go: the state that an announced change is from.
use agent_gm.Prelude.{◌≡◌, refl, inl, inr, true, false, Option, none, some, String, Option-cases}
use agent_gm.Prelude.Rows.{first_where}
use agent_gm.Store.Write.{StoreError}
use agent_gm.Store.Accounts.{
  AccountState, pairing, connected, degraded, error, signed_out, parked, account_changed,
  same_state, Reason, no_reason, capacity, listen_error, credentials, revoked_by_phone,
  cookies_expired, account_switched, crash_recovered, Account, Rows, account, has_account_id,
}
use agent_gm.Accounts.State.{StateChange, same_reason}
use agent_gm.Accounts.Supervisor.{previous_of, read_if, same_as}

-- The change is from the state of the account's row, and not to that state for the reason that the row
-- has; or it is from no state, and there was no row or the read of it failed.
pub data IsMove (read_error : Option StoreError) (id : String) (rows : Rows) (ev : StateChange)
    : Type 0 where
  from_row :
      (row : Account)
      → first_where (has_account_id id) rows ≡ some row
      → ev.from ≡ some row.state
      → (ev.to ≡ row.state → ev.reason ≡ row.state_reason → ⊥)
      → IsMove read_error id rows ev
  no_row :
      first_where (has_account_id id) rows ≡ none → ev.from ≡ none → IsMove read_error id rows ev
  unread : (e : StoreError) → read_error ≡ some e → ev.from ≡ none → IsMove read_error id rows ev

same_state_self : (st : AccountState) → same_state st st ≡ true
unfolding same_state
same_state_self pairing = refl
same_state_self connected = refl
same_state_self degraded = refl
same_state_self error = refl
same_state_self signed_out = refl
same_state_self parked = refl
same_state_self account_changed = refl

same_reason_self : (r : Reason) → same_reason r r ≡ true
unfolding same_reason
same_reason_self no_reason = refl
same_reason_self capacity = refl
same_reason_self listen_error = refl
same_reason_self credentials = refl
same_reason_self revoked_by_phone = refl
same_reason_self cookies_expired = refl
same_reason_self account_switched = refl
same_reason_self crash_recovered = refl

differs :
    (row : Account) (to : AccountState) (why : Reason)
    → same_as (some row.state, row.state_reason) to why ≡ false
    → to ≡ row.state
    → why ≡ row.state_reason
    → ⊥
unfolding same_as
differs row to why h e k =
    let h' = rw (e, k, same_state_self row.state, same_reason_self row.state_reason) at h in
    clash h'
  where
    clash : true ≡ false → ⊥
    clash h = cc

pub previous-IsMove :
    (read_error : Option StoreError) (id : String) (rows : Rows) (ev : StateChange)
    → let from = previous_of (read_if read_error (account id rows)) in
      ev.from ≡ from.0 → same_as from ev.to ev.reason ≡ false → IsMove read_error id rows ev
unfolding account previous_of
previous-IsMove (some e) id rows ev f h = unread e refl f
previous-IsMove none id rows ev f h = elim (Option-cases (first_where (has_account_id id) rows)) [
  | inl absent ↦ no_row absent (rw absent at f)
  | inr (row, there) ↦
      from_row row there (rw there at f) (differs row ev.to ev.reason (rw there at h))
]
