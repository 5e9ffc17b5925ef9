-- ===== src/Accounts/State.antt =====
-- internal/accounts/state.go: what each state of an account allows, and the reasons beside it.
use agent_gm.Prelude.{ℕ, Bool, String, true, false, not, ◌||◌, List, [], ◌∷◌, Option}
use agent_gm.Store.Accounts.{
  AccountState, pairing, connected, degraded, error, signed_out, parked, account_changed, Reason,
  no_reason, capacity, listen_error, credentials, revoked_by_phone, cookies_expired,
  account_switched, crash_recovered, same_state,
}

abbrev pub states : List AccountState
states = pairing ∷ connected ∷ degraded ∷ error ∷ signed_out ∷ parked ∷ account_changed ∷ []

unfoldable pub resting : AccountState → Bool
unfolding same_state
resting s = not (same_state s pairing)

unfoldable pub writable : AccountState → Bool
unfolding same_state
writable s = same_state s connected || same_state s degraded

unfoldable pub schedulable : AccountState → Bool
schedulable connected = true
schedulable degraded = true
schedulable pairing = true
schedulable _ = false

unfoldable pub same_reason : Reason → Reason → Bool
same_reason no_reason no_reason = true
same_reason capacity capacity = true
same_reason listen_error listen_error = true
same_reason credentials credentials = true
same_reason revoked_by_phone revoked_by_phone = true
same_reason cookies_expired cookies_expired = true
same_reason account_switched account_switched = true
same_reason crash_recovered crash_recovered = true
same_reason _ _ = false

-- One transition; the first of an account comes from no state.
pub record StateChange : Type 0 where
  pub account_id : String
  pub from : Option AccountState
  pub to : AccountState
  pub reason : Reason
  pub at : ℕ
