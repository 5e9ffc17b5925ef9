-- ===== src/Accounts/Supervisor/Events.antt =====
-- internal/accounts/supervisor.go: Apply, as far as the accounts' rows and the feed go. Conversations and
-- messages go to the ingester, an alert to the backfill, and the phone's answers to the health.
use agent_gm.Prelude.{
  ℕ, ◌≡◌, refl, ap, subst, ◌∙◌, Bool, true, false, Option, some, String, [], ◌∷◌, ◌++◌, ◌⊎◌, inl,
  inr, ltb, str_eq, arith, if-both, if◌then◌else◌,
}
use agent_gm.Prelude.Int.{ℤ, pos, negsuc}
use agent_gm.Prelude.Rows.{delete_where, update_where, delete-update_where}
use agent_gm.Store.Write.{Result, ok, err, Fate, write, write-keeps}
use agent_gm.Store.Accounts.{
  AccountState, connected, degraded, error, signed_out, account_changed, Reason, no_reason,
  listen_error, credentials, revoked_by_phone, cookies_expired, account_switched, Account, Rows,
  account, has_account_id, touch_account_event, set_account_state, set_session_present, greater,
  or_zero,
}
use agent_gm.Accounts.State.{StateChange}
use agent_gm.Accounts.Supervisor.Announced.{IsMove, previous-IsMove}
use agent_gm.Accounts.Supervisor.{
  Supervisor, TransitionEnv, Saving, cannot_persist, save_fails, saves, saved, transition,
  transitioned, previous_of, read_if, same_as, announce, persist_session,
}

pub data Event : Type 0 where
  client_ready auth_token_refreshed listen_temporary_error listen_recovered : Event
  -- CredentialsDead
  listen_fatal_error : Bool → Event
  -- EntityNotFound and ErrorCount
  ping_failed : Bool → ℤ → Event
  pair_successful gaia_logged_out revoke_pair_data : Event
  -- IsFake
  account_change : Bool → Event
  conversation : Event
  -- IsOld
  message : Bool → Event
  user_alert phone_not_responding phone_responding_again ephemeral unknown_event : Event

pub record ApplyEnv : Type 0 where
  pub transition : TransitionEnv
  pub saving : Saving
  pub touch_at : ℕ
  pub touch_fate : Fate

abbrev above_one : ℤ → Bool
above_one (pos n) = ltb 1 n
above_one (negsuc n) = false

-- setState: what it returns is logged at most.
unfoldable pub set_state : ApplyEnv → String → AccountState → Reason → Supervisor → Supervisor
unfolding transition
set_state env id to why s = (transition env.transition id to why s).1

unfoldable pub touch : ApplyEnv → String → Supervisor → Supervisor
unfolding write touch_account_event
touch env id s = record s {
  rows = (write env.touch_fate (touch_account_event id env.touch_at) s.rows).1;
}

unfoldable pub apply : ApplyEnv → String → Event → Supervisor → Supervisor
unfolding set_state touch persist_session
apply env id client_ready s = set_state env id connected no_reason s
apply env id auth_token_refreshed s = (persist_session env.saving id s).1
apply env id listen_temporary_error s = set_state env id degraded listen_error s
apply env id listen_recovered s = set_state env id connected no_reason s
apply env id (listen_fatal_error dead) s =
    if dead
    then set_state env id signed_out credentials s
    else set_state env id error listen_error s
apply env id (ping_failed gone count) s =
    if gone
    then set_state env id signed_out revoked_by_phone s
    else if above_one count
    then set_state env id error listen_error s
    else s
apply env id pair_successful s = (persist_session env.saving id s).1
apply env id gaia_logged_out s = set_state env id signed_out cookies_expired s
apply env id revoke_pair_data s = set_state env id signed_out revoked_by_phone s
apply env id (account_change fake) s =
    if fake then s else set_state env id account_changed account_switched s
apply env id conversation s = touch env id s
apply env id (message old) s = if old then s else touch env id s
apply env id user_alert s = touch env id s
apply env id phone_not_responding s = s
apply env id phone_responding_again s = s
apply env id ephemeral s = s
apply env id unknown_event s = s

abbrev pub others : String → Rows → Rows
others id rows = delete_where (has_account_id id) rows

-- What one event may do: nothing to other accounts and to the fleet, and one announcement at most, of a
-- move of its own account.
pub record IsOwnChange (env : TransitionEnv) (id : String) (s s' : Supervisor) : Type 0 where
  pub others_same : others id s'.rows ≡ others id s.rows
  pub fleet_same : s'.fleet ≡ s.fleet
  pub one_change :
      (s'.announced ≡ s.announced)
      ⊎ ((ev : StateChange) × (s'.announced ≡ s.announced ++ ev ∷ [])
          × (ev.account_id ≡ id)
          × (ev.at ≡ env.at)
          × IsMove env.read_error id s.rows ev)

module _ (env : ApplyEnv) (id : String) (s : Supervisor) where
  abbrev Own : Supervisor → Type 0
  Own s' = IsOwnChange env.transition id s s'

  untouched : Own s
  untouched = record { others_same = refl; fleet_same = refl; one_change = inl refl }

  set-others :
      (f : Account → Account) (rows r : Rows)
      → ((a : Account) → (f a).id ≡ a.id)
      → r ≡ update_where (has_account_id id) f rows
      → others id r ≡ others id rows
  set-others f rows r same e =
      ap (others id) e
      ∙ delete-update_where (has_account_id id) f rows (λ a. ap (λ i. str_eq i id) (same a))

  write-others :
      (fate : Fate) (g : Rows → Result (Unit {0} × Rows)) (f : Account → Account)
      → ((a : Account) → (f a).id ≡ a.id)
      → ((u : Unit {0}) (r : Rows)
          → g s.rows ≡ ok (u, r)
          → r ≡ update_where (has_account_id id) f s.rows)
      → others id (write fate g s.rows).1 ≡ others id s.rows
  write-others fate g f same makes =
      write-keeps (λ r. others id r ≡ others id s.rows) fate g s.rows refl
        (λ u r e. set-others f s.rows r same (makes u r e))

  announced-Own :
      (to : AccountState) (why : Reason) (from : Option AccountState × Reason)
      (r : Result (Unit {0}) × Rows)
      → from ≡ previous_of (read_if env.transition.read_error (account id s.rows))
      → others id r.1 ≡ others id s.rows
      → Own (transitioned env.transition id to why from s r).1
  unfolding transitioned announce
  announced-Own to why from (err e, rows) read h = record {
    others_same = h;
    fleet_same = refl;
    one_change = inl refl;
  }
  announced-Own to why from (ok u, rows) read h =
      if-both Own (same_as from to why) _ _
        (λ same. record { others_same = h; fleet_same = refl; one_change = inl refl })
        λ changed. record {
          others_same = h;
          fleet_same = refl;
          one_change = inr (
            _,
            refl,
            refl,
            refl,
            previous-IsMove env.transition.read_error id s.rows _ (ap (λ f. f.0) read)
                (subst (λ f. same_as f to why ≡ false) read changed),
          );
        }

  set_state-Own : (to : AccountState) (why : Reason) → Own (set_state env id to why s)
  unfolding set_state transition set_account_state
  set_state-Own to why =
      let g = set_account_state env.transition.now id to why in
      announced-Own to why (previous_of (read_if env.transition.read_error (account id s.rows)))
        (write env.transition.fate g s.rows) refl
        (write-others env.transition.fate g
          (λ a. record a { state = to; state_reason = why; updated_at_ms = env.transition.now })
          (λ a. refl) (λ u r e. ground arith))

  saved-Own : (r : Result (Unit {0}) × Rows) → others id r.1 ≡ others id s.rows → Own (saved s r).1
  saved-Own (ok u, rows) h = record { others_same = h; fleet_same = refl; one_change = inl refl }
  saved-Own (err e, rows) h = record { others_same = h; fleet_same = refl; one_change = inl refl }

  persist-Own : (saving : Saving) → Own (persist_session saving id s).1
  unfolding persist_session set_session_present
  persist-Own cannot_persist = untouched
  persist-Own save_fails = untouched
  persist-Own (saves now fate) = saved-Own (write fate (set_session_present now id true) s.rows) (
      write-others fate (set_session_present now id true)
        (λ a. record a { session_present = true; updated_at_ms = now }) (λ a. refl)
        (λ u r e. ground arith))

  touch-Own : Own (touch env id s)
  unfolding touch touch_account_event
  touch-Own = record {
    others_same =
        write-others env.touch_fate (touch_account_event id env.touch_at)
          (λ a. record a {
            last_event_at_ms = some (greater (or_zero a.last_event_at_ms) env.touch_at);
            updated_at_ms = env.touch_at;
          })
          (λ a. refl) (λ u r e. ground arith);
    fleet_same = refl;
    one_change = inl refl;
  }

-- An event of an account leaves the rows of the other accounts and the whole fleet as they were, and
-- announces at most one change, of that account. Where its row is there and is read, the change is from
-- the row's state, and not to the state and the reason that the row has; where it is not, from none.
pub apply-IsOwnChange :
    (env : ApplyEnv) (id : String) (ev : Event) (s : Supervisor)
    → IsOwnChange env.transition id s (apply env id ev s)
unfolding apply
apply-IsOwnChange env id client_ready s = set_state-Own env id s connected no_reason
apply-IsOwnChange env id auth_token_refreshed s = persist-Own env id s env.saving
apply-IsOwnChange env id listen_temporary_error s = set_state-Own env id s degraded listen_error
apply-IsOwnChange env id listen_recovered s = set_state-Own env id s connected no_reason
apply-IsOwnChange env id (listen_fatal_error true) s = set_state-Own env id s signed_out credentials
apply-IsOwnChange env id (listen_fatal_error false) s = set_state-Own env id s error listen_error
apply-IsOwnChange env id (ping_failed true count) s =
    set_state-Own env id s signed_out revoked_by_phone
apply-IsOwnChange env id (ping_failed false count) s =
    if-both (IsOwnChange env.transition id s) (above_one count) _ _
      (λ _. set_state-Own env id s error listen_error) λ _. untouched env id s
apply-IsOwnChange env id pair_successful s = persist-Own env id s env.saving
apply-IsOwnChange env id gaia_logged_out s = set_state-Own env id s signed_out cookies_expired
apply-IsOwnChange env id revoke_pair_data s = set_state-Own env id s signed_out revoked_by_phone
apply-IsOwnChange env id (account_change true) s = untouched env id s
apply-IsOwnChange env id (account_change false) s =
    set_state-Own env id s account_changed account_switched
apply-IsOwnChange env id conversation s = touch-Own env id s
apply-IsOwnChange env id (message true) s = untouched env id s
apply-IsOwnChange env id (message false) s = touch-Own env id s
apply-IsOwnChange env id user_alert s = touch-Own env id s
apply-IsOwnChange env id phone_not_responding s = untouched env id s
apply-IsOwnChange env id phone_responding_again s = untouched env id s
apply-IsOwnChange env id ephemeral s = untouched env id s
apply-IsOwnChange env id unknown_event s = untouched env id s
