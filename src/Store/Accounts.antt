-- ===== src/Store/Accounts.antt =====
-- internal/store/accounts.go: the table `accounts` and the statements that run on it. A nullable column
-- is an Option; the state and its reason are of the vocabularies that the package names.
pub mod Sweeping
use agent_gm.Prelude.{
  ℕ, Bool, true, false, not, ◌&&◌, ◌||◌, Option, none, some, String, List, [], ◌∷◌, ◌++◌, ltb, leb,
  ◌==◌, str_eq, if◌then◌else◌, zero, suc, ◌-◌,
}
use agent_gm.Prelude.Rows.{first_where, update_where, delete_where, select_where}
use agent_gm.Store.Write.{
  account_not_found, constraint_violated, Result, ok, err, Fate, write, StoreError,
}
use agent_gm.Store.Credentials.{TxOn, is_null}

pub data AccountState : Type 0 where
  pairing connected degraded error signed_out parked account_changed : AccountState

-- No reason is NULL in the table.
pub data Reason : Type 0 where
  no_reason capacity listen_error credentials revoked_by_phone : Reason
  cookies_expired account_switched crash_recovered : Reason

pub record Account : Type 0 where
  pub id : String
  pub google_account : String
  pub label : Option String
  pub state : AccountState
  pub state_reason : Reason
  pub phone_id : Option String
  pub gaia_dest_reg_uuid : Option String
  pub gaia_device_last_seen_ms : Option ℕ
  pub session_present : Bool
  pub paired_at_ms : Option ℕ
  pub last_event_at_ms : Option ℕ
  pub last_sweep_at_ms : Option ℕ
  pub backfill_complete_at_ms : Option ℕ
  pub created_at_ms : ℕ
  pub updated_at_ms : ℕ

abbrev pub Rows : Type 0
Rows = List Account

unfoldable pub counts_toward_ambiguity : AccountState → Bool
counts_toward_ambiguity pairing = false
counts_toward_ambiguity _ = true

unfoldable pub same_state : AccountState → AccountState → Bool
same_state pairing pairing = true
same_state connected connected = true
same_state degraded degraded = true
same_state error error = true
same_state signed_out signed_out = true
same_state parked parked = true
same_state account_changed account_changed = true
same_state _ _ = false

abbrev pub has_account_id : String → Account → Bool
has_account_id id a = str_eq a.id id

abbrev pub is_some {ℓ} : {A : Type ℓ} → Option A → Bool
is_some none = false
is_some (some a) = true

-- COALESCE(new, old)
abbrev pub or_else {ℓ} : {A : Type ℓ} → Option A → Option A → Option A
or_else none old = old
or_else (some a) old = some a

-- COALESCE(value, 0)
abbrev pub or_zero : Option ℕ → ℕ
or_zero none = 0
or_zero (some n) = n

abbrev pub greater : ℕ → ℕ → ℕ
greater a b = if ltb a b then b else a

abbrev scan_account : Option Account → Result Account
scan_account none = err account_not_found
scan_account (some a) = ok a

-- Account(ctx, id)
unfoldable pub account : String → Rows → Result Account
unfolding first_where
account id rows = scan_account (first_where (has_account_id id) rows)

abbrev updated_row : Account → Account → Account
updated_row a old = record old {
  google_account = a.google_account;
  label = or_else a.label old.label;
  state = a.state;
  state_reason = a.state_reason;
  phone_id = or_else a.phone_id old.phone_id;
  gaia_dest_reg_uuid = or_else a.gaia_dest_reg_uuid old.gaia_dest_reg_uuid;
  gaia_device_last_seen_ms = or_else a.gaia_device_last_seen_ms old.gaia_device_last_seen_ms;
  session_present = a.session_present;
  paired_at_ms = or_else a.paired_at_ms old.paired_at_ms;
  updated_at_ms = a.updated_at_ms;
}

-- google_account is UNIQUE too.
abbrev address_taken : Account → Account → Bool
address_taken a other =
    str_eq other.google_account a.google_account && not (has_account_id a.id other)

abbrev stamped : ℕ → Account → Account
stamped now a = record a { created_at_ms = now; updated_at_ms = now }

unfoldable pub upsert_account : ℕ → Account → TxOn Rows (Unit {0})
unfolding first_where update_where
upsert_account now a rows =
    if is_some (first_where (address_taken a) rows)
    then err constraint_violated
    else if is_some (first_where (has_account_id a.id) rows)
    then ok (tt, update_where (has_account_id a.id) (updated_row (stamped now a)) rows)
    else ok (tt, rows ++ stamped now a ∷ [])

-- An UPDATE of one account; it may find no row.
abbrev pub set_account : String → (Account → Account) → TxOn Rows (Unit {0})
set_account id f rows = ok (tt, update_where (has_account_id id) f rows)

unfoldable pub set_account_state : ℕ → String → AccountState → Reason → TxOn Rows (Unit {0})
unfolding first_where update_where
set_account_state now id state reason rows =
    if is_some (first_where (has_account_id id) rows)
    then set_account id
        (λ a. record a { state = state; state_reason = reason; updated_at_ms = now }) rows
    else err account_not_found

unfoldable pub set_session_present : ℕ → String → Bool → TxOn Rows (Unit {0})
unfolding update_where
set_session_present now id present =
    set_account id (λ a. record a { session_present = present; updated_at_ms = now })

unfoldable pub touch_account_event : String → ℕ → TxOn Rows (Unit {0})
unfolding update_where
touch_account_event id at = set_account id (λ a. record a {
  last_event_at_ms = some (greater (or_zero a.last_event_at_ms) at);
  updated_at_ms = at;
})

unfoldable pub set_account_last_sweep : String → ℕ → TxOn Rows (Unit {0})
unfolding update_where
set_account_last_sweep id at = set_account id (λ a. record a {
  last_sweep_at_ms = some (greater (or_zero a.last_sweep_at_ms) at);
  updated_at_ms = at;
})

-- The zero time clears the column.
unfoldable pub set_account_backfill_complete : ℕ → String → Option ℕ → TxOn Rows (Unit {0})
unfolding update_where
set_account_backfill_complete now id at =
    set_account id (λ a. record a { backfill_complete_at_ms = at; updated_at_ms = now })

unfoldable pub set_account_label : ℕ → String → Option String → TxOn Rows (Unit {0})
unfolding update_where
set_account_label now id label =
    set_account id (λ a. record a { label = label; updated_at_ms = now })

abbrev pub never_connected : Account → Bool
never_connected a = same_state a.state pairing && is_null a.paired_at_ms

unfoldable pub delete_pairing_account : String → TxOn Rows (Unit {0})
unfolding delete_where same_state
delete_pairing_account id rows =
    ok (tt, delete_where (λ a. has_account_id id a && never_connected a) rows)

-- ORDER BY COALESCE(last_event_at_ms, 0) DESC, id ASC, for the database's order of texts.
abbrev pub comes_before : (String → String → Bool) → Account → Account → Bool
comes_before le a b =
    ltb (or_zero b.last_event_at_ms) (or_zero a.last_event_at_ms)
    || (or_zero b.last_event_at_ms == or_zero a.last_event_at_ms && le a.id b.id)

unfoldable pub insert_ordered : (String → String → Bool) → Account → Rows → Rows
insert_ordered le a [] = a ∷ []
insert_ordered le a (b ∷ rest) =
    let placed = insert_ordered le a rest in
    if comes_before le a b then a ∷ b ∷ rest else b ∷ placed

unfoldable pub accounts : (String → String → Bool) → Rows → Rows
unfolding insert_ordered
accounts le [] = []
accounts le (a ∷ rest) = insert_ordered le a (accounts le rest)

-- What the statements of SweepAbandonedPairings meet, for each candidate.
pub record SweepEnv : Type 0 where
  pub now : ℕ
  pub list_error : Option StoreError
  pub read_error : String → Option StoreError
  pub delete_fate : String → Fate

abbrev mem_text : String → List String → Bool
mem_text x [] = false
mem_text x (y ∷ ys) = str_eq x y || mem_text x ys

abbrev add_deleted : String → Result (List String) × Rows → Result (List String) × Rows
add_deleted id (ok ids, rows) = (ok (id ∷ ids), rows)
add_deleted id (err e, rows) = (err e, rows)

abbrev Sweep : Type 0
Sweep = Rows → Result (List String) × Rows

-- What follows the DELETE of a candidate.
unfoldable pub sweep_deleted :
    String → Sweep → Result (Unit {0}) × Rows → Result (List String) × Rows
sweep_deleted id rest (err e, rows) = (err e, rows)
sweep_deleted id rest (ok u, rows) = add_deleted id (rest rows)

-- A live pairing younger than the timeout is passed over. A cutoff before the epoch is the epoch.
unfoldable pub is_kept : SweepEnv → List String → ℕ → Account → Bool
is_kept env live timeout a = mem_text a.id live && leb (env.now - timeout) a.updated_at_ms

unfoldable pub sweep_read : SweepEnv → List String → ℕ → String → Sweep → Result Account → Sweep
unfolding write delete_pairing_account sweep_deleted is_kept
sweep_read env live timeout id rest (err e) rows = (err e, rows)
sweep_read env live timeout id rest (ok a) rows =
    if is_kept env live timeout a
    then rest rows
    else sweep_deleted id rest (write (env.delete_fate id) (delete_pairing_account id) rows)

abbrev read_if : Option StoreError → Result Account → Result Account
read_if none r = r
read_if (some e) r = err e

unfoldable pub sweep_candidates : SweepEnv → List String → ℕ → List String → Sweep
unfolding account sweep_read
sweep_candidates env live timeout [] rows = (ok [], rows)
sweep_candidates env live timeout (id ∷ rest) rows =
    sweep_read env live timeout id (sweep_candidates env live timeout rest)
      (read_if (env.read_error id) (account id rows)) rows

abbrev ids_of : Rows → List String
ids_of [] = []
ids_of (a ∷ rest) = a.id ∷ ids_of rest

unfoldable pub sweep_listed : SweepEnv → List String → ℕ → Option StoreError → Sweep
unfolding sweep_candidates select_where same_state
sweep_listed env live timeout (some e) rows = (err e, rows)
sweep_listed env live timeout none rows =
    sweep_candidates env live timeout (ids_of (select_where never_connected rows)) rows

unfoldable pub sweep_abandoned_pairings : SweepEnv → List String → ℕ → Sweep
unfolding sweep_listed
sweep_abandoned_pairings env live timeout rows = sweep_listed env live timeout env.list_error rows
