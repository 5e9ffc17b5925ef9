-- ===== src/Store/Operations.antt =====
-- internal/store/operations.go: the statements on the table `operations`; `now` is the injected
-- clock's reading.
pub mod Rules
pub mod Distinct
pub mod Changes
pub mod Inserts
pub mod Outcomes
pub mod Settles
mod Tests
pub mod Sweeps
pub mod History
use agent_gm.Prelude.{
  ℕ, zero, suc, ◌+◌, Bool, true, false, not, ◌&&◌, ◌||◌, Option, none, some, String, List, [], ◌∷◌,
  ◌++◌, map, ◌==◌, leb, str_eq, if◌then◌else◌,
}
use agent_gm.Prelude.Int.{ℤ, pos, eqz}
use agent_gm.Prelude.Rows.{first_where, select_where, update_where, delete_where, count_where}
use agent_gm.Store.Write.{
  Status, running, succeeded, pending, failed, unknown, StoreError, operation_not_found,
  transition_refused, constraint_violated, driver_failed, Result, ok, err, Fate, write,
}
unfoldable pub use agent_gm.Store.OperationRows.{
  operation_terminal, same_status, operation_transition_allowed, scan_operation,
}
pub use agent_gm.Store.OperationRows.{
  Row, Operation, moves_to, value_or, is_valid, Table, null_string, null_int, coalesce, has_id,
  key_equals, has_key,
}

abbrev pub new_row : ℕ → Operation → Row
new_row now o = record {
  id = o.id;
  account_id = o.account_id;
  kind = o.kind;
  authorization_id = o.authorization_id;
  idempotency_key = null_string o.idempotency_key;
  request_fingerprint = o.request_fingerprint;
  conversation_id = null_string o.conversation_id;
  message_id = null_string o.message_id;
  tmp_id = null_string o.tmp_id;
  status = running;
  terminal = false;
  terminal_at_ms = none;
  corrected_at_ms = none;
  error_code = none;
  error_message = none;
  error_retryable = none;
  google_status_raw = none;
  request_payload_json = if str_eq o.request_payload_json "" then "{}" else o.request_payload_json;
  media_size_bytes = none;
  created_at_ms = now;
  updated_at_ms = now;
}

abbrev clashes_by_key : Row → Option String → Table → Bool
clashes_by_key r none t = false
clashes_by_key r (some key) t =
    is_valid (first_where (has_key r.authorization_id r.account_id r.kind key) t)

-- The PRIMARY KEY, and the unique index on the tuple where the key is not NULL.
abbrev pub clashes : Row → Table → Bool
clashes r t = is_valid (first_where (has_id r.id) t) || clashes_by_key r r.idempotency_key t

-- That the account is there is checked by a foreign key, on another table: an insert that fails it is
-- one whose fate is to be rolled back.
pub insert_row : Row → Table → Result (Unit {0} × Table)
insert_row r t = if clashes r t then err constraint_violated else ok (tt, t ++ r ∷ [])

-- `minted` is the ID that OperationID mints for an operation that carries none.
unfoldable pub insert_operation : Fate → ℕ → String → Operation → Table → Result (Unit {0}) × Table
unfolding write insert_row first_where
insert_operation fate now minted o =
    write fate
      (insert_row (new_row now (record o { id = if str_eq o.id "" then minted else o.id })))

abbrev scan_first : Option Row → Result Operation
scan_first none = err operation_not_found
scan_first (some r) = ok (scan_operation r)

-- A query of the read pool: the driver may fail.
abbrev pub read {ℓ} : {A : Type ℓ} → Option String → Result A → Result A
read none r = r
read (some msg) r = err (driver_failed msg)

unfoldable pub operation : Option String → String → Table → Result Operation
unfolding first_where scan_operation
operation io id t = read io (scan_first (first_where (has_id id) t))

unfoldable pub operation_by_key :
    Option String → String → String → String → String → Table → Result Operation
unfolding first_where scan_operation
operation_by_key io authorization account kind key t =
    if str_eq key ""
    then err operation_not_found
    else read io (scan_first (first_where (has_key authorization account kind key) t))

abbrev other_account : String → String → String → String → Row → Bool
other_account authorization kind key account r =
    str_eq r.authorization_id authorization
    && str_eq r.kind kind
    && key_equals r.idempotency_key key
    && not (str_eq r.account_id account)

-- ORDER BY created_at_ms ASC LIMIT 1
unfoldable pub oldest : Option Row → Table → Option Row
oldest best [] = best
oldest none (r ∷ rs) = oldest (some r) rs
oldest (some b) (r ∷ rs) = oldest (some (if leb b.created_at_ms r.created_at_ms then b else r)) rs

abbrev account_of : Option Row → Result (Option String)
account_of none = ok none
account_of (some r) = ok (some r.account_id)

-- The account that used the key first, if another one did.
unfoldable pub key_used_by_another_account :
    Option String → String → String → String → String → Table → Result (Option String)
unfolding select_where oldest
key_used_by_another_account io authorization kind key account t =
    if str_eq key ""
    then ok none
    else read io
        (account_of (oldest none (select_where (other_account authorization kind key account) t)))

abbrev pub has_tmp_id : String → String → Row → Bool
has_tmp_id account tmp r = str_eq r.account_id account && key_equals r.tmp_id tmp

-- ORDER BY created_at_ms DESC LIMIT 1
unfoldable pub newest : Option Row → Table → Option Row
newest best [] = best
newest none (r ∷ rs) = newest (some r) rs
newest (some b) (r ∷ rs) = newest (some (if leb r.created_at_ms b.created_at_ms then b else r)) rs

unfoldable pub operation_by_tmp_id : Option String → String → String → Table → Result Operation
unfolding select_where newest scan_operation
operation_by_tmp_id io account tmp t =
    read io (scan_first (newest none (select_where (has_tmp_id account tmp) t)))

unfoldable pub set_operation_tmp_id : Fate → ℕ → String → String → Table → Result (Unit {0}) × Table
unfolding write update_where
set_operation_tmp_id fate now id tmp = write fate λ t.
    ok (tt, update_where (has_id id) (λ r. record r { tmp_id = some tmp; updated_at_ms = now }) t)

unfoldable pub set_operation_media_size : Fate → ℕ → String → ℕ → Table → Result (Unit {0}) × Table
unfolding write update_where
set_operation_media_size fate now id size = write fate λ t. ok (
  tt,
  update_where (has_id id) (λ r. record r { media_size_bytes = some size; updated_at_ms = now }) t,
)

pub record Settlement : Type 0 where
  pub status : Status
  pub message_id : String
  pub conversation_id : String
  pub error_code : String
  pub error_message : String
  pub error_retryable : Bool
  pub google_status_raw : ℤ

abbrev pub first_stamp : ℕ → Bool → ℕ → Option ℕ
first_stamp zero happens now = if happens then some now else none
first_stamp (suc at) happens now = some (suc at)

-- The UPDATE of SettleOperation.
unfoldable pub settle_row : ℕ → Settlement → Row → Row
unfolding operation_terminal same_status
settle_row now st cur = record cur {
  status = st.status;
  terminal = operation_terminal st.status;
  terminal_at_ms = first_stamp (value_or 0 cur.terminal_at_ms) (operation_terminal st.status) now;
  corrected_at_ms =
      first_stamp (value_or 0 cur.corrected_at_ms)
        (same_status cur.status unknown && not (same_status st.status unknown)) now;
  message_id = coalesce (null_string st.message_id) cur.message_id;
  conversation_id = coalesce (null_string st.conversation_id) cur.conversation_id;
  error_code = null_string st.error_code;
  error_message = null_string st.error_message;
  error_retryable = if str_eq st.error_code "" then none else some st.error_retryable;
  google_status_raw = coalesce (null_int st.google_status_raw) cur.google_status_raw;
  updated_at_ms = now;
}

abbrev reread : Option Row → Table → Result (Operation × Table)
reread none t = err operation_not_found
reread (some r) t = ok (scan_operation r, t)

settle_found : ℕ → String → Settlement → Option Row → Table → Result (Operation × Table)
unfolding operation_transition_allowed settle_row update_where first_where scan_operation
settle_found now id st none t = err operation_not_found
settle_found now id st (some cur) t =
    if operation_transition_allowed cur.status st.status
    then (let t' = update_where (has_id id) (λ _. settle_row now st cur) t in
        reread (first_where (has_id id) t') t')
    else err (transition_refused cur.status st.status)

unfoldable pub settle_operation : Fate → ℕ → String → Settlement → Table → Result Operation × Table
unfolding write settle_found first_where
settle_operation fate now id st =
    write fate λ t. settle_found now id st (first_where (has_id id) t) t

abbrev pub is_running : Row → Bool
is_running r = same_status r.status running

-- The UPDATE of the crash sweep and of the reaper.
unfoldable pub give_up : ℕ → String → Row → Row
give_up now code r = record r {
  status = unknown;
  terminal = true;
  terminal_at_ms = coalesce r.terminal_at_ms (some now);
  error_code = some code;
  error_retryable = some false;
  updated_at_ms = now;
}

-- QueryRow of a row that is not there.
abbrev no_rows : StoreError
no_rows = driver_failed "sql: no rows in result set"

abbrev and_read : Option Row → Result (List Operation) → Result (List Operation)
and_read none rest = err no_rows
and_read (some r) (ok os) = ok (scan_operation r ∷ os)
and_read (some r) (err e) = err e

-- The loop that reads the rows again by their IDs.
unfoldable pub read_back : List String → Table → Result (List Operation)
unfolding first_where scan_operation
read_back [] t = ok []
read_back (id ∷ ids) t = and_read (first_where (has_id id) t) (read_back ids t)

abbrev pub beside {ℓ} : {A : Type ℓ} → Result A → Table → Result (A × Table)
beside (ok a) t = ok (a, t)
beside (err e) t = err e

abbrev pub ids_of : List Row → List String
ids_of = map λ r. r.id

unfoldable pub recover_running_operations : Fate → ℕ → Table → Result (List Operation) × Table
unfolding write select_where update_where give_up same_status read_back
recover_running_operations fate now = write fate λ t.
    let t' = update_where is_running (give_up now "crash_recovered") t in
    beside (read_back (ids_of (select_where is_running t)) t') t'

-- created_at_ms <= now - timeout, on signed integers.
abbrev pub is_overdue : ℕ → ℕ → Row → Bool
is_overdue now timeout r = same_status r.status pending && leb (r.created_at_ms + timeout) now

abbrev and_reaped : Option Row → Result (List Operation × Table) → Result (List Operation × Table)
and_reaped none rest = err no_rows
and_reaped (some r) (ok (os, t)) = ok (scan_operation r ∷ os, t)
and_reaped (some r) (err e) = err e

-- The loop over the IDs, one UPDATE and one SELECT each.
unfoldable pub reap_each : ℕ → List String → Table → Result (List Operation × Table)
unfolding update_where give_up first_where scan_operation
reap_each now [] t = ok ([], t)
reap_each now (id ∷ ids) t =
    let t' = update_where (has_id id) (give_up now "pending_timeout") t in
    and_reaped (first_where (has_id id) t') (reap_each now ids t')

unfoldable pub reap_pending_operations : Fate → ℕ → ℕ → Table → Result (List Operation) × Table
unfolding write select_where reap_each same_status
reap_pending_operations fate now timeout =
    write fate λ t. reap_each now (ids_of (select_where (is_overdue now timeout) t)) t

-- terminal = 1 AND created_at_ms <= now - ttl
abbrev pub is_stale : ℕ → ℕ → Row → Bool
is_stale now ttl r = r.terminal && leb (r.created_at_ms + ttl) now

unfoldable pub sweep_idempotency_keys : Fate → ℕ → ℕ → Table → Result ℕ × Table
unfolding write delete_where count_where
sweep_idempotency_keys fate now ttl =
    write fate λ t. ok (count_where (is_stale now ttl) t, delete_where (is_stale now ttl) t)
