-- ===== src/Store/Operations/Rules.antt =====
-- internal/store/operations.go: what holds of every row, and what one statement may do to a row.
use agent_gm.Prelude.{ℕ, ◌<◌, ◌≡◌, refl, ◌⊎◌, true, false, none, String, arith}
use agent_gm.Store.Write.{Status, running, succeeded, failed}
use agent_gm.Store.Operations.{
  Row, Settlement, Operation, operation_terminal, operation_transition_allowed, value_or, new_row,
  settle_row, give_up,
}

-- `terminal` is derived from the status, exactly the terminal rows carry the time at which they first became so, and
-- only a corrected row carries the time of its correction.
pub record IsRowOk (r : Row) : Type 0 where
  pub derived : r.terminal ≡ operation_terminal r.status
  pub stamped : r.terminal ≡ true → 0 < value_or 0 r.terminal_at_ms
  pub unstamped : r.terminal ≡ false → r.terminal_at_ms ≡ none
  pub corrected : 0 < value_or 0 r.corrected_at_ms → (r.status ≡ succeeded) ⊎ (r.status ≡ failed)

-- What a later state of a row keeps of an earlier one.
pub record Ages (r r' : Row) : Type 0 where
  pub allowed : operation_transition_allowed r.status r'.status ≡ true
  pub kept_stamp : r.terminal ≡ true → r'.terminal_at_ms ≡ r.terminal_at_ms
  pub kept_correction : 0 < value_or 0 r.corrected_at_ms → r'.corrected_at_ms ≡ r.corrected_at_ms
  pub same_id : r'.id ≡ r.id
  pub same_account : r'.account_id ≡ r.account_id
  pub same_kind : r'.kind ≡ r.kind
  pub same_authorization : r'.authorization_id ≡ r.authorization_id
  pub same_key : r'.idempotency_key ≡ r.idempotency_key
  pub same_fingerprint : r'.request_fingerprint ≡ r.request_fingerprint
  pub same_creation : r'.created_at_ms ≡ r.created_at_ms

pub allowed_refl : (s : Status) → operation_transition_allowed s s ≡ true
unfolding operation_transition_allowed
allowed_refl running = refl
allowed_refl _ = refl

pub allowed_trans :
    (s t u : Status)
    → operation_transition_allowed s t ≡ true
    → operation_transition_allowed t u ≡ true
    → operation_transition_allowed s u ≡ true
unfolding operation_transition_allowed
allowed_trans s t u h k = ground arith

terminal_stays :
    (s t : Status)
    → operation_transition_allowed s t ≡ true
    → operation_terminal s ≡ true
    → operation_terminal t ≡ true
unfolding operation_transition_allowed operation_terminal
terminal_stays s t h k = ground arith

pub Ages-refl : (r : Row) → Ages r r
Ages-refl r = ground (arith, allowed_refl r.status)

pub Ages-trans : (r s t : Row) → IsRowOk r → IsRowOk s → Ages r s → Ages s t → Ages r t
Ages-trans r s t okr oks a b =
    ground (arith, allowed_trans r.status s.status t.status, terminal_stays r.status s.status)

pub new_row-IsRowOk : (now : ℕ) (o : Operation) → IsRowOk (new_row now o)
unfolding operation_terminal
new_row-IsRowOk now o = ground arith

module _ (now : ℕ) (st : Settlement) (r : Row) (later : 0 < now) (okr : IsRowOk r)
    (move : operation_transition_allowed r.status st.status ≡ true) where
  pub settle_row-IsRowOk : IsRowOk (settle_row now st r)
  unfolding settle_row operation_transition_allowed
  settle_row-IsRowOk = ground arith

  pub settle_row-Ages : Ages r (settle_row now st r)
  unfolding settle_row operation_transition_allowed
  settle_row-Ages = ground arith

module _ (now : ℕ) (code : String) (r : Row) (later : 0 < now) (okr : IsRowOk r) where
  pub give_up-IsRowOk : operation_terminal r.status ≡ false → IsRowOk (give_up now code r)
  unfolding give_up operation_terminal
  give_up-IsRowOk live = ground arith

  pub give_up-Ages : operation_terminal r.status ≡ false → Ages r (give_up now code r)
  unfolding give_up operation_transition_allowed operation_terminal
  give_up-Ages live = ground arith

pub settle_row-id : (now : ℕ) (st : Settlement) (r : Row) → (settle_row now st r).id ≡ r.id
unfolding settle_row
settle_row-id now st r = refl

pub give_up-id : (now : ℕ) (code : String) (r : Row) → (give_up now code r).id ≡ r.id
unfolding give_up
give_up-id now code r = refl
