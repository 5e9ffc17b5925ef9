-- ===== src/Store/Operations/Outcomes.antt =====
-- internal/store/operations.go: what a settlement and a giving up are to make of a row, in the words of
-- the comments on the transitions and on SettleOperation, and that the statements make it.
use agent_gm.Prelude.{
  ℕ, ◌≡◌, ◌≢◌, refl, ◌↔◌, ◌⊎◌, inl, inr, Bool, true, false, not, ◌&&◌, suc, Option, none, some,
  String, arith, eq_iff, subst, ◌<◌,
}
use agent_gm.Prelude.Int.{pos}
use agent_gm.Store.Write.{Status, running, succeeded, pending, failed, unknown}
use agent_gm.Store.Operations.{
  Row, Settlement, operation_terminal, operation_transition_allowed, same_status, settle_row,
  first_stamp, value_or, give_up,
}

-- The rows of the transition table, one constructor for each arrow.
pub data Arrow : Status → Status → Type 0 where
  answered : Arrow running succeeded
  rejected : Arrow running failed
  left_open : Arrow running pending
  crashed : Arrow running unknown
  echoed : Arrow pending succeeded
  echoed_failure : Arrow pending failed
  timed_out : Arrow pending unknown
  corrected : Arrow unknown succeeded
  corrected_failure : Arrow unknown failed
  stays : {s : Status} → Arrow s s

ruleset arrows = (
  answered, rejected, left_open, crashed, echoed, echoed_failure, timed_out, corrected,
  corrected_failure, stays,
)

pub allowed-Arrow : (s t : Status) → operation_transition_allowed s t ≡ true → Arrow s t
unfolding operation_transition_allowed same_status
allowed-Arrow running running h = stays
allowed-Arrow succeeded succeeded h = stays
allowed-Arrow pending pending h = stays
allowed-Arrow failed failed h = stays
allowed-Arrow unknown unknown h = stays
allowed-Arrow s t h = first_of (search arrows, cc)

stays-allowed : (s : Status) → operation_transition_allowed s s ≡ true
unfolding operation_transition_allowed same_status
stays-allowed running = refl
stays-allowed succeeded = refl
stays-allowed pending = refl
stays-allowed failed = refl
stays-allowed unknown = refl

pub Arrow-allowed : {s t : Status} → Arrow s t → operation_transition_allowed s t ≡ true
unfolding operation_transition_allowed same_status
Arrow-allowed answered = refl
Arrow-allowed rejected = refl
Arrow-allowed left_open = refl
Arrow-allowed crashed = refl
Arrow-allowed echoed = refl
Arrow-allowed echoed_failure = refl
Arrow-allowed timed_out = refl
Arrow-allowed corrected = refl
Arrow-allowed corrected_failure = refl
Arrow-allowed (stays {s = s}) = stays-allowed s

-- The statuses that end an operation.
abbrev pub Ends : Status → Type 0
Ends s = (s ≡ succeeded) ⊎ ((s ≡ failed) ⊎ (s ≡ unknown))

terminal-Ends : (s : Status) → (operation_terminal s ≡ true) ↔ Ends s
unfolding operation_terminal
terminal-Ends running = ground arith
terminal-Ends succeeded = (λ h. inl refl, λ h. refl)
terminal-Ends pending = ground arith
terminal-Ends failed = (λ h. inr (inl refl), λ h. refl)
terminal-Ends unknown = (λ h. inr (inr refl), λ h. refl)

-- What no statement changes but the insert.
pub record IsSameRequest (r r' : Row) : Type 0 where
  pub same_id : r'.id ≡ r.id
  pub same_account : r'.account_id ≡ r.account_id
  pub same_kind : r'.kind ≡ r.kind
  pub same_authorization : r'.authorization_id ≡ r.authorization_id
  pub same_key : r'.idempotency_key ≡ r.idempotency_key
  pub same_fingerprint : r'.request_fingerprint ≡ r.request_fingerprint
  pub same_payload : r'.request_payload_json ≡ r.request_payload_json
  pub same_tmp : r'.tmp_id ≡ r.tmp_id
  pub same_media_size : r'.media_size_bytes ≡ r.media_size_bytes
  pub same_creation : r'.created_at_ms ≡ r.created_at_ms

-- A row that is settled: it takes the settlement's status and its error, a message and a
-- conversation that the settlement names, and the time at which it first ended or was corrected.
pub record IsSettled (now : ℕ) (st : Settlement) (r r' : Row) : Type 0 where
  pub same : IsSameRequest r r'
  pub status : r'.status ≡ st.status
  pub terminal : (r'.terminal ≡ true) ↔ Ends st.status
  pub ended : Ends st.status → r.terminal_at_ms ≡ none → r'.terminal_at_ms ≡ some now
  pub ended_before : (at : ℕ) → 0 < at → r.terminal_at_ms ≡ some at → r'.terminal_at_ms ≡ some at
  pub not_ended : (Ends st.status → ⊥) → r.terminal_at_ms ≡ none → r'.terminal_at_ms ≡ none
  pub corrected_now :
      r.status ≡ unknown
      → st.status ≢ unknown
      → r.corrected_at_ms ≡ none
      → r'.corrected_at_ms ≡ some now
  pub corrected_before :
      (at : ℕ) → 0 < at → r.corrected_at_ms ≡ some at → r'.corrected_at_ms ≡ some at
  pub not_corrected :
      ((r.status ≡ unknown) × (st.status ≢ unknown) → ⊥)
      → r.corrected_at_ms ≡ none
      → r'.corrected_at_ms ≡ none
  pub raw_status_kept : st.google_status_raw ≡ pos 0 → r'.google_status_raw ≡ r.google_status_raw
  pub raw_status :
      (n : ℕ)
      → st.google_status_raw ≡ pos (suc n)
      → r'.google_status_raw ≡ some st.google_status_raw
  pub message : st.message_id ≢ "" → r'.message_id ≡ some st.message_id
  pub message_kept : st.message_id ≡ "" → r'.message_id ≡ r.message_id
  pub conversation : st.conversation_id ≢ "" → r'.conversation_id ≡ some st.conversation_id
  pub conversation_kept : st.conversation_id ≡ "" → r'.conversation_id ≡ r.conversation_id
  pub failure :
      st.error_code ≢ ""
      → (r'.error_code ≡ some st.error_code) × (r'.error_retryable ≡ some st.error_retryable)
  pub no_failure : st.error_code ≡ "" → (r'.error_code ≡ none) × (r'.error_retryable ≡ none)
  pub updated : r'.updated_at_ms ≡ now

-- A row that is given up: its status is unknown and final, with the code of what gave it up.
pub record IsGivenUp (now : ℕ) (code : String) (r r' : Row) : Type 0 where
  pub same : IsSameRequest r r'
  pub status : r'.status ≡ unknown
  pub terminal : r'.terminal ≡ true
  pub ended : r.terminal_at_ms ≡ none → r'.terminal_at_ms ≡ some now
  pub ended_before : (at : ℕ) → r.terminal_at_ms ≡ some at → r'.terminal_at_ms ≡ some at
  pub failure : (r'.error_code ≡ some code) × (r'.error_retryable ≡ some false)
  pub message : r'.message_id ≡ r.message_id
  pub conversation : r'.conversation_id ≡ r.conversation_id
  pub correction : r'.corrected_at_ms ≡ r.corrected_at_ms
  pub raw_status : r'.google_status_raw ≡ r.google_status_raw
  pub updated : r'.updated_at_ms ≡ now

pub same_status_iff : (s t : Status) → (same_status s t ≡ true) ↔ (s ≡ t)
unfolding same_status
same_status_iff s t = (to s t, λ e. subst (λ u. same_status s u ≡ true) e (self s))
  where
    to : (s t : Status) → same_status s t ≡ true → s ≡ t
    to running running h = refl
    to succeeded succeeded h = refl
    to pending pending h = refl
    to failed failed h = refl
    to unknown unknown h = refl
    to s t h = cc

    self : (s : Status) → same_status s s ≡ true
    self running = refl
    self succeeded = refl
    self pending = refl
    self failed = refl
    self unknown = refl

pub settle_row-IsSettled :
    (now : ℕ) (st : Settlement) (r : Row) → IsSettled now st r (settle_row now st r)
unfolding settle_row
settle_row-IsSettled now st r = record {
  same = record {
    same_id = refl;
    same_account = refl;
    same_kind = refl;
    same_authorization = refl;
    same_key = refl;
    same_fingerprint = refl;
    same_payload = refl;
    same_tmp = refl;
    same_media_size = refl;
    same_creation = refl;
  };
  status = refl;
  terminal = terminal-Ends st.status;
  ended = λ ends before. let t = (terminal-Ends st.status).1 ends in rw (before, t) refl;
  ended_before = λ at later before. ground arith;
  not_ended = λ goes_on before.
      not_stamped (operation_terminal st.status) (λ e. goes_on ((terminal-Ends st.status).0 e))
        before;
  not_corrected = λ not_now before.
      not_stamped (same_status r.status unknown && not (same_status st.status unknown))
        (λ e. not_now (correcting e)) before;
  raw_status_kept = λ e. rw e refl;
  raw_status = λ n e. rw e (ground arith);
  corrected_now = λ was is before.
      ground (arith, same_status_iff st.status unknown, same_status_iff r.status unknown);
  corrected_before = λ at later before. ground arith;
  message = λ named. ground (arith, eq_iff st.message_id "");
  message_kept = λ e. ground (arith, eq_iff st.message_id "");
  conversation = λ named. ground (arith, eq_iff st.conversation_id "");
  conversation_kept = λ e. ground (arith, eq_iff st.conversation_id "");
  failure = λ named. ground (arith, eq_iff st.error_code "");
  no_failure = λ e. ground (arith, eq_iff st.error_code "");
  updated = refl;
}
  where
    not_stamped :
        {old : Option ℕ} (b : Bool)
        → (b ≡ true → ⊥)
        → old ≡ none
        → first_stamp (value_or 0 old) b now ≡ none
    not_stamped true h e = absurd (h refl)
    not_stamped false h e = rw e refl

    correcting :
        (same_status r.status unknown && not (same_status st.status unknown)) ≡ true
        → (r.status ≡ unknown) × (st.status ≢ unknown)
    correcting e = (
      (same_status_iff r.status unknown).0 (ground arith),
      λ is. let k = (same_status_iff st.status unknown).1 is in absurd (ground arith),
    )

pub give_up-IsGivenUp :
    (now : ℕ) (code : String) (r : Row) → IsGivenUp now code r (give_up now code r)
unfolding give_up
give_up-IsGivenUp now code r = record {
  same = record {
    same_id = refl;
    same_account = refl;
    same_kind = refl;
    same_authorization = refl;
    same_key = refl;
    same_fingerprint = refl;
    same_payload = refl;
    same_tmp = refl;
    same_media_size = refl;
    same_creation = refl;
  };
  status = refl;
  terminal = refl;
  ended = λ before. rw before refl;
  ended_before = λ at before. rw before refl;
  failure = (refl, refl);
  message = refl;
  conversation = refl;
  correction = refl;
  raw_status = refl;
  updated = refl;
}
