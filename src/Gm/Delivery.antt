-- ===== src/Gm/Delivery.antt =====
-- internal/gm/delivery.go: the delivery states, the map from Google's raw status codes onto them,
-- the outgoing transition table and the ignore sets.
pub mod Ladder
pub mod Bands
use agent_gm.Prelude.{
  ℕ, Bool, true, false, Option, none, some, List, [], ◌∷◌, ltb, ◌==◌, if◌then◌else◌, ◌||◌,
}
use agent_gm.Prelude.Int.{ℤ, pos, negsuc, between}

pub data DeliveryState : Type 0 where
  sending sent delivered read failed canceled deleted received downloading download_failed unknown :
      DeliveryState

pub DeliveryState-discrete : Discrete DeliveryState
DeliveryState-discrete = hlevel

-- `from == to` on two values of the string type.
unfoldable pub same_state : DeliveryState → DeliveryState → Bool
same_state sending sending = true
same_state sent sent = true
same_state delivered delivered = true
same_state read read = true
same_state failed failed = true
same_state canceled canceled = true
same_state deleted deleted = true
same_state received received = true
same_state downloading downloading = true
same_state download_failed download_failed = true
same_state unknown unknown = true
same_state _ _ = false

pub data MessageKind : Type 0 where
  message system : MessageKind

-- The literal of `deliveryStates`, row by row.
abbrev delivery_states : List (ℕ × DeliveryState)
delivery_states =
    (0, unknown)
    ∷ (3, sending)
    ∷ (4, sending)
    ∷ (5, sending)
    ∷ (6, sending)
    ∷ (7, sending)
    ∷ (10, sending)
    ∷ (16, sending)
    ∷ (20, sending)
    ∷ (1, sent)
    ∷ (14, sent)
    ∷ (2, delivered)
    ∷ (11, read)
    ∷ (8, failed)
    ∷ (9, failed)
    ∷ (13, failed)
    ∷ (17, failed)
    ∷ (18, failed)
    ∷ (19, failed)
    ∷ (21, failed)
    ∷ (22, failed)
    ∷ (24, failed)
    ∷ (25, failed)
    ∷ (26, failed)
    ∷ (27, failed)
    ∷ (12, canceled)
    ∷ (15, canceled)
    ∷ (23, deleted)
    ∷ (117, deleted)
    ∷ (300, deleted)
    ∷ (100, received)
    ∷ (108, received)
    ∷ (109, received)
    ∷ (116, received)
    ∷ (101, downloading)
    ∷ (102, downloading)
    ∷ (103, downloading)
    ∷ (104, downloading)
    ∷ (105, downloading)
    ∷ (115, downloading)
    ∷ (106, download_failed)
    ∷ (107, download_failed)
    ∷ (110, download_failed)
    ∷ (111, download_failed)
    ∷ (112, download_failed)
    ∷ (113, download_failed)
    ∷ (114, download_failed)
    ∷ (118, download_failed)
    ∷ []

unfoldable pub lookup_status : ℕ → List (ℕ × DeliveryState) → Option DeliveryState
lookup_status n [] = none
lookup_status n ((k, s) ∷ rest) = if k == n then some s else lookup_status n rest

unfoldable pub is_system_event_status : ℤ → Bool
is_system_event_status raw = between 200 279 raw

unfoldable pub kind_for_status : ℤ → MessageKind
unfolding is_system_event_status
kind_for_status raw = if is_system_event_status raw then system else message

abbrev found_state : Option DeliveryState → DeliveryState × Bool
found_state none = (unknown, false)
found_state (some s) = (s, true)

mapped_state : ℤ → DeliveryState × Bool
unfolding lookup_status
mapped_state (pos n) = found_state (lookup_status n delivery_states)
mapped_state (negsuc n) = (unknown, false)

-- The second part is false when the value is not mapped.
unfoldable pub delivery_state_for : ℤ → DeliveryState × Bool
unfolding is_system_event_status mapped_state
delivery_state_for raw = if is_system_event_status raw then (received, true) else mapped_state raw

unfoldable pub delivery_rank : DeliveryState → Option ℕ
delivery_rank sending = some 1
delivery_rank sent = some 2
delivery_rank delivered = some 3
delivery_rank read = some 4
delivery_rank _ = none

abbrev rank_rises : Option ℕ → Option ℕ → Bool
rank_rises (some from) (some to) = ltb from to
rank_rises none _ = false
rank_rises _ none = false

-- The `switch to` at the end of `TransitionAllowed`.
ladder_allows : DeliveryState → DeliveryState → Bool
unfolding same_state delivery_rank
ladder_allows from failed = same_state from sending || same_state from sent
ladder_allows from canceled = same_state from sending
ladder_allows from sending = rank_rises (delivery_rank from) (delivery_rank sending)
ladder_allows from sent = rank_rises (delivery_rank from) (delivery_rank sent)
ladder_allows from delivered = rank_rises (delivery_rank from) (delivery_rank delivered)
ladder_allows from read = rank_rises (delivery_rank from) (delivery_rank read)
ladder_allows from _ = false

unfoldable pub transition_allowed : DeliveryState → DeliveryState → Bool
unfolding same_state ladder_allows
transition_allowed from to =
    if same_state from to
    then true
    else if same_state to deleted
    then true
    else if same_state from unknown
    then true
    else if same_state from deleted
    then false
    else ladder_allows from to

unfoldable pub is_outgoing_ladder_state : DeliveryState → Bool
is_outgoing_ladder_state received = false
is_outgoing_ladder_state downloading = false
is_outgoing_ladder_state download_failed = false
is_outgoing_ladder_state _ = true

unfoldable pub holds_status : ℕ → List ℕ → Bool
holds_status n [] = false
holds_status n (k ∷ ks) = k == n || holds_status n ks

abbrev ignore_in_dm : List ℕ
ignore_in_dm = 214 ∷ 215 ∷ 216 ∷ 219 ∷ 206 ∷ 207 ∷ 213 ∷ 235 ∷ 236 ∷ 237 ∷ 238 ∷ []

abbrev ignore_always : List ℕ
ignore_always = 229 ∷ 234 ∷ 233 ∷ 203 ∷ 204 ∷ 205 ∷ 245 ∷ 210 ∷ 259 ∷ []

unfoldable pub should_ignore_status : ℤ → Bool → Bool
unfolding holds_status
should_ignore_status (pos n) is_dm =
    if holds_status n ignore_always
    then true
    else if holds_status n ignore_in_dm
    then is_dm
    else false
should_ignore_status (negsuc n) is_dm = false
