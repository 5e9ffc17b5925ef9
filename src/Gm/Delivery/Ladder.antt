-- ===== src/Gm/Delivery/Ladder.antt =====
-- internal/gm/delivery.go: `TransitionAllowed` against the transition table of its own comment.
use agent_gm.Prelude.{◌≡◌, refl, ◌↔◌, true, arith}
use agent_gm.Gm.Delivery.{
  DeliveryState, sending, sent, delivered, read, failed, canceled, deleted, unknown,
  transition_allowed,
}

-- The rows of the table, one constructor for each arrow.
infix 40 ◌⟶◌ ◌⟶*◌
pub data ◌⟶◌ : DeliveryState → DeliveryState → Type 0 where
  carried : sending ⟶ sent
  arrived : sent ⟶ delivered
  displayed : delivered ⟶ read
  send_failed : sending ⟶ failed
  carrier_failed : sent ⟶ failed
  withdrawn : sending ⟶ canceled
  removed : {s : DeliveryState} → s ⟶ deleted
  corrected : {s : DeliveryState} → unknown ⟶ s

-- Any number of arrows: a message may stay where it is, and may skip forward.
pub data ◌⟶*◌ : DeliveryState → DeliveryState → Type 0 where
  here : {s : DeliveryState} → s ⟶* s
  then : {s t u : DeliveryState} → s ⟶ t → t ⟶* u → s ⟶* u

ruleset arrows =
    (carried, arrived, displayed, send_failed, carrier_failed, withdrawn, removed, corrected)

sound : (from to : DeliveryState) → transition_allowed from to ≡ true → from ⟶* to
unfolding transition_allowed
sound sending sending h = here
sound s deleted h = then removed here
sound unknown t h = then corrected here
sound from to h = first_of (search (here, then, arrows), cc)

allowed_refl : (s : DeliveryState) → transition_allowed s s ≡ true
unfolding transition_allowed
allowed_refl sending = refl
allowed_refl _ = refl

step_then :
    {s t : DeliveryState} (u : DeliveryState)
    → s ⟶ t
    → transition_allowed t u ≡ true
    → transition_allowed s u ≡ true
unfolding transition_allowed
step_then u carried h = ground arith
step_then u arrived h = ground arith
step_then u displayed h = ground arith
step_then u send_failed h = ground arith
step_then u carrier_failed h = ground arith
step_then u withdrawn h = ground arith
step_then u removed h = ground arith
step_then u corrected h = ground arith

complete : {from to : DeliveryState} → from ⟶* to → transition_allowed from to ≡ true
complete here = allowed_refl _
complete {to = to} (then st rest) = step_then to st (complete rest)

-- An outgoing message may move from one delivery state to another exactly when the table's arrows
-- lead from the first to the second, in any number of steps.
pub transition_allowed-iff-arrows :
    (from to : DeliveryState) → (transition_allowed from to ≡ true) ↔ (from ⟶* to)
transition_allowed-iff-arrows from to = (sound from to, complete)
