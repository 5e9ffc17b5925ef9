-- ===== src/Gm/Delivery/Bands.antt =====
-- internal/gm/delivery.go: what the status bands mean for the states and for the ignore sets.
use agent_gm.Prelude.{ℕ, ◌<◌, ◌≡◌, Bool, true, arith}
use agent_gm.Prelude.Int.{ℤ, pos, negsuc}
use agent_gm.Gm.Delivery.{
  is_outgoing_ladder_state, system, kind_for_status, delivery_state_for, should_ignore_status,
}

-- A status that ShouldIgnoreStatus tells the ingest path to drop is one of the in-thread system events,
-- in a direct conversation and in a group, and one that it drops in a group it drops in a direct
-- conversation too.
pub should_ignore_status-system :
    (raw : ℤ) (is_dm : Bool)
    → should_ignore_status raw is_dm ≡ true
    → (kind_for_status raw ≡ system) × (should_ignore_status raw true ≡ true)
unfolding should_ignore_status kind_for_status
should_ignore_status-system (pos n) is_dm h = (ground arith, ground arith)
should_ignore_status-system (negsuc n) is_dm h = cc

-- A status below 100 is about an outgoing message: its state takes part in the transition table,
-- also where the map does not name it.
outgoing_band : (n : ℕ) → n < 100 → is_outgoing_ladder_state (delivery_state_for (pos n)).0 ≡ true
unfolding delivery_state_for is_outgoing_ladder_state
outgoing_band n h = ground arith
