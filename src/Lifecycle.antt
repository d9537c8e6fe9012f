-- ===== src/Lifecycle.antt =====
-- internal/lifecycle/manager.go: the lifecycle of one instance, behind its mutex.
use dbbridge.Base.{ℕ, ◌≡◌, ◌↔◌, Bool, true, false, arith, nat_beq, if◌then◌else◌, ltb}

pub data State : Type 0 where
  serving draining stoppable : State

-- `NewManager`
abbrev pub new_manager : State
new_manager = serving

-- `SetState`
unfoldable pub set_state : State → State → State
set_state s m = s

unfoldable pub is_draining : State → Bool
is_draining draining = true
is_draining stoppable = true
is_draining serving = false

unfoldable pub advance : State → ℕ → State
advance draining in_flight = if nat_beq in_flight 0 then stoppable else draining
advance stoppable in_flight = if ltb 0 in_flight then draining else stoppable
advance serving in_flight = serving

-- After `Advance` the instance is STOPPABLE exactly when it was already out of rotation and has
-- nothing in flight, and `Advance` never puts an instance out of rotation or back into it.
pub advance_iff :
    (s : State) (in_flight : ℕ)
    → ((advance s in_flight ≡ stoppable) ↔ ((is_draining s ≡ true) × (in_flight ≡ 0)))
      × (is_draining (advance s in_flight) ≡ is_draining s)
unfolding advance is_draining
advance_iff s in_flight = ground arith
