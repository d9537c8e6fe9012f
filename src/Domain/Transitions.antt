-- ===== src/Domain/Transitions.antt =====
-- The state machine of a query against its diagram (docs/spec.md, section 3).
use dbbridge.Base.{ℕ, ◌<◌, ◌≡◌, refl, ◌≢◌, ◌↔◌, ◌⊎◌, inl, inr, true, arith}
use dbbridge.Domain.{
  QueryState, pending, running, succeeded, failed, canceled, expired, is_terminal,
  can_transition_to,
}

-- The arrows of the diagram, without the reflexive ones.
pub data Edge : QueryState → QueryState → Type 0 where
  start : Edge pending running
  abort : Edge pending canceled
  refuse : Edge pending failed
  succeed : Edge running succeeded
  fail : Edge running failed
  cancel : Edge running canceled
  expire : {s : QueryState} → is_terminal s ≡ true → s ≢ expired → Edge s expired

-- How far a state is along the diagram.
abbrev pub stage : QueryState → ℕ
stage pending = 0
stage running = 1
stage expired = 3
stage _ = 2

Edge-can_transition_to : {s t : QueryState} → Edge s t → can_transition_to s t ≡ true
unfolding can_transition_to is_terminal
Edge-can_transition_to start = refl
Edge-can_transition_to abort = refl
Edge-can_transition_to refuse = refl
Edge-can_transition_to succeed = refl
Edge-can_transition_to fail = refl
Edge-can_transition_to cancel = refl
Edge-can_transition_to (expire t n) = ground arith

can_transition_to-Edge : (s t : QueryState) → can_transition_to s t ≡ true → (s ≡ t) ⊎ Edge s t
unfolding can_transition_to is_terminal
can_transition_to-Edge pending running h = inr start
can_transition_to-Edge pending canceled h = inr abort
can_transition_to-Edge pending failed h = inr refuse
can_transition_to-Edge running succeeded h = inr succeed
can_transition_to-Edge running failed h = inr fail
can_transition_to-Edge running canceled h = inr cancel
can_transition_to-Edge succeeded expired h = inr (expire refl (λ e. cc))
can_transition_to-Edge failed expired h = inr (expire refl (λ e. cc))
can_transition_to-Edge canceled expired h = inr (expire refl (λ e. cc))
can_transition_to-Edge s t h = inl (ground arith)

-- `CanTransitionTo` allows exactly the arrows of the state diagram, and staying where one is.
pub can_transition_to_iff :
    (s t : QueryState) → (can_transition_to s t ≡ true) ↔ ((s ≡ t) ⊎ Edge s t)
unfolding can_transition_to
can_transition_to_iff s t = (can_transition_to-Edge s t, back)
  where
    back : (s ≡ t) ⊎ Edge s t → can_transition_to s t ≡ true
    back (inl e) = ground arith
    back (inr e) = Edge-can_transition_to e

pub stage-can_transition_to :
    (s t : QueryState) → can_transition_to s t ≡ true → (s ≡ t) ⊎ (stage s < stage t)
unfolding can_transition_to
stage-can_transition_to s t h = ground arith

pub is_terminal-can_transition_to :
    (s t : QueryState)
    → can_transition_to s t ≡ true
    → is_terminal s ≡ true
    → (t ≡ s) ⊎ (t ≡ expired)
unfolding can_transition_to is_terminal
is_terminal-can_transition_to s t h k = ground arith
