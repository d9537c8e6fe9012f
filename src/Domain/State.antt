-- ===== src/Domain/State.antt =====
-- internal/core/domain/models.go: `QueryState` and its two methods. The six constants are the
-- values that the program writes; an unknown text read from a store is not modelled.
use dbbridge.Base.{◌≡◌, ◌↔◌, Bool, true, false, ◌||◌, arith, List, [], ◌∷◌, if◌then◌else◌}

pub data QueryState : Type 0 where
  pending running succeeded failed canceled expired : QueryState

pub QueryState-discrete : Discrete QueryState
QueryState-discrete = hlevel

infix 50 ◌=s=◌
abbrev pub ◌=s=◌ : QueryState → QueryState → Bool
pending =s= pending = true
running =s= running = true
succeeded =s= succeeded = true
failed =s= failed = true
canceled =s= canceled = true
expired =s= expired = true
_ =s= _ = false

unfoldable pub is_terminal : QueryState → Bool
is_terminal succeeded = true
is_terminal failed = true
is_terminal canceled = true
is_terminal expired = true
is_terminal _ = false

-- The `switch` of `CanTransitionTo`, below the test `s == next`.
abbrev may_move : QueryState → QueryState → Bool
may_move pending next = next =s= running || next =s= canceled || next =s= failed
may_move running next = next =s= succeeded || next =s= failed || next =s= canceled
may_move succeeded next = next =s= expired
may_move failed next = next =s= expired
may_move canceled next = next =s= expired
may_move expired next = false

unfoldable pub can_transition_to : QueryState → QueryState → Bool
can_transition_to s next = if s =s= next then true else may_move s next

-- `slices.Contains` over states.
abbrev pub contains_state : List QueryState → QueryState → Bool
contains_state [] s = false
contains_state (x ∷ xs) s = x =s= s || contains_state xs s

pub =s=_iff : (s t : QueryState) → (s =s= t ≡ true) ↔ (s ≡ t)
=s=_iff s t = ground arith
