-- ===== src/Process/Draining.antt =====
-- How the wait for the queries of an instance ends.
use dbbridge.Base.{◌≡◌, refl, Bool, true, false, List, [], ◌∷◌, any, nat_beq, arith, if◌then◌else◌}
use dbbridge.Lifecycle.{State, draining, stoppable, set_state, advance}
use dbbridge.State.MetaStore.{MetaStore}
use dbbridge.Manager.Defs.{Sys}
use dbbridge.Manager.Admission as Admission
use dbbridge.Manager.Admission.{count_in_flight}
use dbbridge.Process.{poll, drain}

module _ {S : Type 0} (ms : MetaStore S) where
  abbrev pub is_quiet : Sys S → Bool
  is_quiet sys = nat_beq (count_in_flight ms sys) 0

  poll-is_quiet :
      (seen : List (Sys S))
      → poll ms draining seen ≡ (if any is_quiet seen then (stoppable, true) else (draining, false))
  unfolding poll advance
  poll-is_quiet [] = refl
  poll-is_quiet (sys ∷ later) = ground (arith, poll-is_quiet later)

  -- The wait ends with the instance STOPPABLE exactly when some poll before the deadline finds nothing
  -- in flight, in its registry and in the store; else the instance stays DRAINING. The polls see a system
  -- that admits no query any more.
  pub drain-is_quiet :
      (later : Sys S → List (Sys S)) (sys : Sys S) (lm : State)
      → drain ms later sys lm ≡ (
          if any is_quiet (later (record sys { manager = record sys.manager { draining = true } }))
          then (stoppable, true)
          else (draining, false))
  unfolding drain set_state Admission.drain
  drain-is_quiet later sys lm =
      poll-is_quiet (later (record sys { manager = Admission.drain sys.manager }))
