-- ===== src/Process.antt =====
-- cmd/dbbridge/shutdown.go: what a signal to stop starts.
pub mod Draining
use dbbridge.Base.{ℕ, Bool, true, false, List, [], ◌∷◌, nat_beq, if◌then◌else◌}
use dbbridge.Lifecycle as Lifecycle
use dbbridge.Lifecycle.{State, draining, set_state, advance}
use dbbridge.State.MetaStore.{MetaStore}
use dbbridge.Manager.Defs.{Sys}
use dbbridge.Manager.Admission as Admission
use dbbridge.Manager.Admission.{count_in_flight}

-- The polls of `drain`, one a second: the system at each of them up to the deadline. The lifecycle that
-- is left, and whether nothing was in flight.
unfoldable pub poll : {S : Type 0} → MetaStore S → State → List (Sys S) → State × Bool
poll ms lm [] = (lm, false)
poll ms lm (sys ∷ later) =
    let in_flight = count_in_flight ms sys in
    let lm' = advance lm in_flight in
    let rest = poll ms lm' later in if nat_beq in_flight 0 then (lm', true) else rest

-- `drain`: admission is closed in the lifecycle and in the manager, and the queries go on; `later` is the
-- system at each poll, from the one that admission was closed in.
unfoldable pub drain :
    {S : Type 0} → MetaStore S → (Sys S → List (Sys S)) → Sys S → State → State × Bool
drain ms later sys lm =
    poll ms (set_state draining lm) (later (record sys { manager = Admission.drain sys.manager }))
