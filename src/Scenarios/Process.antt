-- ===== src/Scenarios/Process.antt =====
-- Scenarios for the end of the process and for the limit of requests.
use dbbridge.Base.{ℕ, zero, suc, ◌≡◌, any, Bool, true, false, List, [], ◌∷◌, if◌then◌else◌}
use dbbridge.Base.Int.{ℤ, pos}
use dbbridge.Lifecycle.{serving, draining, stoppable}
use dbbridge.State.Memory.{Memory, memory_store}
use dbbridge.Manager.Defs.{Sys}
use dbbridge.Process.{drain}
use dbbridge.Process.Draining.{is_quiet, drain-is_quiet}
use dbbridge.Ratelimit.{Limiter}
use dbbridge.Scenarios.Control.{asked, owner}

-- The instance with its query in flight.
abbrev busy : Sys Memory
busy = record asked { manager = owner }

-- The first poll sees the query, and the second finds it gone.
abbrev polls : Sys Memory → List (Sys Memory)
polls sys = sys ∷ record sys { manager = record sys.manager { active_reg = [] } } ∷ []

drain-is_quiet_example : drain memory_store polls busy serving ≡ (
    if any
      (is_quiet memory_store)
      (polls (record busy { manager = record owner { draining = true } }))
    then (stoppable, true)
    else (draining, false))
drain-is_quiet_example = drain-is_quiet memory_store polls busy serving

-- Buckets that hold a number of requests and are never filled again.
abbrev take_one : ℤ → ℕ → Bool × ℕ
take_one now zero = (false, zero)
take_one now (suc n) = (true, n)

abbrev two_callers : Limiter ℕ
two_callers = record {
  entries =
      ("addr:1", record { limiter = 0; last_use = pos 0 })
      ∷ ("addr:2", record { limiter = 1; last_use = pos 600_000_000_000 })
      ∷ [];
  last_purge = pos 0;
}
