-- ===== src/Scenarios/Events.antt =====
-- Scenarios for the subscriptions.
use dbbridge.Base.{none, List, [], ◌∷◌}
use dbbridge.Domain.{succeeded}
use dbbridge.Manager.Defs.{Manager, QueryEvent, Watcher}
use dbbridge.Manager.Submit.{no_stats}
use dbbridge.Scenarios.Fixtures.{manager}

abbrev watchers : List Watcher
watchers = record { channel = 0; waiting = [] } ∷ record { channel = 1; waiting = [] } ∷ []

abbrev watched : Manager
watched = record manager {
  watchers = ("q1", watchers) ∷ ("q2", record { channel = 2; waiting = [] } ∷ []) ∷ [];
  next_channel = 3;
}

abbrev success : QueryEvent
success = record { query_id = "q1"; state = succeeded; stats = no_stats; error = none }
