-- ===== src/Scenarios/Control.antt =====
-- Scenarios for the messages between instances and for the end of one.
use dbbridge.Base.{◌≡◌, ◌≢◌, refl, true, false, none, some, [], ◌∷◌, ok}
use dbbridge.Base.Assoc.{lookup}
use dbbridge.Domain.{QueryRecord, running, is_terminal}
use dbbridge.State.Memory.{Memory, memory_store, new_memory, get_query, with_lease}
use dbbridge.Manager.Defs.{Manager, QueryEvent, ActiveQuery, Sys}
use dbbridge.Manager.Admission.{cancel_all}
use dbbridge.Manager.Submit.{no_stats}
use dbbridge.Manager.Control.{stop_message, event_message, cancel_query, handle_control, stop_query}
use dbbridge.Manager.Control.Messages.{
  IsGuarded, IsCanceled, handle_control-IsGuarded, stop_query-IsCanceled,
}
use dbbridge.Scenarios.Fixtures.{query, stored_query, manager}

abbrev active : ActiveQuery
active = record { db_id = "pg"; canceled = false }

-- The instance that runs the query, and another one that is asked to stop it.
abbrev pub owner : Manager
owner = record manager { active_reg = ("q1", active) ∷ [] }

abbrev pub asked : Sys Memory
asked = record {
  manager = record manager { instance_id = "i2" };
  store = record stored_query { queries = ("q1", query) ∷ []; leases = [] };
}

abbrev query_found : QueryRecord
query_found = query

found : get_query "q1" asked.store ≡ ok query_found
unfolding get_query with_lease lookup
found = refl

going_on : is_terminal query_found.state ≡ false
unfolding is_terminal
going_on = refl

registered : lookup "q1" owner.active_reg ≡ some active
unfolding lookup
registered = refl

stop_query-IsCanceled_example :
    let msg = stop_message "i2" "q1" in
    let sent = memory_store.publish_control msg asked.store in
    ((asked.manager ≡ owner)
      → (stop_query memory_store "q1" asked
          ≡ (ok tt, record asked { manager = cancel_query "q1" owner }))
        × IsCanceled "q1" active owner (cancel_query "q1" owner))
    × ((asked.manager.instance_id ≢ owner.instance_id)
        → (stop_query memory_store "q1" asked ≡ (sent.0, record asked { store = sent.1 }))
          × IsCanceled "q1" active owner (handle_control msg owner))
stop_query-IsCanceled_example =
    stop_query-IsCanceled memory_store "q1" query_found active owner asked found going_on refl
      registered

abbrev event : QueryEvent
event = record { query_id = "q1"; state = running; stats = no_stats; error = none }

handle_control-IsGuarded_example : IsGuarded owner (handle_control (event_message "i2" event) owner)
handle_control-IsGuarded_example = handle_control-IsGuarded (event_message "i2" event) owner

-- An instance that ends with one event to announce.
abbrev ending : Sys Memory
ending = record { manager = record owner { events = event ∷ [] }; store = new_memory }

abbrev left : Sys Memory
left = record {
  manager = record ending.manager {
    draining = true;
    active_reg = cancel_all ending.manager.active_reg;
  };
  store = new_memory;
}
