-- ===== src/Manager/Control.antt =====
-- Messages between instances: `StopQuery`, `publishEvent`, the loop of `eventPublisher`, the body of the
-- loop of `controlWorker`, and the end of an instance, `Close`.
pub mod Messages
pub mod Closing
use dbbridge.Base.{
  ℕ, zero, suc, String, ◌==◌, Bool, true, false, Option, none, some, List, [], ◌∷◌, ◌&&◌,
  if◌then◌else◌, Result, ok, err,
}
use dbbridge.Base.Int.{ℤ}
use dbbridge.Base.Assoc.{Assoc, lookup, insert, has, keys}
use dbbridge.Domain.{Error, QueryRecord, is_terminal}
use dbbridge.State.MetaStore.{
  MetaStore, ControlMsg, ControlType, control_stop_query, control_query_event, QueryEventPayload,
}
use dbbridge.Manager.Defs.{Manager, QueryEvent, ActiveQuery, ManagedPool, Sys}
use dbbridge.Manager.Admission.{drain, cancel_active}
use dbbridge.Manager.Watchers.{deliver_event}

-- `aq.cancel()`, where the query is registered.
unfoldable pub cancel_query : String → Manager → Manager
cancel_query query_id m = elim (lookup query_id m.active_reg) [
  | none ↦ m
  | some aq ↦ record m { active_reg = insert query_id (record aq { canceled = true }) m.active_reg }
]

abbrev pub stop_message : String → String → ControlMsg
stop_message sender query_id = record {
  kind = control_stop_query;
  query_id = query_id;
  sender_id = sender;
  event = none;
}

abbrev pub event_message : String → QueryEvent → ControlMsg
event_message sender ev = record {
  kind = control_query_event;
  query_id = ev.query_id;
  sender_id = sender;
  event = some (record { state = ev.state; stats = ev.stats; error = ev.error });
}

abbrev pub event_of : String → QueryEventPayload → QueryEvent
event_of query_id payload = record {
  query_id = query_id;
  state = payload.state;
  stats = payload.stats;
  error = payload.error;
}

-- A message of another instance: the `switch` of `controlWorker`.
unfoldable pub obey : ControlType → ControlMsg → Manager → Manager
obey control_stop_query msg m = cancel_query msg.query_id m
obey control_query_event msg m = elim msg.event [
  | none ↦ m
  | some payload ↦
      if has (lookup msg.query_id m.active_reg)
      then m
      else deliver_event (event_of msg.query_id payload) m
]

unfoldable pub handle_control : ControlMsg → Manager → Manager
handle_control msg m = if msg.sender_id == m.instance_id then m else obey msg.kind msg m

module _ {S : Type 0} (ms : MetaStore S) where
  unfoldable pub stop_query : String → Sys S → Result Error (Unit {0}) × Sys S
  stop_query query_id sys =
      let m = sys.manager in
      let (sent, store) = ms.publish_control (stop_message m.instance_id query_id) sys.store in
      elim (ms.get_query query_id sys.store) [
        | err e ↦ (err e, sys)
        | ok rec ↦
            if is_terminal rec.state
            then (ok tt, sys)
            else if (rec.owner_instance_id == m.instance_id) && has (lookup query_id m.active_reg)
            then (ok tt, record sys { manager = cancel_query query_id m })
            else (sent, record sys { store = store })
      ]

  -- A failed announcement is logged.
  unfoldable pub publish_event : String → QueryEvent → S → S
  publish_event instance_id ev store = (ms.publish_control (event_message instance_id ev) store).1

  -- One turn of the publisher: the oldest event, first of those that a send has made room for.
  unfoldable pub publish_next : Sys S → Sys S
  publish_next sys =
      let m = sys.manager in
      elim m.taken [
        | ev ∷ evs ↦ record {
          manager = record m { taken = evs };
          store = publish_event m.instance_id ev sys.store;
        }
        | [] ↦ elim m.events [
          | ev ∷ evs ↦ record {
            manager = record m { events = evs };
            store = publish_event m.instance_id ev sys.store;
          }
          | [] ↦ sys
        ]
      ]

  -- What the publisher does once it is told to stop; `budget` is how many events it can announce
  -- before its deadline.
  unfoldable pub drain_events : ℕ → Sys S → Sys S
  drain_events zero sys = sys
  drain_events (suc budget) sys = drain_events budget (publish_next sys)

  -- `heartbeatWorker` at a tick; the statistics of the pools are telemetry.
  unfoldable pub heartbeat_tick : ℤ → Sys S → Sys S
  heartbeat_tick now sys =
      let m = sys.manager in
      record sys {
        store =
            (ms.heartbeat now m.instance_id (keys m.active_reg) m.cfg.heartbeat_ttl sys.store).1;
      }

  -- `Close`: `queries_end` is what the executions do until they have ended or the wait is over. The
  -- pools to close are returned.
  unfoldable pub close : (Sys S → Sys S) → ℕ → Sys S → Sys S × Assoc ManagedPool
  close queries_end budget sys =
      let stopped = record sys { manager = cancel_active (drain sys.manager) } in
      let ended = queries_end stopped in (drain_events budget ended, ended.manager.db_pools)
