-- ===== src/Manager/Control/Closing.antt =====
-- The end of an instance: what its publisher announces.
use dbbridge.Base.{String, List, [], ◌∷◌, ◌++◌}
use dbbridge.State.MetaStore.{MetaStore}
use dbbridge.Manager.Defs.{Manager, QueryEvent, Sys}
use dbbridge.Manager.Control.{publish_event}

-- What waits to be announced.
abbrev pub queued : Manager → List QueryEvent
queued m = m.taken ++ m.events

module _ {S : Type 0} (ms : MetaStore S) where
  -- The events, announced in their order.
  abbrev pub publish_all : String → List QueryEvent → S → S
  publish_all instance_id [] store = store
  publish_all instance_id (ev ∷ evs) store =
      publish_all instance_id evs (publish_event ms instance_id ev store)

  abbrev pub announced : Sys S → Sys S
  announced sys = record {
    manager = record sys.manager { taken = []; events = [] };
    store = publish_all sys.manager.instance_id (queued sys.manager) sys.store;
  }
