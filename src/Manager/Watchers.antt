-- ===== src/Manager/Watchers.antt =====
-- Subscriptions: `Watch`, `unwatch`, `deliverEvent` and `notifyWatchers`.
pub mod Delivery
pub mod Frame
use dbbridge.Base.{
  ℕ, suc, String, Bool, false, not, Option, none, some, List, [], ◌∷◌, ◌++◌, map, ltb, nat_beq,
  ◌||◌, length, if◌then◌else◌, Result, ok, err,
}
use dbbridge.Base.Assoc.{Assoc, lookup, insert, erase}
use dbbridge.Domain.{Error, QueryRecord, is_terminal}
use dbbridge.State.MetaStore.{MetaStore}
use dbbridge.Manager.Defs.{Manager, QueryEvent, Watcher, Sys}

abbrev pub watcher_buffer : ℕ
watcher_buffer = 20

abbrev pub event_publish_buffer : ℕ
event_publish_buffer = 256

-- A send that does not block: a full channel drops the event.
unfoldable pub offer : QueryEvent → Watcher → Watcher
offer ev w =
    if ltb (length w.waiting) watcher_buffer then record w { waiting = w.waiting ++ ev ∷ [] } else w

abbrev subs_of : Option (List Watcher) → List Watcher
subs_of none = []
subs_of (some subs) = subs

unfoldable pub remove_channel : ℕ → List Watcher → List Watcher
remove_channel ch [] = []
remove_channel ch (w ∷ ws) =
    let rest = remove_channel ch ws in if nat_beq w.channel ch then rest else w ∷ rest

unfoldable pub only_channel : ℕ → List Watcher → List Watcher
only_channel ch [] = []
only_channel ch (w ∷ ws) =
    let rest = only_channel ch ws in if nat_beq w.channel ch then w ∷ rest else rest

unfoldable pub has_channel : ℕ → List Watcher → Bool
has_channel ch [] = false
has_channel ch (w ∷ ws) = nat_beq w.channel ch || has_channel ch ws

unfoldable pub keep_subs : String → List Watcher → Assoc (List Watcher) → Assoc (List Watcher)
keep_subs query_id [] watchers = erase query_id watchers
keep_subs query_id (w ∷ ws) watchers = insert query_id (w ∷ ws) watchers

-- `dropWatcherLocked`, and `unwatch` around it.
unfoldable pub unwatch : String → ℕ → Manager → Manager
unfolding remove_channel only_channel has_channel keep_subs
unwatch query_id ch m = elim (lookup query_id m.watchers) [
  | none ↦ m
  | some subs ↦ if not (has_channel ch subs) then m else record m {
    watchers = keep_subs query_id (remove_channel ch subs) m.watchers;
    closed = m.closed ++ only_channel ch subs;
  }
]

-- The send to one channel of the query.
unfoldable pub offer_to : QueryEvent → ℕ → List Watcher → List Watcher
offer_to ev ch [] = []
offer_to ev ch (w ∷ ws) =
    let rest = offer_to ev ch ws in if nat_beq w.channel ch then offer ev w ∷ rest else w ∷ rest

unfoldable pub send_to : QueryEvent → ℕ → Manager → Manager
unfolding offer_to
send_to ev ch m = elim (lookup ev.query_id m.watchers) [
  | none ↦ m
  | some subs ↦ record m { watchers = insert ev.query_id (offer_to ev ch subs) m.watchers }
]

-- The body of the loop of `deliverEvent`: a terminal event also drops the subscription.
unfoldable pub deliver_to : QueryEvent → ℕ → Manager → Manager
deliver_to ev ch m =
    if is_terminal ev.state then unwatch ev.query_id ch (send_to ev ch m) else send_to ev ch m

-- The loop, over the subscriptions that there are when it starts.
unfoldable pub deliver_each : QueryEvent → List Watcher → Manager → Manager
deliver_each ev [] m = m
deliver_each ev (w ∷ ws) m = deliver_each ev ws (deliver_to ev w.channel m)

unfoldable pub deliver_event : QueryEvent → Manager → Manager
deliver_event ev m = deliver_each ev (subs_of (lookup ev.query_id m.watchers)) m

pub oldest : List QueryEvent → List QueryEvent
oldest [] = []
oldest (e ∷ es) = e ∷ []

pub newer : List QueryEvent → List QueryEvent
newer [] = []
newer (e ∷ es) = es

-- The send to the publisher. A terminal event waits for the publisher to take the oldest one.
unfoldable pub queue_event : QueryEvent → Manager → Manager
unfolding oldest newer
queue_event ev m =
    if ltb (length m.events) event_publish_buffer
    then record m { events = m.events ++ ev ∷ [] }
    else if is_terminal ev.state
    then (if m.keeps_up
        then record m { events = newer m.events ++ ev ∷ []; taken = m.taken ++ oldest m.events }
        else m)
    else m

unfoldable pub notify_watchers : QueryEvent → Manager → Manager
notify_watchers ev m = queue_event ev (deliver_event ev m)

-- The event that tells a new subscriber how the query stands.
abbrev pub current_event : String → QueryRecord → QueryEvent
current_event query_id rec = record {
  query_id = query_id;
  state = rec.state;
  stats = rec.stats;
  error = rec.error;
}

-- `Watch`: the channel's number, or the error of the lookup.
unfoldable pub watch : {S : Type 0} → MetaStore S → String → Sys S → Result Error ℕ × Sys S
watch ms query_id sys = elim (ms.get_query query_id sys.store) [
  | err e ↦ (err e, sys)
  | ok rec ↦
      let m = sys.manager in
      let w : Watcher = record {
        channel = m.next_channel;
        waiting = current_event query_id rec ∷ [];
      } in
      let opened = record m {
        watchers = insert query_id (w ∷ subs_of (lookup query_id m.watchers)) m.watchers;
        next_channel = suc m.next_channel;
      } in
      (
        ok m.next_channel,
        record sys {
          manager =
              if is_terminal rec.state then unwatch query_id m.next_channel opened else opened;
        },
      )
]
