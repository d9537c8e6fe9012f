-- ===== src/State/Memory.antt =====
-- internal/state/memory.go: `MemoryMetaStore`, one function for each method. A method holds the
-- mutex for its whole body, so it is one step; `now` is its `time.Now()`. The channel of a
-- subscriber is its number and the messages waiting in it.
pub mod Records
pub mod Keys
pub mod Listing
pub mod Contract
use Prim.Native.String.{◌++◌ as str_append}
use dbbridge.Base.{
  ℕ, suc, ◌+◌, String, ◌==◌, Bool, true, false, not, ◌&&◌, ◌||◌, Option, none, some, List, [], ◌∷◌,
  ◌++◌, map, length, select, contains, Result, ok, err, ltb, nat_beq, if◌then◌else◌,
}
use dbbridge.Base.Int.{ℤ, pos, ◌+ℤ◌, ltb_ℤ, is_zero}
use dbbridge.Base.Assoc.{Assoc, lookup, insert, erase, values, has}
use dbbridge.Domain.{
  Error, record_missing, QueryRecord, QueryState, pending, running, is_terminal, contains_state,
  ◌=s=◌,
}
use dbbridge.State.MetaStore.{MetaStore, ControlMsg, Op}

pub record Subscriber : Type 0 where
  pub channel : ℕ
  pub waiting : List ControlMsg

pub record Memory : Type 0 where
  pub queries : Assoc QueryRecord
  -- `dbID:key` to the query, and to its expiry
  pub idempotency : Assoc String
  pub idemp_expires : Assoc ℤ
  pub subscribers : List Subscriber
  pub next_channel : ℕ
  pub leases : Assoc ℤ
  pub locks : Assoc ℤ

unfoldable pub new_memory : Memory
new_memory = record {
  queries = [];
  idempotency = [];
  idemp_expires = [];
  subscribers = [];
  next_channel = 0;
  leases = [];
  locks = [];
}

store : QueryRecord → Memory → Memory
store rec m = record m {
  queries = insert rec.id (record rec { lease_deadline = pos 0 }) m.queries;
  leases = if is_terminal rec.state then erase rec.id m.leases else m.leases;
}

unfoldable pub put_query : QueryRecord → Op Memory Unit
unfolding store
put_query rec m = (ok tt, store rec m)

unfoldable pub with_lease : Option ℤ → QueryRecord → QueryRecord
with_lease none rec = rec
with_lease (some exp) rec = record rec { lease_deadline = exp }

unfoldable pub get_query : String → Memory → Result Error QueryRecord
unfolding with_lease
get_query id m = elim (lookup id m.queries) [
  | none ↦ err record_missing
  | some rec ↦ ok (with_lease (lookup id m.leases) rec)
]

unfoldable pub update_query : QueryRecord → Op Memory Unit
unfolding store
update_query rec m = elim (lookup rec.id m.queries) [
  | none ↦ (err record_missing, m)
  | some current ↦ (ok tt, store rec m)
]

unfoldable pub update_query_if_state : QueryRecord → List QueryState → Op Memory Bool
unfolding store
update_query_if_state rec expected m = elim (lookup rec.id m.queries) [
  | none ↦ (err record_missing, m)
  | some current ↦
      if not (contains_state expected current.state) then (ok false, m) else (ok true, store rec m)
]

abbrev pub full_key : String → String → String
full_key db_id key = str_append db_id (str_append ":" key)

-- `m.idempotency[fullKey]`, which is "" for a missing key.
abbrev or_empty : Option String → String
or_empty none = ""
or_empty (some s) = s

abbrev pub is_live : ℤ → Option ℤ → Bool
is_live now none = false
is_live now (some exp) = ltb_ℤ now exp

unfoldable pub acquire_idempotency : ℤ → String → String → String → ℤ → Op Memory (String × Bool)
acquire_idempotency now db_id key query_id ttl m =
    let k = full_key db_id key in
    if is_live now (lookup k m.idemp_expires)
    then (ok (or_empty (lookup k m.idempotency), false), m)
    else (
      ok (query_id, true),
      record m {
        idempotency = insert k query_id m.idempotency;
        idemp_expires = insert k (now +ℤ ttl) m.idemp_expires;
      },
    )

unfoldable pub release_idempotency : String → String → String → Op Memory Unit
release_idempotency db_id key query_id m =
    let k = full_key db_id key in
    if not (or_empty (lookup k m.idempotency) == query_id) then (ok tt, m) else (
      ok tt,
      record m { idempotency = erase k m.idempotency; idemp_expires = erase k m.idemp_expires },
    )

unfoldable pub refresh_idempotency : ℤ → String → String → String → ℤ → Op Memory Unit
refresh_idempotency now db_id key query_id ttl m =
    let k = full_key db_id key in
    if not (ltb_ℤ (pos 0) ttl)
    then (ok tt, m)
    else if not (or_empty (lookup k m.idempotency) == query_id)
    then (ok tt, m)
    else (ok tt, record m { idemp_expires = insert k (now +ℤ ttl) m.idemp_expires })

-- The loop of `Heartbeat` over the owned queries.
refresh_leases : List String → ℤ → Assoc ℤ → Assoc ℤ
refresh_leases [] exp leases = leases
refresh_leases (id ∷ ids) exp leases = refresh_leases ids exp (insert id exp leases)

unfoldable pub heartbeat : ℤ → String → List String → ℤ → Op Memory Unit
unfolding refresh_leases
heartbeat now instance_id owned ttl m =
    (ok tt, record m { leases = refresh_leases owned (now +ℤ ttl) m.leases })

unfoldable pub try_lock : ℤ → String → ℤ → Op Memory Bool
try_lock now name ttl m =
    if is_live now (lookup name m.locks)
    then (ok false, m)
    else (ok true, record m { locks = insert name (now +ℤ ttl) m.locks })

-- A full channel drops the message.
send : ControlMsg → Subscriber → Subscriber
send msg sub =
    if ltb (length sub.waiting) 100 then record sub { waiting = sub.waiting ++ msg ∷ [] } else sub

unfoldable pub publish_control : ControlMsg → Op Memory Unit
unfolding send
publish_control msg m = (ok tt, record m { subscribers = map (send msg) m.subscribers })

pub subscribe_control : Op Memory ℕ
subscribe_control m = (
  ok m.next_channel,
  record m {
    subscribers = m.subscribers ++ (record { channel = m.next_channel; waiting = [] }) ∷ [];
    next_channel = suc m.next_channel;
  },
)

-- The goroutine of `SubscribeControl`, when the subscriber's context ends: the first entry with
-- its channel is removed.
unsubscribe : ℕ → List Subscriber → List Subscriber
unsubscribe ch [] = []
unsubscribe ch (sub ∷ subs) = if nat_beq sub.channel ch then subs else sub ∷ unsubscribe ch subs

pub end_subscription : ℕ → Memory → Memory
unfolding unsubscribe
end_subscription ch m = record m { subscribers = unsubscribe ch m.subscribers }

is_in_flight : String → QueryRecord → Bool
is_in_flight instance_id q =
    (q.owner_instance_id == instance_id) && (q.state =s= pending || q.state =s= running)

unfoldable pub count_in_flight : String → Memory → Result Error ℕ
unfolding is_in_flight
count_in_flight instance_id m = ok (length (select (is_in_flight instance_id) (values m.queries)))

ids : List QueryRecord → List String
ids [] = []
ids (q ∷ qs) = q.id ∷ ids qs

is_owned : String → QueryRecord → Bool
is_owned instance_id q = (q.owner_instance_id == instance_id) && not (is_terminal q.state)

unfoldable pub list_by_instance : String → Memory → Result Error (List String)
unfolding ids is_owned
list_by_instance instance_id m = ok (ids (select (is_owned instance_id) (values m.queries)))

databases : List String → List QueryRecord → List String
databases seen [] = []
databases seen (q ∷ qs) =
    let rest = databases (q.database_id ∷ seen) qs in
    let others = databases seen qs in
    if contains q.database_id seen then others else q.database_id ∷ rest

unfoldable pub list_databases_seen : Memory → Result Error (List String)
unfolding databases
list_databases_seen m = ok (databases [] (values m.queries))

-- 24 hours
abbrev pub fallback_ttl : ℤ
fallback_ttl = pos 86_400_000_000_000

is_expired : ℤ → QueryRecord → Bool
is_expired now q =
    is_terminal q.state
    && not (is_zero q.finished_at)
    && ltb_ℤ
        (q.finished_at
          +ℤ (if is_zero q.options.result_ttl then fallback_ttl else q.options.result_ttl))
        now

unfoldable pub list_expired_queries : ℤ → Memory → Result Error (List String)
unfolding ids is_expired
list_expired_queries now m = ok (ids (select (is_expired now) (values m.queries)))

lease_over : ℤ → Option ℤ → Bool
lease_over now none = true
lease_over now (some exp) = ltb_ℤ exp now

is_stale : ℤ → Assoc ℤ → QueryRecord → Bool
unfolding lease_over
is_stale now leases q =
    (q.state =s= pending || q.state =s= running) && lease_over now (lookup q.id leases)

unfoldable pub list_stale_queries : ℤ → Memory → Result Error (List String)
unfolding ids is_stale
list_stale_queries now m = ok (ids (select (is_stale now m.leases) (values m.queries)))

unfoldable pub delete_query : String → Op Memory Unit
delete_query id m = (ok tt, record m { queries = erase id m.queries; leases = erase id m.leases })

-- `Close`
pub close : Memory → Memory
close m = record m { subscribers = [] }

abbrev pub memory_store : MetaStore Memory
memory_store = record {
  put_query = put_query;
  get_query = get_query;
  update_query = update_query;
  update_query_if_state = update_query_if_state;
  acquire_idempotency = acquire_idempotency;
  release_idempotency = release_idempotency;
  refresh_idempotency = refresh_idempotency;
  heartbeat = heartbeat;
  try_lock = try_lock;
  publish_control = publish_control;
  count_in_flight = count_in_flight;
  list_by_instance = list_by_instance;
  list_databases_seen = list_databases_seen;
  list_expired_queries = list_expired_queries;
  list_stale_queries = list_stale_queries;
  delete_query = delete_query;
}
