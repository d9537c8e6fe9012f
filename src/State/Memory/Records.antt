-- ===== src/State/Memory/Records.antt =====
-- Records: reading back what was written, the conditional write, and consistency.
use dbbridge.Base.{
  String, ◌==◌, ◌≡◌, refl, none, some, List, [], ◌∷◌, ok, err, arith, eq_iff, if◌then◌else◌,
  Option-cases, inl, inr,
}
use dbbridge.Base.Int.{ℤ, pos}
use dbbridge.Base.Assoc.{
  lookup, lookup-insert, lookup-erase, IsUnique, insert-IsUnique, erase-IsUnique, Entries,
  Entries-insert, Entries-erase,
}
use dbbridge.Domain.{QueryRecord, QueryState, is_terminal, record_missing}
use dbbridge.State.MetaStore.{ControlMsg}
use dbbridge.State.Memory.{
  Memory, get_query, put_query, update_query, update_query_if_state, delete_query, store,
  new_memory, acquire_idempotency, release_idempotency, refresh_idempotency, heartbeat, try_lock,
  publish_control, subscribe_control,
}

abbrev pub IsKeyed : String → QueryRecord → Type 0
IsKeyed id rec = (rec.id ≡ id) × (rec.lease_deadline ≡ pos 0)

-- What `GetQuery` returns of a record just written: a terminal record has no lease any more.
abbrev pub lease_of : QueryRecord → Memory → ℤ
lease_of rec m =
    if is_terminal rec.state
    then pos 0
    else elim (lookup rec.id m.leases) [ none ↦ pos 0 | some exp ↦ exp ]

-- After `PutQuery`, `GetQuery` returns the record written under its id, with the deadline of
-- its lease, and what it returned before under any other id.
pub get_query-put_query :
    (rec : QueryRecord) (id : String) (m : Memory)
    → get_query id (put_query rec m).1 ≡ (
        if rec.id == id
        then ok (record rec { lease_deadline = lease_of rec m })
        else get_query id m)
unfolding get_query put_query
get_query-put_query rec id m = ground (
  arith,
  eq_iff rec.id id,
  lookup-insert rec.id id (record rec { lease_deadline = pos 0 }) m.queries,
  lookup-erase rec.id id m.leases,
)

-- Each stored record stands once, under its own id, and holds no lease deadline.
pub record IsConsistent (m : Memory) : Type 0 where
  pub unique : IsUnique m.queries
  pub keyed : Entries IsKeyed m.queries

store-IsConsistent : (rec : QueryRecord) (m : Memory) → IsConsistent m → IsConsistent (store rec m)
unfolding store
store-IsConsistent rec m c = record {
  unique = insert-IsUnique rec.id _ m.queries c.unique;
  keyed = Entries-insert IsKeyed rec.id _ m.queries (refl, refl) c.keyed;
}

-- One call of a method that may write.
pub data Call : Type 0 where
  put : QueryRecord → Call
  update : QueryRecord → Call
  update_if_state : QueryRecord → List QueryState → Call
  acquire : ℤ → String → String → String → ℤ → Call
  release : String → String → String → Call
  refresh : ℤ → String → String → String → ℤ → Call
  beat : ℤ → String → List String → ℤ → Call
  lock : ℤ → String → ℤ → Call
  publish : ControlMsg → Call
  subscribe : Call
  delete : String → Call

abbrev pub perform : Call → Memory → Memory
perform (put rec) m = (put_query rec m).1
perform (update rec) m = (update_query rec m).1
perform (update_if_state rec expected) m = (update_query_if_state rec expected m).1
perform (acquire now db_id key q ttl) m = (acquire_idempotency now db_id key q ttl m).1
perform (release db_id key q) m = (release_idempotency db_id key q m).1
perform (refresh now db_id key q ttl) m = (refresh_idempotency now db_id key q ttl m).1
perform (beat now instance_id owned ttl) m = (heartbeat now instance_id owned ttl m).1
perform (lock now name ttl) m = (try_lock now name ttl m).1
perform (publish msg) m = (publish_control msg m).1
perform subscribe m = (subscribe_control m).1
perform (delete id) m = (delete_query id m).1

abbrev pub perform_all : List Call → Memory → Memory
perform_all [] m = m
perform_all (c ∷ cs) m = perform_all cs (perform c m)

pub perform-IsConsistent : (c : Call) (m : Memory) → IsConsistent m → IsConsistent (perform c m)
unfolding put_query update_query update_query_if_state acquire_idempotency release_idempotency
    refresh_idempotency heartbeat try_lock publish_control subscribe_control delete_query
perform-IsConsistent (put rec) m c = store-IsConsistent rec m c
perform-IsConsistent (update rec) m c = ground (arith, store-IsConsistent rec m c)
perform-IsConsistent (update_if_state rec expected) m c = ground (arith, store-IsConsistent rec m c)
perform-IsConsistent (delete id) m c = record {
  unique = erase-IsUnique id m.queries c.unique;
  keyed = Entries-erase IsKeyed id m.queries c.keyed;
}
perform-IsConsistent _ m c = ground arith

perform_all-IsConsistent :
    (cs : List Call) (m : Memory) → IsConsistent m → IsConsistent (perform_all cs m)
perform_all-IsConsistent [] m c = c
perform_all-IsConsistent (x ∷ xs) m c =
    perform_all-IsConsistent xs (perform x m) (perform-IsConsistent x m c)

-- After any calls on a new store each record stands once and under its own id, and no stored
-- record holds a lease deadline, whatever deadlines the callers wrote back.
pub perform_all-new_memory : (cs : List Call) → IsConsistent (perform_all cs new_memory)
perform_all-new_memory cs =
    perform_all-IsConsistent cs new_memory (unfold new_memory in record { unique = tt; keyed = tt })

-- A stored record is read back as it is, but for the deadline of its lease.
pub get_query-stored :
    (id : String) (rec : QueryRecord) (m : Memory)
    → lookup id m.queries ≡ some rec
    → (l : ℤ) × (get_query id m ≡ ok (record rec { lease_deadline = l }))
unfolding get_query
get_query-stored id rec m e = elim (Option-cases (lookup id m.leases)) [
  | inl a ↦ (rec.lease_deadline, ground arith)
  | inr (l, a) ↦ (l, ground arith)
]

pub get_query-missing :
    (id : String) (m : Memory) → lookup id m.queries ≡ none → get_query id m ≡ err record_missing
unfolding get_query
get_query-missing id m e = ground arith
