-- ===== src/State/Memory/Contract.antt =====
-- The store in memory keeps the contract; its mutex lets nobody in during a call.
use dbbridge.Base.{String, ◌≡◌, Option, some, List, ok, true, arith, Option-cases, inl, inr}
use dbbridge.Base.Assoc.{lookup, lookup-insert, lookup-erase}
use dbbridge.Domain.{QueryRecord, QueryState}
use dbbridge.State.Contract.{IsExpected, IsRecordStore, kept, written}
use dbbridge.State.Memory.{
  Memory, memory_store, put_query, get_query, update_query_if_state, delete_query, with_lease,
  store,
}

abbrev pub find : String → Memory → Option QueryRecord
find id m = lookup id m.queries

find-store :
    (rec : QueryRecord) (m : Memory) (id : String)
    → find id (store rec m) ≡ written rec id (find id m)
unfolding store
find-store rec m id = lookup-insert rec.id id (kept rec) m.queries

memory-get_found :
    (id : String) (m : Memory) (rec : QueryRecord)
    → get_query id m ≡ ok rec
    → (q : QueryRecord) × (find id m ≡ some q) × (kept rec ≡ kept q)
unfolding get_query with_lease
memory-get_found id m rec h = elim (Option-cases (lookup id m.queries)) [
  | inl e ↦ ground (arith, h)
  | inr (q, e) ↦ (q, e, ground (arith, h))
]

memory-update_written :
    (rec : QueryRecord) (expected : List QueryState) (m m' : Memory) (id : String)
    → update_query_if_state rec expected m ≡ (ok true, m')
    → IsExpected (find rec.id m) expected × (find id m' ≡ written rec id (find id m))
unfolding update_query_if_state
memory-update_written rec expected m m' id h = elim (Option-cases (lookup rec.id m.queries)) [
  | inl e ↦ ground (arith, h)
  | inr (q, e) ↦ ((q, e, ground (arith, h)), ground (arith, h, find-store rec m id))
]

-- The store in memory refines the contract of the records, with no other client in between.
pub memory_store-IsRecordStore : IsRecordStore memory_store find (λ m. m)
unfolding put_query get_query update_query_if_state delete_query with_lease
memory_store-IsRecordStore = record {
  put_written = λ rec s s' id h. ground (arith, h, find-store rec s id);
  get_found = memory-get_found;
  get_missing = λ id s h. ground (arith, h);
  update_written = memory-update_written;
  update_refused = λ rec expected s s' id h. ground (arith, h);
  update_failed = λ rec expected s s' e id h. ground (arith, h);
  delete_removed = λ gone s s' id h. ground (arith, h, lookup-erase gone id s.queries);
}
