-- ===== src/Scenarios/Stores.antt =====
-- Scenarios for the store.
use dbbridge.Base.{◌≡◌, refl, ◌↔◌, some, List, [], ◌∷◌, false, ok, arith, ne_of_test}
use dbbridge.Base.Int.{ℤ, pos, ◌+ℤ◌, ◌<ℤ◌}
use dbbridge.Base.Assoc.{lookup, insert}
use dbbridge.Domain.{QueryRecord, is_terminal}
use dbbridge.State.Memory.{Memory, new_memory, acquire_idempotency, list_stale_queries, full_key}
use dbbridge.State.Memory.Records.{
  IsConsistent, Call, put, delete, perform_all, perform_all-new_memory,
}
use dbbridge.State.Memory.Keys.{acquires, releases, call_keys, acquire_idempotency-call_keys}
use dbbridge.State.Memory.Listing.{Lists, list_stale_queries_iff}
use dbbridge.Scenarios.Fixtures.{query, stored_query, finished, finished_query}

abbrev calls : List Call
calls = put query ∷ put finished ∷ delete "q2" ∷ []

perform_all-new_memory_example : IsConsistent (perform_all calls new_memory)
perform_all-new_memory_example = perform_all-new_memory calls

-- Until 110 the key is q1's.
abbrev with_key : Memory
with_key = record stored_query {
  idempotency = (full_key "pg" "k", "q1") ∷ [];
  idemp_expires = (full_key "pg" "k", pos 110) ∷ [];
}

acquire_idempotency-call_keys_example :
    acquire_idempotency
      (pos 109)
      "pg"
      "k"
      "q3"
      (pos 10)
      (call_keys "pg" "k" (releases "q2" ∷ acquires (pos 105) "q2" (pos 10) ∷ []) with_key)
    ≡ (ok ("q1", false), with_key)
unfolding acquire_idempotency lookup insert ◌+ℤ◌
acquire_idempotency-call_keys_example =
    acquire_idempotency-call_keys (pos 100) "pg" "k" "q1" (pos 10) stored_query with_key
      (releases "q2" ∷ acquires (pos 105) "q2" (pos 10) ∷ []) (pos 109) "q3" (pos 10) refl
      (ne_of_test "q2" "q1" refl, ((ne_of_test "q2" "q1" refl, omega arith), tt)) (omega arith)

abbrev locked : Memory
locked = record stored_query { locks = ("gc:q1", pos 150) ∷ [] }

stored_query-IsConsistent : IsConsistent stored_query
unfolding lookup
stored_query-IsConsistent = record { unique = (refl, tt); keyed = ((refl, refl), tt) }

finished_query-IsConsistent : IsConsistent finished_query
unfolding lookup
finished_query-IsConsistent = record { unique = (refl, tt); keyed = ((refl, refl), tt) }

list_stale_queries_iff_example : Lists "q1" (list_stale_queries (pos 60) stored_query) ↔ (
    (rec : QueryRecord) × (lookup "q1" stored_query.queries ≡ some rec)
    × (is_terminal rec.state ≡ false)
    × ((exp : ℤ) → lookup "q1" stored_query.leases ≡ some exp → exp <ℤ pos 60))
list_stale_queries_iff_example =
    list_stale_queries_iff (pos 60) "q1" stored_query stored_query-IsConsistent
