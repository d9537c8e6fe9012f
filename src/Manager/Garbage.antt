-- ===== src/Manager/Garbage.antt =====
-- Garbage collection: `gcPeriod`, `gcBudget`, `gcLockTTL`, `collectGarbage` and `collectQuery`.
pub mod Collected
pub mod Timing
use dbbridge.Base.{
  ℕ, zero, suc, ◌*◌, ◌/◌, String, ◌==◌, Bool, true, false, not, Option, none, some, List, [], ◌∷◌,
  if◌then◌else◌, Result, ok, err,
}
use dbbridge.Base.Int.{ℤ, pos, negsuc}
use dbbridge.Base.Assoc.{Assoc, lookup}
use dbbridge.Domain.{Error, QueryRecord, QueryState, ResultRef, expired, can_transition_to, ◌=s=◌}
use dbbridge.State.MetaStore.{MetaStore}
use dbbridge.Manager.Defs.{Manager, QueryEvent, Sys}
use dbbridge.Manager.Submit.{ResultStore, no_stats, scoped_idempotency_key}
use dbbridge.Manager.Watchers.{notify_watchers}

-- One minute.
abbrev pub gc_interval : ℕ
gc_interval = 60_000_000_000

-- A period that is not positive is replaced by the default.
unfoldable pub gc_period : Manager → ℕ
gc_period m = elim m.gc_period_dur [
  | pos n ↦ elim n [ zero ↦ gc_interval | suc k ↦ suc k ]
  | negsuc n ↦ gc_interval
]

unfoldable pub gc_budget : Manager → ℕ
gc_budget m = gc_period m * 3 / 4

unfoldable pub gc_lock_ttl : Manager → ℕ
gc_lock_ttl m = gc_period m * 5 / 6

-- The result backends: `GetStore`, and whether `Delete` succeeds.
pub record Results : Type 0 where
  pub stores : Assoc ResultStore
  pub delete : ResultRef → Bool

abbrev pub expired_event : String → QueryEvent
expired_event id = record { query_id = id; state = expired; stats = no_stats; error = none }

-- Whether the stored result is gone, so that the metadata may go.
unfoldable pub drop_result : Results → Option ResultRef → Bool
drop_result results none = true
drop_result results (some ref) = elim (lookup ref.backend results.stores) [
  | none ↦ false
  | some store ↦ results.delete ref
]

module _ {S : Type 0} (ms : MetaStore S) where
  -- The key of the record is released, whose failure is only logged, and the record deleted.
  unfoldable pub delete_metadata : QueryRecord → String → S → S
  delete_metadata rec id s =
      let s1 =
        if rec.idempotency_key == ""
        then s
        else (ms.release_idempotency rec.database_id
            (scoped_idempotency_key rec.subject rec.idempotency_key) id s).1 in
      (ms.delete_query id s1).1

  -- What follows the transition to EXPIRED.
  unfoldable pub remove_expired : Results → QueryRecord → String → Sys S → Sys S
  remove_expired results rec id sys =
      if drop_result results rec.result
      then record sys { store = delete_metadata rec id sys.store }
      else sys

  -- The transition to EXPIRED.
  unfoldable pub expire_query : Results → QueryRecord → String → Sys S → Sys S
  expire_query results rec id sys =
      if not (can_transition_to rec.state expired)
      then sys
      else let rec' = record rec { state = expired } in
        let (written, s1) = ms.update_query rec' sys.store in
        elim written [
          | err e ↦ record sys { store = s1 }
          | ok u ↦
              remove_expired results rec' id
                (record { manager = notify_watchers (expired_event id) sys.manager; store = s1 })
        ]

  unfoldable pub collect_query : Results → String → Sys S → Sys S
  collect_query results id sys = elim (ms.get_query id sys.store) [
    | err e ↦ sys
    | ok rec ↦
        if rec.state =s= expired
        then remove_expired results rec id sys
        else expire_query results rec id sys
  ]

  -- The loop of `collectGarbage`: the budget is how many queries the pass gets to.
  unfoldable pub collect_all : Results → ℕ → List String → Sys S → Sys S
  collect_all results budget [] sys = sys
  collect_all results zero (id ∷ ids) sys = sys
  collect_all results (suc budget) (id ∷ ids) sys =
      collect_all results budget ids (collect_query results id sys)

  unfoldable pub collect_garbage : Results → ℕ → ℤ → Sys S → Sys S
  collect_garbage results budget now sys =
      let (locked, s1) = ms.try_lock now "gc" (pos (gc_lock_ttl sys.manager)) sys.store in
      let sys1 : Sys S = record sys { store = s1 } in
      elim locked [
        | err e ↦ sys1
        | ok won ↦ if not won then sys1 else elim (ms.list_expired_queries now s1) [
          | err e ↦ sys1
          | ok ids ↦ collect_all results budget ids sys1
        ]
      ]
