-- ===== src/Manager/Admission.antt =====
-- The in-flight registry, the concurrency slots and the drain flag.
use dbbridge.Base.{
  ℕ, suc, ◌-◌, String, ◌==◌, true, false, Option, none, some, List, [], ◌∷◌, ltb, length,
  if◌then◌else◌, Result, ok, err, max,
}
use dbbridge.Base.Assoc.{Assoc, insert, erase, values}
use dbbridge.Domain.{Error, draining_error}
use dbbridge.State.MetaStore.{MetaStore}
use dbbridge.Manager.Defs.{Manager, ActiveQuery, Slots, Sys}

-- A send on `slots` that does not block: `none` where it would, and the new channel otherwise.
unfoldable pub take_slot : Option Slots → Option (Option Slots)
take_slot none = some none
take_slot (some s) =
    if ltb s.used s.capacity then some (some (record s { used = suc s.used })) else none

-- A receive that does not block.
unfoldable pub give_slot : Option Slots → Option Slots
give_slot none = none
give_slot (some s) = if ltb 0 s.used then some (record s { used = s.used - 1 }) else some s

unfoldable pub acquire_slot : Manager → Option Manager
unfolding take_slot
acquire_slot m = elim (take_slot m.slots) [
  | none ↦ none
  | some slots ↦ some (record m { slots = slots })
]

unfoldable pub release_slot : Manager → Manager
unfolding give_slot
release_slot m = record m { slots = give_slot m.slots }

unfoldable pub admit : String → String → Manager → Result Error Manager
admit query_id db_id m =
    if m.draining
    then err draining_error
    else ok (record m {
      active_reg = insert query_id (record { db_id = db_id; canceled = false }) m.active_reg;
    })

unfoldable pub deregister : String → Manager → Manager
deregister query_id m = record m { active_reg = erase query_id m.active_reg }

unfoldable pub drain : Manager → Manager
drain m = record m { draining = true }

count_for : String → List ActiveQuery → ℕ
count_for db_id [] = 0
count_for db_id (q ∷ qs) =
    let rest = count_for db_id qs in if q.db_id == db_id then suc rest else rest

-- `activeForDB`
unfoldable pub active_for_db : String → Manager → ℕ
unfolding count_for
active_for_db db_id m = count_for db_id (values m.active_reg)

-- Every context of the list is canceled.
unfoldable pub cancel_all : Assoc ActiveQuery → Assoc ActiveQuery
cancel_all [] = []
cancel_all ((id, q) ∷ qs) = (id, record q { canceled = true }) ∷ cancel_all qs

-- `cancelActive`
unfoldable pub cancel_active : Manager → Manager
unfolding cancel_all
cancel_active m = record m { active_reg = cancel_all m.active_reg }

-- `CountInFlight`
unfoldable pub count_in_flight : {S : Type 0} → MetaStore S → Sys S → ℕ
count_in_flight ms sys = elim (ms.count_in_flight sys.manager.instance_id sys.store) [
  | ok remote ↦ max (length sys.manager.active_reg) remote
  | err e ↦ length sys.manager.active_reg
]
