-- ===== src/Manager/Reaper.antt =====
-- The owner reaper and the recovery at startup: `reapStaleOwners`, `recoverOrphans` and
-- `failOwnerLost`. `now` is the time of the pass.
pub mod Verdicts
pub mod Fence
use dbbridge.Base.{
  String, ◌==◌, Bool, true, false, Option, none, some, List, [], ◌∷◌, if◌then◌else◌, Result, ok,
  err,
}
use dbbridge.Base.Int.{ℤ, ◌+ℤ◌, ◌-ℤ◌, ltb_ℤ}
use dbbridge.Base.Assoc.{lookup, has}
use dbbridge.Domain.{
  Error, QueryRecord, QueryError, pending, running, failed, is_terminal, new_query_error,
  owner_lost,
}
use dbbridge.State.MetaStore.{MetaStore}
use dbbridge.Manager.Defs.{Manager, QueryEvent, Sys}
use dbbridge.Manager.Submit.{no_stats}
use dbbridge.Manager.Watchers.{notify_watchers}

abbrev pub owner_lost_error : QueryError
owner_lost_error = new_query_error owner_lost "owner instance lost before query completion" true

abbrev pub lost_record : ℤ → QueryRecord → QueryRecord
lost_record now rec = record rec {
  state = failed;
  finished_at = now;
  error = some owner_lost_error;
}

abbrev pub lost_event : QueryRecord → QueryEvent
lost_event rec = record {
  query_id = rec.id;
  state = failed;
  stats = no_stats;
  error = some owner_lost_error;
}

module _ {S : Type 0} (ms : MetaStore S) where
  unfoldable pub fail_owner_lost : ℤ → QueryRecord → Sys S → Sys S
  fail_owner_lost now rec sys =
      let (written, s1) =
        ms.update_query_if_state (lost_record now rec) (pending ∷ running ∷ []) sys.store in
      elim written [
        | err e ↦ record sys { store = s1 }
        | ok done ↦
            if done
            then record { manager = notify_watchers (lost_event rec) sys.manager; store = s1 }
            else record sys { store = s1 }
      ]

  -- The body of the loop of `reapStaleOwners`.
  unfoldable pub reap_query : ℤ → String → Sys S → Sys S
  reap_query now id sys =
      if has (lookup id sys.manager.active_reg) then sys else elim (ms.get_query id sys.store) [
        | err e ↦ sys
        | ok rec ↦
            if rec.owner_instance_id == sys.manager.instance_id
            then sys
            else if ltb_ℤ (now -ℤ rec.created_at)
                (sys.manager.cfg.heartbeat_ttl +ℤ sys.manager.cfg.heartbeat_ttl)
            then sys
            else fail_owner_lost now rec sys
      ]

  unfoldable pub reap_all : ℤ → List String → Sys S → Sys S
  reap_all now [] sys = sys
  reap_all now (id ∷ ids) sys = reap_all now ids (reap_query now id sys)

  unfoldable pub reap_stale_owners : ℤ → Sys S → Sys S
  reap_stale_owners now sys = elim (ms.list_stale_queries now sys.store) [
    | err e ↦ sys
    | ok ids ↦ reap_all now ids sys
  ]

  -- The body of the loop of `recoverOrphans`.
  unfoldable pub recover_query : ℤ → String → Sys S → Sys S
  recover_query now id sys = elim (ms.get_query id sys.store) [
    | err e ↦ sys
    | ok rec ↦ if is_terminal rec.state then sys else fail_owner_lost now rec sys
  ]

  unfoldable pub recover_all : ℤ → List String → Sys S → Sys S
  recover_all now [] sys = sys
  recover_all now (id ∷ ids) sys = recover_all now ids (recover_query now id sys)

  unfoldable pub recover_orphans : ℤ → Sys S → Sys S
  recover_orphans now sys = elim (ms.list_by_instance sys.manager.instance_id sys.store) [
    | err e ↦ sys
    | ok ids ↦ recover_all now ids sys
  ]
