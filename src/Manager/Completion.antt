-- ===== src/Manager/Completion.antt =====
-- The end of an execution: `terminalFor`, `persist`, `complete` and `finishRun`.
use dbbridge.Base.{
  ℕ, zero, suc, String, ◌==◌, Bool, true, false, not, ◌&&◌, ◌||◌, Option, none, some, nat_beq,
  if◌then◌else◌, Result, ok, err,
}
use dbbridge.Base.Int.{ℤ, pos, ◌-ℤ◌, ltb_ℤ, is_zero}
use dbbridge.Domain.{
  Error, QueryRecord, QueryState, QueryStats, QueryError, QueryErrorCode, new_query_error, failed,
  canceled, can_transition_to, db_exec_failed, query_timeout, storage_init_failed,
  storage_writer_failed, storage_finalize_failed, stream_encode_failed,
}
use dbbridge.State.MetaStore.{MetaStore}
use dbbridge.Manager.Defs.{QueryEvent, Sys}
use dbbridge.Manager.Watchers.{notify_watchers}
use dbbridge.Manager.Submit.{scoped_idempotency_key}

-- `ctx.Err()` of the execution context.
pub data CtxState : Type 0 where
  live ctx_canceled ctx_expired : CtxState

-- What `errors.Is` says of an error of a driver or a backend.
pub record Failure : Type 0 where
  pub is_canceled : Bool
  pub is_deadline : Bool

unfoldable pub backend_error_message : QueryErrorCode → String
backend_error_message db_exec_failed = "the database driver failed to execute the query"
backend_error_message storage_init_failed = "the result storage backend failed to initialize"
backend_error_message storage_writer_failed = "the result storage backend failed to open a writer"
backend_error_message stream_encode_failed = "encoding the result stream failed"
backend_error_message storage_finalize_failed =
    "the result storage backend failed to finalize the result"
backend_error_message _ = "the query failed"

abbrev was_canceled : CtxState → Bool
was_canceled ctx_canceled = true
was_canceled _ = false

abbrev was_expired : CtxState → Bool
was_expired ctx_expired = true
was_expired _ = false

unfoldable pub terminal_for : CtxState → Failure → QueryErrorCode → QueryState × Option QueryError
terminal_for ctx e fallback =
    if e.is_canceled || was_canceled ctx
    then (canceled, none)
    else if e.is_deadline || was_expired ctx
    then (failed, some (new_query_error query_timeout "query exceeded its timeout" true))
    else (failed, some (new_query_error fallback (backend_error_message fallback) false))

abbrev pub terminal_persist_attempts : ℕ
terminal_persist_attempts = 5

abbrev pub finished_event : QueryRecord → QueryState → QueryEvent
finished_event rec next = record {
  query_id = rec.id;
  state = next;
  stats = rec.stats;
  error = rec.error;
}

abbrev pub final_stats : ℤ → QueryRecord → ℤ → ℤ → QueryStats
final_stats now rec db_dur store_dur = record {
  rows_read = rec.stats.rows_read;
  bytes_written = rec.stats.bytes_written;
  db_exec_duration = db_dur;
  storage_write_duration = store_dur;
  total_duration =
      if is_zero rec.stats.total_duration then now -ℤ rec.created_at else rec.stats.total_duration;
}

module _ {S : Type 0} (ms : MetaStore S) where
  -- The loop of `persist`, by the attempts left; `stopping` is whether the manager's context has
  -- ended when the loop waits between two attempts.
  unfoldable pub persist : Bool → QueryRecord → ℕ → S → Result Error (Unit {0}) × S
  persist stopping rec zero s = (ok tt, s)
  persist stopping rec (suc attempts) s =
      let (written, s1) = ms.put_query rec s in
      let again = persist stopping rec attempts s1 in
      elim written [
        | ok u ↦ (ok tt, s1)
        | err e ↦ if nat_beq attempts 0 || stopping then (err e, s1) else again
      ]

  -- Re-arms the key against the retention window.
  unfoldable pub rearm : ℤ → QueryRecord → S → S
  rearm now rec s =
      if not (rec.idempotency_key == "") && ltb_ℤ (pos 0) rec.options.result_ttl
      then (ms.refresh_idempotency now rec.database_id
          (scoped_idempotency_key rec.subject rec.idempotency_key) rec.id rec.options.result_ttl
          s).1
      else s

  -- The writes and the announcement of `complete`, past its guard.
  unfoldable pub settle : Bool → ℤ → QueryRecord → Sys S → Sys S
  settle stopping now rec sys = record {
    manager = notify_watchers (finished_event rec rec.state) sys.manager;
    store = rearm now rec (persist stopping rec terminal_persist_attempts sys.store).1;
  }

  -- Whether the transition was applied, with the record as it stands after.
  unfoldable pub complete : Bool → ℤ → QueryRecord → QueryState → Sys S → Bool × QueryRecord × Sys S
  complete stopping now rec next sys =
      if not (can_transition_to rec.state next)
      then (false, rec, sys)
      else let rec' = record rec { state = next; finished_at = now } in
        (true, rec', settle stopping now rec' sys)

  unfoldable pub finish_run :
      Bool → ℤ → QueryRecord → QueryState → Option QueryError → ℤ → ℤ → Sys S → QueryRecord × Sys S
  finish_run stopping now rec next q_err db_dur store_dur sys =
      let done =
        complete stopping now
          (record rec { error = q_err; stats = final_stats now rec db_dur store_dur }) next sys in
      (done.1, done.2)
