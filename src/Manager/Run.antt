-- ===== src/Manager/Run.antt =====
-- `run`: the execution of one query, and `progressReporter`. What the pool, the result store and
-- the encoder do is in `Execution`; the deferred calls run last. `deletePartial` is reported as the
-- reference that it deletes.
pub mod Outcome
pub mod Stored
pub mod Cleanup
use dbbridge.Base.{
  String, Bool, true, false, not, ◌||◌, Option, none, some, List, [], ◌∷◌, if◌then◌else◌, Result,
  ok, err,
}
use dbbridge.Base.Int.{ℤ, pos, ◌-ℤ◌, ltb_ℤ}
use dbbridge.Base.Assoc.{Assoc, lookup}
use dbbridge.Domain.{
  QueryRecord, QueryState, QueryError, QueryErrorCode, ResultRef, running, succeeded, failed,
  can_transition_to, new_query_error, db_exec_failed, storage_init_failed, storage_writer_failed,
  storage_finalize_failed, stream_encode_failed,
}
use dbbridge.State.MetaStore.{MetaStore}
use dbbridge.Manager.Defs.{Manager, QueryEvent, Sys}
use dbbridge.Manager.Admission.{release_slot, deregister}
use dbbridge.Manager.Watchers.{notify_watchers}
use dbbridge.Manager.Submit.{ResultStore}
use dbbridge.Manager.Completion.{
  CtxState, Failure, backend_error_message, terminal_for, persist, finish_run, final_stats,
  terminal_persist_attempts,
}

-- One call of the progress callback: its time, and whether the writer was busy.
pub record Progress : Type 0 where
  pub now : ℤ
  pub rows : ℤ
  pub bytes : ℤ
  pub busy : Bool

pub record Execution : Type 0 where
  -- the clock at the start and at the end of the run
  pub started : ℤ
  pub finished : ℤ
  -- whether the manager's context has ended
  pub stopping : Bool
  -- `ctx.Err()` when a failure is classified
  pub ctx : CtxState
  -- `pool.Exec`, and how long it took
  pub exec : Option Failure
  pub db_duration : ℤ
  -- `storage.GetStore` for the backend of the options
  pub stores : Assoc ResultStore
  -- `store.Writer`: the reference, or an error
  pub writer : Option ResultRef
  -- the progress calls of the encoder, then its counts and its error
  pub progress : List Progress
  pub rows : ℤ
  pub bytes : ℤ
  pub encode : Option Failure
  -- `writer.Close`, how long the store took, and the hash of what was written
  pub close : Option Failure
  pub store_duration : ℤ
  pub checksum : String

abbrev pub progress_persist_interval : ℤ
progress_persist_interval = pos 2_000_000_000

-- What the reporter keeps between two calls: `lost`, `last` and the shared record.
pub record Reporter : Type 0 where
  pub lost : Bool
  pub last : ℤ
  pub rec : QueryRecord

unfoldable pub start_reporter : QueryRecord → Reporter
start_reporter rec = record { lost = false; last = pos 0; rec = rec }

abbrev pub fixed_error : QueryErrorCode → QueryError
fixed_error code = new_query_error code (backend_error_message code) false

abbrev pub running_event : QueryRecord → QueryEvent
running_event rec = record {
  query_id = rec.id;
  state = running;
  stats = record {
    rows_read = pos 0;
    bytes_written = pos 0;
    db_exec_duration = pos 0;
    storage_write_duration = pos 0;
    total_duration = pos 0;
  };
  error = none;
}

-- The reference as it is recorded.
abbrev pub result_of : Execution → ResultRef → ResultRef
result_of x ref = record ref { size_bytes = x.bytes; row_count = x.rows; checksum = x.checksum }

-- The record as it ends, the reference that `deletePartial` was given, and the state.
pub record Ran (S : Type 0) : Type 0 where
  pub final : QueryRecord
  pub dropped : Option ResultRef
  pub sys : Sys S

unfoldable pub is_throttled : Progress → Reporter → Bool
is_throttled p r = r.lost || ltb_ℤ (p.now -ℤ r.last) progress_persist_interval

abbrev pub progressed : Progress → QueryRecord → QueryRecord
progressed p rec = record rec {
  stats = record rec.stats {
    rows_read = p.rows;
    bytes_written = p.bytes;
    total_duration = p.now -ℤ rec.created_at;
  };
}

abbrev pub progress_event : QueryRecord → QueryEvent
progress_event rec = record {
  query_id = rec.id;
  state = rec.state;
  stats = rec.stats;
  error = none;
}

module _ {S : Type 0} (ms : MetaStore S) where
  -- The write of one snapshot: whether the record is lost to another writer.
  unfoldable pub write_progress : Bool → QueryRecord → S → Bool × S
  write_progress busy rec s =
      let (written, s1) = ms.update_query_if_state rec (running ∷ []) s in
      if busy then (false, s) else elim written [ err e ↦ (false, s1) | ok done ↦ (not done, s1) ]

  unfoldable pub publish_progress : Progress → Reporter → Sys S → Reporter × Sys S
  unfolding write_progress
  publish_progress p r sys =
      let rec' = progressed p r.rec in
      let (lost, s1) = write_progress p.busy rec' sys.store in
      (
        record { lost = lost; last = p.now; rec = rec' },
        record { manager = notify_watchers (progress_event rec') sys.manager; store = s1 },
      )

  unfoldable pub report : Progress → Reporter × Sys S → Reporter × Sys S
  unfolding publish_progress
  report p (r, sys) = if is_throttled p r then (r, sys) else publish_progress p r sys

  unfoldable pub report_all : List Progress → Reporter × Sys S → Reporter × Sys S
  unfolding report
  report_all [] st = st
  report_all (p ∷ ps) st = report_all ps (report p st)

  -- The encoder or `Close` failed: the partial result is deleted.
  unfoldable pub run_broken :
      Execution → QueryRecord → ResultRef → Failure → QueryErrorCode → Sys S → Ran S
  run_broken x rec ref e fallback sys =
      let (next, q_err) = terminal_for x.ctx e fallback in
      let done =
        finish_run ms x.stopping x.finished rec next q_err x.db_duration x.store_duration sys in
      record { final = done.0; dropped = some ref; sys = done.1 }

  unfoldable pub run_success : Execution → QueryRecord → ResultRef → Sys S → Ran S
  run_success x rec ref sys =
      let rec' = record rec {
        result = some (result_of x ref);
        stats = record rec.stats {
          rows_read = x.rows;
          bytes_written = x.bytes;
          total_duration = x.finished -ℤ x.started;
        };
      } in
      let done =
        finish_run ms x.stopping x.finished rec' succeeded none x.db_duration x.store_duration
          sys in
      record { final = done.0; dropped = none; sys = done.1 }

  -- What follows `stopReporting` and `writer.Close`.
  unfoldable pub run_stored : Execution → QueryRecord → ResultRef → Sys S → Ran S
  run_stored x rec ref sys = elim x.encode [
    | some e ↦ run_broken x rec ref e stream_encode_failed sys
    | none ↦ elim x.close [
      | some e ↦ run_broken x rec ref e storage_finalize_failed sys
      | none ↦ run_success x rec ref sys
    ]
  ]

  -- A failure before any row is stored.
  unfoldable pub run_failed :
      Execution → QueryRecord → QueryState → Option QueryError → Sys S → Ran S
  run_failed x rec next q_err sys =
      let done = finish_run ms x.stopping x.finished rec next q_err x.db_duration (pos 0) sys in
      record { final = done.0; dropped = none; sys = done.1 }

  -- What follows `pool.Exec`.
  unfoldable pub run_opened : Execution → QueryRecord → Sys S → Ran S
  run_opened x rec sys = elim (lookup rec.options.storage_backend x.stores) [
    | none ↦ run_failed x rec failed (some (fixed_error storage_init_failed)) sys
    | some store ↦ elim x.writer [
      | none ↦ run_failed x rec failed (some (fixed_error storage_writer_failed)) sys
      | some ref ↦
          let streamed = report_all x.progress (start_reporter rec, sys) in
          run_stored x streamed.0.rec ref streamed.1
    ]
  ]

  unfoldable pub run_executed : Execution → QueryRecord → Sys S → Ran S
  run_executed x rec sys = elim x.exec [
    | some e ↦
        let (next, q_err) = terminal_for x.ctx e db_exec_failed in run_failed x rec next q_err sys
    | none ↦ run_opened x rec sys
  ]

  -- The record in RUNNING, persisted and announced.
  unfoldable pub begin : Execution → QueryRecord → Sys S → Sys S
  begin x rec sys = record {
    manager = notify_watchers (running_event rec) sys.manager;
    store = (persist ms x.stopping rec terminal_persist_attempts sys.store).1;
  }

  -- The deferred `deregister` and `releaseSlot`.
  unfoldable pub leave : String → Sys S → Sys S
  leave id sys = record sys { manager = release_slot (deregister id sys.manager) }

  unfoldable pub run : Execution → QueryRecord → Sys S → Ran S
  run x rec sys =
      if not (can_transition_to rec.state running)
      then record { final = rec; dropped = none; sys = leave rec.id sys }
      else let rec' = record rec { state = running; started_at = x.started } in
        let ran = run_executed x rec' (begin x rec' sys) in
        record ran { sys = leave rec.id ran.sys }
