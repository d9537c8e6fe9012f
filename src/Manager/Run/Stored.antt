-- ===== src/Manager/Run/Stored.antt =====
-- What the store in memory has of a query after its execution.
use dbbridge.Base.{
  String, ◌≡◌, refl, sym, subst, Bool, true, Option, none, some, arith, eq_iff, Option-cases, inl,
  inr, ◌∙◌, ap,
}
use dbbridge.Base.Int.{ℤ, pos}
use dbbridge.Base.Assoc.{lookup}
use dbbridge.Domain.{
  QueryRecord, QueryState, QueryError, QueryErrorCode, ResultRef, pending, running, failed,
  succeeded, can_transition_to, db_exec_failed, storage_init_failed, storage_writer_failed,
  stream_encode_failed, storage_finalize_failed,
}
use dbbridge.State.Contract.{kept}
use dbbridge.State.Memory.{Memory, memory_store, put_query, refresh_idempotency}
use dbbridge.State.Memory.Contract.{memory_store-IsRecordStore}
use dbbridge.Manager.Defs.{Sys}
use dbbridge.Manager.Completion.{
  Failure, terminal_persist_attempts, persist, rearm, settle, complete, finish_run, terminal_for,
}
use dbbridge.Manager.Run.{
  Execution, Ran, report_all, start_reporter, fixed_error, run_broken, run_success, run_stored,
  run_failed, run_opened, run_executed, begin, leave, run,
}
use dbbridge.Manager.Run.Outcome.{terminal_for_lem, report_all-record}

-- The record of this query in the store is the one that the execution ended with.
abbrev pub IsStored : String → Ran Memory → Type 0
IsStored id ran = (ran.final.id ≡ id) × (lookup id ran.sys.store.queries ≡ some (kept ran.final))

IsStored-of : (id : String) (a b : Ran Memory) → a ≡ b → IsStored id b → IsStored id a
IsStored-of id a b e t = subst (IsStored id) (sym e) t

persist-put_query :
    (stopping : Bool) (rec : QueryRecord) (m : Memory)
    → (persist memory_store stopping rec terminal_persist_attempts m).1 ≡ (put_query rec m).1
unfolding persist put_query
persist-put_query stopping rec m = refl

rearm-queries :
    (now : ℤ) (rec : QueryRecord) (m : Memory) → (rearm memory_store now rec m).queries ≡ m.queries
unfolding rearm refresh_idempotency
rearm-queries now rec m = ground arith

put_query-found :
    (rec : QueryRecord) (m : Memory) → lookup rec.id (put_query rec m).1.queries ≡ some (kept rec)
unfolding put_query
put_query-found rec m =
    let law = memory_store-IsRecordStore.put_written rec m (put_query rec m).1 rec.id refl in
    ground (arith, eq_iff rec.id rec.id, law)

settle-found :
    (stopping : Bool) (now : ℤ) (rec : QueryRecord) (sys : Sys Memory)
    → lookup rec.id (settle memory_store stopping now rec sys).store.queries ≡ some (kept rec)
unfolding settle
settle-found stopping now rec sys =
    let m = (persist memory_store stopping rec terminal_persist_attempts sys.store).1 in
    ap (lookup rec.id) (rearm-queries now rec m)
    ∙ (ap (λ (t : Memory). lookup rec.id t.queries) (persist-put_query stopping rec sys.store)
        ∙ put_query-found rec sys.store)

module _ (x : Execution) where
  finish_run-stored :
      (rec : QueryRecord) (next : QueryState) (q_err : Option QueryError) (store_dur : ℤ)
      (dropped : Option ResultRef) (sys : Sys Memory)
      → can_transition_to rec.state next ≡ true
      → let done =
          finish_run memory_store x.stopping x.finished rec next q_err x.db_duration store_dur
            sys in
        IsStored rec.id (record { final = done.0; dropped = dropped; sys = done.1 })
  unfolding finish_run complete
  finish_run-stored rec next q_err store_dur dropped sys t =
      rw t (refl, settle-found x.stopping x.finished _ sys)

  run_broken-stored :
      (rec : QueryRecord) (ref : ResultRef) (e : Failure) (code : QueryErrorCode) (sys : Sys Memory)
      → rec.state ≡ running
      → IsStored rec.id (run_broken memory_store x rec ref e code sys)
  unfolding run_broken can_transition_to
  run_broken-stored rec ref e code sys st =
      finish_run-stored rec _ _ x.store_duration (some ref) sys
        (ground (arith, st, terminal_for_lem x.ctx e code))

  run_success-stored :
      (rec : QueryRecord) (ref : ResultRef) (sys : Sys Memory)
      → rec.state ≡ running
      → IsStored rec.id (run_success memory_store x rec ref sys)
  unfolding run_success can_transition_to
  run_success-stored rec ref sys st =
      finish_run-stored _ succeeded none x.store_duration none sys (ground (arith, st))

  run_stored-stored :
      (rec : QueryRecord) (ref : ResultRef) (sys : Sys Memory)
      → rec.state ≡ running
      → IsStored rec.id (run_stored memory_store x rec ref sys)
  unfolding run_stored
  run_stored-stored rec ref sys st = elim (Option-cases x.encode) [
    | inr (e, a) ↦ rw (run_stored, a) (run_broken-stored rec ref e stream_encode_failed sys st)
    | inl a ↦ elim (Option-cases x.close) [
      | inr (e, b) ↦
          rw (run_stored, a, b) (run_broken-stored rec ref e storage_finalize_failed sys st)
      | inl b ↦ rw (run_stored, a, b) (run_success-stored rec ref sys st)
    ]
  ]

  run_failed-stored :
      (rec : QueryRecord) (next : QueryState) (q_err : Option QueryError) (sys : Sys Memory)
      → can_transition_to rec.state next ≡ true
      → IsStored rec.id (run_failed memory_store x rec next q_err sys)
  unfolding run_failed
  run_failed-stored rec next q_err sys t = finish_run-stored rec next q_err (pos 0) none sys t

  run_opened-stored :
      (rec : QueryRecord) (sys : Sys Memory)
      → rec.state ≡ running
      → IsStored rec.id (run_opened memory_store x rec sys)
  unfolding run_opened can_transition_to
  run_opened-stored rec sys st =
      let to_failed : can_transition_to rec.state failed ≡ true = ground (arith, st) in
      elim (Option-cases (lookup rec.options.storage_backend x.stores)) [
        | inl a ↦
            rw (run_opened, a)
              (run_failed-stored rec failed (some (fixed_error storage_init_failed)) sys to_failed)
        | inr (backend, a) ↦ elim (Option-cases x.writer) [
          | inl b ↦
              rw (run_opened, a, b)
                (run_failed-stored rec failed (some (fixed_error storage_writer_failed)) sys
                  to_failed)
          | inr (ref, b) ↦
              let (r, sys1) = report_all memory_store x.progress (start_reporter rec, sys) in
              let same : r.rec ≡ record rec { stats = r.rec.stats } =
                unfold start_reporter in
                report_all-record memory_store x.progress (start_reporter rec) sys in
              rw (run_opened, a, b)
                (subst (λ id. IsStored id (run_stored memory_store x r.rec ref sys1))
                  (ap (λ q. q.id) same)
                  (run_stored-stored r.rec ref sys1 (ap (λ q. q.state) same ∙ st)))
        ]
      ]

  run_executed-stored :
      (rec : QueryRecord) (sys : Sys Memory)
      → rec.state ≡ running
      → IsStored rec.id (run_executed memory_store x rec sys)
  unfolding run_executed can_transition_to
  run_executed-stored rec sys st = elim (Option-cases x.exec) [
    | inr (e, a) ↦
        let v = terminal_for x.ctx e db_exec_failed in
        rw (run_executed, a)
          (run_failed-stored rec v.0 v.1 sys
            (ground (arith, st, terminal_for_lem x.ctx e db_exec_failed)))
    | inl a ↦ rw (run_executed, a) (run_opened-stored rec sys st)
  ]

  -- After the execution of a PENDING query the store in memory has the record of the query as the
  -- execution ended it, whatever went wrong: the last write is that of the final state.
  pub run-stored :
      (rec : QueryRecord) (sys : Sys Memory)
      → rec.state ≡ pending
      → IsStored rec.id (run memory_store x rec sys)
  unfolding run can_transition_to leave
  run-stored rec sys st =
      let rec' = record rec { state = running; started_at = x.started } in
      let stored = run_executed-stored rec' (begin memory_store x rec' sys) refl in
      ground (arith, st, stored)
