-- ===== src/Manager/Run/Cleanup.antt =====
-- What an execution leaves behind in the manager.
use dbbridge.Base.{◌≡◌, Bool, Option, List, [], ◌∷◌, arith, Bool-cases, Option-cases, inl, inr}
use dbbridge.Base.Int.{ℤ}
use dbbridge.Base.Assoc.{lookup, erase}
use dbbridge.Domain.{QueryRecord, running, QueryState, QueryError, ResultRef}
use dbbridge.State.MetaStore.{MetaStore}
use dbbridge.Manager.Defs.{Manager, Sys}
use dbbridge.Manager.Admission.{give_slot, release_slot, deregister}
use dbbridge.Manager.Watchers.Frame.{
  SameAdmission, SameAdmission-trans, notify_watchers-SameAdmission,
}
use dbbridge.Manager.Completion.{settle, complete, finish_run}
use dbbridge.Manager.Run.{
  Progress, Reporter, Execution, is_throttled, progressed, progress_event, running_event, report,
  report_all, start_reporter, run_broken, run_success, run_stored, run_failed, run_opened,
  run_executed, begin, leave, run,
}

SameAdmission-refl : (m : Manager) → SameAdmission m m
SameAdmission-refl m = ground arith

module _ {S : Type 0} (ms : MetaStore S) where
  settle-SameAdmission :
      (stopping : Bool) (now : ℤ) (rec : QueryRecord) (sys : Sys S)
      → SameAdmission sys.manager (settle ms stopping now rec sys).manager
  unfolding settle
  settle-SameAdmission stopping now rec sys = notify_watchers-SameAdmission _ sys.manager

  pub complete-SameAdmission :
      (stopping : Bool) (now : ℤ) (rec : QueryRecord) (next : QueryState) (sys : Sys S)
      → SameAdmission sys.manager (complete ms stopping now rec next sys).2.manager
  unfolding complete
  complete-SameAdmission stopping now rec next sys = ground (
    arith,
    settle-SameAdmission stopping now (record rec { state = next; finished_at = now }) sys,
  )

  finish_run-SameAdmission :
      (stopping : Bool) (now : ℤ) (rec : QueryRecord) (next : QueryState)
      (q_err : Option QueryError) (db_dur store_dur : ℤ) (sys : Sys S)
      → SameAdmission sys.manager
          (finish_run ms stopping now rec next q_err db_dur store_dur sys).1.manager
  unfolding finish_run
  finish_run-SameAdmission stopping now rec next q_err db_dur store_dur sys =
      complete-SameAdmission stopping now _ next sys

  report-SameAdmission :
      (p : Progress) (r : Reporter) (sys : Sys S)
      → SameAdmission sys.manager (report ms p (r, sys)).1.manager
  unfolding report
  report-SameAdmission p r sys = elim (Bool-cases (is_throttled p r)) [
    | inl t ↦ rw t (SameAdmission-refl sys.manager)
    | inr t ↦ rw t (notify_watchers-SameAdmission (progress_event (progressed p r.rec)) sys.manager)
  ]

  report_all-SameAdmission :
      (ps : List Progress) (r : Reporter) (sys : Sys S)
      → SameAdmission sys.manager (report_all ms ps (r, sys)).1.manager
  unfolding report_all
  report_all-SameAdmission [] r sys = SameAdmission-refl sys.manager
  report_all-SameAdmission (p ∷ ps) r sys =
      let (r1, s1) = report ms p (r, sys) in
      SameAdmission-trans (report-SameAdmission p r sys) (report_all-SameAdmission ps r1 s1)

  run_stored-SameAdmission :
      (x : Execution) (rec : QueryRecord) (ref : ResultRef) (sys : Sys S)
      → SameAdmission sys.manager (run_stored ms x rec ref sys).sys.manager
  unfolding run_stored run_broken run_success
  run_stored-SameAdmission x rec ref sys = elim (Option-cases x.encode) [
    | inr (e, a) ↦ rw a (finish_run-SameAdmission _ _ _ _ _ _ _ sys)
    | inl a ↦ elim (Option-cases x.close) [
      | inr (e, b) ↦ rw (a, b) (finish_run-SameAdmission _ _ _ _ _ _ _ sys)
      | inl b ↦ rw (a, b) (finish_run-SameAdmission _ _ _ _ _ _ _ sys)
    ]
  ]

  run_opened-SameAdmission :
      (x : Execution) (rec : QueryRecord) (sys : Sys S)
      → SameAdmission sys.manager (run_opened ms x rec sys).sys.manager
  unfolding run_opened run_failed
  run_opened-SameAdmission x rec sys =
      elim (Option-cases (lookup rec.options.storage_backend x.stores)) [
        | inl a ↦ rw (a, run_opened) (finish_run-SameAdmission _ _ _ _ _ _ _ sys)
        | inr (store, a) ↦ elim (Option-cases x.writer) [
          | inl b ↦ rw (a, run_opened, b) (finish_run-SameAdmission _ _ _ _ _ _ _ sys)
          | inr (ref, b) ↦
              rw (a, run_opened, b)
                (SameAdmission-trans (report_all-SameAdmission x.progress (start_reporter rec) sys)
                  (run_stored-SameAdmission _ _ ref _))
        ]
      ]

  run_executed-SameAdmission :
      (x : Execution) (rec : QueryRecord) (sys : Sys S)
      → SameAdmission sys.manager (run_executed ms x rec sys).sys.manager
  unfolding run_executed run_failed
  run_executed-SameAdmission x rec sys = elim (Option-cases x.exec) [
    | inr (e, a) ↦ rw a (finish_run-SameAdmission _ _ _ _ _ _ _ sys)
    | inl a ↦ rw a (run_opened-SameAdmission _ rec sys)
  ]

  begin-SameAdmission :
      (x : Execution) (rec : QueryRecord) (sys : Sys S)
      → SameAdmission sys.manager (begin ms x rec sys).manager
  unfolding begin
  begin-SameAdmission x rec sys = notify_watchers-SameAdmission (running_event rec) sys.manager

  -- However an execution ends, it takes its query out of the registry and gives its slot back;
  -- the other queries, the drain flag and the configuration are as before.
  pub run-leave :
      (x : Execution) (rec : QueryRecord) (sys : Sys S)
      → let m = (run ms x rec sys).sys.manager in
        (m.active_reg ≡ erase rec.id sys.manager.active_reg)
        × (m.slots ≡ give_slot sys.manager.slots)
        × (m.draining ≡ sys.manager.draining)
        × (m.cfg ≡ sys.manager.cfg)
  unfolding run leave release_slot deregister
  run-leave x rec sys =
      let rec' = record rec { state = running; started_at = x.started } in
      ground (
        arith,
        begin-SameAdmission x rec' sys,
        run_executed-SameAdmission x rec' (begin ms x rec' sys),
      )
