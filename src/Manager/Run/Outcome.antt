-- ===== src/Manager/Run/Outcome.antt =====
-- How an execution ends.
use dbbridge.Base.{
  String, ◌≡◌, refl, ◌≢◌, ◌↔◌, ◌⊎◌, inl, inr, ap, sym, ◌∙◌, subst, Bool, true, Option, none, some,
  List, [], ◌∷◌, arith, Option-cases,
}
use dbbridge.Base.Int.{ℤ}
use dbbridge.Base.Assoc.{lookup}
use dbbridge.Domain.{
  QueryRecord, QueryState, QueryError, QueryErrorCode, ResultRef, pending, running, succeeded,
  failed, canceled, is_terminal, can_transition_to, storage_init_failed, storage_writer_failed,
  stream_encode_failed, storage_finalize_failed, db_exec_failed,
}
use dbbridge.State.MetaStore.{MetaStore}
use dbbridge.Manager.Defs.{Sys}
use dbbridge.Manager.Submit.{ResultStore}
use dbbridge.Manager.Completion.{CtxState, Failure, terminal_for, complete, finish_run, final_stats}
use dbbridge.Manager.Run.{
  Progress, Reporter, Execution, Ran, report, report_all, start_reporter, result_of, fixed_error,
  run_broken, run_success, run_stored, run_failed, run_opened, run_executed, begin, leave, run,
}

-- Every step from the database to the stored result went well.
pub record IsDelivered (x : Execution) (backend : String) : Type 0 where
  pub executed : x.exec ≡ none
  pub backed : (store : ResultStore) × (lookup backend x.stores ≡ some store)
  pub opened : (ref : ResultRef) × (x.writer ≡ some ref)
  pub encoded : x.encode ≡ none
  pub closed : x.close ≡ none

module _ {S : Type 0} (ms : MetaStore S) where
  finish_run-record :
      (stopping : Bool) (now : ℤ) (rec : QueryRecord) (next : QueryState)
      (q_err : Option QueryError) (db_dur store_dur : ℤ) (sys : Sys S)
      → can_transition_to rec.state next ≡ true
      → (finish_run ms stopping now rec next q_err db_dur store_dur sys).0 ≡ record rec {
        state = next;
        finished_at = now;
        error = q_err;
        stats = final_stats now rec db_dur store_dur;
      }
  unfolding finish_run complete
  finish_run-record stopping now rec next q_err db_dur store_dur sys h = rw h

  report-record :
      (p : Progress) (r : Reporter) (sys : Sys S)
      → (report ms p (r, sys)).0.rec ≡ record r.rec { stats = (report ms p (r, sys)).0.rec.stats }
  unfolding report
  report-record p r sys = ground arith

  pub report_all-record :
      (ps : List Progress) (r : Reporter) (sys : Sys S)
      → (report_all ms ps (r, sys)).0.rec
        ≡ record r.rec { stats = (report_all ms ps (r, sys)).0.rec.stats }
  unfolding report_all
  report_all-record [] r sys = refl
  report_all-record (p ∷ ps) r sys =
      let (r1, s1) = report ms p (r, sys) in
      ground (arith, report-record p r sys, report_all-record ps r1 s1)

-- What `terminalFor` decides.
pub terminal_for_lem :
    (ctx : CtxState) (e : Failure) (fallback : QueryErrorCode)
    → ((terminal_for ctx e fallback).0 ≡ canceled) × ((terminal_for ctx e fallback).1 ≡ none)
      ⊎ ((terminal_for ctx e fallback).0 ≡ failed)
        × ((q : QueryError) × ((terminal_for ctx e fallback).1 ≡ some q))
unfolding terminal_for
terminal_for_lem ctx e fallback = ground arith

-- The execution got as far as a writer of this reference.
pub record IsOpened (x : Execution) (backend : String) (ref : ResultRef) : Type 0 where
  pub executed : x.exec ≡ none
  pub backed : (store : ResultStore) × (lookup backend x.stores ≡ some store)
  pub opened : x.writer ≡ some ref

-- How an execution ended, where `D` says that all went well and `W` which writer was opened: the
-- verdict, its error, the stored result, and what became of a partial one.
pub record IsOutcome (x : Execution) (D : Type 0) (W : ResultRef → Type 0) (final : QueryRecord)
    (dropped : Option ResultRef) : Type 0 where
  pub terminal : is_terminal final.state ≡ true
  pub delivered : (final.state ≡ succeeded) ↔ D
  pub explained : (final.error ≡ none) ↔ ((final.state ≡ succeeded) ⊎ (final.state ≡ canceled))
  pub stored :
      (ref : ResultRef)
      → x.writer ≡ some ref
      → final.state ≡ succeeded
      → (final.result ≡ some (result_of x ref)) × (dropped ≡ none)
  pub unstored : final.state ≢ succeeded → final.result ≡ none
  -- a partial result is deleted exactly when a writer was opened and the query did not succeed
  pub cleaned : (ref : ResultRef) → (dropped ≡ some ref) ↔ (W ref × (final.state ≢ succeeded))

abbrev Ends : {S : Type 0} → Execution → Type 0 → (ResultRef → Type 0) → Ran S → Type 0
Ends x D W ran = IsOutcome x D W ran.final ran.dropped

Ends-of :
    {S : Type 0} (x : Execution) (D : Type 0) (W : ResultRef → Type 0) (a b : Ran S)
    → a ≡ b
    → Ends x D W b
    → Ends x D W a
Ends-of x D W a b e t = subst (Ends x D W) (sym e) t

some-injective : {a b : ResultRef} → some a ≡ some b → a ≡ b
some-injective h = cc

module _ {S : Type 0} (ms : MetaStore S) (x : Execution) (D : Type 0) (W : ResultRef → Type 0) where
  run_failed-IsOutcome :
      (rec : QueryRecord) (next : QueryState) (q_err : Option QueryError) (sys : Sys S)
      → rec.state ≡ running
      → rec.result ≡ none
      → (next ≡ canceled) × (q_err ≡ none) ⊎ (next ≡ failed) × ((q : QueryError) × (q_err ≡ some q))
      → ¬ D
      → ((ref : ResultRef) → ¬ W ref)
      → let ran = run_failed ms x rec next q_err sys in IsOutcome x D W ran.final ran.dropped
  unfolding run_failed can_transition_to is_terminal
  run_failed-IsOutcome rec next q_err sys st nr v nd nw = record {
    terminal = ground (arith, fin);
    delivered = (λ e. absurd (ground (arith, fin)), λ d. absurd (nd d));
    explained = ground (arith, fin);
    stored = λ ref w e. absurd (ground (arith, fin));
    unstored = λ n. ground (arith, fin);
    cleaned = λ ref. (λ h. cc, λ (w, n). absurd (nw ref w));
  }
    where
      allowed : can_transition_to rec.state next ≡ true
      allowed = ground arith

      fin : (run_failed ms x rec next q_err sys).final ≡ record rec {
        state = next;
        finished_at = x.finished;
        error = q_err;
        stats = final_stats x.finished rec x.db_duration (ℤ.pos 0);
      }
      fin =
          finish_run-record ms x.stopping x.finished rec next q_err x.db_duration (ℤ.pos 0) sys
            allowed

  run_broken-IsOutcome :
      (rec : QueryRecord) (ref : ResultRef) (e : Failure) (code : QueryErrorCode) (sys : Sys S)
      → rec.state ≡ running
      → rec.result ≡ none
      → ¬ D
      → ((r : ResultRef) → W r ↔ (ref ≡ r))
      → let ran = run_broken ms x rec ref e code sys in IsOutcome x D W ran.final ran.dropped
  unfolding run_broken can_transition_to is_terminal
  run_broken-IsOutcome rec ref e code sys st nr nd w = record {
    terminal = ground (arith, fin, v);
    delivered = (λ q. absurd (ground (arith, fin, v)), λ d. absurd (nd d));
    explained = ground (arith, fin, v);
    stored = λ r w q. absurd (ground (arith, fin, v));
    unstored = λ n. ground (arith, fin, v);
    cleaned = λ r. (
      λ h. ((w r).1 (some-injective h), λ q. absurd (ground (arith, fin, v))),
      λ (o, n). ap some ((w r).0 o),
    );
  }
    where
      v :
          ((terminal_for x.ctx e code).0 ≡ canceled) × ((terminal_for x.ctx e code).1 ≡ none)
          ⊎ ((terminal_for x.ctx e code).0 ≡ failed)
            × ((q : QueryError) × ((terminal_for x.ctx e code).1 ≡ some q))
      v = terminal_for_lem x.ctx e code

      allowed : can_transition_to rec.state (terminal_for x.ctx e code).0 ≡ true
      allowed = ground (arith, v)

      fin : (run_broken ms x rec ref e code sys).final ≡ record rec {
        state = (terminal_for x.ctx e code).0;
        finished_at = x.finished;
        error = (terminal_for x.ctx e code).1;
        stats = final_stats x.finished rec x.db_duration x.store_duration;
      }
      fin =
          finish_run-record ms x.stopping x.finished rec _ _ x.db_duration x.store_duration sys
            allowed

  run_success-IsOutcome :
      (rec : QueryRecord) (ref : ResultRef) (sys : Sys S)
      → rec.state ≡ running
      → x.writer ≡ some ref
      → D
      → let ran = run_success ms x rec ref sys in IsOutcome x D W ran.final ran.dropped
  unfolding run_success finish_run complete can_transition_to is_terminal
  run_success-IsOutcome rec ref sys st w d = record {
    terminal = ground arith;
    delivered = (λ q. d, λ q. ground arith);
    explained = ground arith;
    stored = λ r v q. ground arith;
    unstored = λ n. absurd (n (ground arith));
    cleaned = λ r. (λ h. cc, λ (o, n). absurd (n (ground arith)));
  }

  run_stored-IsOutcome :
      (rec : QueryRecord) (ref : ResultRef) (sys : Sys S)
      → rec.state ≡ running
      → rec.result ≡ none
      → x.writer ≡ some ref
      → D ↔ ((x.encode ≡ none) × (x.close ≡ none))
      → ((r : ResultRef) → W r ↔ (ref ≡ r))
      → let ran = run_stored ms x rec ref sys in IsOutcome x D W ran.final ran.dropped
  unfolding run_stored
  run_stored-IsOutcome rec ref sys st nr w d o = elim (Option-cases x.encode) [
    | inr (e, a) ↦
        Ends-of x D W (run_stored ms x rec ref sys)
          (run_broken ms x rec ref e stream_encode_failed sys) (ground arith)
          (run_broken-IsOutcome rec ref e stream_encode_failed sys st nr (λ q. cc ((d.0 q).0)) o)
    | inl a ↦ elim (Option-cases x.close) [
      | inr (e, b) ↦
          Ends-of x D W (run_stored ms x rec ref sys)
            (run_broken ms x rec ref e storage_finalize_failed sys) (ground arith)
            (run_broken-IsOutcome rec ref e storage_finalize_failed sys st nr (λ q. cc ((d.0 q).1))
              o)
      | inl b ↦
          Ends-of x D W (run_stored ms x rec ref sys) (run_success ms x rec ref sys) (ground arith)
            (run_success-IsOutcome rec ref sys st w (d.1 (a, b)))
    ]
  ]

module _ {S : Type 0} (ms : MetaStore S) (x : Execution) (rec : QueryRecord) where
  run_opened-IsOutcome :
      (sys : Sys S)
      → rec.state ≡ running
      → rec.result ≡ none
      → x.exec ≡ none
      → let ran = run_opened ms x rec sys in
        IsOutcome x
          (IsDelivered x rec.options.storage_backend)
          (IsOpened x rec.options.storage_backend)
          ran.final
          ran.dropped
  unfolding run_opened
  run_opened-IsOutcome sys st nr ex =
      elim (Option-cases (lookup rec.options.storage_backend x.stores)) [
        | inl a ↦
            Ends-of x (IsDelivered x rec.options.storage_backend)
              (IsOpened x rec.options.storage_backend) (run_opened ms x rec sys)
              (run_failed ms x rec failed (some (fixed_error storage_init_failed)) sys)
              (ground arith)
              (run_failed-IsOutcome ms x (IsDelivered x rec.options.storage_backend)
                (IsOpened x rec.options.storage_backend) rec failed _ sys st nr
                (inr (refl, (fixed_error storage_init_failed, refl)))
                (λ d. let h = d.backed.1 in cc) (λ ref o. let h = o.backed.1 in cc))
        | inr (store, a) ↦ elim (Option-cases x.writer) [
          | inl b ↦
              Ends-of x (IsDelivered x rec.options.storage_backend)
                (IsOpened x rec.options.storage_backend) (run_opened ms x rec sys)
                (run_failed ms x rec failed (some (fixed_error storage_writer_failed)) sys)
                (ground arith)
                (run_failed-IsOutcome ms x (IsDelivered x rec.options.storage_backend)
                  (IsOpened x rec.options.storage_backend) rec failed _ sys st nr
                  (inr (refl, (fixed_error storage_writer_failed, refl)))
                  (λ d. let h = d.opened.1 in cc) (λ ref o. let h = o.opened in cc))
          | inr (ref, b) ↦
              let (r, sys1) = report_all ms x.progress (start_reporter rec, sys) in
              let e : r.rec ≡ record rec { stats = r.rec.stats } =
                unfold start_reporter in report_all-record ms x.progress (start_reporter rec) sys in
              Ends-of x (IsDelivered x rec.options.storage_backend)
                (IsOpened x rec.options.storage_backend) (run_opened ms x rec sys)
                (run_stored ms x r.rec ref sys1) (ground arith)
                (run_stored-IsOutcome ms x (IsDelivered x rec.options.storage_backend)
                  (IsOpened x rec.options.storage_backend) r.rec ref sys1 (ground arith)
                  (ground arith) b
                  (
                    λ d. (d.encoded, d.closed),
                    λ q. record {
                      executed = ex;
                      backed = (store, a);
                      opened = (ref, b);
                      encoded = q.0;
                      closed = q.1;
                    },
                  )
                  (λ q. (
                    λ o. some-injective (sym b ∙ o.opened),
                    λ e. record { executed = ex; backed = (store, a); opened = b ∙ ap some e },
                  )))
        ]
      ]

  run_executed-IsOutcome :
      (sys : Sys S)
      → rec.state ≡ running
      → rec.result ≡ none
      → Ends x
          (IsDelivered x rec.options.storage_backend)
          (IsOpened x rec.options.storage_backend)
          (run_executed ms x rec sys)
  unfolding run_executed
  run_executed-IsOutcome sys st nr = elim (Option-cases x.exec) [
    | inr (e, a) ↦
        let v = terminal_for x.ctx e db_exec_failed in
        Ends-of x (IsDelivered x rec.options.storage_backend)
          (IsOpened x rec.options.storage_backend) (run_executed ms x rec sys)
          (run_failed ms x rec v.0 v.1 sys) (ground arith)
          (run_failed-IsOutcome ms x (IsDelivered x rec.options.storage_backend)
            (IsOpened x rec.options.storage_backend) rec v.0 v.1 sys st nr
            (terminal_for_lem x.ctx e db_exec_failed) (λ d. let h = d.executed in cc)
            (λ ref o. let h = o.executed in cc))
    | inl a ↦
        Ends-of x (IsDelivered x rec.options.storage_backend)
          (IsOpened x rec.options.storage_backend) (run_executed ms x rec sys)
          (run_opened ms x rec sys) (ground arith) (run_opened-IsOutcome sys st nr a)
  ]

module _ {S : Type 0} (ms : MetaStore S) (x : Execution) (rec : QueryRecord) where
  -- An execution of a PENDING query without a result ends in a terminal state, whatever goes
  -- wrong. It is SUCCEEDED exactly when the statement ran, the backend was there and gave a writer, and both
  -- the encoder and `Close` went well; then the result is recorded with the counts and the hash
  -- of what was written. In any other case no result is recorded, and the partial one is deleted
  -- exactly when a writer was opened. An error is recorded exactly when the query neither succeeded
  -- nor was canceled.
  pub run-IsOutcome :
      (sys : Sys S)
      → rec.state ≡ pending
      → rec.result ≡ none
      → let ran = run ms x rec sys in
        IsOutcome x
          (IsDelivered x rec.options.storage_backend)
          (IsOpened x rec.options.storage_backend)
          ran.final
          ran.dropped
  unfolding run can_transition_to
  run-IsOutcome sys st nr =
      let rec' = record rec { state = running; started_at = x.started } in
      let ran = run_executed ms x rec' (begin ms x rec' sys) in
      Ends-of x (IsDelivered x rec.options.storage_backend) (IsOpened x rec.options.storage_backend)
        (run ms x rec sys) (record ran { sys = leave ms rec.id ran.sys }) (ground arith)
        (run_executed-IsOutcome ms x rec' (begin ms x rec' sys) refl nr)
