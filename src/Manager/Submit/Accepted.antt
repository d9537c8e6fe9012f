-- ===== src/Manager/Submit/Accepted.antt =====
-- What an accepted submission went through.
use dbbridge.Base.{
  ℕ, String, ◌==◌, ◌≡◌, refl, sym, subst, true, false, none, some, ok, arith, Result-cases,
  Option-cases, Bool-cases, inl, inr,
}
use dbbridge.Base.Assoc.{lookup, insert}
use dbbridge.Domain.{QueryOptions, QueryRecord}
use dbbridge.Domain.Options.{IsAcceptable, validate_iff}
use dbbridge.State.MetaStore.{MetaStore}
use dbbridge.Manager.Defs.{Manager, Sys}
use dbbridge.Manager.Admission.{take_slot, acquire_slot, admit}
use dbbridge.Manager.Watchers.Frame.{
  SameAdmission, SameAdmission-trans, notify_watchers-SameAdmission, watch-SameAdmission,
}
use dbbridge.Manager.Submit.{
  Env, Request, accepted, new_record, ResultStore, pending_event, announce, supports_format, launch,
  submit_put, submit_admit, submit_slot, submit_ping, submit_claim, submit_query,
  resolve_idempotency, request_key, check_request, apply_defaults,
}

-- The manager after the submission: the query is in the registry and has a slot.
pub record IsAdmitted (r : Request) (m m' : Manager) : Type 0 where
  pub serving : m.draining ≡ false
  pub registered :
      m'.active_reg ≡ insert r.query_id (record { db_id = r.db_id; canceled = false }) m.active_reg
  pub has_slot : take_slot m.slots ≡ some m'.slots

-- The options passed every check.
pub record IsChecked (env : Env) (m : Manager) (sql : String) (opts : QueryOptions) : Type 0 where
  pub acceptable : IsAcceptable opts
  pub storable :
      (store : ResultStore) × (lookup opts.storage_backend env.stores ≡ some store)
      × (supports_format store opts.result_format ≡ true)
  pub harmless : m.cfg.defaults.allow_writes ≡ false → env.read_only sql ≡ none

check_request-IsChecked :
    (env : Env) (m : Manager) (sql : String) (opts : QueryOptions)
    → check_request env m sql opts ≡ ok tt
    → IsChecked env m sql opts
unfolding check_request
check_request-IsChecked env m sql opts h = record {
  acceptable = ground (arith, validate_iff opts);
  storable = ground arith;
  harmless = ground arith;
}

module _ {S : Type 0} (ms : MetaStore S) (r : Request) where
  announce-SameAdmission : (m : Manager) (s : S) → SameAdmission m (announce ms r m s).manager
  unfolding announce
  announce-SameAdmission m s = notify_watchers-SameAdmission (pending_event r) m

  pub launch-SameAdmission :
      (opts : QueryOptions) (rec : QueryRecord) (m : Manager) (s : S)
      → SameAdmission m (launch ms r opts rec m s).1.manager
  unfolding launch
  launch-SameAdmission opts rec m s = elim (Bool-cases (opts.mode == "sync")) [
    | inl t ↦ rw t (
        SameAdmission-trans (announce-SameAdmission m s)
          (watch-SameAdmission ms r.query_id (announce ms r m s)))
    | inr t ↦ rw t (announce-SameAdmission m s)
  ]

  launch_outcome :
      (opts : QueryOptions) (rec : QueryRecord) (m : Manager) (s : S)
      → (launch ms r opts rec m s).0 ≡ ok (accepted rec)
  unfolding launch
  launch_outcome opts rec m s = refl

  submit_put-accepted :
      (opts : QueryOptions) (m : Manager) (s : S) (rec : QueryRecord) (sys : Sys S)
      → submit_put ms r opts m s ≡ (ok (accepted rec), sys)
      → (rec ≡ new_record r opts m) × SameAdmission m sys.manager
  unfolding submit_put
  submit_put-accepted opts m s rec sys h =
      let s1 = (ms.put_query (new_record r opts m) s).1 in
      ground (
        arith,
        launch_outcome opts (new_record r opts m) m s1,
        launch-SameAdmission opts (new_record r opts m) m s1,
      )

  submit_admit-accepted :
      (opts : QueryOptions) (m m0 : Manager) (s : S) (rec : QueryRecord) (sys : Sys S)
      → acquire_slot m0 ≡ some m
      → submit_admit ms r opts m s ≡ (ok (accepted rec), sys)
      → (rec ≡ new_record r opts m0) × IsAdmitted r m0 sys.manager
  unfolding submit_admit admit acquire_slot new_record
  submit_admit-accepted opts m m0 s rec sys a h = elim (Result-cases (admit r.query_id r.db_id m)) [
    | inl (m1, b) ↦ ground (arith, submit_put-accepted opts m1 s rec sys)
    | inr (x, b) ↦ ground arith
  ]

  submit_slot-accepted :
      (opts : QueryOptions) (m : Manager) (s : S) (rec : QueryRecord) (sys : Sys S)
      → submit_slot ms r opts m s ≡ (ok (accepted rec), sys)
      → (rec ≡ new_record r opts m) × IsAdmitted r m sys.manager
  unfolding submit_slot
  submit_slot-accepted opts m s rec sys h = elim (Option-cases (acquire_slot m)) [
    | inl a ↦ ground arith
    | inr (m1, a) ↦ submit_admit-accepted opts m1 m s rec sys a (rw (a, submit_slot) at h)
  ]

  submit_ping-accepted :
      (env : Env) (opts : QueryOptions) (pool : ℕ) (m : Manager) (s : S) (rec : QueryRecord)
      (sys : Sys S)
      → submit_ping ms env r opts pool m s ≡ (ok (accepted rec), sys)
      → (rec ≡ new_record r opts m) × IsAdmitted r m sys.manager
  unfolding submit_ping
  submit_ping-accepted env opts pool m s rec sys h =
      ground (arith, submit_slot-accepted opts m s rec sys)

  submit_claim-accepted :
      (env : Env) (opts : QueryOptions) (pool : ℕ) (m : Manager) (s : S) (rec : QueryRecord)
      (sys : Sys S)
      → submit_claim ms env r opts pool m s ≡ (ok (accepted rec), sys)
      → (rec ≡ new_record r opts m) × IsAdmitted r m sys.manager
  unfolding submit_claim
  submit_claim-accepted env opts pool m s rec sys h = ground (
    arith,
    submit_ping-accepted env opts pool m s rec sys,
    submit_ping-accepted env opts pool m (resolve_idempotency ms r (request_key r opts) opts s).1
        rec sys,
  )

  -- A query is accepted only while the instance is not draining, with a free slot, with options
  -- that pass validation after the defaults are applied, for a backend that can store the
  -- format, and, unless writes are allowed, with a statement that the guard passes. It is then
  -- registered, holds the slot, and its record is PENDING and owned by this instance.
  pub submit_query-accepted :
      (env : Env) (sys : Sys S) (rec : QueryRecord) (sys' : Sys S)
      → submit_query ms env r sys ≡ (ok (accepted rec), sys')
      → (rec ≡ new_record r (apply_defaults sys.manager r.opts) sys.manager)
        × IsAdmitted r sys.manager sys'.manager
        × IsChecked env sys.manager r.sql rec.options
  unfolding submit_query
  submit_query-accepted env sys rec sys' h =
      let opts = apply_defaults sys.manager r.opts in
      elim (Option-cases (lookup r.db_id sys.manager.db_pools)) [
        | inl a ↦ ground arith
        | inr (mp, a) ↦ elim (Result-cases (check_request env sys.manager r.sql opts)) [
          | inr (x, b) ↦ ground arith
          | inl (u, b) ↦
              let (e, adm) =
                submit_claim-accepted env opts mp.pool sys.manager sys.store rec sys'
                  (rw (a, b, submit_query) at h) in
              (
                e,
                adm,
                subst (λ (q : QueryRecord). IsChecked env sys.manager r.sql q.options) (sym e)
                    (unfold new_record in check_request-IsChecked env sys.manager r.sql opts b),
              )
        ]
      ]
