-- ===== src/Manager/Submit/Cases.antt =====
-- The two effects that a submission can have on the manager.
use dbbridge.Base.{
  ℕ, ◌≡◌, ◌≢◌, ◌⊎◌, inl, inr, none, ok, err, arith, Result-cases, Option-cases, Result, refl,
}
use dbbridge.Base.Assoc.{lookup}
use dbbridge.Domain.{Error, QueryOptions, QueryRecord}
use dbbridge.State.MetaStore.{MetaStore}
use dbbridge.Manager.Defs.{Manager, Sys}
use dbbridge.Manager.Admission.{acquire_slot}
use dbbridge.Manager.Submit.{
  Env, Request, Outcome, accepted, existing, launch, submit_put, submit_admit, submit_slot,
  submit_ping, submit_claim, submit_query, resolve_idempotency, request_key, check_request,
  apply_defaults,
}
use dbbridge.Manager.Submit.Rollback.{submit_query-err}
use dbbridge.Manager.Submit.Accepted.{IsAdmitted, submit_query-accepted}

module _ {S : Type 0} (ms : MetaStore S) (r : Request) (opts : QueryOptions) where
  submit_admit-ne-existing :
      (m : Manager) (s : S) (rec : QueryRecord) → (submit_admit ms r opts m s).0 ≢ ok (existing rec)
  unfolding submit_admit submit_put launch
  submit_admit-ne-existing m s rec h = ground arith

  submit_slot-ne-existing :
      (m : Manager) (s : S) (rec : QueryRecord) → (submit_slot ms r opts m s).0 ≢ ok (existing rec)
  unfolding submit_slot
  submit_slot-ne-existing m s rec = elim (Option-cases (acquire_slot m)) [
    | inl a ↦ λ h. ground arith
    | inr (m1, a) ↦ λ h. submit_admit-ne-existing m1 s rec (ground arith)
  ]

  submit_ping-ne-existing :
      (env : Env) (pool : ℕ) (m : Manager) (s : S) (rec : QueryRecord)
      → (submit_ping ms env r opts pool m s).0 ≢ ok (existing rec)
  unfolding submit_ping
  submit_ping-ne-existing env pool m s rec h = ground (arith, submit_slot-ne-existing m s rec)

  submit_claim-existing :
      (env : Env) (pool : ℕ) (m : Manager) (s : S) (rec : QueryRecord) (sys : Sys S)
      → submit_claim ms env r opts pool m s ≡ (ok (existing rec), sys)
      → sys.manager ≡ m
  unfolding submit_claim
  submit_claim-existing env pool m s rec sys h = ground (
    arith,
    submit_ping-ne-existing env pool m s rec,
    submit_ping-ne-existing env pool m (resolve_idempotency ms r (request_key r opts) opts s).1 rec,
  )

module _ {S : Type 0} (ms : MetaStore S) where
  -- A submission whose key is held by a live query returns that query's record and starts
  -- nothing: the manager is as it was.
  pub submit_query-existing :
      (env : Env) (r : Request) (sys : Sys S) (rec : QueryRecord) (sys' : Sys S)
      → submit_query ms env r sys ≡ (ok (existing rec), sys')
      → sys'.manager ≡ sys.manager
  unfolding submit_query
  submit_query-existing env r sys rec sys' h =
      let opts = apply_defaults sys.manager r.opts in
      elim (Option-cases (lookup r.db_id sys.manager.db_pools)) [
        | inl a ↦ ground arith
        | inr (mp, a) ↦ elim (Result-cases (check_request env sys.manager r.sql opts)) [
          | inr (x, b) ↦ ground arith
          | inl (u, b) ↦
              submit_claim-existing ms r opts env mp.pool sys.manager sys.store rec sys'
                (rw (a, b, submit_query) at h)
        ]
      ]

  pub submit_query_cases :
      (env : Env) (r : Request) (sys : Sys S)
      → lookup r.query_id sys.manager.active_reg ≡ none
      → ((submit_query ms env r sys).1.manager ≡ sys.manager)
        ⊎ IsAdmitted r sys.manager (submit_query ms env r sys).1.manager
  submit_query_cases env r sys n =
      let (reply, sys') = submit_query ms env r sys in split reply sys' refl
    where
      split :
          (reply : Result Error Outcome) (sys' : Sys S)
          → submit_query ms env r sys ≡ (reply, sys')
          → (sys'.manager ≡ sys.manager) ⊎ IsAdmitted r sys.manager sys'.manager
      split (err e) sys' h = inl (submit_query-err ms env r sys e sys' n h)
      split (ok (accepted rec)) sys' h = inr (submit_query-accepted ms r env sys rec sys' h).1
      split (ok (existing rec)) sys' h = inl (submit_query-existing env r sys rec sys' h)
