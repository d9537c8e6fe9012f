-- ===== src/Manager/Submit/Rollback.antt =====
-- A submission that fails leaves no trace in the manager.
use dbbridge.Base.{
  ℕ, String, ◌≡◌, ◌∙◌, ap, false, Option, none, some, ok, err, arith, Result-cases, Option-cases,
  inl, inr,
}
use dbbridge.Base.Assoc.{lookup, erase-insert}
use dbbridge.Domain.{Error, QueryOptions}
use dbbridge.State.MetaStore.{MetaStore}
use dbbridge.Manager.Defs.{Manager, Sys, Slots}
use dbbridge.Manager.Admission.{take_slot, give_slot, acquire_slot, release_slot, admit, deregister}
use dbbridge.Manager.Submit.{
  Env, Request, launch, submit_put, submit_admit, submit_slot, submit_ping, submit_claim,
  submit_query, resolve_idempotency, request_key, apply_defaults,
}

give_slot-take_slot : (s s' : Option Slots) → take_slot s ≡ some s' → give_slot s' ≡ s
unfolding take_slot give_slot
give_slot-take_slot none s' h = ground arith
give_slot-take_slot (some s) s' h = ground arith

release_slot-acquire_slot : (m m' : Manager) → acquire_slot m ≡ some m' → release_slot m' ≡ m
unfolding acquire_slot release_slot
release_slot-acquire_slot m m' h = ground (arith, give_slot-take_slot m.slots m'.slots)

active_reg-acquire_slot : (m m' : Manager) → acquire_slot m ≡ some m' → m'.active_reg ≡ m.active_reg
unfolding acquire_slot
active_reg-acquire_slot m m' h = ground arith

deregister-admit :
    (id db_id : String) (m m' : Manager)
    → lookup id m.active_reg ≡ none
    → admit id db_id m ≡ ok m'
    → deregister id m' ≡ m
unfolding admit deregister
deregister-admit id db_id m m' n h =
    ground (arith, erase-insert id (record { db_id = db_id; canceled = false }) m.active_reg n)

module _ {S : Type 0} (ms : MetaStore S) where
  submit_put-err :
      (r : Request) (opts : QueryOptions) (m : Manager) (s : S) (e : Error) (sys : Sys S)
      → submit_put ms r opts m s ≡ (err e, sys)
      → sys.manager ≡ release_slot (deregister r.query_id m)
  unfolding submit_put launch
  submit_put-err r opts m s e sys h = ground arith

  submit_admit-err :
      (r : Request) (opts : QueryOptions) (m : Manager) (s : S) (e : Error) (sys : Sys S)
      → lookup r.query_id m.active_reg ≡ none
      → submit_admit ms r opts m s ≡ (err e, sys)
      → sys.manager ≡ release_slot m
  unfolding submit_admit
  submit_admit-err r opts m s e sys n h = elim (Result-cases (admit r.query_id r.db_id m)) [
    | inl (m1, a) ↦
        submit_put-err r opts m1 s e sys (rw (a, submit_admit) at h)
        ∙ ap release_slot (deregister-admit r.query_id r.db_id m m1 n a)
    | inr (x, a) ↦ ground arith
  ]

  submit_slot-err :
      (r : Request) (opts : QueryOptions) (m : Manager) (s : S) (e : Error) (sys : Sys S)
      → lookup r.query_id m.active_reg ≡ none
      → submit_slot ms r opts m s ≡ (err e, sys)
      → sys.manager ≡ m
  unfolding submit_slot
  submit_slot-err r opts m s e sys n h = elim (Option-cases (acquire_slot m)) [
    | inl a ↦ ground arith
    | inr (m1, a) ↦
        submit_admit-err r opts m1 s e sys
          (ap (lookup r.query_id) (active_reg-acquire_slot m m1 a) ∙ n) (rw (a, submit_slot) at h)
        ∙ release_slot-acquire_slot m m1 a
  ]

  submit_ping-err :
      (env : Env) (r : Request) (opts : QueryOptions) (pool : ℕ) (m : Manager) (s : S) (e : Error)
      (sys : Sys S)
      → lookup r.query_id m.active_reg ≡ none
      → submit_ping ms env r opts pool m s ≡ (err e, sys)
      → sys.manager ≡ m
  unfolding submit_ping
  submit_ping-err env r opts pool m s e sys n h = ground (arith, submit_slot-err r opts m s e sys n)

  submit_claim-err :
      (env : Env) (r : Request) (opts : QueryOptions) (pool : ℕ) (m : Manager) (s : S) (e : Error)
      (sys : Sys S)
      → lookup r.query_id m.active_reg ≡ none
      → submit_claim ms env r opts pool m s ≡ (err e, sys)
      → sys.manager ≡ m
  unfolding submit_claim
  submit_claim-err env r opts pool m s e sys n h = ground (
    arith,
    submit_ping-err env r opts pool m s e sys n,
    submit_ping-err env r opts pool m (resolve_idempotency ms r (request_key r opts) opts s).1 e sys
        n,
  )

  -- A submission that fails leaves the manager as it found it, wherever it fails: no query is
  -- registered, no slot is taken, no event is queued and no subscription is opened. The query's
  -- id is new to the registry.
  pub submit_query-err :
      (env : Env) (r : Request) (sys : Sys S) (e : Error) (sys' : Sys S)
      → lookup r.query_id sys.manager.active_reg ≡ none
      → submit_query ms env r sys ≡ (err e, sys')
      → sys'.manager ≡ sys.manager
  unfolding submit_query
  submit_query-err env r sys e sys' n h =
      elim (Option-cases (lookup r.db_id sys.manager.db_pools)) [
        | inl a ↦ ground arith
        | inr (mp, a) ↦ ground (
          arith,
          submit_claim-err env r (apply_defaults sys.manager r.opts) mp.pool sys.manager sys.store e
              sys' n,
        )
      ]
