-- ===== src/Manager/Capacity/Submission.antt =====
-- A submission and the end of an execution are made of the steps of an instance.
use dbbridge.Base.{
  ℕ, suc, String, ◌==◌, ◌≡◌, false, none, some, ok, arith, eq_iff, Bool-cases, Option-cases,
  Result-cases, inl, inr,
}
use dbbridge.Base.Assoc.{lookup, lookup-insert}
use dbbridge.Domain.{QueryOptions}
use dbbridge.State.MetaStore.{MetaStore}
use dbbridge.Manager.Defs.{Manager, ActiveQuery, Sys}
use dbbridge.Manager.Admission.{acquire_slot, release_slot, admit, deregister}
use dbbridge.Manager.Watchers.Frame.{SameAdmission}
use dbbridge.Manager.Submit.{
  Env, Request, launch, new_record, release_claim, submit_put, submit_admit, submit_slot,
  submit_ping, submit_claim, submit_query, resolve_idempotency, request_key, check_request,
  apply_defaults,
}
use dbbridge.Manager.Submit.Accepted.{launch-SameAdmission}
use dbbridge.Manager.Run.{leave}
use dbbridge.Manager.Capacity.{
  Instance, Steps, here, next, takes, admits, deregisters, gives, works,
}

abbrev pub at : {S : Type 0} → Sys S → ℕ → Instance S
at sys held = record { sys = sys; held = held }

abbrev of : {S : Type 0} → Manager → S → Sys S
of m s = record { manager = m; store = s }

same : (m : Manager) → SameAdmission m m
same m = ground arith

stores :
    {S : Type 0} (m : Manager) (s s' : S) (held : ℕ) → Steps (at (of m s) held) (at (of m s') held)
stores m s s' held = next here (works (of m s) (of m s') held (same m))

registered :
    (id db_id : String) (m m' : Manager)
    → admit id db_id m ≡ ok m'
    → lookup id m'.active_reg ≡ some (record { db_id = db_id; canceled = false })
unfolding admit
registered id db_id m m' h = ground (
  arith,
  h,
  eq_iff id id,
  lookup-insert id id (record { db_id = db_id; canceled = false }) m.active_reg,
)

kept_out :
    (id : String) (m m' : Manager)
    → acquire_slot m ≡ some m'
    → lookup id m.active_reg ≡ none
    → lookup id m'.active_reg ≡ none
unfolding acquire_slot
kept_out id m m' h f = ground (arith, h, f)

module _ {S : Type 0} (ms : MetaStore S) (r : Request) (opts : QueryOptions) where
  submit_put-Steps :
      (a : Instance S) (m : Manager) (s : S) (held : ℕ) (q : ActiveQuery)
      → lookup r.query_id m.active_reg ≡ some q
      → Steps a (at (of m s) held)
      → Steps a (at (submit_put ms r opts m s).1 held)
  unfolding submit_put
  submit_put-Steps a m s held q l ss =
      let s1 = (ms.put_query (new_record r opts m) s).1 in
      elim (Result-cases (ms.put_query (new_record r opts m) s).0) [
        | inl (u, p) ↦
            rw (submit_put, p)
              (next ss (
                works (of m s) (launch ms r opts (new_record r opts m) m s1).1 held
                  (launch-SameAdmission ms r opts (new_record r opts m) m s1)))
        | inr (e, p) ↦
            let m1 = deregister r.query_id m in
            let m2 = release_slot m1 in
            rw (submit_put, p)
              (next
                (next (next ss (deregisters r.query_id q (of m s) held l)) (gives (of m1 s) held))
                (works (of m2 s) (of m2 (release_claim ms r opts s1)) held (same m2)))
      ]

  submit_admit-Steps :
      (a : Instance S) (m : Manager) (s : S) (held : ℕ)
      → lookup r.query_id m.active_reg ≡ none
      → Steps a (at (of m s) (suc held))
      → Steps a (at (submit_admit ms r opts m s).1 held)
  unfolding submit_admit
  submit_admit-Steps a m s held f ss = elim (Result-cases (admit r.query_id r.db_id m)) [
    | inl (m1, p) ↦
        rw (submit_admit, p)
          (submit_put-Steps a m1 s held _ (registered r.query_id r.db_id m m1 p)
            (next ss (admits r.query_id r.db_id (of m s) m1 held f p)))
    | inr (e, p) ↦
        let m1 = release_slot m in
        rw (submit_admit, p)
          (next (next ss (gives (of m s) held))
            (works (of m1 s) (of m1 (release_claim ms r opts s)) held (same m1)))
  ]

  submit_slot-Steps :
      (a : Instance S) (m : Manager) (s : S) (held : ℕ)
      → lookup r.query_id m.active_reg ≡ none
      → Steps a (at (of m s) held)
      → Steps a (at (submit_slot ms r opts m s).1 held)
  unfolding submit_slot
  submit_slot-Steps a m s held f ss = elim (Option-cases (acquire_slot m)) [
    | inl p ↦
        rw (submit_slot, p)
          (next ss (works (of m s) (of m (release_claim ms r opts s)) held (same m)))
    | inr (m1, p) ↦
        rw (submit_slot, p)
          (submit_admit-Steps a m1 s held (kept_out r.query_id m m1 p f)
            (next ss (takes (of m s) m1 held p)))
  ]

  submit_ping-Steps :
      (env : Env) (pool : ℕ) (a : Instance S) (m : Manager) (s : S) (held : ℕ)
      → lookup r.query_id m.active_reg ≡ none
      → Steps a (at (of m s) held)
      → Steps a (at (submit_ping ms env r opts pool m s).1 held)
  unfolding submit_ping
  submit_ping-Steps env pool a m s held f ss = elim (Bool-cases (env.ping pool)) [
    | inl t ↦ rw (submit_ping, t) (submit_slot-Steps a m s held f ss)
    | inr t ↦
        rw (submit_ping, t)
          (next ss (works (of m s) (of m (release_claim ms r opts s)) held (same m)))
  ]

  submit_claim-Steps :
      (env : Env) (pool : ℕ) (a : Instance S) (m : Manager) (s : S) (held : ℕ)
      → lookup r.query_id m.active_reg ≡ none
      → Steps a (at (of m s) held)
      → Steps a (at (submit_claim ms env r opts pool m s).1 held)
  unfolding submit_claim
  submit_claim-Steps env pool a m s held f ss =
      let x = resolve_idempotency ms r (request_key r opts) opts s in
      let resolved = next ss (works (of m s) (of m x.1) held (same m)) in
      elim (Bool-cases (opts.idempotency_key == "")) [
        | inl t ↦ rw (submit_claim, t) (submit_ping-Steps env pool a m s held f ss)
        | inr t ↦ elim (Result-cases x.0) [
          | inr (e, p) ↦ rw (submit_claim, t, p) resolved
          | inl (found, p) ↦ elim (Option-cases found) [
            | inl n ↦
                rw (submit_claim, t, p, n) (submit_ping-Steps env pool a m x.1 held f resolved)
            | inr (rec, n) ↦ rw (submit_claim, t, p, n) resolved
          ]
        ]
      ]

module _ {S : Type 0} (ms : MetaStore S) where
  -- A submission under a new id, run on its own, is a sequence of the steps of an instance, whatever it
  -- answers and wherever it fails, and so is the end of an execution: in the end as many slots are held
  -- between two critical sections as before.
  pub submit_query-Steps :
      (env : Env) (r : Request) (id : String) (q : ActiveQuery) (sys : Sys S) (held : ℕ)
      → lookup r.query_id sys.manager.active_reg ≡ none
      → lookup id sys.manager.active_reg ≡ some q
      → Steps (at sys held) (at (submit_query ms env r sys).1 held)
        × Steps (at sys held) (at (leave ms id sys) held)
  unfolding submit_query leave
  submit_query-Steps env r id q sys held f l =
      let opts = apply_defaults sys.manager r.opts in
      (
        elim (Option-cases (lookup r.db_id sys.manager.db_pools)) [
          | inl a ↦ rw (submit_query, a) here
          | inr (mp, a) ↦ elim (Result-cases (check_request env sys.manager r.sql opts)) [
            | inr (x, b) ↦ rw (submit_query, a, b) here
            | inl (u, b) ↦
                rw (submit_query, a, b)
                  (submit_claim-Steps ms r opts env mp.pool (at sys held) sys.manager sys.store held
                    f here)
          ]
        ],
        next (next here (deregisters id q sys held l))
            (gives (record sys { manager = deregister id sys.manager }) held),
      )
