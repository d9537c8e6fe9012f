-- ===== src/Manager/Submit/Claims.antt =====
-- The rollback of an idempotency claim, over the store in memory.
use dbbridge.Base.{
  ℕ, Bool, String, ◌≡◌, ◌≢◌, ◌⊎◌, inl, inr, true, false, Option, some, Result, ok, err, arith,
  eq_iff, Result-cases, Option-cases, Bool-cases, test_of_ne,
}
use dbbridge.Base.Int.{ℤ}
use dbbridge.Base.Assoc.{lookup, lookup-erase}
use dbbridge.Domain.{Error, QueryOptions}
use dbbridge.State.MetaStore.{MetaStore}
use dbbridge.State.Memory.{
  Memory, memory_store, full_key, is_live, acquire_idempotency, release_idempotency,
}
use dbbridge.Manager.Defs.{Manager, Sys}
use dbbridge.Manager.Admission.{acquire_slot, admit}
use dbbridge.Manager.Submit.{
  Env, Request, found_again, reclaim, repeated, claimed, resolve_idempotency, release_claim,
  request_key, idempotency_submit_ttl, launch, submit_put, submit_admit, submit_slot, submit_ping,
  submit_claim, submit_query, check_request, apply_defaults, new_record,
}

-- A store that carries out the calls of its keys, as the one in memory does: no reply is lost and no
-- release fails. `holder` is the query that a key points at.
record KeyLaws {S : Type 0} (ms : MetaStore S) : Type 0 where
  holder : String → String → S → Option String
  -- a query that releases a key does not hold it any more
  release_frees :
      (db_id key q : String) (s : S)
      → holder db_id key (ms.release_idempotency db_id key q s).1 ≢ some q
  -- and releasing for another query gives the key to nobody
  release_keeps :
      (db_id key q other : String) (s : S)
      → holder db_id key s ≢ some q
      → holder db_id key (ms.release_idempotency db_id key other s).1 ≢ some q
  -- an acquisition that is not reported does not happen
  acquire_reports :
      (now : ℤ) (db_id key q : String) (ttl : ℤ) (s : S)
      → holder db_id key s ≢ some q
      → ((id : String) × ((ms.acquire_idempotency now db_id key q ttl s).0 ≡ ok (id, true)))
        ⊎ (holder db_id key (ms.acquire_idempotency now db_id key q ttl s).1 ≢ some q)

module _ {S : Type 0} (ms : MetaStore S) (laws : KeyLaws ms) (r : Request)
    (opts : QueryOptions) where
  open laws use {holder, release_frees, release_keeps, acquire_reports}

  abbrev IsFree : S → Type 0
  IsFree s = holder r.db_id (request_key r opts) s ≢ some r.query_id

  release_claim-IsFree : (s : S) → opts.idempotency_key ≢ "" → IsFree (release_claim ms r opts s)
  unfolding release_claim
  release_claim-IsFree s n =
      rw (test_of_ne opts.idempotency_key "" n)
        (release_frees r.db_id (request_key r opts) r.query_id s)

  found_again-store : (id : String) (s : S) → (found_again ms id s).1 ≡ s
  unfolding found_again
  found_again-store id s = ground arith

  reclaim-IsFree :
      (id : String) (s : S) (e : Error)
      → IsFree s
      → (reclaim ms r (request_key r opts) opts id s).0 ≡ err e
      → IsFree (reclaim ms r (request_key r opts) opts id s).1
  unfolding reclaim
  reclaim-IsFree id s e f h eq =
      let key = request_key r opts in
      let s1 = (ms.release_idempotency r.db_id key id s).1 in
      let free1 = release_keeps r.db_id key r.query_id id s f in
      let ttl = idempotency_submit_ttl opts in
      let s2 = (ms.acquire_idempotency r.now r.db_id key r.query_id ttl s1).1 in
      elim (acquire_reports r.now r.db_id key r.query_id ttl s1 free1) [
        | inl (won, a) ↦ ground (arith, free1)
        | inr free2 ↦ ground (arith, free1, free2, λ (i : String). found_again-store i s2)
      ]

  repeated-IsFree :
      (id : String) (s : S) (e : Error)
      → IsFree s
      → (repeated ms r (request_key r opts) opts id s).0 ≡ err e
      → IsFree (repeated ms r (request_key r opts) opts id s).1
  unfolding repeated
  repeated-IsFree id s e f h eq = ground (arith, reclaim-IsFree id s e f)

  claimed-IsFree :
      (acquired : Result Error (String × Bool)) (s : S) (e : Error)
      → ((id : String) × (acquired ≡ ok (id, true))) ⊎ IsFree s
      → (claimed ms r (request_key r opts) opts acquired s).0 ≡ err e
      → IsFree (claimed ms r (request_key r opts) opts acquired s).1
  unfolding claimed
  claimed-IsFree (err x) s e (inl (id, a)) h = cc
  claimed-IsFree (err x) s e (inr f) h = f
  claimed-IsFree (ok (id, true)) s e f h = cc
  claimed-IsFree (ok (id, false)) s e (inl (won, a)) h = ground arith
  claimed-IsFree (ok (id, false)) s e (inr f) h = repeated-IsFree id s e f h

  resolve_idempotency-IsFree :
      (s : S) (e : Error)
      → IsFree s
      → (resolve_idempotency ms r (request_key r opts) opts s).0 ≡ err e
      → IsFree (resolve_idempotency ms r (request_key r opts) opts s).1
  unfolding resolve_idempotency
  resolve_idempotency-IsFree s e f h =
      claimed-IsFree _ _ e
        (acquire_reports r.now r.db_id (request_key r opts) r.query_id (idempotency_submit_ttl opts)
          s f)
        h

  submit_put-IsFree :
      (m : Manager) (s : S) (e : Error) (sys : Sys S)
      → opts.idempotency_key ≢ ""
      → submit_put ms r opts m s ≡ (err e, sys)
      → IsFree sys.store
  unfolding submit_put launch
  submit_put-IsFree m s e sys n h eq =
      ground (arith, release_claim-IsFree (ms.put_query (new_record r opts m) s).1 n)

  submit_admit-IsFree :
      (m : Manager) (s : S) (e : Error) (sys : Sys S)
      → opts.idempotency_key ≢ ""
      → submit_admit ms r opts m s ≡ (err e, sys)
      → IsFree sys.store
  unfolding submit_admit
  submit_admit-IsFree m s e sys n h = elim (Result-cases (admit r.query_id r.db_id m)) [
    | inl (m1, a) ↦ submit_put-IsFree m1 s e sys n (rw (a, submit_admit) at h)
    | inr (x, a) ↦ λ eq. ground (arith, release_claim-IsFree s n)
  ]

  submit_slot-IsFree :
      (m : Manager) (s : S) (e : Error) (sys : Sys S)
      → opts.idempotency_key ≢ ""
      → submit_slot ms r opts m s ≡ (err e, sys)
      → IsFree sys.store
  unfolding submit_slot
  submit_slot-IsFree m s e sys n h = elim (Option-cases (acquire_slot m)) [
    | inl a ↦ λ eq. ground (arith, release_claim-IsFree s n)
    | inr (m1, a) ↦ submit_admit-IsFree m1 s e sys n (rw (a, submit_slot) at h)
  ]

  submit_ping-IsFree :
      (env : Env) (pool : ℕ) (m : Manager) (s : S) (e : Error) (sys : Sys S)
      → opts.idempotency_key ≢ ""
      → submit_ping ms env r opts pool m s ≡ (err e, sys)
      → IsFree sys.store
  unfolding submit_ping
  submit_ping-IsFree env pool m s e sys n h eq =
      ground (arith, release_claim-IsFree s n, submit_slot-IsFree m s e sys n)

  submit_claim-IsFree :
      (env : Env) (pool : ℕ) (m : Manager) (s : S) (e : Error) (sys : Sys S)
      → opts.idempotency_key ≢ ""
      → IsFree s
      → submit_claim ms env r opts pool m s ≡ (err e, sys)
      → IsFree sys.store
  unfolding submit_claim
  submit_claim-IsFree env pool m s e sys n f h eq =
      let s1 = (resolve_idempotency ms r (request_key r opts) opts s).1 in
      ground (
        arith,
        test_of_ne opts.idempotency_key "" n,
        resolve_idempotency-IsFree s e f,
        submit_ping-IsFree env pool m s1 e sys n,
      )

module _ {S : Type 0} (ms : MetaStore S) (laws : KeyLaws ms) where
  submit_query-IsFree :
      (env : Env) (r : Request) (sys : Sys S) (e : Error) (sys' : Sys S)
      → r.opts.idempotency_key ≢ ""
      → laws.holder r.db_id (request_key r r.opts) sys.store ≢ some r.query_id
      → submit_query ms env r sys ≡ (err e, sys')
      → laws.holder r.db_id (request_key r r.opts) sys'.store ≢ some r.query_id
  unfolding submit_query apply_defaults
  submit_query-IsFree env r sys e sys' n f h eq =
      let opts = apply_defaults sys.manager r.opts in
      elim (Option-cases (lookup r.db_id sys.manager.db_pools)) [
        | inl a ↦ ground (arith, f)
        | inr (mp, a) ↦ elim (Result-cases (check_request env sys.manager r.sql opts)) [
          | inr (x, b) ↦ ground (arith, f)
          | inl (u, b) ↦
              submit_claim-IsFree ms laws r opts env mp.pool sys.manager sys.store e sys' n f
                (rw (a, b, submit_query) at h) eq
        ]
      ]

pub memory-release_frees :
    (db_id key q : String) (m : Memory)
    → lookup (full_key db_id key) (release_idempotency db_id key q m).1.idempotency ≢ some q
unfolding release_idempotency
memory-release_frees db_id key q m eq = ground (
  arith,
  eq_iff q q,
  eq_iff (full_key db_id key) (full_key db_id key),
  lookup-erase (full_key db_id key) (full_key db_id key) m.idempotency,
)

memory-release_keeps :
    (db_id key q other : String) (m : Memory)
    → lookup (full_key db_id key) m.idempotency ≢ some q
    → lookup (full_key db_id key) (release_idempotency db_id key other m).1.idempotency ≢ some q
unfolding release_idempotency
memory-release_keeps db_id key q other m f eq = ground (
  arith,
  f,
  eq_iff (full_key db_id key) (full_key db_id key),
  lookup-erase (full_key db_id key) (full_key db_id key) m.idempotency,
)

memory-acquire_reports :
    (now : ℤ) (db_id key q : String) (ttl : ℤ) (m : Memory)
    → lookup (full_key db_id key) m.idempotency ≢ some q
    → ((id : String) × ((acquire_idempotency now db_id key q ttl m).0 ≡ ok (id, true)))
      ⊎ (lookup (full_key db_id key) (acquire_idempotency now db_id key q ttl m).1.idempotency
          ≢ some q)
unfolding acquire_idempotency
memory-acquire_reports now db_id key q ttl m f =
    elim (Bool-cases (is_live now (lookup (full_key db_id key) m.idemp_expires))) [
      | inl t ↦ inr (λ eq. ground (arith, f))
      | inr t ↦ inl (q, ground arith)
    ]

abbrev memory_keys : KeyLaws memory_store
memory_keys = record {
  holder = λ db_id key m. lookup (full_key db_id key) m.idempotency;
  release_frees = memory-release_frees;
  release_keeps = memory-release_keeps;
  acquire_reports = memory-acquire_reports;
}

-- A submission over the store in memory that fails does not keep its idempotency key: if the key did
-- not point at its id before, it does not afterwards, wherever the submission fails.
pub submit_query-release_idempotency :
    (env : Env) (r : Request) (sys : Sys Memory) (e : Error) (sys' : Sys Memory)
    → r.opts.idempotency_key ≢ ""
    → lookup (full_key r.db_id (request_key r r.opts)) sys.store.idempotency ≢ some r.query_id
    → submit_query memory_store env r sys ≡ (err e, sys')
    → lookup (full_key r.db_id (request_key r r.opts)) sys'.store.idempotency ≢ some r.query_id
submit_query-release_idempotency env r sys e sys' n f h =
    submit_query-IsFree memory_store memory_keys env r sys e sys' n f h
