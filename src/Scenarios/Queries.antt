-- ===== src/Scenarios/Queries.antt =====
-- Scenarios for the manager: submissions, executions and the reaper.
use dbbridge.Base.{◌⊎◌, String, ◌≡◌, refl, ◌≢◌, none, some, [], ◌∷◌, true, false, ◌≤◌}
use dbbridge.Base.Int.{pos}
use dbbridge.Base.Assoc.{lookup, erase}
use dbbridge.Domain.{is_terminal, validate, unavailable_error}
use dbbridge.Authn.{subject_from_context}
use dbbridge.State.Memory.{
  full_key, put_query, acquire_idempotency, Memory, new_memory, memory_store,
}
use dbbridge.Manager.Defs.{Manager, Sys}
use dbbridge.Manager.Admission.{take_slot, give_slot, admit, acquire_slot, release_slot, drain}
use dbbridge.Manager.Submit.{
  Request, check_request, supports_format, submit_claim, resolve_idempotency, submit_ping,
  submit_slot, submit_admit, submit_put, launch, submit_query, apply_defaults, new_record,
  request_key,
}
use dbbridge.Manager.Submit.Rollback.{submit_query-err}
use dbbridge.Manager.Submit.Accepted.{IsAdmitted, IsChecked, submit_query-accepted}
use dbbridge.Manager.Submit.Claims.{submit_query-release_idempotency}
use dbbridge.Manager.Run.{run, leave}
use dbbridge.Manager.Run.Outcome.{IsDelivered, IsOpened, IsOutcome, run-IsOutcome}
use dbbridge.Manager.Run.Cleanup.{run-leave}
use dbbridge.Manager.Capacity.{
  with_manager, Steps, here, next, takes, gives, drains, length-Steps, Steps-draining,
}
use dbbridge.Manager.Capacity.Submission.{submit_query-Steps}
use dbbridge.Manager.Run.Stored.{IsStored, run-stored}
use dbbridge.Manager.Reaper.{reap_stale_owners}
use dbbridge.Manager.Reaper.Verdicts.{Verdict, stored, reap_stale_owners-Verdict}
use dbbridge.Manager.Garbage.{Results, collect_query}
use dbbridge.Manager.Garbage.Collected.{IsGone, IsLeft, IsKept, IsRemoved, collect_query-IsRemoved}
use dbbridge.Scenarios.Fixtures.{
  finished, finished_query, manager, sys, env, env_down, request, keyed_request, query, execution,
  stored_query, keyed,
}

-- The database does not answer.
submit_query-err_example :
    (submit_query memory_store env_down keyed_request sys).1.manager ≡ manager
unfolding submit_query lookup check_request validate apply_defaults supports_format submit_claim
    resolve_idempotency acquire_idempotency new_memory submit_ping
submit_query-err_example =
    submit_query-err memory_store env_down keyed_request sys (unavailable_error "database pg")
      (submit_query memory_store env_down keyed_request sys).1 refl refl

submit_query-accepted_example :
    (query ≡ new_record request (apply_defaults manager request.opts) manager)
    × IsAdmitted request manager (submit_query memory_store env request sys).1.manager
    × IsChecked env manager request.sql query.options
unfolding submit_query lookup check_request validate apply_defaults supports_format submit_claim
    resolve_idempotency acquire_idempotency new_memory submit_ping submit_slot acquire_slot
    submit_admit admit submit_put put_query launch new_record subject_from_context
submit_query-accepted_example =
    submit_query-accepted memory_store request env sys query
      (submit_query memory_store env request sys).1 refl

submit_query-release_idempotency_example :
    lookup
      (full_key "pg" (request_key keyed_request keyed))
      (submit_query memory_store env_down keyed_request sys).1.store.idempotency
    ≢ some "q1"
unfolding submit_query lookup check_request validate apply_defaults supports_format submit_claim
    resolve_idempotency acquire_idempotency new_memory submit_ping
submit_query-release_idempotency_example =
    submit_query-release_idempotency env_down keyed_request sys (unavailable_error "database pg")
      (submit_query memory_store env_down keyed_request sys).1 (λ h. cc) (λ h. cc) refl

-- The repetition of a submission whose query is in the store.
abbrev repetition : Request
repetition = record keyed_request { query_id = "q2" }

abbrev claimed_key : String
claimed_key = full_key "pg" (request_key repetition keyed)

abbrev claimed_sys : Sys Memory
claimed_sys = record {
  manager = manager;
  store = record stored_query {
    idempotency = (claimed_key, "q1") ∷ [];
    idemp_expires = (claimed_key, pos 900) ∷ [];
  };
}

run-IsOutcome_example :
    let ran = run memory_store execution query sys in
    IsOutcome execution (IsDelivered execution "fs") (IsOpened execution "fs") ran.final ran.dropped
run-IsOutcome_example = run-IsOutcome memory_store execution query sys refl refl

run-stored_example : IsStored "q1" (run memory_store execution query sys)
run-stored_example = run-stored execution query sys refl

-- The query in the registry, with its slot.
abbrev executing : Sys Memory
executing = record {
  manager = record manager {
    active_reg = ("q1", record { db_id = "pg"; canceled = false }) ∷ [];
    slots = some (record { capacity = 2; used = 1 });
  };
  store = stored_query;
}

run-leave_example :
    let m = (run memory_store execution query executing).sys.manager in
    (m.active_reg ≡ erase "q1" executing.manager.active_reg)
    × (m.slots ≡ give_slot executing.manager.slots)
    × (m.draining ≡ executing.manager.draining)
    × (m.cfg ≡ executing.manager.cfg)
run-leave_example = run-leave memory_store execution query executing

abbrev second : Request
second = record request { query_id = "q2" }

submit_query-Steps_example :
    Steps
      (record { sys = executing; held = 0 })
      (record { sys = (submit_query memory_store env second executing).1; held = 0 })
    × Steps
        (record { sys = executing; held = 0 })
        (record { sys = leave memory_store "q1" executing; held = 0 })
unfolding lookup
submit_query-Steps_example =
    submit_query-Steps memory_store env second "q1" (record { db_id = "pg"; canceled = false })
      executing 0 refl refl

-- A submission that has its slot.
abbrev admitting : Manager
admitting = record manager { slots = some (record { capacity = 2; used = 1 }) }

-- Drain comes before it is registered, and it gives the slot back.
length-Steps_example :
    (0 ≤ 2) × ((release_slot (drain admitting)).slots ≡ some (record { capacity = 2; used = 0 }))
unfolding release_slot give_slot drain acquire_slot take_slot
length-Steps_example =
    length-Steps 2 (with_manager manager sys 0)
      (with_manager (release_slot (drain admitting)) sys 0) refl refl refl
      (next
        (next (next here (takes sys admitting 0 refl))
          (drains (record sys { manager = admitting }) 1))
        (gives (record sys { manager = drain admitting }) 0))

Steps-draining_example :
    ((release_slot (drain admitting)).draining ≡ true)
    × (lookup "q1" (release_slot (drain admitting)).active_reg ≡ none)
unfolding lookup drain release_slot
Steps-draining_example =
    Steps-draining (with_manager (drain admitting) sys 1)
      (with_manager (release_slot (drain admitting)) sys 0) "q1" refl refl
      (next here (gives (record sys { manager = drain admitting }) 0))

-- The instance that sees the other's query with a lease that is over.
abbrev other : Sys Memory
other = record { manager = record manager { instance_id = "i2" }; store = stored_query }

reap_stale_owners-Verdict_example :
    Verdict
      (pos 200)
      other.manager
      "q1"
      (stored "q1" other)
      (stored "q1" (reap_stale_owners memory_store (pos 200) other))
unfolding lookup
reap_stale_owners-Verdict_example =
    reap_stale_owners-Verdict (pos 200) other "q1"
      (record { unique = (refl, tt); keyed = ((refl, refl), tt) })

-- The finished query, whose result cannot be deleted.
abbrev done : Sys Memory
done = record { manager = manager; store = finished_query }

abbrev undeletable : Results
undeletable = record { stores = ("fs", record { supports = none }) ∷ []; delete = λ r. false }

collect_query-IsRemoved_example :
    let sys' = collect_query memory_store undeletable "q1" done in
    ((is_terminal finished.state ≡ false) × (sys' ≡ done))
    ⊎ ((is_terminal finished.state ≡ true)
        × IsLeft undeletable finished.result
        × IsKept finished "q1" sys')
    ⊎ ((is_terminal finished.state ≡ true)
        × IsGone undeletable finished.result
        × IsRemoved finished "q1" sys')
unfolding lookup
collect_query-IsRemoved_example =
    collect_query-IsRemoved undeletable done "q1" finished
      (record { unique = (refl, tt); keyed = ((refl, refl), tt) }) refl
