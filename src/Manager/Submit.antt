-- ===== src/Manager/Submit.antt =====
-- `SubmitQuery`, from the lookup of the pool to the launch of the execution. A function stands
-- for the rest of the body after each early return. `now` is the time of the submission, `query_id`
-- the new UUID and `caller` the identity in the request's context. A synchronous submission
-- reads the record again (`GetQuery`) once its subscription has ended.
pub mod Rollback
pub mod Accepted
pub mod Claims
pub mod Cases
use Prim.Native.String.{◌++◌ as str_append}
use dbbridge.Base.{
  ℕ, String, ◌==◌, Bool, true, false, not, Option, none, some, List, [], ◌∷◌, if◌then◌else◌, Result,
  ok, err,
}
use dbbridge.Base.Int.{ℤ, pos, ◌+ℤ◌, is_zero}
use dbbridge.Base.Assoc.{Assoc, lookup}
use dbbridge.Domain.{
  Error, not_found_error, validation_error, unavailable_error, resource_exhausted_error,
  record_missing, wrapped_error, QueryOptions, QueryRecord, QueryStats, pending, validate,
}
use dbbridge.Authn.{Identity, authorize_subject, subject_from_context}
use dbbridge.State.MetaStore.{MetaStore}
use dbbridge.Manager.Defs.{Manager, Sys, QueryEvent}
use dbbridge.Manager.Admission.{acquire_slot, release_slot, admit, deregister}
use dbbridge.Manager.Watchers.{notify_watchers, watch}

-- A registered result store; `supports` is its `SupportsFormat` method, if it has one.
pub record ResultStore : Type 0 where
  pub supports : Option (String → Bool)

-- `storage.SupportsFormat`
unfoldable pub supports_format : ResultStore → String → Bool
supports_format store format = elim store.supports [ none ↦ true | some f ↦ f format ]

-- What a submission finds outside the manager.
pub record Env : Type 0 where
  -- the registry of `storage.GetStore`
  pub stores : Assoc ResultStore
  -- `sqlguard.ReadOnly`: the reason of a rejection
  pub read_only : String → Option String
  -- `Ping` of a pool
  pub ping : ℕ → Bool

unfoldable pub apply_defaults : Manager → QueryOptions → QueryOptions
apply_defaults m opts = record {
  timeout = if is_zero opts.timeout then m.cfg.defaults.query_timeout else opts.timeout;
  mode = if opts.mode == "" then "async" else opts.mode;
  result_ttl = if is_zero opts.result_ttl then m.cfg.defaults.result_ttl else opts.result_ttl;
  idempotency_key = opts.idempotency_key;
  result_format = if opts.result_format == "" then "jsonl" else opts.result_format;
  storage_backend = if opts.storage_backend == "" then m.default_storage else opts.storage_backend;
}

abbrev pub idempotency_submit_ttl : QueryOptions → ℤ
idempotency_submit_ttl opts = opts.result_ttl +ℤ pos 86_400_000_000_000

abbrev pub scoped_idempotency_key : String → String → String
scoped_idempotency_key subject key = str_append subject (str_append "\0" key)

abbrev pub no_stats : QueryStats
no_stats = record {
  rows_read = pos 0;
  bytes_written = pos 0;
  db_exec_duration = pos 0;
  storage_write_duration = pos 0;
  total_duration = pos 0;
}

pub record Request : Type 0 where
  pub now : ℤ
  pub query_id : String
  pub caller : Option Identity
  pub db_id : String
  pub sql : String
  pub opts : QueryOptions

-- `accepted` launches the execution of its record; `existing` is an idempotent repetition.
pub data Outcome : Type 0 where
  accepted existing : QueryRecord → Outcome

abbrev pub request_key : Request → QueryOptions → String
request_key r opts = scoped_idempotency_key (subject_from_context r.caller) opts.idempotency_key

unfoldable pub new_record : Request → QueryOptions → Manager → QueryRecord
new_record r opts m = record {
  id = r.query_id;
  database_id = r.db_id;
  sql = r.sql;
  options = opts;
  state = pending;
  owner_instance_id = m.instance_id;
  created_at = r.now;
  started_at = pos 0;
  finished_at = pos 0;
  error = none;
  stats = no_stats;
  result = none;
  idempotency_key = opts.idempotency_key;
  lease_deadline = pos 0;
  subject = subject_from_context r.caller;
}

-- The checks on the options, the backend and the statement.
unfoldable pub check_request : Env → Manager → String → QueryOptions → Result Error (Unit {0})
check_request env m sql opts = elim (validate opts) [
  | err e ↦ err e
  | ok u ↦ elim (lookup opts.storage_backend env.stores) [
    | none ↦ err (validation_error "storage_backend" "unknown storage backend")
    | some store ↦
        if not (supports_format store opts.result_format)
        then err (validation_error "result_format" "the storage backend cannot store the format")
        else if m.cfg.defaults.allow_writes
        then ok tt
        else elim (env.read_only sql) [
          | none ↦ ok tt
          | some reason ↦ err (validation_error "sql" reason)
        ]
  ]
]

is_allowed : Option Identity → String → Bool
is_allowed caller owner = elim (authorize_subject caller owner) [ ok u ↦ true | err e ↦ false ]

abbrev pub pending_event : Request → QueryEvent
pending_event r = record { query_id = r.query_id; state = pending; stats = no_stats; error = none }

module _ {S : Type 0} (ms : MetaStore S) where
  abbrev pub Resolution : Type 0
  Resolution = Result Error (Option QueryRecord) × S

  found_again : String → S → Resolution
  found_again existing_id s = elim (ms.get_query existing_id s) [
    | ok rec ↦ (ok (some rec), s)
    | err e ↦ (err e, s)
  ]

  -- The key points at a query that is gone: it is released and acquired again.
  reclaim : Request → String → QueryOptions → String → S → Resolution
  unfolding found_again
  reclaim r key opts existing_id s =
      let (released, s1) = ms.release_idempotency r.db_id key existing_id s in
      let (acquired, s2) =
        ms.acquire_idempotency r.now r.db_id key r.query_id (idempotency_submit_ttl opts) s1 in
      elim released [
        | err e ↦ (err (wrapped_error "failed to reclaim idempotency key" e), s1)
        | ok u ↦ elim acquired [
          | err e ↦ (err (wrapped_error "failed to process idempotency" e), s2)
          | ok (id, won) ↦ if won then (ok none, s2) else found_again id s2
        ]
      ]

  -- What becomes of a key that another query holds.
  repeated : Request → String → QueryOptions → String → S → Resolution
  unfolding reclaim is_allowed
  repeated r key opts id s = elim (ms.get_query id s) [
    | ok rec ↦
        if is_allowed r.caller rec.subject
        then (ok (some rec), s)
        else (err (not_found_error "query" id), s)
    | err record_missing ↦ reclaim r key opts id s
    | err e ↦ (err e, s)
  ]

  -- What follows the first acquisition.
  claimed : Request → String → QueryOptions → Result Error (String × Bool) → S → Resolution
  unfolding repeated
  claimed r key opts (err e) s = (err (wrapped_error "failed to process idempotency" e), s)
  claimed r key opts (ok (id, true)) s = (ok none, s)
  claimed r key opts (ok (id, false)) s = repeated r key opts id s

  unfoldable pub resolve_idempotency : Request → String → QueryOptions → S → Resolution
  unfolding claimed
  resolve_idempotency r key opts s =
      let (acquired, s1) =
        ms.acquire_idempotency r.now r.db_id key r.query_id (idempotency_submit_ttl opts) s in
      claimed r key opts acquired s1

  -- The closure `release`.
  unfoldable pub release_claim : Request → QueryOptions → S → S
  release_claim r opts s =
      if opts.idempotency_key == ""
      then s
      else (ms.release_idempotency r.db_id (request_key r opts) r.query_id s).1

  abbrev pub Reply : Type 0
  Reply = Result Error Outcome × Sys S

  -- The first lease, whose failure is only logged, and the first event.
  unfoldable pub announce : Request → Manager → S → Sys S
  announce r m s = record {
    manager = notify_watchers (pending_event r) m;
    store = (ms.heartbeat r.now m.instance_id (r.query_id ∷ []) m.cfg.heartbeat_ttl s).1;
  }

  -- What follows a successful `PutQuery`.
  unfoldable pub launch : Request → QueryOptions → QueryRecord → Manager → S → Reply
  launch r opts rec m s = (
    ok (accepted rec),
    if opts.mode == "sync" then (watch ms r.query_id (announce r m s)).1 else announce r m s,
  )

  unfoldable pub submit_put : Request → QueryOptions → Manager → S → Reply
  submit_put r opts m s =
      let (written, s1) = ms.put_query (new_record r opts m) s in
      elim written [
        | err e ↦ (
          err (wrapped_error "failed to persist query state" e),
          record {
            manager = release_slot (deregister r.query_id m);
            store = release_claim r opts s1;
          },
        )
        | ok u ↦ launch r opts (new_record r opts m) m s1
      ]

  unfoldable pub submit_admit : Request → QueryOptions → Manager → S → Reply
  submit_admit r opts m s = elim (admit r.query_id r.db_id m) [
    | err e ↦ (err e, record { manager = release_slot m; store = release_claim r opts s })
    | ok m1 ↦ submit_put r opts m1 s
  ]

  unfoldable pub submit_slot : Request → QueryOptions → Manager → S → Reply
  submit_slot r opts m s = elim (acquire_slot m) [
    | none ↦ (
      err (resource_exhausted_error "too many concurrent queries on this instance"),
      record { manager = m; store = release_claim r opts s },
    )
    | some m1 ↦ submit_admit r opts m1 s
  ]

  unfoldable pub submit_ping : Env → Request → QueryOptions → ℕ → Manager → S → Reply
  submit_ping env r opts pool m s = if env.ping pool then submit_slot r opts m s else (
    err (unavailable_error (str_append "database " r.db_id)),
    record { manager = m; store = release_claim r opts s },
  )

  unfoldable pub submit_claim : Env → Request → QueryOptions → ℕ → Manager → S → Reply
  submit_claim env r opts pool m s =
      if opts.idempotency_key == ""
      then submit_ping env r opts pool m s
      else let (resolved, s1) = resolve_idempotency r (request_key r opts) opts s in
        elim resolved [
          | err e ↦ (err e, record { manager = m; store = s1 })
          | ok (some rec) ↦ (ok (existing rec), record { manager = m; store = s1 })
          | ok none ↦ submit_ping env r opts pool m s1
        ]

  unfoldable pub submit_query : Env → Request → Sys S → Reply
  submit_query env r sys = elim (lookup r.db_id sys.manager.db_pools) [
    | none ↦ (err (not_found_error "database" r.db_id), sys)
    | some mp ↦
        let opts = apply_defaults sys.manager r.opts in
        elim (check_request env sys.manager r.sql opts) [
          | err e ↦ (err e, sys)
          | ok u ↦ submit_claim env r opts mp.pool sys.manager sys.store
        ]
  ]
