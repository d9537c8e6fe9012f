-- ===== src/State/Redis.antt =====
-- internal/state/redis.go: `RedisMetaStore`, one function for each method, over a client and a codec.
-- `others` is what other clients of the server do between two round trips of a call.
pub mod Api
pub mod Contract
pub mod Index
use Prim.Native.String.{◌++◌ as str_append}
use dbbridge.Base.{
  ℕ, ◌/◌, String, ◌==◌, Bool, true, false, not, ◌&&◌, ◌||◌, Option, none, some, List, [], ◌∷◌, ◌++◌,
  map, Result, ok, err, if◌then◌else◌,
}
use dbbridge.Base.Int.{ℤ, pos, pos_part, ◌+ℤ◌, ltb_ℤ, is_zero}
use dbbridge.Domain.{
  Error, record_missing, wrapped_error, failure, QueryRecord, QueryState, pending, running,
  is_terminal, contains_state, ◌=s=◌,
}
use dbbridge.State.MetaStore.{MetaStore, ControlMsg, Op}
use dbbridge.State.Redis.Api.{
  Client, Codec, Command, set, pexpire, del, sadd, srem, committed, aborted, commit_failed,
}

unfoldable pub query_key : String → String
query_key id = str_append "dbbridge:query:" id

unfoldable pub lease_key : String → String
lease_key id = str_append "dbbridge:lease:" id

unfoldable pub lock_key : String → String
lock_key name = str_append "dbbridge:lock:" name

unfoldable pub idempotency_key : String → String → String
idempotency_key db_id key =
    str_append "dbbridge:idempotency:" (str_append db_id (str_append ":" key))

unfoldable pub instance_key : String → String
instance_key id = str_append "dbbridge:instance:" id

unfoldable pub instance_queries_key : String → String
instance_queries_key id = str_append "dbbridge:instance:" (str_append id ":queries")

abbrev pub control_channel : String
control_channel = "dbbridge:control:channel"

abbrev pub databases_seen_key : String
databases_seen_key = "dbbridge:databases:seen"

-- 24 hours
abbrev pub day : ℤ
day = pos 86_400_000_000_000

abbrev pub retention : QueryRecord → ℤ
retention rec = if is_zero rec.options.result_ttl then day else rec.options.result_ttl

-- The commands of `writeQuery` for the set of the owner.
unfoldable pub index_commands : QueryRecord → List Command
index_commands rec =
    if not (is_terminal rec.state)
    then sadd (instance_queries_key rec.owner_instance_id) rec.id ∷ []
    else srem (instance_queries_key rec.owner_instance_id) rec.id ∷ (del (lease_key rec.id) ∷ [])

unfoldable pub write_query : QueryRecord → String → List Command
write_query rec text =
    set (query_key rec.id) text (retention rec +ℤ day)
    ∷ (if not (rec.database_id == "")
        then sadd databases_seen_key rec.database_id ∷ index_commands rec
        else index_commands rec)

-- `fmt.Errorf("text: %w", err)` around a failed call.
abbrev pub explain {ℓ} : {A : Type ℓ} → String → Result Error A → Result Error A
explain text (ok a) = ok a
explain text (err e) = err (wrapped_error text e)

is_expired_record : ℤ → QueryRecord → Bool
is_expired_record now rec =
    is_terminal rec.state
    && not (is_zero rec.finished_at)
    && ltb_ℤ (rec.finished_at +ℤ retention rec) now

-- Whether a TTL says that there is a lease.
abbrev lease_left : ℤ → Result Error ℤ → QueryRecord → QueryRecord
lease_left now (err e) rec = rec
lease_left now (ok ttl) rec =
    if ltb_ℤ (pos 0) ttl then record rec { lease_deadline = now +ℤ ttl } else rec

module _ {S : Type 0} (c : Client S) (j : Codec) (others : S → S) where
  -- The end of a pipeline.
  abbrev finish : String → Result Error (Unit {0}) × S → Result Error (Unit {0}) × S
  finish text (r, s) = (explain text r, s)

  unfoldable pub put_query : QueryRecord → Op S Unit
  put_query rec s = elim (j.marshal rec) [
    | err e ↦ (err (wrapped_error "failed to marshal query" e), s)
    | ok text ↦ finish "failed to put query in redis" (c.exec (write_query rec text) s)
  ]

  unfoldable pub decode : S → Option String → Result Error ℤ → Result Error QueryRecord
  decode s none ttl = err record_missing
  decode s (some text) ttl = elim (j.unmarshal text) [
    | none ↦ err (failure "failed to unmarshal query")
    | some rec ↦ ok (lease_left (c.now s) ttl rec)
  ]

  unfoldable pub get_query : String → S → Result Error QueryRecord
  unfolding decode
  get_query id s = elim (c.get_ttl (query_key id) (lease_key id) s) [
    | err e ↦ err (wrapped_error "failed to get query from redis" e)
    | ok (text, ttl) ↦ decode s text ttl
  ]

  unfoldable pub update_query : QueryRecord → Op S Unit
  update_query rec s = put_query rec s

  -- The transaction, once the record that was read is in one of the expected states.
  unfoldable pub try_commit : QueryRecord → String → S → Result Error Bool × S
  try_commit rec text s =
      let (r, s') = c.commit (query_key rec.id) s (write_query rec text) (others s) in
      elim r [
        | committed ↦ (ok true, s')
        | aborted ↦ (ok false, s')
        | commit_failed e ↦ (err (wrapped_error "conditional query update failed" e), s')
      ]

  unfoldable pub update_found :
      QueryRecord → String → List QueryState → Option String → S → Result Error Bool × S
  update_found rec text expected none s = (err record_missing, s)
  update_found rec text expected (some found) s = elim (j.unmarshal found) [
    | none ↦ (
      err (wrapped_error "conditional query update failed" (failure "failed to unmarshal query")),
      s,
    )
    | some current ↦
        if not (contains_state expected current.state) then (ok false, s) else try_commit rec text s
  ]

  unfoldable pub update_query_if_state : QueryRecord → List QueryState → Op S Bool
  update_query_if_state rec expected s = elim (j.marshal rec) [
    | err e ↦ (err (wrapped_error "failed to marshal query" e), s)
    | ok text ↦ elim (c.get (query_key rec.id) s) [
      | err e ↦ (err (wrapped_error "conditional query update failed" e), s)
      | ok found ↦ update_found rec text expected found s
    ]
  ]

  -- The query that holds a key which SETNX found taken. A key that has expired since is an error.
  unfoldable pub holder_of : String → S → Result Error (String × Bool) × S
  holder_of k s = elim (c.get k s) [
    | err e ↦ (err (wrapped_error "redis get existing idempotency failed" e), s)
    | ok none ↦
        (err (wrapped_error "redis get existing idempotency failed" (failure "redis: nil")), s)
    | ok (some id) ↦ (ok (id, false), s)
  ]

  unfoldable pub acquire_idempotency : ℤ → String → String → String → ℤ → Op S (String × Bool)
  acquire_idempotency now db_id key query_id ttl s =
      let k = idempotency_key db_id key in
      let (won, s1) = c.set_nx k query_id ttl s in
      elim won [
        | err e ↦ (err (wrapped_error "redis setnx failed" e), s1)
        | ok true ↦ (ok (query_id, true), s1)
        | ok false ↦ holder_of k (others s1)
      ]

  -- The two scripts: a command for a key that holds this text, in one step of the server.
  unfoldable pub run_if_owner : String → String → Command → Op S Unit
  run_if_owner k query_id command s = elim (c.get k s) [
    | err e ↦ (err e, s)
    | ok none ↦ (ok tt, s)
    | ok (some id) ↦ if id == query_id then c.exec (command ∷ []) s else (ok tt, s)
  ]

  unfoldable pub release_idempotency : String → String → String → Op S Unit
  release_idempotency db_id key query_id s =
      let k = idempotency_key db_id key in
      finish "redis release idempotency failed" (run_if_owner k query_id (del k) s)

  unfoldable pub refresh_idempotency : ℤ → String → String → String → ℤ → Op S Unit
  refresh_idempotency now db_id key query_id ttl s =
      let k = idempotency_key db_id key in
      if not (ltb_ℤ (pos 0) ttl)
      then (ok tt, s)
      else finish "redis refresh idempotency failed"
          (run_if_owner k query_id (pexpire k (pos_part ttl / 1_000_000)) s)

  unfoldable pub lease_commands : String → ℤ → List String → List Command
  lease_commands instance_id ttl [] = []
  lease_commands instance_id ttl (id ∷ ids) =
      set (lease_key id) instance_id ttl ∷ lease_commands instance_id ttl ids

  unfoldable pub heartbeat : ℤ → String → List String → ℤ → Op S Unit
  heartbeat now instance_id owned ttl s =
      finish "redis heartbeat failed" (
        c.exec (set (instance_key instance_id) "alive" ttl ∷ lease_commands instance_id ttl owned)
          s)

  unfoldable pub try_lock : ℤ → String → ℤ → Op S Bool
  try_lock now name ttl s =
      let (r, s1) = c.set_nx (lock_key name) "held" ttl s in (explain "redis try lock failed" r, s1)

  unfoldable pub publish_control : ControlMsg → Op S Unit
  publish_control msg s = elim (j.marshal_msg msg) [
    | err e ↦ (err (wrapped_error "failed to marshal control message" e), s)
    | ok text ↦ finish "failed to publish control msg" (c.publish control_channel text s)
  ]

  unfoldable pub count_in_flight : String → S → Result Error ℕ
  count_in_flight instance_id s =
      explain "failed to get active query count from redis"
        (c.scard (instance_queries_key instance_id) s)

  unfoldable pub list_by_instance : String → S → Result Error (List String)
  list_by_instance instance_id s =
      explain "failed to list queries by instance from redis"
        (c.smembers (instance_queries_key instance_id) s)

  unfoldable pub list_databases_seen : S → Result Error (List String)
  list_databases_seen s =
      explain "failed to list databases seen from redis" (c.smembers databases_seen_key s)

  -- The record at a key, if it can be read.
  unfoldable pub read_record : String → S → Option QueryRecord
  read_record k s = elim (c.get k s) [
    | err e ↦ none
    | ok none ↦ none
    | ok (some text) ↦ j.unmarshal text
  ]

  unfoldable pub visit_keys : (QueryRecord → Bool) → List String → S → List String
  visit_keys keep [] s = []
  visit_keys keep (k ∷ ks) s =
      let rest = visit_keys keep ks s in
      elim (read_record k s) [ none ↦ rest | some rec ↦ if keep rec then rec.id ∷ rest else rest ]

  -- `scanQueries` with the `visit` of its two callers: the ids of the records to keep.
  unfoldable pub scan_queries :
      (QueryRecord → Bool) → List (Result Error (List String)) → S → Result Error (List String)
  scan_queries keep [] s = ok []
  scan_queries keep (err e ∷ pages) s = err (wrapped_error "scan queries failed" e)
  scan_queries keep (ok ks ∷ pages) s =
      let rest = scan_queries keep pages s in
      elim rest [ err e ↦ err e | ok ids ↦ ok (visit_keys keep ks s ++ ids) ]

  unfoldable pub list_expired_queries : ℤ → S → Result Error (List String)
  unfolding is_expired_record
  list_expired_queries now s = scan_queries (is_expired_record now) (c.scan "dbbridge:query:*" s) s

  -- Whether no lease key exists; a failed EXISTS keeps the record out.
  abbrev has_no_lease : Result Error Bool → Bool
  has_no_lease (err e) = false
  has_no_lease (ok there) = not there

  unfoldable pub is_stale_record : S → QueryRecord → Bool
  is_stale_record s rec =
      (rec.state =s= pending || rec.state =s= running)
      && has_no_lease (c.key_exists (lease_key rec.id) s)

  unfoldable pub list_stale_queries : ℤ → S → Result Error (List String)
  list_stale_queries now s = scan_queries (is_stale_record s) (c.scan "dbbridge:query:*" s) s

  abbrev pub forget_commands : String → Result Error QueryRecord → List Command
  forget_commands id (err e) = []
  forget_commands id (ok rec) = srem (instance_queries_key rec.owner_instance_id) id ∷ []

  unfoldable pub delete_query : String → Op S Unit
  delete_query id s = finish "redis delete query failed" (
      c.exec (del (query_key id) ∷ (del (lease_key id) ∷ forget_commands id (get_query id s)))
        (others s))

  abbrev pub redis_store : MetaStore S
  redis_store = record {
    put_query = put_query;
    get_query = get_query;
    update_query = update_query;
    update_query_if_state = update_query_if_state;
    acquire_idempotency = acquire_idempotency;
    release_idempotency = release_idempotency;
    refresh_idempotency = refresh_idempotency;
    heartbeat = heartbeat;
    try_lock = try_lock;
    publish_control = publish_control;
    count_in_flight = count_in_flight;
    list_by_instance = list_by_instance;
    list_databases_seen = list_databases_seen;
    list_expired_queries = list_expired_queries;
    list_stale_queries = list_stale_queries;
    delete_query = delete_query;
  }
