-- ===== src/Scenarios/Fixtures.antt =====
-- The values that the scenarios share.
use dbbridge.Base.{none, some, [], ◌∷◌, true, false}
use dbbridge.Base.Int.{pos}
use dbbridge.Domain.{QueryOptions, QueryRecord, ResultRef, pending, succeeded}
use dbbridge.Config.{Config, DatabaseConfig}
use dbbridge.State.Memory.{Memory, new_memory}
use dbbridge.Manager.Defs.{Manager, Sys}
use dbbridge.Manager.Submit.{Env, Request, no_stats}
use dbbridge.Manager.Completion.{live}
use dbbridge.Manager.Run.{Execution}

abbrev pub options : QueryOptions
options = record {
  timeout = pos 5;
  mode = "async";
  result_ttl = pos 10;
  idempotency_key = "";
  result_format = "jsonl";
  storage_backend = "fs";
}

abbrev pub keyed : QueryOptions
keyed = record options { idempotency_key = "k" }

abbrev pub query : QueryRecord
query = record {
  id = "q1";
  database_id = "pg";
  sql = "SELECT 1";
  options = options;
  state = pending;
  owner_instance_id = "i1";
  created_at = pos 1;
  started_at = pos 0;
  finished_at = pos 0;
  error = none;
  stats = no_stats;
  result = none;
  idempotency_key = "";
  lease_deadline = pos 0;
  subject = "";
}

abbrev pub pg : DatabaseConfig
pg = record { id = "pg"; engine = "postgres"; dsn = "dsn"; max_conns = pos 4; display_name = "" }

abbrev pub config : Config
config = record {
  heartbeat_ttl = pos 30;
  defaults = record {
    result_ttl = pos 10;
    query_timeout = pos 5;
    max_concurrent_queries = pos 2;
    allow_writes = false;
  };
  databases = pg ∷ [];
}

-- An instance with one pool and two slots.
abbrev pub manager : Manager
manager = record {
  instance_id = "i1";
  default_storage = "fs";
  cfg = config;
  db_pools = ("pg", record { pool = 7; cfg = pg }) ∷ [];
  gc_period_dur = pos 0;
  active_reg = [];
  draining = false;
  slots = some (record { capacity = 2; used = 0 });
  watchers = [];
  closed = [];
  next_channel = 0;
  events = [];
  taken = [];
  keeps_up = true;
}

abbrev pub sys : Sys Memory
sys = record { manager = manager; store = new_memory }

-- A backend that stores every format, a guard that passes everything, databases that answer.
abbrev pub env : Env
env = record {
  stores = ("fs", record { supports = none }) ∷ [];
  read_only = λ s. none;
  ping = λ p. true;
}

-- The same with databases that do not answer.
abbrev pub env_down : Env
env_down = record env { ping = λ p. false }

abbrev pub request : Request
request = record {
  now = pos 1;
  query_id = "q1";
  caller = none;
  db_id = "pg";
  sql = "SELECT 1";
  opts = options;
}

abbrev pub keyed_request : Request
keyed_request = record request { opts = keyed }

abbrev pub ref : ResultRef
ref = record {
  backend = "fs";
  locator = "q1.jsonl";
  size_bytes = pos 0;
  row_count = pos 0;
  format = "jsonl";
  checksum = "";
}

-- An execution in which all goes well.
abbrev pub execution : Execution
execution = record {
  started = pos 110;
  finished = pos 120;
  stopping = false;
  ctx = live;
  exec = none;
  db_duration = pos 4;
  stores = ("fs", record { supports = none }) ∷ [];
  writer = some ref;
  progress = record { now = pos 115; rows = pos 1; bytes = pos 8; busy = false } ∷ [];
  rows = pos 2;
  bytes = pos 16;
  encode = none;
  close = none;
  store_duration = pos 6;
  checksum = "c0ffee";
}

-- A store with one query, whose lease is over.
abbrev pub stored_query : Memory
stored_query = record {
  queries = ("q1", query) ∷ [];
  idempotency = [];
  idemp_expires = [];
  subscribers = [];
  next_channel = 0;
  leases = ("q1", pos 50) ∷ [];
  locks = [];
}

-- The same after the query has succeeded.
abbrev pub finished : QueryRecord
finished = record query { state = succeeded; finished_at = pos 20; result = some ref }

abbrev pub finished_query : Memory
finished_query = record stored_query { queries = ("q1", finished) ∷ []; leases = [] }
