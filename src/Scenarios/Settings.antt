-- ===== src/Scenarios/Settings.antt =====
-- Scenarios for the configuration and its reload.
use dbbridge.Base.{ℕ, ◌≡◌, refl, false, none, some, Option, [], ◌∷◌, Result, ok}
use dbbridge.Base.Int.{pos}
use dbbridge.Config.{DatabaseConfig}
use dbbridge.Config.Load.{
  Settings, ConfigError, validate, validated, validate_instance, check_storage, check_rest,
  check_databases, check_database, is_engine,
}
use dbbridge.Config.Load.Valid.{IsSound, validate-IsSound}
use dbbridge.Config.NonReloadable.{DeepEqual}
use dbbridge.Manager.Reload.{reload}
use dbbridge.Manager.Reload.Applied.{IsReloaded, reload-IsReloaded}
use dbbridge.Scenarios.Fixtures.{pg, manager}

-- A file that names the instance, its store and one database.
abbrev file : Settings
file = record {
  instance_ = record {
    id = "i1";
    metastore = "memory";
    redis_addr = "";
    redis_password = "";
    redis_db = pos 0;
    default_storage = "";
    heartbeat_ttl = pos 0;
    gc_interval = pos 0;
    otlp_endpoint = "";
  };
  server = record {
    rest_addr = "";
    grpc_addr = "";
    max_request_bytes = pos 0;
    request_timeout = pos 0;
    read_header_timeout = pos 0;
    idle_timeout = pos 0;
    ws_allowed_origins = [];
    trusted_proxy_count = pos 0;
    admin_addr = "";
    tls = record { cert_file = ""; key_file = ""; allow_h2c = false };
    rate_limit = record { requests_per_second = 0; burst = pos 0 };
  };
  auth = none;
  defaults = record {
    result_ttl = pos 0;
    query_timeout = pos 0;
    max_concurrent_queries = pos 2;
    allow_writes = false;
  };
  storage = record {
    fs_root = "/tmp";
    s3 = record { bucket = ""; region = ""; endpoint = ""; key_id = ""; secret = "" };
    clickhouse = record { dsn = ""; table = "" };
  };
  databases = pg ∷ [];
}

abbrev filled : Settings
filled = validated file (record file.instance_ {
  default_storage = "fs";
  heartbeat_ttl = pos 5_000_000_000;
  gc_interval = pos 60_000_000_000;
})

accepted : validate file ≡ ok filled
unfolding validate validate_instance check_storage check_rest check_databases check_database
    is_engine
accepted = refl

validate-IsSound_example :
    IsSound filled
    × ((filled.instance_.id ≡ file.instance_.id) × (filled.databases ≡ file.databases))
validate-IsSound_example = validate-IsSound file filled accepted

abbrev renamed : Settings
renamed = record filled { instance_ = record filled.instance_ { id = "i2" } }

abbrev opened : DatabaseConfig → Option ℕ
opened db = some 9

abbrev read : Result ConfigError Settings
read = ok file

-- Sections that always count as changed.
abbrev apart : DeepEqual
apart = record {
  instance_ = λ a b. false;
  server = λ a b. false;
  storage = λ a b. false;
  auth = λ a b. false;
}

reload-IsReloaded_example :
    IsReloaded apart opened renamed manager read (reload apart opened read renamed manager)
reload-IsReloaded_example = reload-IsReloaded apart opened renamed manager read
