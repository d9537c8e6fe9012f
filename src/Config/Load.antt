-- ===== src/Config/Load.antt =====
-- internal/config/config.go: the settings as a file gives them, and `validate`, which fills in the
-- defaults in place. Reading the file, expanding `${VAR}` and decoding YAML come before.
pub mod Valid
use Prim.Native.String.{◌++◌ as str_append}
use dbbridge.Base.{
  ℕ, String, ◌==◌, Bool, true, false, not, ◌&&◌, ◌||◌, Option, none, some, List, [], ◌∷◌, Result,
  ok, err, ◌>>=◌, ◌>>◌, contains, if◌then◌else◌,
}
use dbbridge.Base.Int.{ℤ, pos, is_zero, ltb_ℤ}
use dbbridge.Authn.{TokenSpec}
use dbbridge.Config.{Config, DatabaseConfig, DefaultsConfig}

pub record InstanceConfig : Type 0 where
  pub id : String
  pub metastore : String
  pub redis_addr : String
  pub redis_password : String
  pub redis_db : ℤ
  pub default_storage : String
  pub heartbeat_ttl : ℤ
  pub gc_interval : ℤ
  pub otlp_endpoint : String

pub record TlsConfig : Type 0 where
  pub cert_file : String
  pub key_file : String
  pub allow_h2c : Bool

-- The rate is a `float64`, known by its bits.
pub record RateLimitConfig : Type 0 where
  pub requests_per_second : ℕ
  pub burst : ℤ

pub record ServerConfig : Type 0 where
  pub rest_addr : String
  pub grpc_addr : String
  pub max_request_bytes : ℤ
  pub request_timeout : ℤ
  pub read_header_timeout : ℤ
  pub idle_timeout : ℤ
  pub ws_allowed_origins : List String
  pub trusted_proxy_count : ℤ
  pub admin_addr : String
  pub tls : TlsConfig
  pub rate_limit : RateLimitConfig

pub record StorageS3Config : Type 0 where
  pub bucket : String
  pub region : String
  pub endpoint : String
  pub key_id : String
  pub secret : String

pub record StorageClickHouseConfig : Type 0 where
  pub dsn : String
  pub table : String

pub record StorageConfig : Type 0 where
  pub fs_root : String
  pub s3 : StorageS3Config
  pub clickhouse : StorageClickHouseConfig

-- All sections; `auth` is there or not.
pub record Settings : Type 0 where
  pub instance_ : InstanceConfig
  pub server : ServerConfig
  pub auth : Option (List TokenSpec)
  pub defaults : DefaultsConfig
  pub storage : StorageConfig
  pub databases : List DatabaseConfig

-- What the manager reads of them.
abbrev pub live : Settings → Config
live cfg = record {
  heartbeat_ttl = cfg.instance_.heartbeat_ttl;
  defaults = cfg.defaults;
  databases = cfg.databases;
}

abbrev pub ConfigError : Type 0
ConfigError = String

-- 58 years of 365 days
abbrev pub max_gc_interval : ℤ
max_gc_interval = pos 1_829_088_000_000_000_000

abbrev pub or_default : ℤ → ℤ → ℤ
or_default value default = if is_zero value then default else value

abbrev pub or_text : String → String → String
or_text value default = if value == "" then default else value

-- The `switch` over the default backend.
unfoldable pub check_storage : StorageConfig → String → Result ConfigError (Unit {0})
check_storage storage name =
    if name == "fs"
    then ok tt
    else if name == "s3"
    then (if storage.s3.bucket == ""
        then err "storage.s3.bucket must be set when default_storage is s3"
        else ok tt)
    else if name == "clickhouse"
    then (if storage.clickhouse.dsn == ""
        then err "storage.clickhouse.dsn must be set when default_storage is clickhouse"
        else ok tt)
    else err (str_append "unsupported instance.default_storage: " name)

-- `instance` with its defaults.
unfoldable pub validate_instance :
    StorageConfig → InstanceConfig → Result ConfigError InstanceConfig
unfolding check_storage
validate_instance storage i =
    if i.id == ""
    then err "instance.id must not be empty"
    else if not (i.metastore == "redis") && not (i.metastore == "memory")
    then err "instance.metastore must be 'redis' or 'memory'"
    else if (i.metastore == "redis") && (i.redis_addr == "")
    then err "instance.redis_addr must be specified when metastore is redis"
    else elim (check_storage storage (or_text i.default_storage "fs")) [
      | err e ↦ err e
      | ok u ↦
          if ltb_ℤ max_gc_interval (or_default i.gc_interval (pos 60_000_000_000))
          then err "instance.gc_interval must not exceed 58 years"
          else ok (record i {
            default_storage = or_text i.default_storage "fs";
            heartbeat_ttl = or_default i.heartbeat_ttl (pos 5_000_000_000);
            gc_interval = or_default i.gc_interval (pos 60_000_000_000);
          })
    ]

unfoldable pub server_defaults : ServerConfig → ServerConfig
server_defaults s = record s {
  rest_addr = or_text s.rest_addr ":8080";
  grpc_addr = or_text s.grpc_addr ":9090";
  max_request_bytes = or_default s.max_request_bytes (pos 1_048_576);
  request_timeout = or_default s.request_timeout (pos 60_000_000_000);
  read_header_timeout = or_default s.read_header_timeout (pos 10_000_000_000);
  idle_timeout = or_default s.idle_timeout (pos 120_000_000_000);
}

abbrev has_no_tokens : Option (List TokenSpec) → Bool
has_no_tokens none = false
has_no_tokens (some []) = true
has_no_tokens (some (t ∷ ts)) = false

abbrev is_half_pair : TlsConfig → Bool
is_half_pair tls = (if tls.cert_file == "" then not (tls.key_file == "") else tls.key_file == "")

abbrev pub engines : List String
engines = "postgres" ∷ "mysql" ∷ "clickhouse" ∷ "oracle" ∷ []

unfoldable pub is_engine : String → Bool
is_engine name = contains name engines

-- The body of the loop over the databases, with the ids seen before.
unfoldable pub check_database : List String → DatabaseConfig → Result ConfigError (Unit {0})
check_database seen db =
    if db.id == ""
    then err "database ID cannot be empty"
    else if contains db.id seen
    then err (str_append "duplicate database ID: " db.id)
    else if not (is_engine db.engine)
    then err (
        str_append "unsupported database engine: "
          (str_append db.engine (str_append " for db " db.id)))
    else if db.dsn == ""
    then err (str_append "dsn must be provided for database " db.id)
    else ok tt

unfoldable pub check_databases : List String → List DatabaseConfig → Result ConfigError (Unit {0})
check_databases seen [] = ok tt
check_databases seen (db ∷ dbs) = check_database seen db >> check_databases (db.id ∷ seen) dbs

-- The checks after the defaults of the server.
unfoldable pub check_rest : Settings → Result ConfigError (Unit {0})
unfolding check_databases
check_rest cfg =
    if has_no_tokens cfg.auth
    then err "auth is configured but auth.tokens is empty"
    else if is_half_pair cfg.server.tls
    then err "server.tls needs both cert_file and key_file"
    else check_databases [] cfg.databases

-- The settings with every default filled in.
abbrev pub validated : Settings → InstanceConfig → Settings
validated cfg i = record cfg {
  instance_ = i;
  server = server_defaults cfg.server;
  defaults = record cfg.defaults {
    result_ttl = or_default cfg.defaults.result_ttl (pos 86_400_000_000_000);
  };
}

-- `validate`
unfoldable pub validate : Settings → Result ConfigError Settings
unfolding validate_instance check_rest
validate cfg = validate_instance cfg.storage cfg.instance_ >>= λ i.
    check_rest cfg >>= λ u. ok (validated cfg i)
