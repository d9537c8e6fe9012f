-- ===== src/Config.antt =====
-- internal/config: the settings that the modelled parts read. The sections that a reload does
-- not apply are not modelled.
pub mod Diff
pub mod Databases
pub mod Load
pub mod NonReloadable
use dbbridge.Base.{String, Bool, List}
use dbbridge.Base.Int.{ℤ}

pub record DatabaseConfig : Type 0 where
  pub id : String
  pub engine : String
  pub dsn : String
  pub max_conns : ℤ
  pub display_name : String

-- `defaults`
pub record DefaultsConfig : Type 0 where
  pub result_ttl : ℤ
  pub query_timeout : ℤ
  pub max_concurrent_queries : ℤ
  pub allow_writes : Bool

-- `instance.heartbeat_ttl`, `defaults` and `databases`: what the manager reads of the live
-- configuration.
pub record Config : Type 0 where
  pub heartbeat_ttl : ℤ
  pub defaults : DefaultsConfig
  pub databases : List DatabaseConfig
