-- ===== src/Manager/Reload.antt =====
-- `Reload` with `dbIDs`, over the reload of the configuration (`config.Manager.Reload`), and `getEngine`
-- and the loop of `closePoolWhenIdle`. A loaded file is the settings that were decoded, or an error.
pub mod Applied
use dbbridge.Base.{
  ℕ, zero, suc, String, ◌==◌, Bool, true, false, ◌&&◌, Option, none, some, List, [], ◌∷◌, Result,
  ok, err, ltb, if◌then◌else◌,
}
use dbbridge.Base.Assoc.{Assoc}
use dbbridge.Config.{Config, DatabaseConfig}
use dbbridge.Config.Diff.{DatabaseDiff, diff_databases}
use dbbridge.Config.Load.{Settings, ConfigError, live, validate}
use dbbridge.Config.NonReloadable.{DeepEqual, non_reloadable_changes}
use dbbridge.Manager.Defs.{Manager, ManagedPool}
use dbbridge.Manager.Admission.{active_for_db}
use dbbridge.Manager.Pools.{sync_pools}

-- `domain.ReloadReport`; `failures` are the databases whose pool could not be opened.
pub record ReloadReport : Type 0 where
  pub added : List String
  pub removed : List String
  pub updated : List String
  pub ignored : List String
  pub failures : List String

unfoldable pub db_ids : List DatabaseConfig → List String
db_ids [] = []
db_ids (db ∷ dbs) = db.id ∷ db_ids dbs

-- The settings in force, the manager that reads them, and the pools that are to be closed.
pub record Reloaded : Type 0 where
  pub settings : Settings
  pub manager : Manager
  pub retired : List (String × ℕ)

-- The pointer of `config.Manager` after a load; an error leaves it.
unfoldable pub load_config : Result ConfigError Settings → Result ConfigError Settings
load_config (err e) = err e
load_config (ok cfg) = validate cfg

-- The pools follow the new settings.
unfoldable pub apply_config :
    DeepEqual
    → (DatabaseConfig → Option ℕ)
    → Settings
    → Settings
    → Manager
    → ReloadReport × Reloaded
apply_config same open_pool old_cfg new_cfg m =
    let diff = diff_databases (some old_cfg.databases) (some new_cfg.databases) in
    let (m', retired, failures) = sync_pools open_pool (record m { cfg = live new_cfg }) in
    (
      record {
        added = db_ids diff.added;
        removed = db_ids diff.removed;
        updated = db_ids diff.updated;
        ignored = non_reloadable_changes same old_cfg new_cfg;
        failures = failures;
      },
      record { settings = new_cfg; manager = m'; retired = retired },
    )

-- The report, if the configuration could be loaded; it has failures where `Reload` also returns an error.
unfoldable pub reload :
    DeepEqual
    → (DatabaseConfig → Option ℕ)
    → Result ConfigError Settings
    → Settings
    → Manager
    → Result ConfigError ReloadReport × Reloaded
reload same open_pool file old_cfg m = elim (load_config file) [
  | err e ↦ (err e, record { settings = old_cfg; manager = m; retired = [] })
  | ok new_cfg ↦
      let (report, after) = apply_config same open_pool old_cfg new_cfg m in (ok report, after)
]

-- `getEngine`
unfoldable pub get_engine : String → List DatabaseConfig → String
get_engine db_id [] = "unknown"
get_engine db_id (db ∷ dbs) =
    let rest = get_engine db_id dbs in if db.id == db_id then db.engine else rest

-- The ticks of `closePoolWhenIdle`: the state of the manager at each tick before the deadline or the end
-- of the instance. The pool is closed at the first one with no query of the database, or after the last.
unfoldable pub idle_after : String → List Manager → ℕ
idle_after db_id [] = 0
idle_after db_id (m ∷ later) =
    let rest = idle_after db_id later in if ltb 0 (active_for_db db_id m) then suc rest else 0
