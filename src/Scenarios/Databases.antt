-- ===== src/Scenarios/Databases.antt =====
-- Scenarios for the databases: a reload and its pools.
use dbbridge.Base.{◌≡◌, refl, ◌↔◌, none, some, List, [], ◌∷◌}
use dbbridge.Base.Assoc.{lookup}
use dbbridge.Config.{DatabaseConfig}
use dbbridge.Config.Databases.{configured}
use dbbridge.Config.Diff.{diff_snapshots}
use dbbridge.Config.Diff.Reported.{IsOther, Reports, diff_snapshots_iff}
use dbbridge.Manager.Defs.{Manager}
use dbbridge.Manager.Pools.{sync_pools}
use dbbridge.Manager.Pools.Served.{IsSynced, sync_pools-lookup}
use dbbridge.Scenarios.Fixtures.{pg, manager, config}

abbrev ch : DatabaseConfig
ch = record pg { id = "ch"; engine = "clickhouse" }

abbrev moved : DatabaseConfig
moved = record pg { dsn = "dsn2" }

abbrev old_dbs : List DatabaseConfig
old_dbs = pg ∷ []

abbrev new_dbs : List DatabaseConfig
new_dbs = moved ∷ ch ∷ []

diff_snapshots_iff_example :
    let diff = diff_snapshots old_dbs new_dbs in
    (Reports "ch" diff.added ↔ (
      (db : DatabaseConfig) × (configured "ch" new_dbs ≡ some db)
      × (configured "ch" old_dbs ≡ none)))
    × (Reports "ch" diff.removed ↔ (
        (db : DatabaseConfig) × (configured "ch" old_dbs ≡ some db)
        × (configured "ch" new_dbs ≡ none)))
    × (Reports "ch" diff.updated ↔ (
        (old db : DatabaseConfig) × (configured "ch" old_dbs ≡ some old)
        × (configured "ch" new_dbs ≡ some db)
        × IsOther old db))
diff_snapshots_iff_example = diff_snapshots_iff old_dbs new_dbs "ch" (refl, tt) (refl, (refl, tt))

-- The new settings, with a database whose new pool cannot be opened.
abbrev reloaded : Manager
reloaded = record manager { cfg = record config { databases = new_dbs } }

sync_pools-lookup_example :
    IsSynced
      (λ db. none)
      (configured "pg" new_dbs)
      (lookup "pg" reloaded.db_pools)
      (lookup "pg" (sync_pools (λ db. none) reloaded).0.db_pools)
sync_pools-lookup_example = sync_pools-lookup (λ db. none) reloaded "pg" (refl, (refl, tt))
