-- ===== src/Manager/Pools.antt =====
-- The pools of connections: `samePoolConfig`, `syncPools` and `lookupPool`. `db.OpenPool` is a
-- parameter: the number of the new pool, or nothing. The pools that a pass retires are listed with
-- their database; each is closed by a goroutine of its own.
pub mod Served
use dbbridge.Base.{
  ℕ, String, ◌==◌, Bool, ◌&&◌, Option, none, some, List, [], ◌∷◌, ◌++◌, if◌then◌else◌,
}
use dbbridge.Base.Assoc.{Assoc, lookup, insert, erase}
use dbbridge.Config.{DatabaseConfig}
use dbbridge.Config.Diff.{int_beq}
use dbbridge.Manager.Defs.{Manager, ManagedPool}

unfoldable pub same_pool_config : DatabaseConfig → DatabaseConfig → Bool
same_pool_config a b = (a.engine == b.engine) && (a.dsn == b.dsn) && int_beq a.max_conns b.max_conns

-- The variables of `syncPools`; `errs` are the databases whose pool could not be opened.
pub record Sync : Type 0 where
  pub current : Assoc ManagedPool
  pub next : Assoc ManagedPool
  pub stale : List (String × ℕ)
  pub errs : List String

-- A database that had no pool.
unfoldable pub open_first : (DatabaseConfig → Option ℕ) → DatabaseConfig → Sync → Sync
open_first open_pool db s = elim (open_pool db) [
  | none ↦ record s { errs = s.errs ++ db.id ∷ [] }
  | some p ↦ record s { next = insert db.id (record { pool = p; cfg = db }) s.next }
]

-- A database whose settings have changed.
unfoldable pub replace_pool :
    (DatabaseConfig → Option ℕ) → DatabaseConfig → ManagedPool → Sync → Sync
replace_pool open_pool db existing s = elim (open_pool db) [
  | none ↦ record s { next = insert db.id existing s.next; errs = s.errs ++ db.id ∷ [] }
  | some p ↦ record s {
    next = insert db.id (record { pool = p; cfg = db }) s.next;
    stale = s.stale ++ (db.id, existing.pool) ∷ [];
  }
]

-- The body of the loop over the configured databases.
unfoldable pub sync_database : (DatabaseConfig → Option ℕ) → DatabaseConfig → Sync → Sync
sync_database open_pool db s = elim (lookup db.id s.current) [
  | none ↦ open_first open_pool db s
  | some existing ↦
      let s' = record s { current = erase db.id s.current } in
      if same_pool_config existing.cfg db
      then record s' { next = insert db.id existing s.next }
      else replace_pool open_pool db existing s'
]

unfoldable pub sync_all : (DatabaseConfig → Option ℕ) → List DatabaseConfig → Sync → Sync
sync_all open_pool [] s = s
sync_all open_pool (db ∷ dbs) s = sync_all open_pool dbs (sync_database open_pool db s)

-- The pools left over.
unfoldable pub left_over : Assoc ManagedPool → List (String × ℕ)
left_over [] = []
left_over ((id, mp) ∷ rest) = (id, mp.pool) ∷ left_over rest

-- The manager, the pools to close, and the databases that failed.
unfoldable pub sync_pools :
    (DatabaseConfig → Option ℕ) → Manager → Manager × List (String × ℕ) × List String
sync_pools open_pool m =
    let s =
      sync_all open_pool m.cfg.databases
        (record { current = m.db_pools; next = []; stale = []; errs = [] }) in
    (record m { db_pools = s.next }, s.stale ++ left_over s.current, s.errs)

pub lookup_pool : String → Manager → Option ℕ
lookup_pool db_id m = elim (lookup db_id m.db_pools) [ none ↦ none | some mp ↦ some mp.pool ]
