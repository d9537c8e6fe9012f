-- ===== src/Manager/Pools/Served.antt =====
-- The pool that each database is served from after a pass.
use dbbridge.Base.{
  ℕ, String, ◌==◌, ◌≡◌, refl, sym, subst, ◌⊎◌, ◌↔◌, true, false, Bool-cases, Option, none, some,
  List, [], ◌∷◌, arith, eq_iff, if◌then◌else◌, Option-cases, inl, inr,
}
use dbbridge.Base.Assoc.{lookup, insert, lookup-insert, lookup-erase}
use dbbridge.Config.{DatabaseConfig}
use dbbridge.Config.Diff.Reported.{int_beq_iff}
use dbbridge.Config.Databases.{configured, IsDistinctById}
use dbbridge.Manager.Defs.{Manager, ManagedPool}
use dbbridge.Manager.Pools.{
  Sync, same_pool_config, open_first, replace_pool, sync_database, sync_all, sync_pools,
}

-- What a pass makes of one entry.
abbrev wanted :
    (DatabaseConfig → Option ℕ)
    → DatabaseConfig
    → Option ManagedPool
    → Option ManagedPool
    → Option ManagedPool
wanted open_pool db none other = elim (open_pool db) [
  | none ↦ other
  | some p ↦ some (record { pool = p; cfg = db })
]
wanted open_pool db (some existing) other =
    if same_pool_config existing.cfg db then some existing else elim (open_pool db) [
      | none ↦ some existing
      | some p ↦ some (record { pool = p; cfg = db })
    ]

-- The same of a database that may not be configured.
abbrev target :
    (DatabaseConfig → Option ℕ)
    → Option DatabaseConfig
    → Option ManagedPool
    → Option ManagedPool
    → Option ManagedPool
target open_pool none existing other = other
target open_pool (some db) existing other = wanted open_pool db existing other

module _ (open_pool : DatabaseConfig → Option ℕ) where
  sync_database-next :
      (db : DatabaseConfig) (s : Sync) (id : String)
      → lookup id (sync_database open_pool db s).next ≡ (
          if db.id == id
          then wanted open_pool db (lookup id s.current) (lookup id s.next)
          else lookup id s.next)
  unfolding sync_database open_first replace_pool
  sync_database-next db s id =
      let put : (v : ManagedPool)
          → lookup id (insert db.id v s.next) ≡ (if db.id == id then some v else lookup id s.next) =
        λ v. lookup-insert db.id id v s.next in
      elim (Option-cases (open_pool db)) [
        | inl o ↦ elim (Option-cases (lookup db.id s.current)) [
          | inl e ↦ ground (arith, eq_iff db.id id)
          | inr (mp, e) ↦ ground (arith, eq_iff db.id id, put mp)
        ]
        | inr (p, o) ↦ elim (Option-cases (lookup db.id s.current)) [
          | inl e ↦ ground (arith, eq_iff db.id id, put (record { pool = p; cfg = db }))
          | inr (mp, e) ↦
              ground (arith, eq_iff db.id id, put mp, put (record { pool = p; cfg = db }))
        ]
      ]

  sync_database-current :
      (db : DatabaseConfig) (s : Sync) (id : String)
      → db.id == id ≡ false
      → lookup id (sync_database open_pool db s).current ≡ lookup id s.current
  unfolding sync_database open_first replace_pool
  sync_database-current db s id h = ground (arith, lookup-erase db.id id s.current)

  sync_all-next :
      (dbs : List DatabaseConfig) (s : Sync) (id : String)
      → IsDistinctById dbs
      → lookup id (sync_all open_pool dbs s).next
        ≡ target open_pool (configured id dbs) (lookup id s.current) (lookup id s.next)
  unfolding sync_all
  sync_all-next [] s id d = refl
  sync_all-next (db ∷ dbs) s id d =
      let s1 = sync_database open_pool db s in
      ground (
        arith,
        eq_iff db.id id,
        sync_database-next db s id,
        sync_database-current db s id,
        sync_all-next dbs s1 id d.1,
      )

-- The settings that a pool depends on are the same.
abbrev pub SameConnection : DatabaseConfig → DatabaseConfig → Type 0
SameConnection a b = (a.engine ≡ b.engine) × ((a.dsn ≡ b.dsn) × (a.max_conns ≡ b.max_conns))

same_pool_config_iff : (a b : DatabaseConfig) → (same_pool_config a b ≡ true) ↔ SameConnection a b
unfolding same_pool_config
same_pool_config_iff a b =
    ground
      (arith, eq_iff a.engine b.engine, eq_iff a.dsn b.dsn, int_beq_iff a.max_conns b.max_conns)

-- There is no pool for these settings.
abbrev pub IsUnserved : DatabaseConfig → Option ManagedPool → Type 0
IsUnserved db before =
    (before ≡ none) ⊎ ((mp : ManagedPool) × ((before ≡ some mp) × ¬ SameConnection mp.cfg db))

-- What a configured database is served from after a pass: its pool if that is for its settings, else
-- the one that was opened, and else what it had.
abbrev pub IsServed :
    (DatabaseConfig → Option ℕ) → DatabaseConfig → Option ManagedPool → Option ManagedPool → Type 0
IsServed open_pool db before after =
    ((mp : ManagedPool) × ((before ≡ some mp) × (SameConnection mp.cfg db × (after ≡ some mp))))
    ⊎ ((IsUnserved db before
          × ((p : ℕ) × ((open_pool db ≡ some p) × (after ≡ some (record { pool = p; cfg = db })))))
        ⊎ (IsUnserved db before × ((open_pool db ≡ none) × (after ≡ before))))

wanted-IsServed :
    (open_pool : DatabaseConfig → Option ℕ) (db : DatabaseConfig) (before : Option ManagedPool)
    → IsServed open_pool db before (wanted open_pool db before none)
wanted-IsServed open_pool db none = elim (Option-cases (open_pool db)) [
  | inl o ↦ inr (inr (inl refl, (o, rw (wanted, o) refl)))
  | inr (p, o) ↦ inr (inl (inl refl, (p, (o, rw (wanted, o) refl))))
]
wanted-IsServed open_pool db (some mp) = elim (Bool-cases (same_pool_config mp.cfg db)) [
  | inl t ↦ inl (mp, (refl, ((same_pool_config_iff mp.cfg db).0 t, rw (wanted, t) refl)))
  | inr t ↦
      let other : IsUnserved db (some mp) =
        inr (mp, (refl, λ same. let q = (same_pool_config_iff mp.cfg db).1 same in cc)) in
      elim (Option-cases (open_pool db)) [
        | inl o ↦ inr (inr (other, (o, rw (wanted, t, o) refl)))
        | inr (p, o) ↦ inr (inl (other, (p, (o, rw (wanted, t, o) refl))))
      ]
]

-- The pool of an id after a pass over these databases.
abbrev pub IsSynced :
    (DatabaseConfig → Option ℕ)
    → Option DatabaseConfig
    → Option ManagedPool
    → Option ManagedPool
    → Type 0
IsSynced open_pool found before after =
    ((found ≡ none) × (after ≡ none))
    ⊎ ((db : DatabaseConfig) × ((found ≡ some db) × IsServed open_pool db before after))

target-IsSynced :
    (open_pool : DatabaseConfig → Option ℕ) (found : Option DatabaseConfig)
    (before : Option ManagedPool)
    → IsSynced open_pool found before (target open_pool found before none)
target-IsSynced open_pool none before = inl (refl, refl)
target-IsSynced open_pool (some db) before = inr (db, (refl, wanted-IsServed open_pool db before))

-- After `syncPools` a database that is not configured has no pool. A configured one keeps its pool
-- while the engine, the DSN and the number of connections are the same; else it has the new pool,
-- and if that cannot be opened what it had before. No two configured databases have one id.
pub sync_pools-lookup :
    (open_pool : DatabaseConfig → Option ℕ) (m : Manager) (id : String)
    → IsDistinctById m.cfg.databases
    → IsSynced open_pool
        (configured id m.cfg.databases)
        (lookup id m.db_pools)
        (lookup id (sync_pools open_pool m).0.db_pools)
unfolding sync_pools lookup
sync_pools-lookup open_pool m id d =
    subst (IsSynced open_pool (configured id m.cfg.databases) (lookup id m.db_pools))
      (sym (sync_all-next open_pool m.cfg.databases _ id d))
      (target-IsSynced open_pool (configured id m.cfg.databases) (lookup id m.db_pools))
