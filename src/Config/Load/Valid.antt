-- ===== src/Config/Load/Valid.antt =====
-- What validation lets through.
use dbbridge.Base.{
  ◌<◌, ◌*◌, String, ◌≡◌, ◌≢◌, ◌↔◌, refl, subst, ◌⊎◌, inl, inr, true, false, none, some, List, [],
  ◌∷◌, ok, contains, contains_iff, Member, All, arith, eq_iff, Result-cases,
}
use dbbridge.Base.Int.{is_zero, pos_part}
use dbbridge.Config.{DatabaseConfig}
use dbbridge.Config.Databases.{IsDistinctById, configured}
use dbbridge.Config.Load.{
  Settings, validated, InstanceConfig, StorageConfig, validate, validate_instance, check_storage,
  check_database, is_engine, check_databases, check_rest, or_text, engines,
}

-- A database that can be served.
pub record IsUsable (db : DatabaseConfig) : Type 0 where
  pub named : db.id ≢ ""
  pub engine_known : Member db.engine engines
  pub has_dsn : db.dsn ≢ ""

check_database_iff :
    (seen : List String) (db : DatabaseConfig)
    → (check_database seen db ≡ ok tt) ↔ (IsUsable db × (contains db.id seen ≡ false))
unfolding check_database is_engine
check_database_iff seen db =
    ground (arith, eq_iff db.id "", eq_iff db.dsn "", contains_iff db.engine engines)

check_databases-cons :
    (seen : List String) (db : DatabaseConfig) (dbs : List DatabaseConfig)
    → check_databases seen (db ∷ dbs) ≡ ok tt
    → (check_database seen db ≡ ok tt) × (check_databases (db.id ∷ seen) dbs ≡ ok tt)
unfolding check_databases
check_databases-cons seen db dbs h = elim (Result-cases (check_database seen db)) [
  | inr (e, c) ↦ ground (arith, h, c)
  | inl (u, c) ↦ ground (arith, h, c)
]

-- None of the databases has an id that was seen before.
check_databases-fresh :
    (id : String) (seen : List String) (dbs : List DatabaseConfig)
    → contains id seen ≡ true
    → check_databases seen dbs ≡ ok tt
    → configured id dbs ≡ none
check_databases-fresh id seen [] c h = refl
check_databases-fresh id seen (db ∷ dbs) c h =
    let (one, more) = check_databases-cons seen db dbs h in
    ground (
      arith,
      c,
      eq_iff db.id id,
      (check_database_iff seen db).0 one,
      check_databases-fresh id (db.id ∷ seen) dbs (ground (arith, c)) more,
    )

check_databases-IsDistinctById :
    (seen : List String) (dbs : List DatabaseConfig)
    → check_databases seen dbs ≡ ok tt
    → All IsUsable dbs × IsDistinctById dbs
check_databases-IsDistinctById seen [] h = (tt, tt)
check_databases-IsDistinctById seen (db ∷ dbs) h =
    let (one, more) = check_databases-cons seen db dbs h in
    let (usable, distinct) = check_databases-IsDistinctById (db.id ∷ seen) dbs more in
    (
      (((check_database_iff seen db).0 one).0, usable),
      (
        check_databases-fresh db.id (db.id ∷ seen) dbs (ground (arith, eq_iff db.id db.id)) more,
        distinct,
      ),
    )

-- The instance has a name and a store, and its periods are set; five times the period of garbage
-- collection fits 64 bits.
pub record IsConfigured (i : InstanceConfig) : Type 0 where
  pub named : i.id ≢ ""
  pub store_known : (i.metastore ≡ "redis") ⊎ (i.metastore ≡ "memory")
  pub heartbeat_set : is_zero i.heartbeat_ttl ≡ false
  pub gc_set : is_zero i.gc_interval ≡ false
  pub gc_fits : pos_part i.gc_interval * 5 < 9223372036854775808

validate_instance-IsConfigured :
    (storage : StorageConfig) (i i' : InstanceConfig)
    → validate_instance storage i ≡ ok i'
    → IsConfigured i' × (i'.id ≡ i.id)
unfolding validate_instance
validate_instance-IsConfigured storage i i' h =
    elim (Result-cases (check_storage storage (or_text i.default_storage "fs"))) [
      | inr (e, c) ↦ ground (arith, h, c)
      | inl (u, c) ↦
          ground
            (arith, h, c, eq_iff i.id "", eq_iff i.metastore "redis", eq_iff i.metastore "memory")
    ]

-- Settings that validation accepted: the instance is set up, authentication that is on has tokens, and
-- the databases can be served and have different ids.
pub record IsSound (cfg : Settings) : Type 0 where
  pub instance_set : IsConfigured cfg.instance_
  pub tokens_given : cfg.auth ≢ some []
  pub usable : All IsUsable cfg.databases
  pub distinct : IsDistinctById cfg.databases

check_rest-ok :
    (cfg : Settings)
    → check_rest cfg ≡ ok tt
    → (cfg.auth ≢ some []) × (check_databases [] cfg.databases ≡ ok tt)
unfolding check_rest
check_rest-ok cfg h = (λ e. ground (arith, h, e), ground (arith, h))

-- Whatever the file said, settings that validation accepts are sound, and they have the instance id and
-- the databases of the file.
pub validate-IsSound :
    (cfg cfg' : Settings)
    → validate cfg ≡ ok cfg'
    → IsSound cfg' × ((cfg'.instance_.id ≡ cfg.instance_.id) × (cfg'.databases ≡ cfg.databases))
unfolding validate
validate-IsSound cfg cfg' h = elim (Result-cases (validate_instance cfg.storage cfg.instance_)) [
  | inr (e, c) ↦ ground (arith, h, c)
  | inl (i, c) ↦ elim (Result-cases (check_rest cfg)) [
    | inr (e, d) ↦ ground (arith, h, c, d)
    | inl (u, d) ↦
        let (set, named) = validate_instance-IsConfigured cfg.storage cfg.instance_ i c in
        let (given, checked) = check_rest-ok cfg d in
        let (usable, distinct) = check_databases-IsDistinctById [] cfg.databases checked in
        let same : validated cfg i ≡ cfg' = ground (arith, h, c, d) in
        subst
          (λ x. IsSound x × ((x.instance_.id ≡ cfg.instance_.id) × (x.databases ≡ cfg.databases)))
          same
          (
            record {
              instance_set = set;
              tokens_given = given;
              usable = usable;
              distinct = distinct;
            },
            (named, refl),
          )
  ]
]
