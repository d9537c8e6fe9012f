-- ===== src/Config/Diff.antt =====
-- internal/config/diff.go: what a reload changes. The Go maps of databases by id are read in
-- the order of the list.
pub mod Reported
use dbbridge.Base.{
  String, ◌==◌, ◌≡◌, Bool, true, false, not, ◌||◌, ◌&&◌, Option, none, some, List, [], ◌∷◌, ◌++◌,
  select, if◌then◌else◌, nat_beq,
}
use dbbridge.Base.Int.{ℤ, pos_part, neg_part}
use dbbridge.Base.Assoc.{Assoc, lookup, insert, values, has}
use dbbridge.Config.{Config, DatabaseConfig}

abbrev pub int_beq : ℤ → ℤ → Bool
int_beq a b = nat_beq (pos_part a) (pos_part b) && nat_beq (neg_part a) (neg_part b)

pub record DatabaseDiff : Type 0 where
  pub added : List DatabaseConfig
  pub removed : List DatabaseConfig
  pub updated : List DatabaseConfig

-- The loop that fills a map: a later entry with the same id wins.
unfoldable pub fill : List DatabaseConfig → Assoc DatabaseConfig → Assoc DatabaseConfig
fill [] m = m
fill (db ∷ dbs) m = fill dbs (insert db.id db m)

unfoldable pub by_id : List DatabaseConfig → Assoc DatabaseConfig
by_id dbs = fill dbs []

unfoldable pub is_changed : DatabaseConfig → DatabaseConfig → Bool
is_changed old db =
    not (old.engine == db.engine)
    || not (old.dsn == db.dsn)
    || not (int_beq old.max_conns db.max_conns)

abbrev pub is_added : Assoc DatabaseConfig → DatabaseConfig → Bool
is_added old_map db = not (has (lookup db.id old_map))

abbrev changed_from : Option DatabaseConfig → DatabaseConfig → Bool
changed_from none db = false
changed_from (some old) db = is_changed old db

abbrev pub is_updated : Assoc DatabaseConfig → DatabaseConfig → Bool
is_updated old_map db = changed_from (lookup db.id old_map) db

unfoldable pub diff_snapshots : List DatabaseConfig → List DatabaseConfig → DatabaseDiff
diff_snapshots old_dbs new_dbs =
    let old_map = by_id old_dbs in
    let new_map = by_id new_dbs in
    record {
      added = select (is_added old_map) (values new_map);
      removed = select (is_added new_map) (values old_map);
      updated = select (is_updated old_map) (values new_map);
    }

-- `DiffDatabases`, over the databases of each snapshot; `none` is a nil snapshot.
unfoldable pub diff_databases :
    Option (List DatabaseConfig) → Option (List DatabaseConfig) → DatabaseDiff
diff_databases none none = record { added = []; removed = []; updated = [] }
diff_databases none (some new_dbs) = record { added = new_dbs; removed = []; updated = [] }
diff_databases (some old_dbs) none = record { added = []; removed = old_dbs; updated = [] }
diff_databases (some old_dbs) (some new_dbs) = diff_snapshots old_dbs new_dbs
