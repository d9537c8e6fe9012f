-- ===== src/Config/Diff/Reported.antt =====
-- What a diff of two configurations reports.
use dbbridge.Base.{
  String, ◌==◌, ◌≡◌, ◌≢◌, ◌⊎◌, refl, sym, ◌∙◌, subst, ◌↔◌, Bool, true, Option, none, some, List, [],
  ◌∷◌, select, Any, arith, eq_iff, Bool-cases, inl, inr, Option-cases,
}
use dbbridge.Base.Int.{ℤ}
use dbbridge.Base.Assoc.{
  Assoc, lookup, insert, values, IsUnique, Entries, lookup-insert, insert-IsUnique, Entries-insert,
}
use dbbridge.Base.Assoc.Values.{Selected-iff}
use dbbridge.Config.{DatabaseConfig}
use dbbridge.Config.Databases.{configured, IsDistinctById}
use dbbridge.Config.Diff.{fill, by_id, is_added, is_updated, is_changed, int_beq, diff_snapshots}

-- Another engine, DSN or number of connections.
abbrev pub IsOther : DatabaseConfig → DatabaseConfig → Type 0
IsOther old db = (old.engine ≢ db.engine) ⊎ ((old.dsn ≢ db.dsn) ⊎ (old.max_conns ≢ db.max_conns))

pub int_beq_iff : (a b : ℤ) → (int_beq a b ≡ true) ↔ (a ≡ b)
int_beq_iff a b = ground arith

is_changed_iff : (old db : DatabaseConfig) → (is_changed old db ≡ true) ↔ IsOther old db
unfolding is_changed
is_changed_iff old db = ground (
  arith,
  eq_iff old.engine db.engine,
  eq_iff old.dsn db.dsn,
  int_beq_iff old.max_conns db.max_conns,
)

-- A database with this id is in the list.
abbrev pub Reports : String → List DatabaseConfig → Type 0
Reports id dbs = Any (λ (db : DatabaseConfig). db.id ≡ id) dbs

abbrev IsById : Assoc DatabaseConfig → Type 0
IsById m = IsUnique m × Entries (λ k (db : DatabaseConfig). db.id ≡ k) m

fill-IsById :
    (dbs : List DatabaseConfig) (m : Assoc DatabaseConfig) → IsById m → IsById (fill dbs m)
unfolding fill
fill-IsById [] m h = h
fill-IsById (db ∷ dbs) m h = fill-IsById dbs (insert db.id db m) (
  insert-IsUnique db.id db m h.0,
  Entries-insert (λ k (d : DatabaseConfig). d.id ≡ k) db.id db m refl h.1,
)

abbrev or_else : Option DatabaseConfig → Option DatabaseConfig → Option DatabaseConfig
or_else none other = other
or_else (some db) other = some db

lookup-fill :
    (dbs : List DatabaseConfig) (m : Assoc DatabaseConfig) (id : String)
    → IsDistinctById dbs
    → lookup id (fill dbs m) ≡ or_else (configured id dbs) (lookup id m)
unfolding fill
lookup-fill [] m id d = refl
lookup-fill (db ∷ dbs) m id d = ground (
  arith,
  eq_iff db.id id,
  lookup-insert db.id id db m,
  lookup-fill dbs (insert db.id db m) id d.1,
)

lookup-by_id :
    (dbs : List DatabaseConfig) (id : String)
    → IsDistinctById dbs
    → lookup id (by_id dbs) ≡ configured id dbs
unfolding by_id lookup
lookup-by_id dbs id d = ground (arith, lookup-fill dbs [] id d)

by_id-IsById : (dbs : List DatabaseConfig) → IsById (by_id dbs)
unfolding by_id
by_id-IsById dbs = fill-IsById dbs [] (tt, tt)

-- A selection from a snapshot reports the configured databases that pass its test.
reported_iff :
    (p : DatabaseConfig → Bool) (dbs : List DatabaseConfig) (id : String)
    → IsDistinctById dbs
    → Reports id (select p (values (by_id dbs)))
      ↔ ((db : DatabaseConfig) × (configured id dbs ≡ some db) × (p db ≡ true))
reported_iff p dbs id d =
    let selected =
      Selected-iff (λ (db : DatabaseConfig). db.id) p id (by_id dbs) (by_id-IsById dbs).0
        (by_id-IsById dbs).1 in
    let e = lookup-by_id dbs id d in
    (λ r. let (db, l, t) = selected.0 r in (db, sym e ∙ l, t), λ c. selected.1 (c.0, e ∙ c.1, c.2))

configured-id :
    (dbs : List DatabaseConfig) (id : String) (db : DatabaseConfig)
    → configured id dbs ≡ some db
    → db.id ≡ id
configured-id [] id db h = cc
configured-id (d ∷ dbs) id db h = elim (Bool-cases (d.id == id)) [
  | inl t ↦ ground (arith, eq_iff d.id id)
  | inr t ↦ configured-id dbs id db (rw t at h)
]

-- What the other snapshot has under the id of a database of this one.
lookup-other :
    (dbs other : List DatabaseConfig) (id : String) (db : DatabaseConfig)
    → IsDistinctById other
    → configured id dbs ≡ some db
    → lookup db.id (by_id other) ≡ configured id other
lookup-other dbs other id db d h =
    subst (λ i. lookup i (by_id other) ≡ configured id other) (sym (configured-id dbs id db h))
      (lookup-by_id other id d)

only_in_iff :
    (dbs other : List DatabaseConfig) (id : String)
    → IsDistinctById dbs
    → IsDistinctById other
    → Reports id (select (is_added (by_id other)) (values (by_id dbs)))
      ↔ ((db : DatabaseConfig) × (configured id dbs ≡ some db) × (configured id other ≡ none))
only_in_iff dbs other id d o =
    let reported = reported_iff (is_added (by_id other)) dbs id d in
    (
      λ r.
          let (db, c, t) = reported.0 r in
          (db, c, ground (arith, t, lookup-other dbs other id db o c)),
      λ (db, c, e). reported.1 (db, c, ground (arith, e, lookup-other dbs other id db o c)),
    )

changed_iff :
    (old_dbs new_dbs : List DatabaseConfig) (id : String)
    → IsDistinctById old_dbs
    → IsDistinctById new_dbs
    → Reports id (select (is_updated (by_id old_dbs)) (values (by_id new_dbs))) ↔ (
        (old db : DatabaseConfig) × (configured id old_dbs ≡ some old)
        × (configured id new_dbs ≡ some db)
        × IsOther old db)
changed_iff old_dbs new_dbs id o n =
    let reported = reported_iff (is_updated (by_id old_dbs)) new_dbs id n in
    (
      λ r. let (db, c, t) = reported.0 r in forward db c t (lookup-other new_dbs old_dbs id db o c),
      λ (old, db, e, c, t). reported.1 (
        db,
        c,
        ground (arith, e, (is_changed_iff old db).1 t, lookup-other new_dbs old_dbs id db o c),
      ),
    )
  where
    forward :
        (db : DatabaseConfig)
        → configured id new_dbs ≡ some db
        → is_updated (by_id old_dbs) db ≡ true
        → lookup db.id (by_id old_dbs) ≡ configured id old_dbs
        → (old db : DatabaseConfig) × (configured id old_dbs ≡ some old)
          × (configured id new_dbs ≡ some db)
          × IsOther old db
    forward db c t l = elim (Option-cases (configured id old_dbs)) [
      | inl e ↦ ground arith
      | inr (old, e) ↦ (old, db, e, c, (is_changed_iff old db).0 (ground arith))
    ]

-- Of two snapshots without repeated ids, a database is reported as added exactly when only the
-- new one has it, as removed exactly when only the old one has it, and as updated exactly when
-- both have it with another engine, DSN or number of connections.
pub diff_snapshots_iff :
    (old_dbs new_dbs : List DatabaseConfig) (id : String)
    → IsDistinctById old_dbs
    → IsDistinctById new_dbs
    → let diff = diff_snapshots old_dbs new_dbs in
      (Reports id diff.added ↔ (
        (db : DatabaseConfig) × (configured id new_dbs ≡ some db) × (configured id old_dbs ≡ none)))
      × (Reports id diff.removed ↔ (
          (db : DatabaseConfig) × (configured id old_dbs ≡ some db)
          × (configured id new_dbs ≡ none)))
      × (Reports id diff.updated ↔ (
          (old db : DatabaseConfig) × (configured id old_dbs ≡ some old)
          × (configured id new_dbs ≡ some db)
          × IsOther old db))
unfolding diff_snapshots
diff_snapshots_iff old_dbs new_dbs id o n = (
  only_in_iff new_dbs old_dbs id n o,
  only_in_iff old_dbs new_dbs id o n,
  changed_iff old_dbs new_dbs id o n,
)
