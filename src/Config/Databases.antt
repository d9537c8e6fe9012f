-- ===== src/Config/Databases.antt =====
-- The databases of a configuration by their ids.
use dbbridge.Base.{String, ◌==◌, ◌≡◌, Option, none, some, List, [], ◌∷◌, if◌then◌else◌}
use dbbridge.Config.{DatabaseConfig}

-- The settings of a database.
abbrev pub configured : String → List DatabaseConfig → Option DatabaseConfig
configured id [] = none
configured id (db ∷ dbs) = if db.id == id then some db else configured id dbs

-- No two databases have one id.
abbrev pub IsDistinctById : List DatabaseConfig → Type 0
IsDistinctById [] = Unit
IsDistinctById (db ∷ dbs) = (configured db.id dbs ≡ none) × IsDistinctById dbs
