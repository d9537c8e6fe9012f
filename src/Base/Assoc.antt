-- ===== src/Base/Assoc.antt =====
-- A Go `map[string]V` as an association list. Iteration takes the keys in the list's order; no
-- theorem depends on that order.
pub mod Values
use dbbridge.Base.Tests.{if◌then◌else◌, Bool-cases, eq_of_test, some_inj}
use mathlib.Core.Logic.{inl, inr}
use Prim.Native.Nat.{suc}
use dbbridge.Base.Lists.{length}
use Prim.Native.String.{String}
use mathlib.Core.Path.{◌≡◌, refl, subst₂}
use mathlib.Core.Bool.{Bool, true, false}
use mathlib.Core.Option.{Option, none, some}
use mathlib.Core.List.{List, [], ◌∷◌}
use native.Mathlib.Omega.{arith}
use text.Mathlib.Text.{◌==◌}
use text.Mathlib.TextEquality.{eq_iff}

abbrev pub Assoc {ℓ} : Type ℓ → Type ℓ
Assoc V = List (String × V)

module _ {ℓ} {V : Type ℓ} where
  unfoldable pub lookup : String → Assoc V → Option V
  lookup key [] = none
  lookup key ((name, val) ∷ rest) = if name == key then some val else lookup key rest

  -- `m[key] = val`.
  unfoldable pub insert : String → V → Assoc V → Assoc V
  insert key val [] = (key, val) ∷ []
  insert key val ((name, old) ∷ rest) =
      if name == key then (key, val) ∷ rest else (name, old) ∷ insert key val rest

  -- `delete(m, key)`.
  unfoldable pub erase : String → Assoc V → Assoc V
  erase key [] = []
  erase key ((name, old) ∷ rest) =
      let others = erase key rest in if name == key then others else (name, old) ∷ others

  abbrev pub values : Assoc V → List V
  values [] = []
  values ((name, val) ∷ rest) = val ∷ values rest

  abbrev pub keys : Assoc V → List String
  keys [] = []
  keys ((name, val) ∷ rest) = name ∷ keys rest

  abbrev pub has : Option V → Bool
  has none = false
  has (some val) = true

  pub lookup-insert :
      (key at : String) (val : V) (m : Assoc V)
      → lookup at (insert key val m) ≡ (if key == at then some val else lookup at m)
  unfolding lookup insert
  lookup-insert key at val [] = refl
  lookup-insert key at val ((name, old) ∷ rest) =
      ground (arith, eq_iff key at, eq_iff name at, eq_iff name key, lookup-insert key at val rest)

  pub lookup-erase :
      (key at : String) (m : Assoc V)
      → lookup at (erase key m) ≡ (if key == at then none else lookup at m)
  unfolding lookup erase
  lookup-erase key at [] = ground arith
  lookup-erase key at ((name, old) ∷ rest) =
      ground (arith, lookup-erase key at rest, eq_iff key at, eq_iff name at, eq_iff name key)

  -- Removing a key just added restores the map, where the key was absent.
  pub erase-insert :
      (k : String) (v : V) (m : Assoc V) → lookup k m ≡ none → erase k (insert k v m) ≡ m
  unfolding lookup erase insert
  erase-insert k v [] h = ground (arith, eq_iff k k)
  erase-insert k v ((j, w) ∷ m) h = ground (arith, eq_iff j k, eq_iff k k, erase-insert k v m)

  -- Each key stands once.
  abbrev pub IsUnique : Assoc V → Type ℓ
  IsUnique [] = Unit
  IsUnique ((j, v) ∷ m) = (lookup j m ≡ none) × IsUnique m

  pub insert-IsUnique : (k : String) (v : V) (m : Assoc V) → IsUnique m → IsUnique (insert k v m)
  unfolding lookup insert
  insert-IsUnique k v [] u = (refl, tt)
  insert-IsUnique k v ((j, w) ∷ m) u =
      ground (arith, eq_iff j k, eq_iff k j, lookup-insert k j v m, insert-IsUnique k v m u.1)

  pub erase-IsUnique : (k : String) (m : Assoc V) → IsUnique m → IsUnique (erase k m)
  unfolding lookup erase
  erase-IsUnique k [] u = tt
  erase-IsUnique k ((j, w) ∷ m) u =
      ground (arith, eq_iff j k, eq_iff k j, lookup-erase k j m, erase-IsUnique k m u.1)

module _ {V : Type 0} where
  pub length-insert_new :
      (k : String) (v : V) (m : Assoc V)
      → lookup k m ≡ none
      → length (insert k v m) ≡ suc (length m)
  unfolding lookup insert
  length-insert_new k v [] h = refl
  length-insert_new k v ((j, w) ∷ m) h = ground (arith, length-insert_new k v m)

  pub erase_absent : (k : String) (m : Assoc V) → lookup k m ≡ none → erase k m ≡ m
  unfolding lookup erase
  erase_absent k [] h = refl
  erase_absent k ((j, w) ∷ m) h = ground (arith, erase_absent k m)

  pub length-erase :
      (k : String) (v : V) (m : Assoc V)
      → IsUnique m
      → lookup k m ≡ some v
      → suc (length (erase k m)) ≡ length m
  unfolding lookup erase
  length-erase k v [] u h = cc
  length-erase k v ((j, w) ∷ m) u h = elim (Bool-cases (j == k)) [
    | inl t ↦ ground (arith, eq_iff j k, erase_absent k m)
    | inr t ↦ ground (arith, length-erase k v m u.1)
  ]

module _ {V : Type 0} (P : String → V → Type 0) where
  -- A fact about every entry.
  abbrev pub Entries : Assoc V → Type 0
  Entries [] = Unit
  Entries ((j, v) ∷ m) = P j v × Entries m

  pub Entries-insert :
      (k : String) (v : V) (m : Assoc V) → P k v → Entries m → Entries (insert k v m)
  unfolding insert
  Entries-insert k v [] p h = (p, tt)
  Entries-insert k v ((j, w) ∷ m) p h = ground (arith, Entries-insert k v m p h.1)

  pub Entries-erase : (k : String) (m : Assoc V) → Entries m → Entries (erase k m)
  unfolding erase
  Entries-erase k [] h = tt
  Entries-erase k ((j, w) ∷ m) h = ground (arith, Entries-erase k m h.1)

  pub Entries-lookup : (k : String) (v : V) (m : Assoc V) → Entries m → lookup k m ≡ some v → P k v
  unfolding lookup
  Entries-lookup k v [] h e = cc
  Entries-lookup k v ((j, w) ∷ m) h e = elim (Bool-cases (j == k)) [
    | inl t ↦ subst₂ P (eq_of_test j k t) (some_inj (rw t at e)) h.0
    | inr t ↦ Entries-lookup k v m h.1 (rw t at e)
  ]
