-- ===== src/Base/Assoc/Values.antt =====
-- What a selection from the values of a map holds, where each value knows its key.
use dbbridge.Base.{
  String, ◌==◌, ◌≡◌, ◌↔◌, ◌⊎◌, inl, inr, Bool, true, none, some, [], ◌∷◌, select, Any, arith,
  eq_iff, Bool-cases,
}
use dbbridge.Base.Assoc.{Assoc, lookup, values, IsUnique, Entries}

module _ {V : Type 0} (key : V → String) (p : V → Bool) (id : String) where
  abbrev pub Selected : Assoc V → Type 0
  Selected m = Any (λ v. key v ≡ id) (select p (values m))

  abbrev pub Chosen : Assoc V → Type 0
  Chosen m = (v : V) × (lookup id m ≡ some v) × (p v ≡ true)

  Chosen-later :
      (j : String) (v : V) (m : Assoc V) → lookup j m ≡ none → Chosen m → Chosen ((j, v) ∷ m)
  unfolding lookup
  Chosen-later j v m n (w, e, t) = (w, ground (arith, eq_iff j id), t)

  Selected-Chosen :
      (m : Assoc V) → IsUnique m → Entries (λ k v. key v ≡ k) m → Selected m → Chosen m
  unfolding lookup
  Selected-Chosen [] u k h = absurd h
  Selected-Chosen ((j, v) ∷ m) u k h = elim (Bool-cases (p v)) [
    | inr t ↦ Chosen-later j v m u.0 (Selected-Chosen m u.1 k.1 (rw t at h))
    | inl t ↦ elim (head_or_later (rw t at h)) [
      | inl e ↦ (v, ground (arith, eq_iff j id, k.0), t)
      | inr r ↦ Chosen-later j v m u.0 (Selected-Chosen m u.1 k.1 r)
    ]
  ]
    where
      head_or_later : Any (λ w. key w ≡ id) (v ∷ select p (values m)) → (key v ≡ id) ⊎ Selected m
      head_or_later x = x

  Chosen-Selected :
      (m : Assoc V) (v : V)
      → Entries (λ k w. key w ≡ k) m
      → lookup id m ≡ some v
      → p v ≡ true
      → Selected m
  unfolding lookup
  Chosen-Selected [] v k e t = cc
  Chosen-Selected ((j, w) ∷ m) v k e t = elim (Bool-cases (j == id)) [
    | inl h ↦ ground (arith, eq_iff j id)
    | inr h ↦ ground (arith, Chosen-Selected m v k.1 (rw h at e) t)
  ]

  pub Selected-iff :
      (m : Assoc V) → IsUnique m → Entries (λ k v. key v ≡ k) m → Selected m ↔ Chosen m
  Selected-iff m u k = (Selected-Chosen m u k, λ c. Chosen-Selected m c.0 k c.1 c.2)
