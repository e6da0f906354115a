-- ===== src/GoMap.antt =====
-- Go's maps as association lists in which a key stands once. The order in which `range` walks a
-- map is not specified by Go: where the program's effects could show it, the walk is a parameter.
pub mod Laws
use ctfd_crossplane_provider.Prelude.{
  ℕ, Option, none, some, List, [], ◌∷◌, map, if◌then◌else◌, Eq, ◌==◌, ◌+◌,
}

abbrev pub Map {ℓ κ} : Type ℓ → Type κ → Type (ℓ ⊔ κ)
Map K V = List (K × V)

abbrev pub keys {ℓ κ} : {K : Type ℓ} {V : Type κ} → Map K V → List K
keys [] = []
keys ((k, v) ∷ m) = k ∷ keys m

module _ {ℓ κ} {K : Type ℓ} {V : Type κ} ⦃e : Eq K⦄ where
  -- v, ok := m[k]
  abbrev pub lookup : K → Map K V → Option V
  lookup k [] = none
  lookup k ((j, v) ∷ m) = if j == k then some v else lookup k m

  -- m[k] = v
  abbrev pub insert : K → V → Map K V → Map K V
  insert k v [] = (k, v) ∷ []
  insert k v ((j, w) ∷ m) = if j == k then (j, v) ∷ m else (j, w) ∷ insert k v m

  -- m[k], with the zero value of the type for a key that is missing
  abbrev pub lookup_or : V → K → Map K V → V
  lookup_or zero_value k m = elim (lookup k m) [ none ↦ zero_value | some v ↦ v ]

-- The sum of a number over the entries.
abbrev pub total {ℓ} : {E : Type ℓ} → (E → ℕ) → List E → ℕ
total f [] = 0
total f (x ∷ xs) = f x + total f xs
