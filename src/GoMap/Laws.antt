-- ===== src/GoMap/Laws.antt =====
-- The laws of map writes: what is read back, and that a key stands once.
use mathlib.Core.List.{Perm, Permᴰ}
use mathlib.Core.List.Permᴰ.{nil, cons, swap, trans}
use mathlib.Core.Logic.{∥∥₁_elim}
use native.Mathlib.Nat.{ℕ_set}
use ctfd_crossplane_provider.Prelude.{
  ℕ, ◌+◌, ◌≡◌, refl, ap, ◌∙◌, ◌↔◌, false, none, some, List, [], ◌∷◌, arith, if◌then◌else◌, Eq, ◌==◌,
  ==_iff, contains, Distinct, ◌||◌,
}
use ctfd_crossplane_provider.GoMap.{Map, keys, lookup, insert, lookup_or, total}

module _ {ℓ κ} {K : Type ℓ} {V : Type κ} ⦃e : Eq K⦄ where
  pub lookup-insert :
      (k j : K) (v : V) (m : Map K V)
      → lookup j (insert k v m) ≡ (if k == j then some v else lookup j m)
  lookup-insert k j v [] = refl
  lookup-insert k j v ((i, w) ∷ m) =
      ground (arith, ==_iff k j, ==_iff i k, ==_iff i j, lookup-insert k j v m)

  pub contains-keys-insert :
      (k j : K) (v : V) (m : Map K V)
      → contains j (keys (insert k v m)) ≡ (k == j || contains j (keys m))
  contains-keys-insert k j v [] = refl
  contains-keys-insert k j v ((i, w) ∷ m) =
      ground (arith, ==_iff k j, ==_iff i k, ==_iff i j, contains-keys-insert k j v m)

  pub Distinct-keys-insert :
      (k : K) (v : V) (m : Map K V) → Distinct (keys m) → Distinct (keys (insert k v m))
  Distinct-keys-insert k v [] d = (refl, tt)
  Distinct-keys-insert k v ((i, w) ∷ m) d =
      ground
        (arith, ==_iff i k, ==_iff k i, contains-keys-insert k i v m, Distinct-keys-insert k v m)

  -- A key is present exactly when it has a value.
  pub lookup-none_iff : (k : K) (m : Map K V) → (lookup k m ≡ none) ↔ (contains k (keys m) ≡ false)
  lookup-none_iff k [] = (λ _. refl, λ _. refl)
  lookup-none_iff k ((i, w) ∷ m) = ground (arith, lookup-none_iff k m)

  -- A write replaces one entry's share of a sum.
  pub total-insert :
      (f : K × V → ℕ) (zero_value : V) (k : K) (v : V) (m : Map K V)
      → f (k, zero_value) ≡ 0
      → total f (insert k v m) + f (k, lookup_or zero_value k m) ≡ total f m + f (k, v)
  total-insert f z k v [] h = omega arith
  total-insert f z k v ((i, w) ∷ m) h = ground (
    arith,
    ==_iff i k,
    total-insert f z k v m h,
    (λ (p : i ≡ k). ap (λ (t : K). f (t, v)) p),
    (λ (p : i ≡ k). ap (λ (t : K). f (t, w)) p),
  )

module _ {ℓ} {E : Type ℓ} (f : E → ℕ) where
  total-permᴰ : {xs ys : List E} → Permᴰ xs ys → total f xs ≡ total f ys
  total-permᴰ nil = refl
  total-permᴰ (cons e p) = omega (arith, ap f e, total-permᴰ p)
  total-permᴰ (swap d e) = omega (arith, ap f d, ap f e)
  total-permᴰ (trans p q) = total-permᴰ p ∙ total-permᴰ q

  -- The order of the entries does not change a sum.
  pub total-perm : {xs ys : List E} → Perm xs ys → total f xs ≡ total f ys
  total-perm p = ∥∥₁_elim p (ℕ_set _ _) total-permᴰ
