-- ===== src/Challenge/Multiset/Counts.antt =====
-- What a counting map holds.
use ctfd_crossplane_provider.Prelude.{
  ℕ, suc, ◌+◌, ◌≤◌, ◌≡◌, refl, ap, ◌↔◌, true, List, [], ◌∷◌, arith, length, if◌then◌else◌, Eq, ◌==◌,
  ==_iff, count, contains, Distinct,
}
use ctfd_crossplane_provider.GoMap.{Map, keys, lookup_or, insert}
use ctfd_crossplane_provider.GoMap.Laws.{
  lookup-insert, contains-keys-insert, Distinct-keys-insert, lookup-none_iff,
}
use ctfd_crossplane_provider.Challenge.Multiset.{count_into, multiset}

module _ {ℓ} {K : Type ℓ} ⦃e : Eq K⦄ where
  pub lookup_or-insert :
      (k j : K) (n : ℕ) (m : Map K ℕ)
      → lookup_or 0 j (insert k n m) ≡ (if k == j then n else lookup_or 0 j m)
  lookup_or-insert k j n m = ground (arith, lookup-insert k j n m)

  -- A counting map: each key stands once, with a positive counter.
  pub record IsMultiset (m : Map K ℕ) : Type ℓ where
    pub distinct : Distinct (keys m)
    pub positive : (k : K) → contains k (keys m) ≡ true → 1 ≤ lookup_or 0 k m

  pub contains-keys_iff :
      (m : Map K ℕ) (k : K) → IsMultiset m → (contains k (keys m) ≡ true) ↔ (1 ≤ lookup_or 0 k m)
  contains-keys_iff m k h = (h.positive k, λ le. ground (arith, lookup-none_iff k m))

  count_into-IsMultiset : (m : Map K ℕ) (ks : List K) → IsMultiset m → IsMultiset (count_into m ks)
  unfolding count_into
  count_into-IsMultiset m [] h = h
  count_into-IsMultiset m (k ∷ ks) h =
      count_into-IsMultiset (insert k (lookup_or 0 k m + 1) m) ks (record {
        distinct = Distinct-keys-insert k (lookup_or 0 k m + 1) m h.distinct;
        positive = λ j c. ground (
          arith,
          lookup_or-insert k j (lookup_or 0 k m + 1) m,
          contains-keys-insert k j (lookup_or 0 k m + 1) m,
          h.positive j,
        );
      })

  pub lookup_or-count_into :
      (m : Map K ℕ) (ks : List K) (k : K)
      → lookup_or 0 k (count_into m ks) ≡ lookup_or 0 k m + count k ks
  unfolding count_into
  lookup_or-count_into m [] k = omega arith
  lookup_or-count_into m (j ∷ ks) k = ground (
    arith,
    lookup_or-count_into (insert j (lookup_or 0 j m + 1) m) ks k,
    lookup_or-insert j k (lookup_or 0 j m + 1) m,
    ==_iff j k,
    (λ (p : j ≡ k). ap (λ (t : K). lookup_or 0 t m) p),
  )

  pub multiset-IsMultiset : (ks : List K) → IsMultiset (multiset ks)
  unfolding multiset
  multiset-IsMultiset ks =
      count_into-IsMultiset [] ks (record { distinct = tt; positive = λ k h. cc })

  -- The counter of a key is the number of times it stands in the list.
  pub lookup_or-multiset : (ks : List K) (k : K) → lookup_or 0 k (multiset ks) ≡ count k ks
  unfolding multiset
  lookup_or-multiset ks k = omega (arith, lookup_or-count_into [] ks k)

  pub length-keys {κ} : {V : Type κ} (m : Map K V) → length (keys m) ≡ length m
  length-keys [] = refl
  length-keys ((k, v) ∷ m) = ap suc (length-keys m)
