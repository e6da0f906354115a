-- ===== src/Challenge/Multiset/Same.antt =====
-- What the comparisons of multisets decide.
use ctfd_crossplane_provider.Prelude.{
  ℕ, zero, suc, ◌≤◌, ℤ, ◌≡◌, refl, ap, ◌↔◌, true, List, [], ◌∷◌, arith, length, Eq, ==_iff, ==_refl,
  count, contains, Distinct, Bool-cases, length-le_of_subset, subset_of_length-le, count-eq_of_le,
  length-eq_of_count, sym, inl, inr, eqb_ℕ_iff, nat_eq, int_eq,
}
use ctfd_crossplane_provider.GoMap.{Map, keys, lookup_or, insert}
use ctfd_crossplane_provider.Challenge.Multiset.{
  count_into, multiset, same_entries, same_multiset, count_down, same_int_set,
}
use ctfd_crossplane_provider.Challenge.Multiset.Counts.{
  IsMultiset, contains-keys_iff, lookup_or-insert, lookup_or-count_into, multiset-IsMultiset,
  lookup_or-multiset, length-keys,
}

module _ {ℓ} {K : Type ℓ} ⦃e : Eq K⦄ where
  -- The loop compares the counters of the keys of the first map.
  same_entries_iff :
      (a b : Map K ℕ)
      → Distinct (keys a)
      → (same_entries a b ≡ true)
        ↔ ((k : K) → contains k (keys a) ≡ true → lookup_or 0 k b ≡ lookup_or 0 k a)
  unfolding same_entries
  same_entries_iff [] b d = (λ _ k h. cc, λ _. refl)
  same_entries_iff ((j, n) ∷ a) b d = (
    λ h k c. ground (
      arith,
      λ (t : same_entries a b ≡ true). (same_entries_iff a b d.1).0 t k,
      ==_iff j k,
      (λ (p : j ≡ k). ap (λ (t : K). lookup_or 0 t b) p),
    ),
    λ all.
        let rest : same_entries a b ≡ true = (same_entries_iff a b d.1).1 (λ k c.
          ground
            (arith, all k, ==_iff j k, (λ (p : j ≡ k). ap (λ (t : K). contains t (keys a)) p))) in
        ground (arith, all j, ==_refl j),
  )

  -- Two counting maps are the same exactly when all counters are.
  same_multiset_maps :
      (a b : Map K ℕ)
      → IsMultiset a
      → IsMultiset b
      → (same_multiset a b ≡ true) ↔ ((k : K) → lookup_or 0 k a ≡ lookup_or 0 k b)
  unfolding same_multiset
  same_multiset_maps a b ha hb = (
    λ h k.
        let size : length a ≡ length b = ground (arith, eqb_ℕ_iff (length a) (length b)) in
        let entries : same_entries a b ≡ true = ground arith in
        let agree = (same_entries_iff a b ha.distinct).0 entries in
        let covered =
          subset_of_length-le (keys a) (keys b) ha.distinct
            (λ j c.
              (contains-keys_iff b j hb).1
                (omega (arith, agree j c, (contains-keys_iff a j ha).0 c)))
            (omega (arith, size, length-keys a, length-keys b)) k in
        elim (Bool-cases (contains k (keys a))) [
          | inl c ↦ omega (arith, agree k c)
          | inr no_key ↦ ground (arith, covered, contains-keys_iff a k ha, contains-keys_iff b k hb)
        ],
    λ all.
        let size : length a ≡ length b = omega (
          arith,
          length-keys a,
          length-keys b,
          length-le_of_subset (keys a) (keys b) ha.distinct (λ j c.
              (contains-keys_iff b j hb).1 (omega (arith, all j, (contains-keys_iff a j ha).0 c))),
          length-le_of_subset (keys b) (keys a) hb.distinct (λ j c.
              (contains-keys_iff a j ha).1 (omega (arith, all j, (contains-keys_iff b j hb).0 c))),
        ) in
        let entries = (same_entries_iff a b ha.distinct).1 (λ k c. omega (arith, all k)) in
        ground (arith, eqb_ℕ_iff (length a) (length b)),
  )

  -- `sameMultiset` of the multisets of two lists says whether every value stands as often in both:
  -- their order plays no part.
  pub same_multiset_iff :
      (xs ys : List K)
      → (same_multiset (multiset xs) (multiset ys) ≡ true) ↔ ((k : K) → count k xs ≡ count k ys)
  same_multiset_iff xs ys =
      let maps =
        same_multiset_maps (multiset xs) (multiset ys) (multiset-IsMultiset xs)
          (multiset-IsMultiset ys) in
      (
        λ h k. omega (arith, maps.0 h k, lookup_or-multiset xs k, lookup_or-multiset ys k),
        λ all. maps.1 (λ k. omega (arith, all k, lookup_or-multiset xs k, lookup_or-multiset ys k)),
      )

-- Counting down succeeds exactly when no counter would go below 0.
count_down_iff :
    (seen : Map ℤ ℕ) (vs : List ℤ)
    → (count_down seen vs ≡ true) ↔ ((z : ℤ) → count z vs ≤ lookup_or 0 z seen)
unfolding count_down
count_down_iff seen [] = (λ _ z. omega arith, λ _. refl)
count_down_iff seen (v ∷ vs) =
    go (λ n. count_down_iff (insert v n seen) vs) (lookup_or 0 v seen) refl
  where
    go :
        ((n : ℕ)
          → (count_down (insert v n seen) vs ≡ true)
            ↔ ((z : ℤ) → count z vs ≤ lookup_or 0 z (insert v n seen)))
        → (n : ℕ) → lookup_or 0 v seen ≡ n
        → (count_down seen (v ∷ vs) ≡ true) ↔ ((z : ℤ) → count z (v ∷ vs) ≤ lookup_or 0 z seen)
    go ih zero q = rw (q, count_down) (λ h. cc, λ all. absurd (ground (arith, all v, ==_refl v)))
    go ih (suc n) q =
        let rest = ih n in
        rw (q, count_down)
          (
            λ h z. ground (
              arith,
              rest.0 h z,
              lookup_or-insert v z n seen,
              ==_iff v z,
              (λ (p : v ≡ z). ap (λ (t : ℤ). lookup_or 0 t seen) p),
            ),
            λ all. rest.1 (λ z. ground (
              arith,
              all z,
              lookup_or-insert v z n seen,
              ==_iff v z,
              (λ (p : v ≡ z). ap (λ (t : ℤ). lookup_or 0 t seen) p),
            )),
          )

-- `sameIntSet` says whether two lists hold every number as often: it compares multisets, and takes
-- no notice of order.
pub same_int_set_iff :
    (a b : List ℤ) → (same_int_set a b ≡ true) ↔ ((z : ℤ) → count z a ≡ count z b)
unfolding same_int_set
same_int_set_iff a b = (
  λ h z.
      let size : length a ≡ length b = ground (arith, eqb_ℕ_iff (length a) (length b)) in
      let down : count_down (count_into [] a) b ≡ true = ground arith in
      sym (count-eq_of_le b a (λ y. bound down y) (sym size) z),
  λ all.
      let down =
        (count_down_iff (count_into [] a) b).1
          (λ z. omega (arith, all z, lookup_or-count_into [] a z)) in
      let size : length a ≡ length b = length-eq_of_count a b all in
      ground (arith, eqb_ℕ_iff (length a) (length b)),
)
  where
    bound : count_down (count_into [] a) b ≡ true → (z : ℤ) → count z b ≤ count z a
    bound down z =
        omega (arith, (count_down_iff (count_into [] a) b).0 down z, lookup_or-count_into [] a z)
