-- ===== src/Challenge/Multiset.antt =====
-- The counting maps of internal/controller/challenge/flagshints.go (`multiset`, `sameMultiset`) and
-- internal/controller/challenge/conversion.go (`sameIntSet`). The counters of `sameIntSet` are
-- numbers from 0 up: where the source counts one down below 0 it returns.
pub mod Counts
pub mod Same
use ctfd_crossplane_provider.Prelude.{
  ℕ, zero, suc, ◌+◌, ℤ, Bool, true, false, List, [], ◌∷◌, length, if◌then◌else◌, Eq, ◌==◌, nat_eq,
  int_eq,
}
use ctfd_crossplane_provider.GoMap.{Map, lookup_or, insert}

module _ {ℓ} {K : Type ℓ} ⦃e : Eq K⦄ where
  -- for _, k := range keys { m[k]++ }
  unfoldable pub count_into : Map K ℕ → List K → Map K ℕ
  count_into m [] = m
  count_into m (k ∷ ks) = count_into (insert k (lookup_or 0 k m + 1) m) ks

  unfoldable pub multiset : List K → Map K ℕ
  unfolding count_into
  multiset ks = count_into [] ks

  -- The loop of `sameMultiset` over the entries of `a`.
  unfoldable pub same_entries : Map K ℕ → Map K ℕ → Bool
  same_entries [] b = true
  same_entries ((k, n) ∷ a) b = if lookup_or 0 k b == n then same_entries a b else false

  unfoldable pub same_multiset : Map K ℕ → Map K ℕ → Bool
  unfolding same_entries
  same_multiset a b = if length a == length b then same_entries a b else false

-- The second loop of `sameIntSet`.
unfoldable pub count_down : Map ℤ ℕ → List ℤ → Bool
count_down seen [] = true
count_down seen (v ∷ vs) = elim (lookup_or 0 v seen) [
  | zero ↦ false
  | suc n ↦ count_down (insert v n seen) vs
]

unfoldable pub same_int_set : List ℤ → List ℤ → Bool
unfolding count_into count_down
same_int_set a b = if length a == length b then count_down (count_into [] a) b else false
