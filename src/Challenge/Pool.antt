-- ===== src/Challenge/Pool.antt =====
-- The maps from a value's key to the CTFd IDs that hold it, which `syncFlags` and `planHints` of
-- internal/controller/challenge/flagshints.go build and take from.
pub mod Tally
pub mod Stored
use ctfd_crossplane_provider.Prelude.{ℕ, String, ℤ, List, [], ◌∷◌, ◌++◌, string_eq}
use ctfd_crossplane_provider.GoMap.{Map, lookup_or, insert}

abbrev pub Pool : Type 0
Pool = Map String (List ℤ)

-- pool[k]
abbrev pub ids_at : String → Pool → List ℤ
ids_at k pool = lookup_or [] k pool

-- pool[k] = append(pool[k], id)
unfoldable pub add : String → ℤ → Pool → Pool
add k id pool = insert k (ids_at k pool ++ id ∷ []) pool

module _ {ℓ} {A : Type ℓ} (key : A → String) (id : A → ℤ) where
  -- for _, x := range existing { pool[key(x)] = append(pool[key(x)], x.ID) }
  unfoldable pub pool_into : Pool → List A → Pool
  unfolding add
  pool_into pool [] = pool
  pool_into pool (x ∷ xs) = pool_into (add (key x) (id x) pool) xs

-- All IDs, entry by entry.
abbrev pub all_ids : Pool → List ℤ
all_ids [] = []
all_ids ((k, ids) ∷ pool) = ids ++ all_ids pool
