-- ===== src/Challenge/Pool/Stored.antt =====
-- The pool of a list of stored values, and the removal of a value by its ID.
use ctfd_crossplane_provider.Prelude.{
  ℕ, ◌+◌, ◌≤◌, String, ℤ, ◌≡◌, refl, List, [], ◌∷◌, ◌++◌, map, arith, if◌then◌else◌, count,
  Distinct, ◌==◌, ==_iff, string_eq, int_eq,
}
use ctfd_crossplane_provider.GoMap.{keys}
use ctfd_crossplane_provider.GoMap.Laws.{Distinct-keys-insert}
use ctfd_crossplane_provider.Challenge.Pool.{Pool, ids_at, add, pool_into}
use ctfd_crossplane_provider.Challenge.Pool.Tally.{held, tagged, held-add, tagged-add}

module _ {ℓ} {A : Type ℓ} (key : A → String) (id : A → ℤ) where
  -- How many values have an ID and a key.
  abbrev pub stored : ℤ → String → List A → ℕ
  stored z k [] = 0
  stored z k (x ∷ xs) = (if id x == z then (if key x == k then 1 else 0) else 0) + stored z k xs

  -- How many values have an ID.
  abbrev pub numbered : ℤ → List A → ℕ
  numbered z [] = 0
  numbered z (x ∷ xs) = (if id x == z then 1 else 0) + numbered z xs

  -- How many values have a key.
  abbrev pub keyed : String → List A → ℕ
  keyed k [] = 0
  keyed k (x ∷ xs) = (if key x == k then 1 else 0) + keyed k xs

  -- The list without the values of an ID.
  abbrev pub remove : ℤ → List A → List A
  remove z [] = []
  remove z (x ∷ xs) = if id x == z then remove z xs else x ∷ remove z xs

  pub keyed-append : (k : String) (xs ys : List A) → keyed k (xs ++ ys) ≡ keyed k xs + keyed k ys
  keyed-append k [] ys = omega arith
  keyed-append k (x ∷ xs) ys = omega (arith, keyed-append k xs ys)

  pub numbered-append :
      (z : ℤ) (xs ys : List A) → numbered z (xs ++ ys) ≡ numbered z xs + numbered z ys
  numbered-append z [] ys = omega arith
  numbered-append z (x ∷ xs) ys = omega (arith, numbered-append z xs ys)

  pub stored-append :
      (z : ℤ) (k : String) (xs ys : List A) → stored z k (xs ++ ys) ≡ stored z k xs + stored z k ys
  stored-append z k [] ys = omega arith
  stored-append z k (x ∷ xs) ys = omega (arith, stored-append z k xs ys)

  pub keyed-count : (k : String) (xs : List A) → keyed k xs ≡ count k (map key xs)
  keyed-count k [] = refl
  keyed-count k (x ∷ xs) = omega (arith, keyed-count k xs)

  pub stored-le-numbered : (z : ℤ) (k : String) (xs : List A) → stored z k xs ≤ numbered z xs
  stored-le-numbered z k [] = omega arith
  stored-le-numbered z k (x ∷ xs) = ground (arith, stored-le-numbered z k xs)

  pub remove_absent : (z : ℤ) (xs : List A) → numbered z xs ≡ 0 → remove z xs ≡ xs
  remove_absent z [] h = refl
  remove_absent z (x ∷ xs) h = ground (arith, remove_absent z xs)

  pub numbered-remove : (z y : ℤ) (xs : List A) → numbered y (remove z xs) ≤ numbered y xs
  numbered-remove z y [] = omega arith
  numbered-remove z y (x ∷ xs) = ground (arith, numbered-remove z y xs)

  module _ (z : ℤ) (k : String) where
    -- An ID that stands once, at a value with key `k`: its removal takes that value alone.
    pub keyed-remove :
        (xs : List A) (j : String)
        → 1 ≤ stored z k xs
        → numbered z xs ≤ 1
        → keyed j (remove z xs) + (if k == j then 1 else 0) ≡ keyed j xs
    keyed-remove [] j h one = elim h [ ]
    keyed-remove (x ∷ xs) j h one = ground (
      arith,
      keyed-remove xs j,
      remove_absent z xs,
      stored-le-numbered z k xs,
      ==_iff (key x) k,
      ==_iff (key x) j,
      ==_iff k j,
    )

    pub stored-remove :
        (xs : List A) (y : ℤ) (j : String)
        → 1 ≤ stored z k xs
        → numbered z xs ≤ 1
        → stored y j (remove z xs) + (if k == j then (if z == y then 1 else 0) else 0)
          ≡ stored y j xs
    stored-remove [] y j h one = elim h [ ]
    stored-remove (x ∷ xs) y j h one = ground (
      arith,
      stored-remove xs y j,
      remove_absent z xs,
      stored-le-numbered z k xs,
      ==_iff (key x) k,
      ==_iff (key x) j,
      ==_iff k j,
      ==_iff (id x) z,
      ==_iff (id x) y,
      ==_iff z y,
    )

  pub held-pool_into :
      (k : String) (pool : Pool) (xs : List A)
      → held k (pool_into key id pool xs) ≡ held k pool + keyed k xs
  unfolding pool_into
  held-pool_into k pool [] = omega arith
  held-pool_into k pool (x ∷ xs) =
      omega (arith, held-pool_into k (add (key x) (id x) pool) xs, held-add k (key x) (id x) pool)

  pub tagged-pool_into :
      (z : ℤ) (k : String) (pool : Pool) (xs : List A)
      → tagged z k (pool_into key id pool xs) ≡ tagged z k pool + stored z k xs
  unfolding pool_into
  tagged-pool_into z k pool [] = omega arith
  tagged-pool_into z k pool (x ∷ xs) =
      ground (
        arith,
        tagged-pool_into z k (add (key x) (id x) pool) xs,
        tagged-add z k (key x) (id x) pool,
      )

  pub Distinct-pool_into :
      (pool : Pool) (xs : List A)
      → Distinct (keys pool)
      → Distinct (keys (pool_into key id pool xs))
  unfolding pool_into add
  Distinct-pool_into pool [] d = d
  Distinct-pool_into pool (x ∷ xs) d =
      Distinct-pool_into (add (key x) (id x) pool) xs
        (Distinct-keys-insert (key x) (ids_at (key x) pool ++ id x ∷ []) pool d)
