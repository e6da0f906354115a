-- ===== src/Prelude/Counting.antt =====
-- How often a value stands in a list, and lists without repetition, by Boolean tests.
use Prim.Native.Nat.{ℕ, suc, ◌+◌, ◌≤◌}
use mathlib.Core.Path.{◌≡◌, refl, ap}
use mathlib.Core.Logic.{◌↔◌, ◌≢◌, inl, inr}
use mathlib.Core.Bool.{Bool, true, false, ◌||◌}
use mathlib.Core.List.{List, [], ◌∷◌, ◌++◌}
use native.Mathlib.Omega.{arith}
use ctfd_crossplane_provider.Prelude.Tests.{if◌then◌else◌, Bool-cases}
use ctfd_crossplane_provider.Prelude.Lists.{length}
use ctfd_crossplane_provider.Prelude.Equality.{Eq, ◌==◌, ==_iff, ==_refl}

module _ {ℓ} {A : Type ℓ} ⦃e : Eq A⦄ where
  abbrev pub count : A → List A → ℕ
  count a [] = 0
  count a (x ∷ xs) = (if x == a then 1 else 0) + count a xs

  abbrev pub contains : A → List A → Bool
  contains a [] = false
  contains a (x ∷ xs) = x == a || contains a xs

  -- No value stands twice.
  abbrev pub Distinct : List A → Type 0
  Distinct [] = Unit
  Distinct (x ∷ xs) = (contains x xs ≡ false) × Distinct xs

  -- The list without the first occurrence of a value.
  abbrev pub erase : A → List A → List A
  erase a [] = []
  erase a (x ∷ xs) = if x == a then xs else x ∷ erase a xs

  pub count-append : (a : A) (xs ys : List A) → count a (xs ++ ys) ≡ count a xs + count a ys
  count-append a [] ys = omega arith
  count-append a (x ∷ xs) ys = omega (arith, count-append a xs ys)

  pub count-contains : (a : A) (xs : List A) → (contains a xs ≡ true) ↔ (1 ≤ count a xs)
  count-contains a [] = (λ h. cc, λ h. elim h [ ])
  count-contains a (x ∷ xs) = ground (arith, count-contains a xs)

  pub Distinct-count : (a : A) (xs : List A) → Distinct xs → count a xs ≤ 1
  Distinct-count a [] d = omega arith
  Distinct-count a (x ∷ xs) d =
      ground (arith, Distinct-count a xs d.1, count-contains a xs, ==_iff x a)

  pub length-erase :
      (a : A) (xs : List A) → contains a xs ≡ true → length xs ≡ suc (length (erase a xs))
  length-erase a [] h = cc
  length-erase a (x ∷ xs) h = ground (arith, length-erase a xs)

  pub contains-erase : (a b : A) (xs : List A) → a ≢ b → contains b (erase a xs) ≡ contains b xs
  contains-erase a b [] h = refl
  contains-erase a b (x ∷ xs) h = ground (arith, contains-erase a b xs h, ==_iff x a, ==_iff x b)

  -- A list without repetition is no longer than a list that holds all its members.
  pub length-le_of_subset :
      (xs ys : List A)
      → Distinct xs
      → ((a : A) → contains a xs ≡ true → contains a ys ≡ true)
      → length xs ≤ length ys
  length-le_of_subset [] ys d h = omega arith
  length-le_of_subset (x ∷ xs) ys d h = omega (
    arith,
    length-erase x ys (h x (ground (arith, ==_refl x))),
    length-le_of_subset xs (erase x ys) d.1 (λ a m. within a m),
  )
    where
      within : (a : A) → contains a xs ≡ true → contains a (erase x ys) ≡ true
      within a m = ground (arith, contains-erase x a ys, h a, ==_iff x a)

  -- If neither is shorter, they have the same members.
  pub subset_of_length-le :
      (xs ys : List A)
      → Distinct xs
      → ((a : A) → contains a xs ≡ true → contains a ys ≡ true)
      → length ys ≤ length xs
      → (a : A) → contains a ys ≡ true
      → contains a xs ≡ true
  subset_of_length-le xs ys d h le a m = elim (Bool-cases (contains a xs)) [
    | inl found ↦ found
    | inr missing ↦ absurd (
        omega (
          arith,
          length-erase a ys m,
          length-le_of_subset xs (erase a ys) d (λ b k. elsewhere missing b k),
        ))
  ]
    where
      elsewhere :
          contains a xs ≡ false → (b : A) → contains b xs ≡ true → contains b (erase a ys) ≡ true
      elsewhere missing b k =
          rw (contains-erase a b ys (λ e. cc (ap (λ (c : A). contains c xs) e))) (h b k)

  pub count-erase :
      (a b : A) (xs : List A)
      → contains a xs ≡ true
      → count b xs ≡ (if a == b then 1 else 0) + count b (erase a xs)
  count-erase a b [] h = cc
  count-erase a b (x ∷ xs) h =
      ground (arith, count-erase a b xs, ==_iff x a, ==_iff x b, ==_iff a b)

  -- A list that holds no value more often than another of its length holds each as often.
  pub count-eq_of_le :
      (xs ys : List A)
      → ((a : A) → count a xs ≤ count a ys)
      → length xs ≡ length ys
      → (a : A) → count a xs ≡ count a ys
  count-eq_of_le [] [] le size a = refl
  count-eq_of_le [] (y ∷ ys) le size a = absurd (omega arith)
  count-eq_of_le (x ∷ xs) ys le size a =
      let in_ys : contains x ys ≡ true =
        (count-contains x ys).1 (ground (arith, le x, ==_refl x)) in
      let rest =
        count-eq_of_le xs (erase x ys) (λ b. omega (arith, le b, count-erase x b ys in_ys))
          (omega (arith, length-erase x ys in_ys)) a in
      omega (arith, rest, count-erase x a ys in_ys)

  pub length-le_of_count :
      (xs ys : List A) → ((a : A) → count a xs ≤ count a ys) → length xs ≤ length ys
  length-le_of_count [] ys le = omega arith
  length-le_of_count (x ∷ xs) ys le =
      let in_ys : contains x ys ≡ true =
        (count-contains x ys).1 (ground (arith, le x, ==_refl x)) in
      omega (
        arith,
        length-erase x ys in_ys,
        length-le_of_count xs (erase x ys) (λ b. omega (arith, le b, count-erase x b ys in_ys)),
      )

  -- Lists that hold every value as often have one length.
  pub length-eq_of_count :
      (xs ys : List A) → ((a : A) → count a xs ≡ count a ys) → length xs ≡ length ys
  length-eq_of_count xs ys eq = omega (
    arith,
    length-le_of_count xs ys (λ a. omega (arith, eq a)),
    length-le_of_count ys xs (λ a. omega (arith, eq a)),
  )
