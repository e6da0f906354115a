-- ===== src/Result.antt =====
-- Go's `(T, error)` results, and its run-time panics. The messages are those of the `errors.New`,
-- `errors.Wrap` and `errors.Errorf` calls of the repository.
use ctfd_crossplane_provider.Prelude.{
  false, Bool, if◌then◌else◌, ℕ, ℤ, String, ◌≡◌, refl, Option, none, some, List, [], ◌∷◌, map,
  get_elem?,
}

pub data Error : Type 0 where
  -- an error that a library the program calls returned
  external : String → Error
  -- errors.New(message)
  message : String → Error
  -- errors.Wrap(err, message)
  wrap : Error → String → Error
  -- errors.Errorf("unsupported provider config kind: %s", kind)
  unsupported_kind : String → Error
  -- the three verdicts on hint prerequisites
  out_of_range : ℕ → ℤ → ℕ → Error
  own_prerequisite : ℕ → Error
  cycle : ℕ → Error

-- `panic` is an index out of range, or a nil pointer that is dereferenced. `out_of_fuel` is no
-- behaviour of the program: the theorems on the recursive search show that it does not arise.
pub data Result {ℓ} (A : Type ℓ) : Type ℓ where
  ok : A → Result A
  err : Error → Result A
  panic out_of_fuel : Result A

module _ {ℓ κ} {A : Type ℓ} {B : Type κ} where
  infixl 5 ◌>>=◌ ◌>>◌
  -- What follows an error check: `k` runs on the value of a call that succeeded.
  abbrev pub ◌>>=◌ : Result A → (A → Result B) → Result B
  panic >>= k = panic
  out_of_fuel >>= k = out_of_fuel
  err x >>= k = err x
  ok a >>= k = k a

  abbrev pub ◌>>◌ : Result A → Result B → Result B
  first >> second = first >>= λ _. second

  pub >>=-eq-ok :
      (r : Result A) (k : A → Result B) {b : B}
      → (r >>= k) ≡ ok b
      → (a : A) × (r ≡ ok a) × (k a ≡ ok b)
  >>=-eq-ok panic k e = cc
  >>=-eq-ok out_of_fuel k e = cc
  >>=-eq-ok (err x) k e = cc
  >>=-eq-ok (ok a) k e = (a, refl, e)

-- xs[i]
abbrev pub at {ℓ} : {A : Type ℓ} → List A → ℕ → Result A
at xs i = elim (get_elem? xs i) [ none ↦ panic | some a ↦ ok a ]

-- `if err != nil { return errors.Wrap(err, message) }`
abbrev pub wrapped {ℓ} : {A : Type ℓ} → Result A → String → Result A
wrapped (ok a) s = ok a
wrapped (err e) s = err (wrap e s)
wrapped panic s = panic
wrapped out_of_fuel s = out_of_fuel

pub at-get_elem? {ℓ} :
    {A : Type ℓ} (xs : List A) (i : ℕ) {a : A} → get_elem? xs i ≡ some a → at xs i ≡ ok a
at-get_elem? xs i e = rw (e, at)

-- The values of a list of pointers, as a loop dereferences them: a nil pointer panics.
abbrev pub dereferenced {ℓ} : {A : Type ℓ} → List (Option A) → Result (List A)
dereferenced [] = ok []
dereferenced (none ∷ ps) = panic
dereferenced (some a ∷ ps) = dereferenced ps >>= λ rest. ok (a ∷ rest)

pub dereferenced-map {ℓ} : {A : Type ℓ} (xs : List A) → dereferenced (map some xs) ≡ ok xs
dereferenced-map [] = refl
dereferenced-map (a ∷ xs) = rw (dereferenced-map xs) refl

-- A total function after a call.
abbrev pub on_ok {ℓ κ} : {A : Type ℓ} {B : Type κ} → Result A → (A → B) → Result B
on_ok r f = r >>= λ a. ok (f a)

-- `a && b`, where both may panic.
abbrev pub both : Result Bool → Result Bool → Result Bool
both a b = a >>= λ x. if x then b else ok false
