-- ===== src/Exec.antt =====
-- Calls that change a state and may fail: what was done before a failure stays done, so the state
-- comes back beside an error too.
pub mod Preserves
pub mod Returned
use ctfd_crossplane_provider.Prelude.{◌≡◌, refl, String}
use ctfd_crossplane_provider.Result.{Result, ok, err, panic, out_of_fuel, Error, wrapped}

abbrev pub Exec {ℓ κ} : Type ℓ → Type κ → Type (ℓ ⊔ κ)
Exec S A = S → Result A × S

module _ {ℓ κ} {S : Type ℓ} {A : Type κ} where
  abbrev pub pure : A → Exec S A
  pure a s = (ok a, s)

  abbrev pub raise : Error → Exec S A
  raise e s = (err e, s)

  -- A result that needs no call.
  abbrev pub lift : Result A → Exec S A
  lift r s = (r, s)

  -- `if err != nil { return errors.Wrap(err, message) }` after a call
  abbrev pub wrapping : Exec S A → String → Exec S A
  wrapping m text s = let (r, s') = m s in (wrapped r text, s')

  wrapped-eq-ok :
      (r : Result A × S) (text : String) {a : A} {t : S}
      → ◌≡◌ {A = Result A × S} (wrapped r.0 text, r.1) (ok a, t)
      → r ≡ (ok a, t)
  wrapped-eq-ok (ok a, s) text e = e
  wrapped-eq-ok (err x, s) text e = cc
  wrapped-eq-ok (panic, s) text e = cc
  wrapped-eq-ok (out_of_fuel, s) text e = cc

  -- A call with a wrapped error that returned did so without it.
  pub wrapping-eq-ok :
      (m : Exec S A) (text : String) (s : S) {a : A} {t : S}
      → wrapping m text s ≡ (ok a, t)
      → m s ≡ (ok a, t)
  wrapping-eq-ok m text s e = wrapped-eq-ok (m s) text e

module _ {ℓ κ μ} {S : Type ℓ} {A : Type κ} {B : Type μ} where
  abbrev pub continue : Result A × S → (A → Exec S B) → Result B × S
  continue (ok a, s) f = f a s
  continue (err e, s) f = (err e, s)
  continue (panic, s) f = (panic, s)
  continue (out_of_fuel, s) f = (out_of_fuel, s)

  infixl 5 ◌>>=◌ ◌>>◌
  abbrev pub ◌>>=◌ : Exec S A → (A → Exec S B) → Exec S B
  ◌>>=◌ m f s = continue (m s) f

  abbrev pub ◌>>◌ : Exec S A → Exec S B → Exec S B
  m >> k = m >>= λ _. k

  -- A call that returned did all its parts.
  pub continue-eq-ok :
      (r : Result A × S) (f : A → Exec S B) {b : B} {t : S}
      → continue r f ≡ (ok b, t)
      → (a : A) × (s : S) × (r ≡ (ok a, s)) × (f a s ≡ (ok b, t))
  continue-eq-ok (ok a, s) f h = (a, s, refl, h)
  continue-eq-ok (err e, s) f h = cc
  continue-eq-ok (panic, s) f h = cc
  continue-eq-ok (out_of_fuel, s) f h = cc

  pub continue-ok :
      (r : Result A × S) (f : A → Exec S B) {a : A} {s : S} → r ≡ (ok a, s) → continue r f ≡ f a s
  continue-ok r f e = rw e
