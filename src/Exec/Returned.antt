-- ===== src/Exec/Returned.antt =====
-- Calls that return: a value or an error, and no panic.
use ctfd_crossplane_provider.Prelude.{String}
use ctfd_crossplane_provider.Result.{wrapped, Result, ok, err, panic, out_of_fuel}
use ctfd_crossplane_provider.Exec.{Exec, continue, wrapping}

-- A result that is a value with `P`, or an error.
abbrev pub Ends : {A : Type 0} → (A → Type 0) → Result A → Type 0
Ends P (ok a) = P a
Ends P (err e) = Unit
Ends P panic = ⊥
Ends P out_of_fuel = ⊥

abbrev pub IsReturned : {A : Type 0} → Result A → Type 0
IsReturned r = Ends (λ _. Unit) r

-- A call returns whatever the state.
abbrev pub AlwaysReturns : {S A : Type 0} → Exec S A → Type 0
AlwaysReturns {S = S} m = (s : S) → IsReturned (m s).0

module _ {S A B : Type 0} where
  pub continue-Ends :
      (P : A → Type 0) (Q : B → Type 0) (r : Result A × S) (f : A → Exec S B)
      → Ends P r.0
      → ((a : A) (s : S) → P a → Ends Q (f a s).0)
      → Ends Q (continue r f).0
  continue-Ends P Q (ok a, s) f p q = q a s p
  continue-Ends P Q (err e, s) f p q = tt
  continue-Ends P Q (panic, s) f p q = p
  continue-Ends P Q (out_of_fuel, s) f p q = p

  pub continue-IsReturned :
      (r : Result A × S) (f : A → Exec S B)
      → IsReturned r.0
      → ((a : A) → AlwaysReturns (f a))
      → IsReturned (continue r f).0
  continue-IsReturned r f p q = continue-Ends (λ _. Unit) (λ _. Unit) r f p (λ a s _. q a s)

module _ {S A : Type 0} where
  wrapped-IsReturned :
      (r : Result A × S) (text : String)
      → IsReturned r.0
      → IsReturned (wrapping (λ (s : S). r) text r.1).0
  wrapped-IsReturned (ok a, s) text p = p
  wrapped-IsReturned (err e, s) text p = p
  wrapped-IsReturned (panic, s) text p = p
  wrapped-IsReturned (out_of_fuel, s) text p = p

  pub wrapping-AlwaysReturns :
      (m : Exec S A) (text : String) → AlwaysReturns m → AlwaysReturns (wrapping m text)
  wrapping-AlwaysReturns m text p s = wrapped-IsReturned (m s) text (p s)

pub wrapped-Ends :
    {A : Type 0} (P : A → Type 0) (r : Result A) (text : String)
    → Ends P r
    → Ends P (wrapped r text)
wrapped-Ends P (ok a) text p = p
wrapped-Ends P (err e) text p = tt
wrapped-Ends P panic text p = p
wrapped-Ends P out_of_fuel text p = p
