-- ===== src/Prelude/Equality.antt =====
-- Equality tests as an interface: the keys of maps and the members of multisets have an instance.
use Prim.Native.Nat.{ℕ}
use Prim.Native.String.{String}
use mathlib.Core.Path.{◌≡◌, refl}
use mathlib.Core.Logic.{◌↔◌, ◌≢◌}
use mathlib.Core.Bool.{Bool, true, false}
use native.Mathlib.Omega.{arith}
use text.Mathlib.Text.{◌==◌ as str_eq}
use text.Mathlib.TextEquality.{eq_iff}
use ctfd_crossplane_provider.Prelude.Tests.{eqb_ℕ, eqb_Bool, eqb_ℕ_iff, eqb_Bool_iff}
use ctfd_crossplane_provider.Prelude.Int.{ℤ, eqb_ℤ, eqb_ℤ_iff}

pub record Eq {ℓ} (A : Type ℓ) : Type ℓ where
  pub tests : A → A → Bool
  pub tests_iff : (a b : A) → (tests a b ≡ true) ↔ (a ≡ b)

infix 50 ◌==◌
abbrev pub ◌==◌ {ℓ} : {A : Type ℓ} ⦃eq : Eq A⦄ → A → A → Bool
◌==◌ ⦃eq⦄ = eq.tests

instance abbrev pub nat_eq : Eq ℕ
nat_eq = record { tests = eqb_ℕ; tests_iff = eqb_ℕ_iff }

instance abbrev pub int_eq : Eq ℤ
int_eq = record { tests = eqb_ℤ; tests_iff = eqb_ℤ_iff }

instance abbrev pub bool_eq : Eq Bool
bool_eq = record { tests = eqb_Bool; tests_iff = eqb_Bool_iff }

instance abbrev pub string_eq : Eq String
string_eq = record { tests = str_eq; tests_iff = eq_iff }

module _ {ℓ} {A : Type ℓ} ⦃eq : Eq A⦄ where
  pub ==_iff : (a b : A) → ((a == b) ≡ true) ↔ (a ≡ b)
  ==_iff a b = eq.tests_iff a b

  pub ==_refl : (a : A) → (a == a) ≡ true
  ==_refl a = (eq.tests_iff a a).1 refl

  pub ==_ne : (a b : A) → a ≢ b → (a == b) ≡ false
  ==_ne a b h = ground (arith, eq.tests_iff a b)
