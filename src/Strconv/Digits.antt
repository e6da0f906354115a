-- ===== src/Strconv/Digits.antt =====
-- Decimal text of an `int`, and back. `int` has 64 bits.
use Prim.Native.Char.{Char, code}
use Prim.Native.String.{[], ◌∷◌}
use mathlib.Core.Logic.{dite}
use mathlib.Core.WellFounded.{Acc, WellFounded}
use native.Mathlib.Decide.{dec_lt}
use ctfd_crossplane_provider.Prelude.{
  ℕ, zero, suc, ◌+◌, ◌-◌, ◌*◌, ◌/◌, ◌%◌, ◌^◌, ◌<◌, String, ℤ, pos, negsuc, ◌≡◌, refl, Bool, true,
  false, ◌||◌, Option, none, some, arith, ltb, if◌then◌else◌, eqb_ℕ,
}

-- The greatest `int`.
abbrev pub max_int : ℕ
max_int = 2 ^ 63 - 1

Acc-below : (k n : ℕ) → n < k → Acc ◌<◌ n
Acc-below zero n h = absurd (omega arith)
Acc-below (suc k) n h = Acc.intro n λ m lt. Acc-below k m (omega arith)

unfoldable pub lt_wf : WellFounded ◌<◌
unfolding Acc-below
lt_wf = record { apply = λ n. Acc-below (suc n) n (omega arith) }

pub tenth-lt : {n : ℕ} → 0 < n → n / 10 < n
tenth-lt h = omega arith

unfoldable pub digit : ℕ → Char
digit zero = "0"
digit (suc zero) = "1"
digit (suc (suc zero)) = "2"
digit (suc (suc (suc zero))) = "3"
digit (suc (suc (suc (suc zero)))) = "4"
digit (suc (suc (suc (suc (suc zero))))) = "5"
digit (suc (suc (suc (suc (suc (suc zero)))))) = "6"
digit (suc (suc (suc (suc (suc (suc (suc zero))))))) = "7"
digit (suc (suc (suc (suc (suc (suc (suc (suc zero)))))))) = "8"
digit _ = "9"

-- Each round divides the number by ten and puts the last digit before the text.
unfoldable pub emit : (n : ℕ) → Acc ◌<◌ n → String → String
unfolding digit
emit n (Acc.intro _ smaller) out =
    dite (dec_lt 0 n) (λ h. emit (n / 10) (smaller (n / 10) (tenth-lt h)) (digit (n % 10) ∷ out))
      (λ _. out)

unfoldable pub digits : ℕ → String → String
unfolding emit lt_wf dec_lt
digits n = emit n (lt_wf.apply n)

unfoldable pub format : ℕ → String
unfolding digits
format zero = "0"
format (suc n) = digits (suc n) ""

-- strconv.Itoa
unfoldable pub itoa : ℤ → String
unfolding format
itoa (pos n) = format n
itoa (negsuc n) = "-" ∷ format (suc n)

-- The digits of a text after those read already.
unfoldable pub scan : String → ℕ → Option ℕ
scan [] n = some n
scan (c ∷ s) n =
    if ltb (code c) b'0' || ltb b'9' (code c) then none else scan s (n * 10 + (code c - b'0'))

unfoldable pub scan_all : String → Option ℕ
unfolding scan
scan_all [] = none
scan_all (c ∷ s) = scan (c ∷ s) 0

-- A value out of the range of `int` is an error.
abbrev pub in_range : Bool → Option ℕ → Option ℤ
in_range negative none = none
in_range true (some zero) = some (pos 0)
in_range true (some (suc n)) = if ltb max_int n then none else some (negsuc n)
in_range false (some n) = if ltb max_int n then none else some (pos n)

-- strconv.Atoi, `none` for its error
unfoldable pub atoi : String → Option ℤ
unfolding scan_all
atoi [] = none
atoi (c ∷ s) =
    if eqb_ℕ (code c) b'-'
    then in_range true (scan_all s)
    else if eqb_ℕ (code c) b'+'
    then in_range false (scan_all s)
    else in_range false (scan_all (c ∷ s))

itoa_test : itoa (pos 4071) ≡ "4071"
unfolding itoa
itoa_test = refl

atoi_test : atoi "-120" ≡ some (negsuc 119)
unfolding atoi
atoi_test = refl
