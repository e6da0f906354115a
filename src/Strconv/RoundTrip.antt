-- ===== src/Strconv/RoundTrip.antt =====
-- `Atoi` after `Itoa`.
use Prim.Native.Char.{code}
use Prim.Native.String.{[], ◌∷◌}
use mathlib.Core.Logic.{ite, dite, if_pos, if_neg}
use mathlib.Core.WellFounded
use mathlib.Core.WellFounded.{Acc, Acc-prop}
use native.Mathlib.Decide.{dec_lt}
use text.Mathlib.TextLemmas.{tail-eq_of_cons-eq}
use ctfd_crossplane_provider.Prelude.{
  ℕ, zero, suc, ◌+◌, ◌/◌, ◌%◌, ◌≤◌, ◌<◌, String, ℤ, pos, negsuc, ◌≡◌, ◌≢◌, refl, ap, sym, false,
  some, arith,
}
use ctfd_crossplane_provider.Strconv.Digits.{
  max_int, lt_wf, tenth-lt, digit, emit, digits, format, itoa, scan, scan_all, in_range, atoi,
}

code-digit : (d : ℕ) → d < 10 → code (digit d) ≡ b'0' + d
unfolding digit
code-digit zero h = refl
code-digit (suc zero) h = refl
code-digit (suc (suc zero)) h = refl
code-digit (suc (suc (suc zero))) h = refl
code-digit (suc (suc (suc (suc zero)))) h = refl
code-digit (suc (suc (suc (suc (suc zero))))) h = refl
code-digit (suc (suc (suc (suc (suc (suc zero)))))) h = refl
code-digit (suc (suc (suc (suc (suc (suc (suc zero))))))) h = refl
code-digit (suc (suc (suc (suc (suc (suc (suc (suc zero)))))))) h = refl
code-digit (suc (suc (suc (suc (suc (suc (suc (suc (suc n))))))))) h =
    let last : n ≡ 0 = omega arith in omega arith

-- Two proofs that a number is accessible are equal, so that a round of the loop may take either.
emit_step :
    (k : ℕ) (down : Acc ◌<◌ k) (rest : Acc ◌<◌ (k / 10)) (text : String)
    → emit k down text ≡ ite (dec_lt 0 k) (emit (k / 10) rest (digit (k % 10) ∷ text)) text
unfolding emit
emit_step k (Acc.intro _ below) rest text = λ i.
    dite (dec_lt 0 k)
      (λ more.
        emit (k / 10) (Acc-prop (below (k / 10) (tenth-lt more)) rest i) (digit (k % 10) ∷ text))
      (λ _. text)

digits_step :
    (k : ℕ) (text : String)
    → digits k text ≡ ite (dec_lt 0 k) (digits (k / 10) (digit (k % 10) ∷ text)) text
unfolding digits
digits_step k = emit_step k (lt_wf.apply k) (lt_wf.apply (k / 10))

-- Reading the last digit of a number after the digits before it gives the number.
scan_last : (n : ℕ) (out : String) → scan (digit (n % 10) ∷ out) (n / 10) ≡ scan out n
unfolding scan
scan_last n out = ground (arith, code-digit (n % 10))

scan-digits : (n : ℕ) (out : String) → scan (digits n out) 0 ≡ scan out n
scan-digits n =
    WellFounded.induction lt_wf {C = λ m. (out : String) → scan (digits m out) 0 ≡ scan out m} n
      λ m ih out. grind (arith, digits_step m out, scan_last m out, ih (m / 10))

-- The text of a number begins with a digit.
abbrev StartsWithDigit : String → Type 0
StartsWithDigit [] = ⊥
StartsWithDigit (c ∷ s) = (b'0' ≤ code c) × (code c ≤ b'9')

StartsWithDigit-digits :
    (n : ℕ) (out : String) → StartsWithDigit out → StartsWithDigit (digits n out)
StartsWithDigit-digits n =
    WellFounded.induction lt_wf
      {C = λ m. (out : String) → StartsWithDigit out → StartsWithDigit (digits m out)} n
      λ m ih out h. elim (dec_lt 0 m) [
        | yes p ↦
            rw (digits_step m out, if_pos _ p)
              (ih (m / 10) (tenth-lt p) (digit (m % 10) ∷ out) (omega (arith, code-digit (m % 10))))
        | no p ↦ rw (digits_step m out, if_neg _ p) h
      ]

StartsWithDigit-format : (n : ℕ) → StartsWithDigit (format n)
unfolding format
StartsWithDigit-format zero = omega arith
StartsWithDigit-format (suc n) =
    let p : 0 < suc n = omega arith in
    rw (digits_step (suc n) "", if_pos _ p)
      (StartsWithDigit-digits (suc n / 10) (digit (suc n % 10) ∷ "")
        (omega (arith, code-digit (suc n % 10))))

format-scan : (n : ℕ) → scan (format n) 0 ≡ some n
unfolding format scan
format-scan zero = refl
format-scan (suc n) = scan-digits (suc n) ""

scan_all_lem : (s : String) → StartsWithDigit s → scan_all s ≡ scan s 0
unfolding scan_all
scan_all_lem [] h = elim h [ ]
scan_all_lem (c ∷ s) h = refl

atoi_digits : (s : String) → StartsWithDigit s → atoi s ≡ in_range false (scan s 0)
unfolding atoi
atoi_digits [] h = elim h [ ]
atoi_digits (c ∷ s) h = ground arith

-- The values of a 64-bit `int`.
abbrev pub IsInt : ℤ → Type 0
IsInt (pos n) = n ≤ max_int
IsInt (negsuc n) = n ≤ max_int

-- Every 64-bit integer is read back from its decimal text.
pub atoi-itoa : (z : ℤ) → IsInt z → atoi (itoa z) ≡ some z
unfolding itoa
atoi-itoa (pos n) h =
    rw (atoi_digits (format n) (StartsWithDigit-format n), format-scan n) (ground arith)
atoi-itoa (negsuc n) h =
    unfold atoi in
    rw (scan_all_lem (format (suc n)) (StartsWithDigit-format (suc n)), format-scan (suc n))
      (ground arith)

format-injective : (m n : ℕ) → format m ≡ format n → m ≡ n
format-injective m n e = cc (format-scan m, format-scan n, ap (λ (s : String). scan s 0) e)

minus_ne : (m n : ℕ) → ◌≢◌ {A = String} (format m) ("-" ∷ format n)
minus_ne m n e =
    let h : StartsWithDigit ("-" ∷ format n) = rw e at (StartsWithDigit-format m) in
    absurd (omega arith)

-- Different integers have different texts.
pub itoa-injective : (a b : ℤ) → itoa a ≡ itoa b → a ≡ b
unfolding itoa
itoa-injective (pos m) (pos n) e = cc (format-injective m n e)
itoa-injective (pos m) (negsuc n) e = absurd (minus_ne m (suc n) e)
itoa-injective (negsuc m) (pos n) e = absurd (minus_ne n (suc m) (sym e))
itoa-injective (negsuc m) (negsuc n) e =
    let h : suc m ≡ suc n = format-injective (suc m) (suc n) (tail-eq_of_cons-eq e) in
    ap negsuc (omega arith)
