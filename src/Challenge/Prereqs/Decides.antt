-- ===== src/Challenge/Prereqs/Decides.antt =====
-- `validateHintPrereqs` as a whole.
use mathlib.Core.List.{Memᴰ}
use mathlib.Core.Path.{subst}
use native.Mathlib.Decide.{ℕ_discrete}
use ctfd_crossplane_provider.Prelude.{
  ℕ, suc, ◌+◌, ◌≤◌, ◌<◌, ℤ, pos, ◌≡◌, refl, sym, ap, ◌↔◌, inl, inr, some, List, [], ◌∷◌, arith,
  length, get_elem?, lt-length_of_get_elem?,
}
use ctfd_crossplane_provider.Result.{
  Result, ok, err, panic, out_of_fuel, Error, out_of_range, own_prerequisite, cycle, ◌>>◌,
}
use ctfd_crossplane_provider.Apis.Challenge.{ChallengeHint}
use ctfd_crossplane_provider.Challenge.Prereqs.{
  detect_hint_cycle, check_indexes, check_hints, validate_hint_prereqs,
}
use ctfd_crossplane_provider.Challenge.Prereqs.Graph.{
  Lists, Requires, InRange, Needs, once, IsAcyclic,
}
use ctfd_crossplane_provider.Challenge.Prereqs.Correct.{
  Verdict, detect_hint_cycle-Verdict, IndexVerdict, check_indexes-IndexVerdict,
}

-- The hints of a suffix stand in the list from an index on.
abbrev Rest : List ChallengeHint → ℕ → List ChallengeHint → Type 0
Rest desired i [] = Unit
Rest desired i (h ∷ hs) = (get_elem? desired i ≡ some h) × Rest desired (suc i) hs

Rest-cons :
    (x : ChallengeHint) (xs : List ChallengeHint) (i : ℕ) (hs : List ChallengeHint)
    → Rest xs i hs
    → Rest (x ∷ xs) (suc i) hs
Rest-cons x xs i [] r = tt
Rest-cons x xs i (h ∷ hs) r = (r.0, Rest-cons x xs (suc i) hs r.1)

Rest-all : (xs : List ChallengeHint) → Rest xs 0 xs
Rest-all [] = tt
Rest-all (x ∷ xs) = (refl, Rest-cons x xs 0 xs (Rest-all xs))

-- A defect of a list of hints, by the error that reports it.
pub data Defect (desired : List ChallengeHint) : Error → Type 0 where
  outside :
      {i : ℕ} {z : ℤ}
      → Lists desired i z
      → ((p : ℕ) → z ≡ pos p → ¬ (p < length desired))
      → Defect desired (out_of_range i z (length desired))
  itself : {i : ℕ} → Requires desired i i → Defect desired (own_prerequisite i)
  round : {i : ℕ} → Needs desired i i → Defect desired (cycle i)

-- What a validation may return: acceptance of hints that can be unlocked, or an error that reports
-- a defect. It neither panics nor runs on.
abbrev pub Validated : List ChallengeHint → Result (Unit {0}) → Type 0
Validated desired (ok _) = InRange desired × IsAcyclic desired
Validated desired (err e) = Defect desired e
Validated desired panic = ⊥
Validated desired out_of_fuel = ⊥

module _ (desired : List ChallengeHint) where
  -- The range check of the hints from an index on.
  abbrev RestVerdict : ℕ → Result (Unit {0}) → Type 0
  RestVerdict i (ok _) =
      (j : ℕ) (z : ℤ) → i ≤ j → Lists desired j z → (p : ℕ) × (z ≡ pos p) × (p < length desired)
  RestVerdict i (err e) = Defect desired e
  RestVerdict i panic = ⊥
  RestVerdict i out_of_fuel = ⊥

  step_err :
      (i : ℕ) (h : ChallengeHint) (e : Error)
      → get_elem? desired i ≡ some h
      → IndexVerdict (length desired) i h.prerequisites (err e)
      → Defect desired e
  step_err i h e at_i (z, m, inl (q, far)) =
      subst (Defect desired) (sym q) (outside (h, at_i, m) far)
  step_err i h e at_i (z, m, inr (q, own)) =
      subst (Defect desired) (sym q) (itself (h, at_i, subst (λ y. Memᴰ y h.prerequisites) own m))

  step :
      (i : ℕ) (h : ChallengeHint) (first rest : Result (Unit {0}))
      → get_elem? desired i ≡ some h
      → IndexVerdict (length desired) i h.prerequisites first
      → RestVerdict (suc i) rest
      → RestVerdict i (first >> rest)
  step i h (err e) rest at_i f r = step_err i h e at_i f
  step i h panic rest at_i f r = f
  step i h out_of_fuel rest at_i f r = f
  step i h (ok _) (err e) at_i f r = r
  step i h (ok _) panic at_i f r = r
  step i h (ok _) out_of_fuel at_i f r = r
  step i h (ok _) (ok _) at_i f r = λ j z le (h', at_j, m). elim (ℕ_discrete i j) [
    | yes e ↦
        let same : h' ≡ h = cc (ap (λ (k : ℕ). get_elem? desired k) e) in
        let (p, q, lt, ne) = f z (subst (λ (t : ChallengeHint). Memᴰ z t.prerequisites) same m) in
        (p, q, lt)
    | no n ↦ r j z (omega arith) (h', at_j, m)
  ]

  check_hints-RestVerdict :
      (i : ℕ) (hs : List ChallengeHint)
      → Rest desired i hs
      → i + length hs ≡ length desired
      → RestVerdict i (check_hints (length desired) i hs)
  unfolding check_hints
  check_hints-RestVerdict i [] rest size =
      λ j z le (h, e, m). absurd (omega (arith, lt-length_of_get_elem? desired j h e))
  check_hints-RestVerdict i (h ∷ hs) (at_i, rest) size =
      step i h (check_indexes (length desired) i h.prerequisites)
        (check_hints (length desired) (suc i) hs) at_i
        (check_indexes-IndexVerdict (length desired) i h.prerequisites)
        (check_hints-RestVerdict (suc i) hs rest (omega arith))

  -- Whatever the hints, `validateHintPrereqs` returns: it accepts them only if every index points
  -- into the list and no hint needs itself, at once or by way of others, and an error that it
  -- returns names a defect that the hints have (an index outside the list at the hint that is
  -- named, a hint that is its own prerequisite, or a hint on a cycle).
  pub validate_hint_prereqs-Validated : Validated desired (validate_hint_prereqs desired)
  unfolding validate_hint_prereqs
  validate_hint_prereqs-Validated =
      combine (check_hints (length desired) 0 desired)
        (check_hints-RestVerdict 0 desired (Rest-all desired) (omega arith))
    where
      searched :
          (all : InRange desired) (r : Result (Unit {0}))
          → Verdict desired all r
          → Validated desired r
      searched all (ok _) v = (all, v)
      searched all (err e) (i, q, n) = subst (Defect desired) (sym q) (round n)
      searched all panic v = v
      searched all out_of_fuel v = v

      combine :
          (r : Result (Unit {0}))
          → RestVerdict 0 r
          → Validated desired (r >> detect_hint_cycle desired)
      combine (ok _) v =
          let all : InRange desired = λ i z l. v i z (omega arith) l in
          searched all (detect_hint_cycle desired) (detect_hint_cycle-Verdict desired all)
      combine (err e) v = v
      combine panic v = v
      combine out_of_fuel v = v

-- Hints with a defect cannot all be unlocked.
Defect-sound :
    (desired : List ChallengeHint) {e : Error}
    → Defect desired e
    → ¬ (InRange desired × IsAcyclic desired)
Defect-sound desired (outside l far) (all, acyclic) = let (p, q, lt) = all _ _ l in far p q lt
Defect-sound desired (itself r) (all, acyclic) = acyclic _ (once r)
Defect-sound desired (round n) (all, acyclic) = acyclic _ n

-- `validateHintPrereqs` accepts a list of hints exactly when every prerequisite index points into
-- the list and no hint needs itself, at once or by way of others.
pub validate_hint_prereqs_iff :
    (desired : List ChallengeHint)
    → (validate_hint_prereqs desired ≡ ok tt) ↔ (InRange desired × IsAcyclic desired)
validate_hint_prereqs_iff desired =
    decide (validate_hint_prereqs desired) (validate_hint_prereqs-Validated desired)
  where
    decide :
        (r : Result (Unit {0}))
        → Validated desired r
        → (r ≡ ok tt) ↔ (InRange desired × IsAcyclic desired)
    decide (ok _) v = (λ _. v, λ _. refl)
    decide (err e) v = (λ q. cc, λ good. absurd (Defect-sound desired v good))
    decide panic v = elim v [ ]
    decide out_of_fuel v = elim v [ ]
