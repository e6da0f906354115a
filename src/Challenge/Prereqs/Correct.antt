-- ===== src/Challenge/Prereqs/Correct.antt =====
-- Which lists of hints the validation accepts.
use mathlib.Core.List.{Memᴰ}
use mathlib.Core.List.Memᴰ
use mathlib.Core.Path.{subst}
use native.Mathlib.Decide.{ℕ_discrete}
use ctfd_crossplane_provider.Prelude.{
  ℕ, zero, suc, ◌+◌, ◌≤◌, ◌<◌, ℤ, pos, negsuc, false, ◌≡◌, ◌≢◌, refl, ◌⊎◌, inl, inr, List, [], ◌∷◌,
  arith, length, get_elem?, replicate, length-replicate, get_elem?-replicate_inv,
  lt-length_of_get_elem?, get_elem?_of_lt, Option-cases, Bool-cases, ltb, eqb_ℕ, ltb→lt,
}
use ctfd_crossplane_provider.Result.{
  Result, ok, err, panic, out_of_fuel, out_of_range, own_prerequisite, cycle, ◌>>◌,
}
use ctfd_crossplane_provider.Apis.Challenge.{ChallengeHint}
use ctfd_crossplane_provider.Challenge.Prereqs.{
  white, gray, black, Colors, visit, visit_all, detect_hint_cycle, check_indexes,
}
use ctfd_crossplane_provider.Challenge.Prereqs.Graph.{InRange, Needs, once, then, IsAcyclic}
use ctfd_crossplane_provider.Challenge.Prereqs.Search.{
  Has, whites-le-length, IsExplored, Extends-refl, Ends, Ends-weaken, Ends-bind,
}
use ctfd_crossplane_provider.Challenge.Prereqs.Visit.{visit-Ends}

pub Needs-lt :
    (desired : List ChallengeHint) (i : ℕ) {j : ℕ} → Needs desired i j → i < length desired
Needs-lt desired i (once (h, e, m)) = lt-length_of_get_elem? desired i h e
Needs-lt desired i (then n r) = Needs-lt desired i n

module _ (desired : List ChallengeHint) (in_range : InRange desired) where
  -- The hints from `i` on, of which there are `n`, are black.
  abbrev Covered : ℕ → Colors → Type 0
  Covered i color = (j : ℕ) → i ≤ j → j < length desired → Has color j black

  abbrev NoGray : Colors → Type 0
  NoGray color = (j : ℕ) → ¬ Has color j gray

  visit_all-Ends :
      (n i : ℕ) (color : Colors)
      → n + i ≡ length desired
      → IsExplored desired color
      → NoGray color
      → Ends desired color (Covered i) (visit_all desired n i color)
  unfolding visit_all
  visit_all-Ends zero i color size ex clear =
      (ex, Extends-refl desired color, λ j le lt. absurd (omega arith))
  visit_all-Ends (suc n) i color size ex clear = elim (Option-cases (get_elem? color i)) [
    | inl missing ↦ let (c, found) = get_elem?_of_lt color i (omega (arith, ex.sized)) in cc
    | inr (gray, e) ↦ absurd (clear i e)
    | inr (black, e) ↦
        rw (e, visit_all)
          (Ends-weaken desired color (Covered (suc i)) (Covered i)
            (visit_all desired n (suc i) color) (λ c ext rest. cover c (ext.blacks i e) rest)
            (visit_all-Ends n (suc i) color (omega arith) ex clear))
    | inr (white, e) ↦
        rw (e, visit_all)
          (Ends-bind desired color (λ c. Has c i black) (Covered (suc i)) (Covered i)
            (visit desired (suc (length desired)) i color) (visit_all desired n (suc i))
            (visit-Ends desired in_range (suc (length desired)) i color ex e
              (omega (arith, whites-le-length color, ex.sized)) (λ j g. absurd (clear j g)))
            (λ c ex' ext _.
              visit_all-Ends n (suc i) c (omega arith) ex' (λ j g. clear j ((ext.grays j).0 g)))
            (λ c d b ext rest. cover d (ext.blacks i b) rest))
  ]
    where
      cover : (c : Colors) → Has c i black → Covered (suc i) c → Covered i c
      cover c b rest j le lt = elim (ℕ_discrete i j) [
        | yes e ↦ subst (λ z. Has c z black) e b
        | no n ↦ rest j (omega arith) lt
      ]

  blank : Colors
  blank = replicate (length desired) white

  -- The search accepts an acyclic graph, finds a cycle in any other, and ends without a panic.
  abbrev pub Verdict : Result (Unit {0}) → Type 0
  Verdict (ok _) = IsAcyclic desired
  Verdict (err e) = (i : ℕ) × (e ≡ cycle i) × Needs desired i i
  Verdict panic = ⊥
  Verdict out_of_fuel = ⊥

  conclude : (r : Result Colors) → Ends desired blank (Covered 0) r → Verdict (r >> ok tt)
  conclude (ok c) (ex, ext, all) =
      λ i n. ex.acyclic i (all i (omega arith) (Needs-lt desired i n)) n
  conclude (err e) h = h
  conclude panic h = h
  conclude out_of_fuel h = h

  pub detect_hint_cycle-Verdict : Verdict (detect_hint_cycle desired)
  unfolding detect_hint_cycle blank
  detect_hint_cycle-Verdict = conclude (visit_all desired (length desired) 0 blank) (
      visit_all-Ends (length desired) 0 blank (omega arith)
        (record {
          sized = length-replicate (length desired) white;
          closed = λ i p b r. cc (get_elem?-replicate_inv (length desired) i white black b);
          acyclic = λ i b. cc (get_elem?-replicate_inv (length desired) i white black b);
        })
        (λ i g. cc (get_elem?-replicate_inv (length desired) i white gray g)))

-- The two checks on the indexes of one hint pass, or the index that failed is named.
abbrev pub IndexVerdict : ℕ → ℕ → List ℤ → Result (Unit {0}) → Type 0
IndexVerdict n i ps (ok _) = (z : ℤ) → Memᴰ z ps → (p : ℕ) × (z ≡ pos p) × (p < n) × (p ≢ i)
IndexVerdict n i ps (err e) =
    (z : ℤ) × Memᴰ z ps
    × (((e ≡ out_of_range i z n) × ((p : ℕ) → z ≡ pos p → ¬ (p < n)))
        ⊎ ((e ≡ own_prerequisite i) × (z ≡ pos i)))
IndexVerdict n i ps panic = ⊥
IndexVerdict n i ps out_of_fuel = ⊥

pub check_indexes-IndexVerdict :
    (n i : ℕ) (ps : List ℤ) → IndexVerdict n i ps (check_indexes n i ps)
unfolding check_indexes
check_indexes-IndexVerdict n i [] = λ z m. absurd (Memᴰ.not-nil m)
check_indexes-IndexVerdict n i (negsuc k ∷ ps) = (negsuc k, Memᴰ.head refl, inl (refl, λ p e. cc))
check_indexes-IndexVerdict n i (pos p ∷ ps) = elim (Bool-cases (ltb p n)) [
  | inr out ↦ rw (out, check_indexes) (pos p, Memᴰ.head refl, inl (refl, λ q e. ground arith))
  | inl within ↦ elim (Bool-cases (eqb_ℕ p i)) [
    | inl own ↦ rw (within, own, check_indexes) (pos p, Memᴰ.head refl, inr (refl, ground arith))
    | inr other ↦
        rw (within, other, check_indexes)
          (pass (ltb→lt p n within) (==_no p i other) (check_indexes n i ps)
            (check_indexes-IndexVerdict n i ps))
  ]
]
  where
    ==_no : (p i : ℕ) → eqb_ℕ p i ≡ false → p ≢ i
    ==_no p i h = ground arith

    pass :
        p < n
        → p ≢ i
        → (r : Result (Unit {0})) → IndexVerdict n i ps r
        → IndexVerdict n i (pos p ∷ ps) r
    pass lt ne (ok _) h = λ z m. elim (Memᴰ.cases_cons m) [ inl e ↦ (p, e, lt, ne) | inr t ↦ h z t ]
    pass lt ne (err e) (z, m, f) = (z, Memᴰ.tail m, f)
    pass lt ne panic h = h
    pass lt ne out_of_fuel h = h
