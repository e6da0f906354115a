-- ===== src/Challenge/Prereqs.antt =====
-- The validation of hint prerequisites in internal/controller/challenge/flagshints.go: the range
-- checks, and the search for a cycle by depth-first search with three colours.
pub mod Graph
pub mod Search
pub mod Visit
pub mod Correct
pub mod Decides
use ctfd_crossplane_provider.Prelude.{
  ℕ, zero, suc, ℤ, pos, negsuc, none, some, List, [], ◌∷◌, length, get_elem?, set, replicate, ltb,
  eqb_ℕ, not, if◌then◌else◌,
}
use ctfd_crossplane_provider.Result.{
  Result, ok, err, panic, out_of_fuel, out_of_range, own_prerequisite, cycle, at, ◌>>=◌, ◌>>◌,
}
use ctfd_crossplane_provider.Apis.Challenge.{ChallengeHint}

pub data Color : Type 0 where
  white gray black : Color

abbrev pub Colors : Type 0
Colors = List Color

module _ (visit_prereq : ℕ → Colors → Result Colors) (i : ℕ) where
  -- The loop of `visit` over the prerequisites of hint `i`, with the recursive call as a parameter.
  unfoldable pub explore : List ℤ → Colors → Result Colors
  explore [] color = ok color
  explore (negsuc k ∷ ps) color = panic
  explore (pos p ∷ ps) color = elim (get_elem? color p) [
    | none ↦ panic
    | some gray ↦ err (cycle i)
    | some white ↦ visit_prereq p color >>= explore ps
    | some black ↦ explore ps color
  ]

module _ (desired : List ChallengeHint) where
  -- The closure `visit`. Each level of the recursion turns a white hint gray.
  unfoldable pub visit : ℕ → ℕ → Colors → Result Colors
  unfolding explore
  visit zero i color = out_of_fuel
  visit (suc fuel) i color = do
    h ← at desired i
    color' ← explore (visit fuel) i h.prerequisites (set color i gray)
    ok (set color' i black)

  -- The loop over all hints; `n` are left, and `i` is the next.
  unfoldable pub visit_all : ℕ → ℕ → Colors → Result Colors
  unfolding visit
  visit_all zero i color = ok color
  visit_all (suc n) i color = elim (get_elem? color i) [
    | none ↦ panic
    | some white ↦ visit (suc (length desired)) i color >>= visit_all n (suc i)
    | some gray ↦ visit_all n (suc i) color
    | some black ↦ visit_all n (suc i) color
  ]

  unfoldable pub detect_hint_cycle : Result (Unit {0})
  unfolding visit_all
  detect_hint_cycle = visit_all (length desired) 0 (replicate (length desired) white) >> ok tt

-- The inner loop of `validateHintPrereqs`, over the prerequisites of hint `i`.
unfoldable pub check_indexes : ℕ → ℕ → List ℤ → Result (Unit {0})
check_indexes n i [] = ok tt
check_indexes n i (negsuc k ∷ ps) = err (out_of_range i (negsuc k) n)
check_indexes n i (pos p ∷ ps) =
    if not (ltb p n)
    then err (out_of_range i (pos p) n)
    else if eqb_ℕ p i
    then err (own_prerequisite i)
    else check_indexes n i ps

-- The outer loop; `i` is the index of the first hint of the rest.
unfoldable pub check_hints : ℕ → ℕ → List ChallengeHint → Result (Unit {0})
unfolding check_indexes
check_hints n i [] = ok tt
check_hints n i (h ∷ hs) = check_indexes n i h.prerequisites >> check_hints n (suc i) hs

unfoldable pub validate_hint_prereqs : List ChallengeHint → Result (Unit {0})
unfolding check_hints detect_hint_cycle
validate_hint_prereqs desired = check_hints (length desired) 0 desired >> detect_hint_cycle desired
