-- ===== src/Challenge/Hints.antt =====
-- The hints of a challenge (`planHints` and `hintsUpToDate` with their parts, of
-- internal/controller/challenge/flagshints.go). The calls to CTFd are in `HintSync`.
pub mod Plan
pub mod Queues
pub mod Turns
pub mod Filled
pub mod Bounds
use ctfd_crossplane_provider.Prelude.{
  ℕ, String, ℤ, pos, negsuc, is_negative, Bool, true, false, not, ◌&&◌, ◌||◌, Option, none, some,
  List, [], ◌∷◌, length, ltb, if◌then◌else◌, ◌==◌, nat_eq, int_eq, string_eq,
}
use ctfd_crossplane_provider.Result.{Result, ok, err, panic, out_of_fuel, at, ◌>>=◌}
use ctfd_crossplane_provider.GoMap.{Map, lookup, insert}
use ctfd_crossplane_provider.Ctfd.{CtfdRequirements, Hint}
use ctfd_crossplane_provider.Apis.Challenge.{ChallengeHint}
use ctfd_crossplane_provider.Challenge.Keys.{deref_string, hint_key}
use ctfd_crossplane_provider.Challenge.Multiset.{same_int_set}
use ctfd_crossplane_provider.Challenge.Conversion.{eq_str_ptr, prerequisites_of}
use ctfd_crossplane_provider.Challenge.Prereqs.{validate_hint_prereqs}
use ctfd_crossplane_provider.Challenge.Pool.{Pool, ids_at, pool_into, all_ids}

abbrev pub desired_hint_key : ChallengeHint → String
desired_hint_key d = hint_key d.content d.title d.cost

abbrev pub existing_hint_key : Hint → String
existing_hint_key h = hint_key (deref_string h.content) h.title h.cost

abbrev pub hint_id : Hint → ℤ
hint_id h = h.id

-- The ID of a hint that must be created: -1.
abbrev pub missing : ℤ
missing = negsuc 0

-- The loop over the desired hints: their IDs, and the pool of what was not matched.
unfoldable pub assign : Pool → List ChallengeHint → List ℤ × Pool
assign pool [] = ([], pool)
assign pool (d ∷ ds) = elim (ids_at (desired_hint_key d) pool) [
  | id ∷ ids ↦
      let (rest, pool') = assign (insert (desired_hint_key d) ids pool) ds in (id ∷ rest, pool')
  | [] ↦ let (rest, pool') = assign pool ds in (missing ∷ rest, pool')
]

-- `walk` is the order in which `range` goes through the pool.
unfoldable pub plan_hints : (Pool → Pool) → List ChallengeHint → List Hint → List ℤ × List ℤ
unfolding pool_into assign
plan_hints walk desired existing =
    let (id_by_index, pool) = assign (pool_into existing_hint_key hint_id [] existing) desired in
    (id_by_index, all_ids (walk pool))

-- xs[i]
abbrev pub at_int : List ℤ → ℤ → Result ℤ
at_int xs (pos n) = at xs n
at_int xs (negsuc n) = panic

unfoldable pub map_prereqs : List ℤ → List ℤ → Result (List ℤ)
map_prereqs [] id_by_index = ok []
map_prereqs (i ∷ idx) id_by_index = do
  id ← at_int id_by_index i
  out ← map_prereqs idx id_by_index
  ok (id ∷ out)

-- The argument is `none` for a nil hint.
unfoldable pub prereqs_of : Option Hint → List ℤ
prereqs_of none = []
prereqs_of (some h) = prerequisites_of h.requirements

abbrev pub anonymize_of : Option CtfdRequirements → Option String
anonymize_of none = none
anonymize_of (some r) = r.anonymize

unfoldable pub eq_anonymize : Option String → Option Hint → Bool
unfolding eq_str_ptr
eq_anonymize none h = true
eq_anonymize (some want) none = eq_str_ptr (some want) none
eq_anonymize (some want) (some h) = eq_str_ptr (some want) (anonymize_of h.requirements)

-- byID
unfoldable pub index_by_id : Map ℤ Hint → List Hint → Map ℤ Hint
index_by_id by_id [] = by_id
index_by_id by_id (h ∷ hs) = index_by_id (insert h.id h by_id) hs

-- The last loop of `hintsUpToDate`, over the desired hints and their IDs.
unfoldable pub hints_match : Map ℤ Hint → List ℤ → List ℤ → List ChallengeHint → Result Bool
unfolding map_prereqs prereqs_of eq_anonymize same_int_set
hints_match by_id id_by_index ids [] = ok true
hints_match by_id id_by_index [] (d ∷ ds) = panic
hints_match by_id id_by_index (id ∷ ids) (d ∷ ds) =
    let rest = hints_match by_id id_by_index ids ds in
    if is_negative id then ok false else do
      want ← map_prereqs d.prerequisites id_by_index
      if not (same_int_set want (prereqs_of (lookup id by_id)))
          then ok false
          else if ltb 0 (length d.prerequisites) && not (eq_anonymize d.anonymize (lookup id by_id))
          then ok false
          else rest

-- The part of `hintsUpToDate` after the validation.
unfoldable pub planned_up_to_date : List ChallengeHint → List Hint → List ℤ × List ℤ → Result Bool
unfolding hints_match index_by_id
planned_up_to_date desired existing (id_by_index, deletes) =
    if ltb 0 (length deletes)
    then ok false
    else hints_match (index_by_id [] existing) id_by_index id_by_index desired

-- `if err := validateHintPrereqs(desired); err != nil { return false }`
abbrev pub if_valid : Result (Unit {0}) → Result Bool → Result Bool
if_valid (ok _) rest = rest
if_valid (err _) rest = ok false
if_valid panic rest = panic
if_valid out_of_fuel rest = out_of_fuel

unfoldable pub hints_up_to_date : (Pool → Pool) → List ChallengeHint → List Hint → Result Bool
unfolding plan_hints planned_up_to_date validate_hint_prereqs
hints_up_to_date walk desired existing =
    if_valid (validate_hint_prereqs desired)
      (planned_up_to_date desired existing (plan_hints walk desired existing))
