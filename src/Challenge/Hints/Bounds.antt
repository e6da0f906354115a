-- ===== src/Challenge/Hints/Bounds.antt =====
-- The indices that `hintsUpToDate` uses (internal/controller/challenge/flagshints.go).
use mathlib.Core.List.{Memᴰ, Perm}
use ctfd_crossplane_provider.Prelude.{
  ℕ, suc, ◌<◌, ℤ, pos, is_negative, ◌≡◌, refl, ap, ◌∙◌, inl, inr, Bool, true, false, some, List, [],
  ◌∷◌, arith, if◌then◌else◌, length, get_elem?, get_elem?_of_lt, int_eq, Bool-cases,
}
use ctfd_crossplane_provider.Result.{Result, ok, err, panic, out_of_fuel, at-get_elem?}
use ctfd_crossplane_provider.Exec.Returned.{IsReturned}
use ctfd_crossplane_provider.GoMap.{Map}
use ctfd_crossplane_provider.Ctfd.{Hint}
use ctfd_crossplane_provider.Apis.Challenge.{ChallengeHint}
use ctfd_crossplane_provider.Challenge.Prereqs.{validate_hint_prereqs}
use ctfd_crossplane_provider.Challenge.Prereqs.Graph.{InRange}
use ctfd_crossplane_provider.Challenge.Prereqs.Decides.{
  Validated, validate_hint_prereqs-Validated, validate_hint_prereqs_iff,
}
use ctfd_crossplane_provider.Challenge.Pool.{Pool}
use ctfd_crossplane_provider.Challenge.Hints.{
  at_int, map_prereqs, plan_hints, index_by_id, hints_match, planned_up_to_date, if_valid,
  hints_up_to_date,
}
use ctfd_crossplane_provider.Challenge.Hints.Plan.{plan_hints-IsPlan}

-- Prerequisite indexes within a list of IDs give IDs.
pub map_prereqs-returns :
    (idx all : List ℤ)
    → ((z : ℤ) → Memᴰ z idx → (p : ℕ) × (z ≡ pos p) × (p < length all))
    → (want : List ℤ) × (map_prereqs idx all ≡ ok want)
unfolding map_prereqs
map_prereqs-returns [] all f = ([], refl)
map_prereqs-returns (z ∷ idx) all f =
    let (p, same, within) = f z (Memᴰ.head refl) in
    let (id, found) = get_elem?_of_lt all p within in
    let (want, e) = map_prereqs-returns idx all (λ y m. f y (Memᴰ.tail m)) in
    let first : at_int all z ≡ ok id = ap (at_int all) same ∙ at-get_elem? all p found in
    (id ∷ want, rw (first, e) refl)

-- Every desired hint can be mapped.
abbrev pub Maps : List ℤ → List ChallengeHint → Type 0
Maps all ds =
    (i : ℕ) (d : ChallengeHint)
    → get_elem? ds i ≡ some d
    → (want : List ℤ) × (map_prereqs d.prerequisites all ≡ ok want)

pub InRange-Maps :
    (ds : List ChallengeHint) (all : List ℤ) → InRange ds → length all ≡ length ds → Maps all ds
InRange-Maps ds all within n i d at_i =
    map_prereqs-returns d.prerequisites all
      (λ z m. let (j, same, lt) = within i z (d, at_i, m) in (j, same, omega (arith, lt, n)))

pub validated : (ds : List ChallengeHint) → IsReturned (validate_hint_prereqs ds)
validated ds = by_case (validate_hint_prereqs ds) (validate_hint_prereqs-Validated ds)
  where
    by_case : (r : Result (Unit {0})) → Validated ds r → IsReturned r
    by_case (ok _) v = tt
    by_case (err e) v = tt
    by_case panic v = v
    by_case out_of_fuel v = v

pub valid-InRange : (ds : List ChallengeHint) → validate_hint_prereqs ds ≡ ok tt → InRange ds
valid-InRange ds valid = ((validate_hint_prereqs_iff ds).0 valid).0

tested :
    (a b : Bool) (r : Result Bool)
    → IsReturned r
    → IsReturned (if a then ok false else if b then ok false else r)
tested true b r p = tt
tested false true r p = tt
tested false false r p = p

hints_match-IsReturned :
    (by_id : Map ℤ Hint) (all ids : List ℤ) (ds : List ChallengeHint)
    → length ids ≡ length ds
    → Maps all ds
    → IsReturned (hints_match by_id all ids ds)
unfolding hints_match
hints_match-IsReturned by_id all ids [] n f = tt
hints_match-IsReturned by_id all [] (d ∷ ds) n f = absurd (omega (arith, n))
hints_match-IsReturned by_id all (id ∷ ids) (d ∷ ds) n f =
    let (want, mapped) = f 0 d refl in
    let rest = hints_match-IsReturned by_id all ids ds (omega (arith, n)) (λ i. f (suc i)) in
    elim (Bool-cases (is_negative id)) [
      | inl negative ↦ rw negative tt
      | inr exists ↦ rw (exists, mapped) (tested _ _ _ rest)
    ]

if_valid-IsReturned :
    (valid : Result (Unit {0})) (r : Result Bool)
    → IsReturned valid
    → (valid ≡ ok tt → IsReturned r)
    → IsReturned (if_valid valid r)
if_valid-IsReturned (ok _) r p f = f refl
if_valid-IsReturned (err e) r p f = tt
if_valid-IsReturned panic r p f = p
if_valid-IsReturned out_of_fuel r p f = p

planned_up_to_date-IsReturned :
    (ds : List ChallengeHint) (existing : List Hint) (ids deletes : List ℤ)
    → length ids ≡ length ds
    → InRange ds
    → IsReturned (planned_up_to_date ds existing (ids, deletes))
unfolding planned_up_to_date
planned_up_to_date-IsReturned ds existing ids [] n within =
    hints_match-IsReturned (index_by_id [] existing) ids ids ds n (InRange-Maps ds ids within n)
planned_up_to_date-IsReturned ds existing ids (z ∷ zs) n within = ground arith

pub hints_up_to_date-IsReturned :
    (walk : Pool → Pool)
    → ((pool : Pool) → Perm (walk pool) pool)
    → (ds : List ChallengeHint) (existing : List Hint)
    → IsReturned (hints_up_to_date walk ds existing)
unfolding hints_up_to_date
hints_up_to_date-IsReturned walk order ds existing =
    let plan = plan_hints walk ds existing in
    if_valid-IsReturned (validate_hint_prereqs ds) (planned_up_to_date ds existing plan)
      (validated ds)
      (λ valid.
        planned_up_to_date-IsReturned ds existing plan.0 plan.1
          (plan_hints-IsPlan walk order ds existing).sized (valid-InRange ds valid))
