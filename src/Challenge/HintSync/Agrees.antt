-- ===== src/Challenge/HintSync/Agrees.antt =====
-- What a passed test of `hintsUpToDate` says of one hint.
use ctfd_crossplane_provider.Prelude.{
  ℤ, is_negative, ◌≡◌, refl, sym, ◌∙◌, inl, inr, Bool, true, false, not, ◌&&◌, Option, List, ◌∷◌,
  arith, if◌then◌else◌, length, ltb, ==_iff, int_eq, string_eq, nat_eq, Bool-cases,
}
use ctfd_crossplane_provider.Result.{Result, ok, err, panic, out_of_fuel, ◌>>=◌, >>=-eq-ok}
use ctfd_crossplane_provider.GoMap.{Map, lookup}
use ctfd_crossplane_provider.Ctfd.{Hint}
use ctfd_crossplane_provider.Apis.Challenge.{ChallengeHint}
use ctfd_crossplane_provider.Challenge.Multiset.{same_int_set}
use ctfd_crossplane_provider.Challenge.Hints.{
  map_prereqs, prereqs_of, eq_anonymize, hints_match, if_valid,
}
use ctfd_crossplane_provider.Challenge.HintSync.{requirements_agree}

-- A desired hint and its planned ID need no call.
pub record Agrees (by_id : Map ℤ Hint) (id_by_index : List ℤ) (id : ℤ) (d : ChallengeHint)
    : Type 0 where
  pub exists : is_negative id ≡ false
  pub want : List ℤ
  pub mapped : map_prereqs d.prerequisites id_by_index ≡ ok want
  pub agree : requirements_agree d want (lookup id by_id) ≡ true

-- The tests of `hintsUpToDate` on a hint that exists.
abbrev tests : ChallengeHint → Option Hint → Result Bool → List ℤ → Result Bool
tests d h rest want =
    if not (same_int_set want (prereqs_of h))
    then ok false
    else if ltb 0 (length d.prerequisites) && not (eq_anonymize d.anonymize h)
    then ok false
    else rest

module _ (by_id : Map ℤ Hint) (all : List ℤ) where
  agree_if :
      (d : ChallengeHint) (want : List ℤ) (h : Option Hint) (rest : Result Bool)
      → tests d h rest want ≡ ok true
      → (requirements_agree d want h ≡ true) × (rest ≡ ok true)
  unfolding requirements_agree
  agree_if d want h rest e = ground (arith, e, ==_iff (length d.prerequisites) 0)

  pub hints_match-Agrees :
      (id : ℤ) (ids : List ℤ) (d : ChallengeHint) (ds : List ChallengeHint)
      → hints_match by_id all (id ∷ ids) (d ∷ ds) ≡ ok true
      → Agrees by_id all id d × (hints_match by_id all ids ds ≡ ok true)
  unfolding hints_match
  hints_match-Agrees id ids d ds e = elim (Bool-cases (is_negative id)) [
    | inl negative ↦
        let none_here : hints_match by_id all (id ∷ ids) (d ∷ ds) ≡ ok false = rw negative refl in
        absurd (cc (none_here, e))
    | inr exists ↦
        let h = lookup id by_id in
        let remaining = hints_match by_id all ids ds in
        let here : (map_prereqs d.prerequisites all >>= tests d h remaining) ≡ ok true =
          sym (rw exists refl) ∙ e in
        let (want, mapped, passed) =
          >>=-eq-ok (map_prereqs d.prerequisites all) (tests d h remaining) here in
        let (agree, rest) = agree_if d want h remaining passed in
        (record { exists = exists; want = want; mapped = mapped; agree = agree }, rest)
  ]

pub if_valid-eq-true :
    (valid : Result (Unit {0})) (r : Result Bool)
    → if_valid valid r ≡ ok true
    → (valid ≡ ok tt) × (r ≡ ok true)
if_valid-eq-true (ok _) r e = (refl, e)
if_valid-eq-true (err x) r e = cc
if_valid-eq-true panic r e = cc
if_valid-eq-true out_of_fuel r e = cc
