-- ===== src/Examples/Hints.antt =====
-- The theorems on hints at a challenge with two hints, the second of which requires the first.
use Prim.Native.String.{◌++◌}
use ctfd_crossplane_provider.Prelude.{
  String, pos, ◌≡◌, ◌↔◌, refl, true, false, none, some, List, [], ◌∷◌, arith,
}
use ctfd_crossplane_provider.Result.{Error, ok, err, own_prerequisite}
use ctfd_crossplane_provider.Strconv.Digits.{itoa}
use ctfd_crossplane_provider.Challenge.Keys.{deref_string, hint_key}
use ctfd_crossplane_provider.Challenge.Keys.Identity.{NoNul, hint_key_iff, hint_key_collides}
use ctfd_crossplane_provider.Ctfd.{Hint}
use ctfd_crossplane_provider.Apis.Challenge.{ChallengeHint}
use ctfd_crossplane_provider.Challenge.Prereqs.{validate_hint_prereqs}
use ctfd_crossplane_provider.Challenge.Prereqs.Graph.{InRange, IsAcyclic}
use ctfd_crossplane_provider.Challenge.Prereqs.Decides.{
  Validated, validate_hint_prereqs-Validated, validate_hint_prereqs_iff,
}
use ctfd_crossplane_provider.Challenge.Hints.{plan_hints, hints_up_to_date}
use ctfd_crossplane_provider.Challenge.Hints.Plan.{IsPlan, plan_hints-IsPlan}
use ctfd_crossplane_provider.Challenge.HintSync.{challenge_hints, sync_hints}
use ctfd_crossplane_provider.Challenge.HintSync.Stable.{sync_hints_stable, sync_hints_refuses}
use ctfd_crossplane_provider.Examples.Instance.{World, instance_client}
use ctfd_crossplane_provider.Examples.Flags.{as_stored, as_stored-Perm}

abbrev look : ChallengeHint
look = record {
  content = "Look closer";
  title = none;
  cost = pos 10;
  prerequisites = [];
  anonymize = none;
}

abbrev read : ChallengeHint
read = record {
  content = "Read the source";
  title = some "Source";
  cost = pos 50;
  prerequisites = pos 0 ∷ [];
  anonymize = none;
}

abbrev pub desired : List ChallengeHint
desired = look ∷ read ∷ []

abbrev existing : List Hint
existing =
    record {
      id = pos 8;
      title = some "Source";
      content = some "Read the source";
      cost = pos 50;
      requirements = some (record { anonymize = none; prerequisites = pos 5 ∷ [] });
    }
    ∷ record {
      id = pos 5;
      title = some "";
      content = some "Look closer";
      cost = pos 10;
      requirements = none;
    }
    ∷ []

-- A hint that requires itself.
abbrev locked : List ChallengeHint
locked = record look { prerequisites = pos 0 ∷ [] } ∷ []

abbrev pub world : World
world = ([], existing)

existing-read : challenge_hints instance_client (pos 7) world ≡ (ok existing, world)
unfolding challenge_hints itoa
existing-read = refl

existing-fresh : hints_up_to_date as_stored desired existing ≡ ok true
unfolding hints_up_to_date hint_key
existing-fresh = refl

locked-refused : validate_hint_prereqs locked ≡ err (own_prerequisite 0)
unfolding validate_hint_prereqs
locked-refused = refl

locked-invalid : ¬ (InRange locked × IsAcyclic locked)
locked-invalid good = cc ((validate_hint_prereqs_iff locked).1 good, locked-refused)

validate_hint_prereqs_iff_example :
    (validate_hint_prereqs desired ≡ ok tt) ↔ (InRange desired × IsAcyclic desired)
validate_hint_prereqs_iff_example = validate_hint_prereqs_iff desired

validate_hint_prereqs-Validated_example : Validated locked (validate_hint_prereqs locked)
validate_hint_prereqs-Validated_example = validate_hint_prereqs-Validated locked

plan_hints-IsPlan_example :
    IsPlan desired existing
      (plan_hints as_stored desired existing).0
      (plan_hints as_stored desired existing).1
plan_hints-IsPlan_example = plan_hints-IsPlan as_stored as_stored-Perm desired existing

sync_hints_stable_example :
    sync_hints instance_client as_stored (pos 7) desired world ≡ (ok tt, world)
sync_hints_stable_example =
    sync_hints_stable instance_client as_stored as_stored-Perm (pos 7) desired existing world world
      existing-read existing-fresh

sync_hints_refuses_example :
    (e : Error) × (sync_hints instance_client as_stored (pos 7) locked world ≡ (err e, world))
    × ((listed : List Hint) → hints_up_to_date as_stored locked listed ≡ ok false)
sync_hints_refuses_example =
    sync_hints_refuses instance_client as_stored (pos 7) locked world locked-invalid

short-NoNul : NoNul "Look"
short-NoNul = ground arith

empty-NoNul : NoNul ""
empty-NoNul = tt

abbrev content : String
content = "Look"

hint_key_iff_example :
    (hint_key content none (pos 5) ≡ hint_key content (some "") (pos 5))
    ↔ ((content ≡ content) × (deref_string none ≡ deref_string (some "")) × (pos 5 ≡ pos 5))
hint_key_iff_example =
    hint_key_iff content none (pos 5) content (some "") (pos 5) short-NoNul empty-NoNul short-NoNul
      empty-NoNul

hint_key_collides_example :
    hint_key ("a" ++ ("\0" ++ "b")) (some "c") (pos 5)
    ≡ hint_key "a" (some ("b" ++ ("\0" ++ "c"))) (pos 5)
hint_key_collides_example = hint_key_collides "a" "b" "c" (pos 5)
