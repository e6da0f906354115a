-- ===== src/Examples/Challenges.antt =====
-- The theorems on challenges at one challenge.
use ctfd_crossplane_provider.Prelude.{String, pos, ◌≡◌, ◌↔◌, refl, true, none, some, [], ◌∷◌, arith}
use ctfd_crossplane_provider.Result.{Error, ok}
use ctfd_crossplane_provider.Strconv.Digits.{itoa, atoi}
use ctfd_crossplane_provider.Ctfd.{CtfdChallenge}
use ctfd_crossplane_provider.Apis.Managed.{unset, deleting, absent}
use ctfd_crossplane_provider.Apis.Challenge.{Requirements, ChallengeParameters, Challenge}
use ctfd_crossplane_provider.Challenge.Conversion.{
  type_or_default, post_params, patch_params, is_up_to_date,
}
use ctfd_crossplane_provider.Challenge.Conversion.UpToDate.{Matches, is_up_to_date_iff}
use ctfd_crossplane_provider.Challenge.Conversion.Drift.{
  Patched, patch_params_settle, is_up_to_date-anonymize,
}
use ctfd_crossplane_provider.Challenge.Controller.{
  set_condition, observe, observe_numbered, create, update, update_numbered, delete,
  delete_numbered,
}
use ctfd_crossplane_provider.Challenge.Controller.ExternalName.{create-numbers}
use ctfd_crossplane_provider.Challenge.Controller.Observation.{IsObserved, observe-IsObserved}
use ctfd_crossplane_provider.Examples.Instance.{World, instance_client, reported}
use ctfd_crossplane_provider.Examples.Flags.{as_stored}

abbrev pub wanted : ChallengeParameters
wanted = record {
  name = "warmup";
  category = "web";
  description = "Find the flag";
  type = "";
  state = "visible";
  value = some (pos 100);
  initial = none;
  decay = none;
  minimum = none;
  function = none;
  max_attempts = some (pos 3);
  connection_info = none;
  attribution = none;
  next_id = none;
  requirements = none;
  flags = [];
  hints = [];
}

abbrev pub found : CtfdChallenge
found = reported (pos 7) (post_params wanted)

abbrev pub drifted : CtfdChallenge
drifted = record found { name = "renamed"; state = "hidden" }

abbrev pub resource : Challenge
resource = record {
  metadata = record {
    namespace = "ctf";
    external_name = "warmup";
    provider_config = some (record { kind = "ProviderConfig"; name = "default" });
  };
  spec = record { for_provider = wanted };
  status = record {
    condition = unset;
    at_provider = record {
      id = pos 0;
      value = pos 0;
      state = "";
      type = "";
      solves = pos 0;
      flags = pos 0;
      hints = pos 0;
    };
  };
}

abbrev empty_world : World
empty_world = ([], [])

is_up_to_date_iff_example : (is_up_to_date wanted found none ≡ true) ↔ Matches wanted found none
is_up_to_date_iff_example = is_up_to_date_iff wanted found none

found-Patched : Patched (patch_params wanted "hidden") drifted found none
unfolding patch_params post_params
found-Patched = record {
  name = refl;
  category = refl;
  description = refl;
  state = refl;
  type = refl;
  value = λ t v e. cc;
  initial = λ v e. cc;
  decay = λ v e. cc;
  minimum = λ v e. cc;
  max_attempts = λ v e. cc;
  next_id = λ v e. cc;
  function = λ v e. cc;
  connection_info = λ v e. cc;
  attribution = λ v e. cc;
  requirements = λ r e. cc;
}

patch_params_settle_example :
    (is_up_to_date wanted found none ≡ true) ↔ (drifted.type ≡ type_or_default wanted.type)
patch_params_settle_example = patch_params_settle wanted "hidden" drifted found none found-Patched

abbrev first_only : Requirements
first_only = record { anonymize = none; prerequisites = pos 1 ∷ [] }

is_up_to_date-anonymize_example :
    is_up_to_date
      (record wanted { requirements = some (record first_only { anonymize = some "anonymous" }) })
      found
      none
    ≡ is_up_to_date (record wanted { requirements = some first_only }) found none
is_up_to_date-anonymize_example =
    is_up_to_date-anonymize wanted first_only (some "anonymous") found none

create-numbers_example :
    (named : Challenge) × (create instance_client as_stored (resource, empty_world)
      ≡ (ok tt, (named, empty_world)))
    × ((v : World)
        → observe instance_client as_stored (named, v)
          ≡ observe_numbered instance_client as_stored (some (pos 7)) (named, v))
    × ((e : String → Error) (v : World)
        → update instance_client as_stored e (named, v)
          ≡ update_numbered instance_client as_stored (e (itoa (pos 7))) (some (pos 7)) (named, v))
    × ((v : World)
        → delete instance_client as_stored (named, v)
          ≡ delete_numbered instance_client as_stored
              (some (pos 7))
              (set_condition deleting named, v))
create-numbers_example =
    create-numbers instance_client as_stored resource empty_world empty_world found (omega arith)
      refl

unnamed :
    observe instance_client as_stored (resource, empty_world) ≡ (ok absent, (resource, empty_world))
unfolding observe atoi
unnamed = refl

observe-IsObserved_example : IsObserved absent resource resource
observe-IsObserved_example =
    observe-IsObserved instance_client as_stored resource resource empty_world empty_world absent
      unnamed
