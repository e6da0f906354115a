-- ===== src/Examples/Updates.antt =====
-- An update of a challenge that was renamed and whose hints are stale, and the observation after it.
use ctfd_crossplane_provider.Prelude.{
  map, List, ◌∷◌, String, pos, ==_iff, int_eq, ◌≡◌, ◌≢◌, ◌⊎◌, ◌↔◌, refl, true, Option, none, some,
  [], arith,
}
use ctfd_crossplane_provider.Result.{Error, ok, external}
use ctfd_crossplane_provider.Strconv.Digits.{itoa, atoi}
use ctfd_crossplane_provider.Apis.Managed.{available, ExternalObservation}
use ctfd_crossplane_provider.Apis.Challenge.{Challenge}
use ctfd_crossplane_provider.Challenge.Keys.{hint_key}
use ctfd_crossplane_provider.Challenge.Conversion.{
  post_params, type_or_default, challenge_observation,
}
use ctfd_crossplane_provider.Challenge.Flags.Sync.{UniqueIds}
use ctfd_crossplane_provider.Challenge.HintSync.Server.{ValidIds}
use ctfd_crossplane_provider.Challenge.Controller.{
  set_condition, set_at_provider, observe, create, update, delete,
}
use ctfd_crossplane_provider.Challenge.Controller.Returned.{handlers-AlwaysReturns}
use ctfd_crossplane_provider.Exec.Returned.{IsReturned, AlwaysReturns}
use ctfd_crossplane_provider.CtfdClient.{AllGiven, ClientReturns}
use ctfd_crossplane_provider.Ctfd.{Hint}
use ctfd_crossplane_provider.Examples.Instance.{World, or_refusal}
use ctfd_crossplane_provider.Examples.HintStore.{named}
use ctfd_crossplane_provider.Challenge.Controller.Desired.{AsDesired, observe-up_to_date_iff}
use ctfd_crossplane_provider.Challenge.Controller.Update.{Repaired, update-observed}
use ctfd_crossplane_provider.Examples.Flags.{as_stored, as_stored-Perm}
use ctfd_crossplane_provider.Examples.Hints.{desired}
use ctfd_crossplane_provider.Examples.HintSync.{stale, stale-ValidIds, after}
use ctfd_crossplane_provider.Examples.Challenges.{resource, wanted, found, drifted}
use ctfd_crossplane_provider.Examples.WholeChallenge.{Whole, whole_client, stored, whole_server}

abbrev pub with_hints : Challenge
with_hints = record resource {
  metadata = record resource.metadata { external_name = "7" };
  spec = record { for_provider = record wanted { hints = desired } };
}

abbrev world_before : Whole
world_before = ((drifted, none), ([], stale))

abbrev world_after : Whole
world_after = ((found, none), after)

abbrev pub not_a_number : String → Error
not_a_number name = external "not a number"

abbrev seen : Challenge
seen = set_condition available (set_at_provider (challenge_observation found [] after.1) with_hints)

abbrev pub settled : ExternalObservation
settled = record { resource_exists = true; resource_up_to_date = true }

named-7 : "7" ≡ itoa (pos 7)
unfolding itoa
named-7 = refl

after-ValidIds : ValidIds after.1
after-ValidIds = record {
  unique = λ z. ground (arith, ==_iff (pos 5) z, ==_iff (pos 16) z);
  nonneg = λ z n. ground (arith, n, ==_iff (pos 5) z, ==_iff (pos 16) z);
}

none-UniqueIds : UniqueIds []
none-UniqueIds = λ z. omega arith

ran :
    update whole_client as_stored not_a_number (with_hints, world_before)
    ≡ (ok tt, (with_hints, world_after))
unfolding update atoi itoa hint_key post_params
ran = refl

observed :
    observe whole_client as_stored (with_hints, world_after) ≡ (ok settled, (seen, world_after))
unfolding observe atoi itoa hint_key post_params
observed = refl

update-observed_example :
    Repaired with_hints.spec.for_provider with_hints.status.at_provider.state
      (stored world_before)
      (stored world_after)
    × ((true ≡ true) ↔ (drifted.type ≡ type_or_default wanted.type))
update-observed_example =
    update-observed whole_client (pos 7) stored whole_server as_stored as_stored as_stored-Perm
      as_stored-Perm not_a_number with_hints with_hints seen world_before world_after world_after
      settled (omega arith) named-7 none-UniqueIds stale-ValidIds ran observed refl refl

observe-up_to_date_iff_example :
    ((settled.resource_up_to_date ≡ true)
      ↔ AsDesired with_hints.spec.for_provider world_after.0.1 (stored world_after))
    × ((world_after.0.1 ≡ world_after.0.1) ⊎ (◌≢◌ {A = Option Error} none none))
observe-up_to_date_iff_example =
    observe-up_to_date_iff whole_client (pos 7) stored whole_server as_stored as_stored-Perm
      with_hints seen world_after world_after settled (omega arith) named-7 after-ValidIds observed
      refl

all_given : {A : Type 0} (xs : List A) → AllGiven (map some xs)
all_given [] = tt
all_given (x ∷ xs) = all_given xs

client-ClientReturns : ClientReturns whole_client
client-ClientReturns = record {
  get_challenge = λ cid w. tt;
  get_challenge_flags = λ cid w. all_given w.1.0;
  get_challenge_hints = λ cid w. all_given w.1.1;
  get_hint = λ name w. or_refusal-IsReturned (named name none w.1.1) w.1;
  post_challenges = λ q w. tt;
  patch_challenge = λ cid q w. tt;
  delete_challenge = λ cid w. tt;
  post_flags = λ q w. tt;
  delete_flag = λ name w. tt;
  post_hints = λ q w. tt;
  patch_hint = λ name q w. tt;
  delete_hint = λ name w. tt;
}
  where
    or_refusal-IsReturned : (o : Option Hint) (w : World) → IsReturned (or_refusal o w).0
    or_refusal-IsReturned none w = tt
    or_refusal-IsReturned (some h) w = tt

handlers-AlwaysReturns_example :
    AlwaysReturns (observe whole_client as_stored)
    × AlwaysReturns (create whole_client as_stored)
    × ((atoi_error : String → Error) → AlwaysReturns (update whole_client as_stored atoi_error))
    × AlwaysReturns (delete whole_client as_stored)
handlers-AlwaysReturns_example =
    handlers-AlwaysReturns whole_client client-ClientReturns as_stored as_stored-Perm
