-- ===== src/Examples/Lifecycle.antt =====
-- A challenge with two hints from its creation to the observation that finds it up to date.
use ctfd_crossplane_provider.Prelude.{pos, ◌≡◌, refl, true, none, some, [], ◌∷◌, arith}
use ctfd_crossplane_provider.Result.{ok}
use ctfd_crossplane_provider.Strconv.Digits.{itoa, atoi}
use ctfd_crossplane_provider.Apis.Managed.{creating, available}
use ctfd_crossplane_provider.Apis.Challenge.{Challenge}
use ctfd_crossplane_provider.Challenge.Keys.{hint_key}
use ctfd_crossplane_provider.Challenge.Conversion.{post_params, challenge_observation}
use ctfd_crossplane_provider.Challenge.Controller.{
  set_condition, set_at_provider, observe, create, update,
}
use ctfd_crossplane_provider.Challenge.Controller.Lifecycle.{New, create-update-observed}
use ctfd_crossplane_provider.Examples.Flags.{as_stored, as_stored-Perm}
use ctfd_crossplane_provider.Examples.Challenges.{found, drifted}
use ctfd_crossplane_provider.Examples.WholeChallenge.{Whole, whole_client, stored, whole_server}
use ctfd_crossplane_provider.Examples.Updates.{with_hints, not_a_number, settled}

abbrev unnamed : Challenge
unnamed = record with_hints { metadata = record with_hints.metadata { external_name = "warmup" } }

abbrev named : Challenge
named = set_condition creating with_hints

-- Another challenge stands before, of which nothing is left in the memory of the instance.
abbrev nothing : Whole
nothing = ((drifted, none), ([], []))

abbrev posted : Whole
posted = ((found, none), ([], []))

abbrev synced : Whole
synced = (
  (record found { state = "visible" }, none),
  (
    [],
    record {
      id = pos 1;
      title = none;
      content = some "Look closer";
      cost = pos 10;
      requirements = none;
    }
        ∷ record {
          id = pos 3;
          title = some "Source";
          content = some "Read the source";
          cost = pos 50;
          requirements = some (record { anonymize = none; prerequisites = pos 1 ∷ [] });
        }
        ∷ [],
  ),
)

abbrev seen : Challenge
seen =
    set_condition available (set_at_provider (challenge_observation synced.0.0 [] synced.1.1) named)

posted-New : New (post_params unnamed.spec.for_provider) (stored posted)
unfolding post_params
posted-New = record { type = refl; flags = refl; hints = refl }

sent :
    whole_client.post_challenges (post_params unnamed.spec.for_provider) nothing
    ≡ (ok found, posted)
unfolding post_params
sent = refl

created : create whole_client as_stored (unnamed, nothing) ≡ (ok tt, (named, posted))
unfolding create itoa
created = refl

updated : update whole_client as_stored not_a_number (named, posted) ≡ (ok tt, (named, synced))
unfolding update atoi itoa hint_key post_params
updated = refl

observed : observe whole_client as_stored (named, synced) ≡ (ok settled, (seen, synced))
unfolding observe atoi itoa hint_key post_params
observed = refl

create-update-observed_example : settled.resource_up_to_date ≡ true
create-update-observed_example =
    create-update-observed whole_client stored as_stored as_stored as_stored-Perm as_stored-Perm
      not_a_number unnamed named named named seen nothing posted posted synced synced found settled
      whole_server (omega arith) sent posted-New created refl refl refl updated observed refl refl
