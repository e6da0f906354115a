-- ===== src/Examples/HintSync.antt =====
-- The synchronisation of hints at a challenge where one hint stands, one is missing and one is to go.
use ctfd_crossplane_provider.Prelude.{
  ◌↔◌, String, pos, ◌≡◌, refl, true, none, some, List, [], ◌∷◌, arith, ==_iff, int_eq,
}
use ctfd_crossplane_provider.Result.{ok}
use ctfd_crossplane_provider.Strconv.Digits.{itoa}
use ctfd_crossplane_provider.Ctfd.{Hint}
use ctfd_crossplane_provider.Challenge.Keys.{hint_key}
use ctfd_crossplane_provider.Challenge.Prereqs.{validate_hint_prereqs}
use ctfd_crossplane_provider.Challenge.Prereqs.Graph.{InRange, IsAcyclic}
use ctfd_crossplane_provider.Challenge.Prereqs.Decides.{validate_hint_prereqs_iff}
use ctfd_crossplane_provider.Challenge.Hints.{hints_up_to_date}
use ctfd_crossplane_provider.Challenge.HintSync.{sync_hints}
use ctfd_crossplane_provider.Challenge.HintSync.Server.{ValidIds}
use ctfd_crossplane_provider.Challenge.HintSync.Settles.{sync_hints-Spared, sync_hints_settles}
use ctfd_crossplane_provider.Challenge.HintSync.Planned.{Spared}
use ctfd_crossplane_provider.Challenge.HintSync.Matched.{Matched, hints_up_to_date_iff}
use ctfd_crossplane_provider.Challenge.Hints.Queues.{keyed_ids}
use ctfd_crossplane_provider.Challenge.HintSync.Returns.{sync_hints_converges}
use ctfd_crossplane_provider.Examples.Instance.{World, instance_client}
use ctfd_crossplane_provider.Examples.HintInstance.{hints_of, hint_server, hint_calls}
use ctfd_crossplane_provider.Examples.Flags.{as_stored, as_stored-Perm}
use ctfd_crossplane_provider.Examples.Hints.{desired}

abbrev pub stale : List Hint
stale =
    record {
      id = pos 8;
      title = none;
      content = some "Ask a friend";
      cost = pos 5;
      requirements = none;
    }
    ∷ record {
      id = pos 5;
      title = some "";
      content = some "Look closer";
      cost = pos 10;
      requirements = none;
    }
    ∷ []

abbrev before : World
before = ([], stale)

pub stale-ValidIds : ValidIds stale
stale-ValidIds = record {
  unique = λ z. ground (arith, ==_iff (pos 8) z, ==_iff (pos 5) z);
  nonneg = λ z n. ground (arith, n, ==_iff (pos 8) z, ==_iff (pos 5) z);
}

desired-valid : validate_hint_prereqs desired ≡ ok tt
unfolding validate_hint_prereqs
desired-valid = refl

abbrev pub after : World
after = (
  [],
  record {
    id = pos 5;
    title = some "";
    content = some "Look closer";
    cost = pos 10;
    requirements = none;
  }
      ∷ record {
        id = pos 16;
        title = some "Source";
        content = some "Read the source";
        cost = pos 50;
        requirements = some (record { anonymize = none; prerequisites = pos 5 ∷ [] });
      }
      ∷ [],
)

abbrev look_key : String
look_key = hint_key "Look closer" none (pos 10)

before-synced : sync_hints instance_client as_stored (pos 7) desired before ≡ (ok tt, after)
unfolding sync_hints itoa hint_key
before-synced = refl

sync_hints_settles_example : hints_up_to_date as_stored desired (hints_of after) ≡ ok true
sync_hints_settles_example =
    sync_hints_settles instance_client (pos 7) hints_of hint_server as_stored as_stored
      as_stored-Perm as_stored-Perm desired before after stale-ValidIds before-synced

sync_hints-Spared_example : Spared (keyed_ids look_key stale) (keyed_ids look_key (hints_of after))
sync_hints-Spared_example =
    sync_hints-Spared instance_client (pos 7) hints_of hint_server as_stored as_stored-Perm desired
      before after stale-ValidIds before-synced look_key

hints_up_to_date_iff_example :
    (hints_up_to_date as_stored desired stale ≡ ok true)
    ↔ ((InRange desired × IsAcyclic desired) × Matched desired stale)
hints_up_to_date_iff_example =
    hints_up_to_date_iff as_stored as_stored-Perm desired stale stale-ValidIds

sync_hints_converges_example :
    (w : World) × (sync_hints instance_client as_stored (pos 7) desired before ≡ (ok tt, w))
    × (hints_up_to_date as_stored desired (hints_of w) ≡ ok true)
sync_hints_converges_example =
    sync_hints_converges instance_client (pos 7) hints_of hint_server hint_calls as_stored as_stored
      as_stored-Perm as_stored-Perm desired before
      ((validate_hint_prereqs_iff desired).0 desired-valid).0
      ((validate_hint_prereqs_iff desired).0 desired-valid).1 stale-ValidIds
