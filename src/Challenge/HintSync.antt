-- ===== src/Challenge/HintSync.antt =====
-- The calls on the hints of a challenge (`challengeHints`, `syncHints`, `createMissingHints` and
-- `reconcileHintRequirements` of internal/controller/challenge/flagshints.go).
pub mod Agrees
pub mod Required
pub mod Matched
pub mod Stable
pub mod Lookup
pub mod Server
pub mod Reads
pub mod Create
pub mod Reconcile
pub mod Delete
pub mod Fresh
pub mod Planned
pub mod Settles
pub mod Bounds
pub mod Returns
use ctfd_crossplane_provider.Prelude.{
  ℕ, String, ℤ, is_negative, Bool, true, false, not, ◌&&◌, ◌||◌, Option, none, some, List, [], ◌∷◌,
  length, if◌then◌else◌, ◌==◌, nat_eq, int_eq,
}
use ctfd_crossplane_provider.Result.{Result, panic}
use ctfd_crossplane_provider.Exec.{Exec, pure, lift, ◌>>=◌, ◌>>◌}
use ctfd_crossplane_provider.GoMap.{Map, lookup}
use ctfd_crossplane_provider.Strconv.Digits.{itoa}
use ctfd_crossplane_provider.Ctfd.{Hint, PostHintsParams, PatchHintsParams}
use ctfd_crossplane_provider.CtfdClient.{Client}
use ctfd_crossplane_provider.Apis.Challenge.{ChallengeHint}
use ctfd_crossplane_provider.Challenge.Multiset.{same_int_set}
use ctfd_crossplane_provider.Challenge.Prereqs.{validate_hint_prereqs}
use ctfd_crossplane_provider.Challenge.Pool.{Pool}
use ctfd_crossplane_provider.Challenge.Hints.{
  plan_hints, map_prereqs, prereqs_of, eq_anonymize, index_by_id,
}

-- The requirements of a hint are as desired, so that no PATCH is needed.
unfoldable pub requirements_agree : ChallengeHint → List ℤ → Option Hint → Bool
unfolding same_int_set prereqs_of eq_anonymize
requirements_agree d want cur =
    same_int_set want (prereqs_of cur)
    && (length d.prerequisites == 0 || eq_anonymize d.anonymize cur)

module _ {W : Type 0} (client : Client W) where
  open client use {get_challenge_hints, get_hint, post_hints, patch_hint, delete_hint}

  -- The loop that replaces each listed hint by its full record.
  unfoldable pub full_hints : List (Option Hint) → Exec W (List Hint)
  full_hints [] = pure []
  full_hints (none ∷ hs) = lift panic
  full_hints (some h ∷ hs) = do
    full ← get_hint (itoa h.id)
    rest ← full_hints hs
    pure (full ∷ rest)

  unfoldable pub challenge_hints : ℤ → Exec W (List Hint)
  unfolding full_hints
  challenge_hints cid = do hints ← get_challenge_hints cid; full_hints hints

  abbrev pub hint_params : ℤ → ChallengeHint → PostHintsParams
  hint_params cid d = record {
    challenge_id = cid;
    title = d.title;
    content = d.content;
    cost = d.cost;
  }

  -- It returns `idByIndex` as the loop leaves it.
  unfoldable pub create_missing_hints : ℤ → List ChallengeHint → List ℤ → Exec W (List ℤ)
  create_missing_hints cid [] ids = pure ids
  create_missing_hints cid (d ∷ ds) [] = lift panic
  create_missing_hints cid (d ∷ ds) (id ∷ ids) = elim (is_negative id) [
    | false ↦ do rest ← create_missing_hints cid ds ids; pure (id ∷ rest)
    | true ↦ do
      h ← post_hints (hint_params cid d)
      rest ← create_missing_hints cid ds ids
      pure (h.id ∷ rest)
  ]

  abbrev pub patch_params : ℤ → ChallengeHint → List ℤ → PatchHintsParams
  patch_params cid d want = record {
    challenge_id = cid;
    title = d.title;
    content = d.content;
    cost = d.cost;
    requirements = record { anonymize = d.anonymize; prerequisites = want };
  }

  -- The loop over the desired hints and their IDs.
  unfoldable pub reconcile_loop :
      ℤ → Map ℤ Hint → List ℤ → List ℤ → List ChallengeHint → Exec W (Unit {0})
  unfolding requirements_agree map_prereqs
  reconcile_loop cid by_id id_by_index ids [] = pure tt
  reconcile_loop cid by_id id_by_index [] (d ∷ ds) = lift panic
  reconcile_loop cid by_id id_by_index (id ∷ ids) (d ∷ ds) = do
    want ← lift (map_prereqs d.prerequisites id_by_index)
    (if requirements_agree d want (lookup id by_id)
        then pure tt
        else patch_hint (itoa id) (patch_params cid d want))
    reconcile_loop cid by_id id_by_index ids ds

  unfoldable pub reconcile_hint_requirements :
      ℤ → List ChallengeHint → List Hint → List ℤ → Exec W (Unit {0})
  unfolding reconcile_loop index_by_id
  reconcile_hint_requirements cid desired existing id_by_index =
      reconcile_loop cid (index_by_id [] existing) id_by_index id_by_index desired

  unfoldable pub delete_hints : List ℤ → Exec W (Unit {0})
  delete_hints [] = pure tt
  delete_hints (id ∷ ids) = delete_hint (itoa id) >> delete_hints ids

  -- The part of `syncHints` after the plan.
  unfoldable pub apply_plan :
      ℤ → List ChallengeHint → List Hint → List ℤ × List ℤ → Exec W (Unit {0})
  unfolding create_missing_hints reconcile_hint_requirements delete_hints
  apply_plan cid desired existing (planned, deletes) = do
    id_by_index ← create_missing_hints cid desired planned
    reconcile_hint_requirements cid desired existing id_by_index
    delete_hints deletes

  -- `walk` is the order in which `range` goes through the pool of `planHints`.
  unfoldable pub sync_hints : (Pool → Pool) → ℤ → List ChallengeHint → Exec W (Unit {0})
  unfolding validate_hint_prereqs challenge_hints plan_hints apply_plan
  sync_hints walk cid desired = do
    lift (validate_hint_prereqs desired)
    existing ← challenge_hints cid
    apply_plan cid desired existing (plan_hints walk desired existing)
