-- ===== src/Challenge/Controller/Apart.antt =====
-- What the synchronisation of flags does to the hints, and that of hints to the flags.
use ctfd_crossplane_provider.Prelude.{
  Option, none, some, ℤ, is_negative, inl, inr, List, [], ◌∷◌, if◌then◌else◌, Bool-cases,
  List-cases, string_eq, int_eq,
}
use ctfd_crossplane_provider.Exec.{Exec, pure}
use ctfd_crossplane_provider.Exec.Preserves.{Preserves, lift-Preserves, >>=-Preserves}
use ctfd_crossplane_provider.GoMap.{Map, lookup, insert}
use ctfd_crossplane_provider.Strconv.Digits.{itoa}
use ctfd_crossplane_provider.Result.{dereferenced, ok, panic}
use ctfd_crossplane_provider.Ctfd.{Hint}
use ctfd_crossplane_provider.CtfdClient.{Client}
use ctfd_crossplane_provider.Apis.Challenge.{ChallengeFlag, ChallengeHint}
use ctfd_crossplane_provider.Challenge.Pool.{Pool, ids_at, pool_into}
use ctfd_crossplane_provider.Challenge.Prereqs.{validate_hint_prereqs}
use ctfd_crossplane_provider.Challenge.Flags.{
  desired_key, existing_key, flag_params, post_missing_flags, delete_flags, delete_unmatched,
  sync_flags,
}
use ctfd_crossplane_provider.Challenge.Hints.{map_prereqs, index_by_id, plan_hints}
use ctfd_crossplane_provider.Challenge.HintSync.{
  full_hints, challenge_hints, hint_params, create_missing_hints, patch_params, requirements_agree,
  reconcile_loop, reconcile_hint_requirements, delete_hints, apply_plan, sync_hints,
}
use ctfd_crossplane_provider.Challenge.Controller.Server.{
  Stored, beside_flags, beside_hints, ChallengeServer,
}

module _ {W : Type 0} (client : Client W) (cid : ℤ) (state : W → Stored)
    (server : ChallengeServer client cid state) where
  abbrev KeepsHints : {A : Type 0} → Exec W A → Type 0
  KeepsHints m = Preserves (λ w. beside_flags (state w)) m

  abbrev KeepsFlags : {A : Type 0} → Exec W A → Type 0
  KeepsFlags m = Preserves (λ w. beside_hints (state w)) m

  post_missing_flags-KeepsHints :
      (pool : Pool) (ds : List ChallengeFlag) → KeepsHints (post_missing_flags client cid pool ds)
  unfolding post_missing_flags
  post_missing_flags-KeepsHints pool [] = lift-Preserves _ (ok pool)
  post_missing_flags-KeepsHints pool (d ∷ ds) = elim (List-cases (ids_at (desired_key d) pool)) [
    | inl none_left ↦
        rw (none_left, post_missing_flags)
          (>>=-Preserves _ _ _ (server.posts_flag (flag_params client cid d))
            (λ _. post_missing_flags-KeepsHints pool ds))
    | inr (id, ids, found) ↦
        rw (found, post_missing_flags)
          (post_missing_flags-KeepsHints (insert (desired_key d) ids pool) ds)
  ]

  delete_flags-KeepsHints : (ids : List ℤ) → KeepsHints (delete_flags client ids)
  unfolding delete_flags
  delete_flags-KeepsHints [] = lift-Preserves _ (ok tt)
  delete_flags-KeepsHints (id ∷ ids) =
      >>=-Preserves _ _ _ (server.deletes_flag (itoa id)) (λ _. delete_flags-KeepsHints ids)

  delete_unmatched-KeepsHints : (pool : Pool) → KeepsHints (delete_unmatched client pool)
  unfolding delete_unmatched
  delete_unmatched-KeepsHints [] = lift-Preserves _ (ok tt)
  delete_unmatched-KeepsHints ((k, ids) ∷ pool) =
      >>=-Preserves _ _ _ (delete_flags-KeepsHints ids) (λ _. delete_unmatched-KeepsHints pool)

  pub sync_flags-KeepsHints :
      (walk : Pool → Pool) (ds : List ChallengeFlag) → KeepsHints (sync_flags client walk cid ds)
  unfolding sync_flags
  sync_flags-KeepsHints walk ds = >>=-Preserves _ _ _ server.lists_flags (λ listing.
      >>=-Preserves _ _ _ (lift-Preserves _ (dereferenced listing)) (λ existing.
        >>=-Preserves _ _ _
          (post_missing_flags-KeepsHints (pool_into existing_key (λ f. f.id) [] existing) ds)
          (λ pool. delete_unmatched-KeepsHints (walk pool))))

  full_hints-KeepsFlags : (hs : List (Option Hint)) → KeepsFlags (full_hints client hs)
  unfolding full_hints
  full_hints-KeepsFlags [] = lift-Preserves _ (ok [])
  full_hints-KeepsFlags (none ∷ hs) = lift-Preserves _ panic
  full_hints-KeepsFlags (some h ∷ hs) =
      >>=-Preserves _ _ _ (server.gets_hint (itoa h.id))
        (λ full. >>=-Preserves _ _ _ (full_hints-KeepsFlags hs) (λ rest. lift-Preserves _ _))

  pub challenge_hints-KeepsFlags : KeepsFlags (challenge_hints client cid)
  unfolding challenge_hints
  challenge_hints-KeepsFlags =
      >>=-Preserves _ _ _ server.lists_hints (λ hs. full_hints-KeepsFlags hs)

  create_missing_hints-KeepsFlags :
      (ds : List ChallengeHint) (ids : List ℤ) → KeepsFlags (create_missing_hints client cid ds ids)
  unfolding create_missing_hints
  create_missing_hints-KeepsFlags [] ids = lift-Preserves _ (ok ids)
  create_missing_hints-KeepsFlags (d ∷ ds) [] = lift-Preserves _ panic
  create_missing_hints-KeepsFlags (d ∷ ds) (id ∷ ids) = elim (Bool-cases (is_negative id)) [
    | inl gone ↦
        rw (gone, create_missing_hints)
          (>>=-Preserves _ _ _ (server.posts_hint (hint_params client cid d)) (λ h.
            >>=-Preserves _ _ _ (create_missing_hints-KeepsFlags ds ids)
              (λ rest. lift-Preserves _ _)))
    | inr exists ↦
        rw (exists, create_missing_hints)
          (>>=-Preserves _ _ _ (create_missing_hints-KeepsFlags ds ids)
            (λ rest. lift-Preserves _ _))
  ]

  reconcile_loop-KeepsFlags :
      (by_id : Map ℤ Hint) (all ids : List ℤ) (ds : List ChallengeHint)
      → KeepsFlags (reconcile_loop client cid by_id all ids ds)
  unfolding reconcile_loop
  reconcile_loop-KeepsFlags by_id all ids [] = lift-Preserves _ (ok tt)
  reconcile_loop-KeepsFlags by_id all [] (d ∷ ds) = lift-Preserves _ panic
  reconcile_loop-KeepsFlags by_id all (id ∷ ids) (d ∷ ds) =
      >>=-Preserves _ _ _ (lift-Preserves _ (map_prereqs d.prerequisites all))
        (λ want. >>=-Preserves _ _ _ (step want) (λ _. reconcile_loop-KeepsFlags by_id all ids ds))
    where
      step :
          (want : List ℤ)
          → KeepsFlags (
              if requirements_agree d want (lookup id by_id)
              then pure tt
              else client.patch_hint (itoa id) (patch_params client cid d want))
      step want = elim (Bool-cases (requirements_agree d want (lookup id by_id))) [
        | inl agree ↦ rw agree (lift-Preserves _ (ok tt))
        | inr differs ↦ rw differs (server.patches_hint (itoa id) (patch_params client cid d want))
      ]

  delete_hints-KeepsFlags : (ids : List ℤ) → KeepsFlags (delete_hints client ids)
  unfolding delete_hints
  delete_hints-KeepsFlags [] = lift-Preserves _ (ok tt)
  delete_hints-KeepsFlags (id ∷ ids) =
      >>=-Preserves _ _ _ (server.deletes_hint (itoa id)) (λ _. delete_hints-KeepsFlags ids)

  apply_plan-KeepsFlags :
      (ds : List ChallengeHint) (existing : List Hint) (ids deletes : List ℤ)
      → KeepsFlags (apply_plan client cid ds existing (ids, deletes))
  unfolding apply_plan reconcile_hint_requirements
  apply_plan-KeepsFlags ds existing ids deletes =
      >>=-Preserves _ _ _ (create_missing_hints-KeepsFlags ds ids) (λ filled.
        >>=-Preserves _ _ _ (reconcile_loop-KeepsFlags (index_by_id [] existing) filled filled ds)
          (λ _. delete_hints-KeepsFlags deletes))

  pub sync_hints-KeepsFlags :
      (walk : Pool → Pool) (ds : List ChallengeHint) → KeepsFlags (sync_hints client walk cid ds)
  unfolding sync_hints
  sync_hints-KeepsFlags walk ds =
      >>=-Preserves _ _ _ (lift-Preserves _ (validate_hint_prereqs ds)) (λ _.
        >>=-Preserves _ _ _ challenge_hints-KeepsFlags (λ existing.
          let plan = plan_hints walk ds existing in
          apply_plan-KeepsFlags ds existing plan.0 plan.1))
