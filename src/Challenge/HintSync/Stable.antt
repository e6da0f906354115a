-- ===== src/Challenge/HintSync/Stable.antt =====
-- A synchronisation of hints that are up to date already, or cannot be unlocked.
use mathlib.Core.List.{Perm}
use ctfd_crossplane_provider.Prelude.{
  ℤ, ◌≡◌, refl, ◌∙◌, true, false, List, [], ◌∷◌, arith, length, nat_eq, int_eq,
}
use ctfd_crossplane_provider.Result.{Result, Error, ok, err, panic, out_of_fuel}
use ctfd_crossplane_provider.Exec.{continue-ok}
use ctfd_crossplane_provider.GoMap.{Map}
use ctfd_crossplane_provider.Ctfd.{Hint}
use ctfd_crossplane_provider.CtfdClient.{Client}
use ctfd_crossplane_provider.Apis.Challenge.{ChallengeHint}
use ctfd_crossplane_provider.Challenge.Prereqs.{validate_hint_prereqs}
use ctfd_crossplane_provider.Challenge.Prereqs.Graph.{InRange, IsAcyclic}
use ctfd_crossplane_provider.Challenge.Prereqs.Decides.{
  Validated, validate_hint_prereqs-Validated, validate_hint_prereqs_iff,
}
use ctfd_crossplane_provider.Challenge.Pool.{Pool}
use ctfd_crossplane_provider.Challenge.Hints.{
  plan_hints, index_by_id, hints_match, planned_up_to_date, hints_up_to_date,
}
use ctfd_crossplane_provider.Challenge.Hints.Plan.{plan_hints-IsPlan}
use ctfd_crossplane_provider.Challenge.HintSync.Agrees.{hints_match-Agrees, if_valid-eq-true}
use ctfd_crossplane_provider.Challenge.HintSync.{
  challenge_hints, create_missing_hints, reconcile_loop, reconcile_hint_requirements, delete_hints,
  apply_plan, sync_hints,
}

module _ {W : Type 0} (client : Client W) (by_id : Map ℤ Hint) (all : List ℤ) where
  nothing_missing :
      (cid : ℤ) (ids : List ℤ) (ds : List ChallengeHint) (w : W)
      → length ids ≡ length ds
      → hints_match by_id all ids ds ≡ ok true
      → create_missing_hints client cid ds ids w ≡ (ok ids, w)
  unfolding create_missing_hints
  nothing_missing cid [] [] w n e = refl
  nothing_missing cid (id ∷ ids) [] w n e = absurd (omega (arith, n))
  nothing_missing cid [] (d ∷ ds) w n e = absurd (omega (arith, n))
  nothing_missing cid (id ∷ ids) (d ∷ ds) w n e =
      let (here, rest) = hints_match-Agrees by_id all id ids d ds e in
      rw (here.exists, create_missing_hints)
        (continue-ok _ _ (nothing_missing cid ids ds w (omega (arith, n)) rest))

  nothing_patched :
      (cid : ℤ) (ids : List ℤ) (ds : List ChallengeHint) (w : W)
      → hints_match by_id all ids ds ≡ ok true
      → reconcile_loop client cid by_id all ids ds w ≡ (ok tt, w)
  unfolding reconcile_loop hints_match
  nothing_patched cid ids [] w e = refl
  nothing_patched cid [] (d ∷ ds) w e = cc
  nothing_patched cid (id ∷ ids) (d ∷ ds) w e =
      let (here, rest) = hints_match-Agrees by_id all id ids d ds e in
      rw (here.mapped, here.agree) (nothing_patched cid ids ds w rest)

planned_stable :
    {W : Type 0} (client : Client W) (cid : ℤ) (desired : List ChallengeHint) (existing : List Hint)
    (ids deletes : List ℤ) (w : W)
    → length ids ≡ length desired
    → planned_up_to_date desired existing (ids, deletes) ≡ ok true
    → apply_plan client cid desired existing (ids, deletes) w ≡ (ok tt, w)
unfolding planned_up_to_date apply_plan reconcile_hint_requirements delete_hints
planned_stable client cid desired existing ids [] w n e =
    let by_id = index_by_id [] existing in
    continue-ok _ _ (nothing_missing client by_id ids cid ids desired w n e)
    ∙ continue-ok _ _ (nothing_patched client by_id ids cid ids desired w e)
planned_stable client cid desired existing ids (z ∷ zs) w n e = ground (arith, e)

-- If the hints that CTFd lists are up to date, `syncHints` makes no call but those that read them:
-- no hint is created, patched or deleted, whatever the walk order.
pub sync_hints_stable :
    {W : Type 0} (client : Client W) (walk : Pool → Pool)
    → ((pool : Pool) → Perm (walk pool) pool)
    → (cid : ℤ) (desired : List ChallengeHint) (existing : List Hint) (w w' : W)
    → challenge_hints client cid w ≡ (ok existing, w')
    → hints_up_to_date walk desired existing ≡ ok true
    → sync_hints client walk cid desired w ≡ (ok tt, w')
unfolding sync_hints hints_up_to_date
sync_hints_stable client walk order cid desired existing w w' read fresh =
    let (ids, deletes) = plan_hints walk desired existing in
    let (valid, planned) =
      if_valid-eq-true (validate_hint_prereqs desired)
        (planned_up_to_date desired existing (ids, deletes)) fresh in
    rw valid (
      continue-ok _ _ read
      ∙ planned_stable client cid desired existing ids deletes w'
          (plan_hints-IsPlan walk order desired existing).sized planned)

refused :
    (desired : List ChallengeHint) (r : Result (Unit {0}))
    → Validated desired r
    → ¬ (r ≡ ok tt)
    → (e : Error) × (r ≡ err e)
refused desired (ok _) v bad = absurd (bad refl)
refused desired (err e) v bad = (e, refl)
refused desired panic v bad = elim v [ ]
refused desired out_of_fuel v bad = elim v [ ]

-- If a prerequisite index points outside the list, or the prerequisites have a cycle, `syncHints`
-- returns an error before its first call, and the hints count as out of date whatever CTFd lists.
pub sync_hints_refuses :
    {W : Type 0} (client : Client W) (walk : Pool → Pool) (cid : ℤ) (desired : List ChallengeHint)
    (w : W)
    → ¬ (InRange desired × IsAcyclic desired)
    → (e : Error) × (sync_hints client walk cid desired w ≡ (err e, w))
      × ((existing : List Hint) → hints_up_to_date walk desired existing ≡ ok false)
unfolding sync_hints hints_up_to_date
sync_hints_refuses client walk cid desired w bad =
    let (e, q) =
      refused desired (validate_hint_prereqs desired) (validate_hint_prereqs-Validated desired)
        (λ valid. bad ((validate_hint_prereqs_iff desired).0 valid)) in
    (e, rw q refl, λ existing. rw q refl)
