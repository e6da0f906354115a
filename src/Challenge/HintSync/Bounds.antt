-- ===== src/Challenge/HintSync/Bounds.antt =====
-- The indices that `syncHints` uses (internal/controller/challenge/flagshints.go).
use mathlib.Core.List.{Perm}
use ctfd_crossplane_provider.Prelude.{
  Option, none, some, suc, ℤ, is_negative, ◌≡◌, refl, ap, inl, inr, List, [], ◌∷◌, arith, length,
  int_eq, Bool-cases,
}
use ctfd_crossplane_provider.Result.{Result, ok, err, panic, out_of_fuel}
use ctfd_crossplane_provider.Exec.{Exec, pure, continue}
use ctfd_crossplane_provider.Exec.Returned.{
  IsReturned, AlwaysReturns, Ends, continue-Ends, continue-IsReturned,
}
use ctfd_crossplane_provider.GoMap.{Map, lookup}
use ctfd_crossplane_provider.Strconv.Digits.{itoa}
use ctfd_crossplane_provider.Ctfd.{Hint}
use ctfd_crossplane_provider.CtfdClient.{AllGiven, Client, ClientReturns}
use ctfd_crossplane_provider.Apis.Challenge.{ChallengeHint}
use ctfd_crossplane_provider.Challenge.Prereqs.{validate_hint_prereqs}
use ctfd_crossplane_provider.Challenge.Prereqs.Graph.{InRange}
use ctfd_crossplane_provider.Challenge.Pool.{Pool}
use ctfd_crossplane_provider.Challenge.Hints.{plan_hints, index_by_id}
use ctfd_crossplane_provider.Challenge.Hints.Plan.{plan_hints-IsPlan}
use ctfd_crossplane_provider.Challenge.HintSync.{
  full_hints, challenge_hints, create_missing_hints, requirements_agree, reconcile_loop,
  reconcile_hint_requirements, delete_hints, apply_plan, sync_hints, hint_params, patch_params,
}
use ctfd_crossplane_provider.Challenge.Hints.Bounds.{Maps, InRange-Maps, validated, valid-InRange}

module _ {W : Type 0} (client : Client W) (cid : ℤ) (returns : ClientReturns client) where
  full_hints-AlwaysReturns :
      (hs : List (Option Hint)) → AllGiven hs → AlwaysReturns (full_hints client hs)
  unfolding full_hints
  full_hints-AlwaysReturns [] given w = tt
  full_hints-AlwaysReturns (none ∷ hs) given w = given
  full_hints-AlwaysReturns (some h ∷ hs) given w =
      continue-IsReturned _ _ (returns.get_hint (itoa h.id) w)
        (λ full u. continue-IsReturned _ _ (full_hints-AlwaysReturns hs given u) (λ rest v. tt))

  pub challenge_hints-AlwaysReturns : AlwaysReturns (challenge_hints client cid)
  unfolding challenge_hints
  challenge_hints-AlwaysReturns w =
      continue-Ends AllGiven (λ _. Unit) (client.get_challenge_hints cid w) (full_hints client)
        (returns.get_challenge_hints cid w) (λ hs u given. full_hints-AlwaysReturns hs given u)

  -- There is an ID for every desired hint, before and after the creations.
  created :
      (ds : List ChallengeHint) (ids : List ℤ) (w : W)
      → length ids ≡ length ds
      → Ends (λ filled. length filled ≡ length ds) (create_missing_hints client cid ds ids w).0
  unfolding create_missing_hints
  created [] ids w n = n
  created (d ∷ ds) [] w n = absurd (omega (arith, n))
  created (d ∷ ds) (id ∷ ids) w n =
      let sized : List ℤ → Type 0 = λ xs. length xs ≡ length ds in
      let all : List ℤ → Type 0 = λ xs. length xs ≡ suc (length ds) in
      let rest : (u : W) → Ends sized (create_missing_hints client cid ds ids u).0 =
        λ u. created ds ids u (omega (arith, n)) in
      let add : (u : W) (z : ℤ)
          → Ends all (continue (create_missing_hints client cid ds ids u) (λ xs. pure (z ∷ xs))).0 =
        λ u z. continue-Ends sized all _ _ (rest u) (λ xs _ m. ap suc m) in
      elim (Bool-cases (is_negative id)) [
        | inl gone ↦
            rw (gone, create_missing_hints)
              (continue-Ends (λ _. Unit) all _ _ (returns.post_hints (hint_params client cid d) w)
                (λ h u _. add u h.id))
        | inr exists ↦ rw (exists, create_missing_hints) (add w id)
      ]

  reconciled :
      (by_id : Map ℤ Hint) (all ids : List ℤ) (ds : List ChallengeHint) (w : W)
      → length ids ≡ length ds
      → Maps all ds
      → IsReturned (reconcile_loop client cid by_id all ids ds w).0
  unfolding reconcile_loop
  reconciled by_id all ids [] w n f = tt
  reconciled by_id all [] (d ∷ ds) w n f = absurd (omega (arith, n))
  reconciled by_id all (id ∷ ids) (d ∷ ds) w n f =
      let (want, mapped) = f 0 d refl in
      let rest : (u : W) → IsReturned (reconcile_loop client cid by_id all ids ds u).0 =
        λ u. reconciled by_id all ids ds u (omega (arith, n)) (λ i. f (suc i)) in
      elim (Bool-cases (requirements_agree d want (lookup id by_id))) [
        | inl agree ↦ rw (mapped, agree) (rest w)
        | inr differs ↦
            rw (mapped, differs)
              (continue-IsReturned _ _
                (returns.patch_hint (itoa id) (patch_params client cid d want) w) (λ _ u. rest u))
      ]

  deleted : (ids : List ℤ) → AlwaysReturns (delete_hints client ids)
  unfolding delete_hints
  deleted [] w = tt
  deleted (id ∷ ids) w =
      continue-IsReturned _ _ (returns.delete_hint (itoa id) w) (λ _. deleted ids)

  applied :
      (ds : List ChallengeHint) (existing : List Hint) (ids deletes : List ℤ) (w : W)
      → length ids ≡ length ds
      → InRange ds
      → IsReturned (apply_plan client cid ds existing (ids, deletes) w).0
  unfolding apply_plan reconcile_hint_requirements
  applied ds existing ids deletes w n within =
      continue-Ends (λ filled. length filled ≡ length ds) (λ _. Unit) _ _ (created ds ids w n)
        (λ filled u m.
          continue-IsReturned _ _
            (reconciled (index_by_id [] existing) filled filled ds u m
              (InRange-Maps ds filled within m))
            (λ _. deleted deletes))

  -- If no call of the client panics, `syncHints` returns: every index that it uses is in range,
  -- whatever the hints that are desired or stored, and for every walk order.
  pub sync_hints-AlwaysReturns :
      (walk : Pool → Pool)
      → ((pool : Pool) → Perm (walk pool) pool)
      → (ds : List ChallengeHint) → AlwaysReturns (sync_hints client walk cid ds)
  unfolding sync_hints
  sync_hints-AlwaysReturns walk order ds w =
      if_valid_then (validate_hint_prereqs ds) (validated ds) refl
    where
      planned : List Hint → Exec W (Unit {0})
      planned existing = apply_plan client cid ds existing (plan_hints walk ds existing)

      if_valid_then :
          (r : Result (Unit {0}))
          → IsReturned r
          → validate_hint_prereqs ds ≡ r
          → IsReturned (continue (r, w) (λ _ u. continue (challenge_hints client cid u) planned)).0
      if_valid_then (ok _) p valid =
          continue-IsReturned _ _ (challenge_hints-AlwaysReturns w) (λ existing u.
            let plan = plan_hints walk ds existing in
            applied ds existing plan.0 plan.1 u (plan_hints-IsPlan walk order ds existing).sized
              (valid-InRange ds valid))
      if_valid_then (err e) p valid = tt
      if_valid_then panic p valid = p
      if_valid_then out_of_fuel p valid = p
