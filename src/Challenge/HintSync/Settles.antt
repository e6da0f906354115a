-- ===== src/Challenge/HintSync/Settles.antt =====
-- What a synchronisation of hints that returns leaves (`syncHints` of flagshints.go).
use mathlib.Core.List.{Perm}
use mathlib.Core.Path.{subst}
use ctfd_crossplane_provider.Prelude.{
  ◌≤◌, String, ℤ, ◌≡◌, sym, ap, ◌∙◌, true, List, [], ◌++◌, arith, length, count, int_eq, string_eq,
  nat_eq,
}
use ctfd_crossplane_provider.Result.{ok}
use ctfd_crossplane_provider.Exec.{Exec, continue, continue-eq-ok, ◌>>◌}
use ctfd_crossplane_provider.Ctfd.{Hint}
use ctfd_crossplane_provider.CtfdClient.{Client}
use ctfd_crossplane_provider.Apis.Challenge.{ChallengeHint}
use ctfd_crossplane_provider.Challenge.Prereqs.{validate_hint_prereqs}
use ctfd_crossplane_provider.Challenge.Pool.{Pool}
use ctfd_crossplane_provider.Challenge.Hints.{
  desired_hint_key, plan_hints, index_by_id, hints_up_to_date,
}
use ctfd_crossplane_provider.Challenge.Hints.Plan.{plan_hints-IsPlan}
use ctfd_crossplane_provider.Challenge.Hints.Queues.{keyed_ids, chosen}
use ctfd_crossplane_provider.Challenge.Hints.Filled.{length-Filled}
use ctfd_crossplane_provider.Challenge.HintSync.{
  challenge_hints, create_missing_hints, reconcile_hint_requirements, delete_hints, apply_plan,
  sync_hints,
}
use ctfd_crossplane_provider.Challenge.HintSync.Lookup.{numbered_hints, stored_hints, hint_at}
use ctfd_crossplane_provider.Challenge.HintSync.Server.{ValidIds, HintServer}
use ctfd_crossplane_provider.Challenge.HintSync.Reads.{challenge_hints-eq}
use ctfd_crossplane_provider.Challenge.HintSync.Create.{Created, create_missing_hints-Created}
use ctfd_crossplane_provider.Challenge.HintSync.Reconcile.{
  Patched, Ready, AllPairs, AllPairs-map, Fresh, Stands, reconcile_loop-Ready,
}
use ctfd_crossplane_provider.Challenge.HintSync.Delete.{
  drop_all, keyed_ids-remove_all, numbered-remove_all, hint_at-remove_all, delete_hints-eq,
}
use ctfd_crossplane_provider.Challenge.HintSync.Matched.{Matched, Matched-up_to_date}
use ctfd_crossplane_provider.Challenge.HintSync.Required.{requirements_agree_iff}
use ctfd_crossplane_provider.Challenge.HintSync.Planned.{Spared, Keeps, plan_hints-Keeps}
use ctfd_crossplane_provider.Challenge.HintSync.Fresh.{
  agree_after_creation, chosen-Distinct, chosen-AllPairs, chosen_somewhere,
}

-- After a synchronisation.
record Settled (desired : List ChallengeHint) (before hs : List Hint) : Type 0 where
  matched : Matched desired hs
  spared : (k : String) → Spared (keyed_ids k before) (keyed_ids k hs)
  valid : ValidIds hs

module _ {W : Type 0} (client : Client W) (cid : ℤ) (hints : W → List Hint)
    (server : HintServer client cid hints) (walk : Pool → Pool)
    (order : (pool : Pool) → Perm (walk pool) pool) (desired : List ChallengeHint) where
  after_create : List Hint → List ℤ → List ℤ → Exec W (Unit {0})
  after_create existing deletes filled = do
    reconcile_hint_requirements client cid desired existing filled
    delete_hints client deletes

  -- The reconciliation leaves every hint with what its desired one requires.
  readied :
      (filled planned deletes : List ℤ) (w₁ w₂ : W) (before : List Hint)
      → (c : Created desired planned filled before (hints w₁))
      → ((k : String) → Keeps desired deletes filled before (before ++ c.news) k)
      → length filled ≡ length desired
      → reconcile_hint_requirements client cid desired before filled w₁ ≡ (ok tt, w₂)
      → Patched client cid hints server (index_by_id [] before) filled filled (hints w₁) (hints w₂)
        × AllPairs
            (Ready client cid hints server (index_by_id [] before) filled (hints w₂))
            desired
            filled
  unfolding reconcile_hint_requirements
  readied filled planned deletes w₁ w₂ before c keeps sized e₁ =
      let by_id = index_by_id [] before in
      let le : (k : String) (z : ℤ)
          → count z (chosen k desired filled) ≤ stored_hints z k (hints w₁) =
        λ k z.
          subst (λ hs. count z (chosen k desired filled) ≤ stored_hints z k hs) (sym c.appended)
            ((keeps k).stand z) in
      let pairs = chosen-AllPairs desired filled sized in
      let stands : AllPairs (Stands client cid hints server by_id filled (hints w₁)) desired
          filled =
        AllPairs-map _ _ desired filled
          (λ d id m there. omega (arith, there, le (desired_hint_key d) id)) pairs in
      let fresh : AllPairs (Fresh client cid hints server by_id filled (hints w₁)) desired filled =
        AllPairs-map _ _ desired filled
          (λ d id m there want mapped agree. rw c.appended (
            agree_after_creation client before c.news filled d id
              (subst (λ hs. (z : ℤ) → numbered_hints z hs ≤ 1) c.appended c.valid.unique) c.bare
              want mapped agree))
          pairs in
      reconcile_loop-Ready client cid hints server by_id filled desired filled w₁ w₂ c.valid.unique
        (chosen-Distinct (hints w₁) desired filled sized c.valid.unique le) stands fresh e₁

  reconciled :
      (filled : List ℤ) (planned : List ℤ) (deletes : List ℤ) (w₁ w₂ w₃ : W) (before : List Hint)
      → (c : Created desired planned filled before (hints w₁))
      → ((k : String) → Keeps desired deletes filled before (before ++ c.news) k)
      → length filled ≡ length desired
      → reconcile_hint_requirements client cid desired before filled w₁ ≡ (ok tt, w₂)
      → delete_hints client deletes w₂ ≡ (ok tt, w₃)
      → Settled desired before (hints w₃)
  reconciled filled planned deletes w₁ w₂ w₃ before c keeps sized e₁ e₂ =
      let (patched, ready) = readied filled planned deletes w₁ w₂ before c keeps sized e₁ in
      let gone = delete_hints-eq client cid hints server deletes w₂ w₃ e₂ in
      let fewer : (z : ℤ) → numbered_hints z (hints w₃) ≤ numbered_hints z (hints w₁) = λ z. omega (
        arith,
        ap (numbered_hints z) gone,
        numbered-remove_all z deletes (hints w₂),
        patched.numbered z,
      ) in
      let placed : (k : String) → keyed_ids k (hints w₃) ≡ chosen k desired filled = λ k.
        ap (keyed_ids k) gone
        ∙ keyed_ids-remove_all k deletes (hints w₂)
        ∙ ap (drop_all deletes) (patched.keyed k ∙ ap (keyed_ids k) c.appended)
        ∙ (keeps k).left in
      record {
        matched = record {
          ids = filled;
          sized = sized;
          nonneg = c.nonneg;
          placed = placed;
          ready =
              AllPairs-map _ _ desired filled
                (λ d id m r.
                  let (k, there) = chosen_somewhere id desired filled sized m in
                  (requirements_agree_iff filled d (hint_at id (hints w₃))).0 (
                    rw (gone, hint_at-remove_all id deletes (hints w₂) ((keeps k).kept id there))
                      r))
                ready;
        };
        spared = λ k. rw (placed k) (keeps k).spared;
        valid = record {
          unique = λ z. omega (arith, fewer z, c.valid.unique z);
          nonneg = λ z n. c.valid.nonneg z (omega (arith, fewer z, n));
        };
      }

  applied :
      (w w' : W)
      → ValidIds (hints w)
      → apply_plan client cid desired (hints w) (plan_hints walk desired (hints w)) w ≡ (ok tt, w')
      → Settled desired (hints w) (hints w')
  unfolding apply_plan after_create
  applied w w' v e =
      let plan = plan_hints walk desired (hints w) in
      let sized = (plan_hints-IsPlan walk order desired (hints w)).sized in
      let (filled, w₁, p, e₁) =
        continue-eq-ok (create_missing_hints client cid desired plan.0 w)
          (after_create (hints w) plan.1) e in
      let (_, w₂, q, e₂) =
        continue-eq-ok (reconcile_hint_requirements client cid desired (hints w) filled w₁)
          (λ _. delete_hints client plan.1) e₁ in
      let c =
        create_missing_hints-Created client cid hints server desired plan.0 filled w w₁ sized v p in
      let keeps =
        plan_hints-Keeps walk order desired (hints w) c.news v (subst ValidIds c.appended c.valid)
          filled c.filled_in c.keyed in
      reconciled filled plan.0 plan.1 w₁ w₂ w' (hints w) c keeps
        (length-Filled plan.0 filled c.filled_in ∙ sized) q e₂

  plan_and_apply : List Hint → Exec W (Unit {0})
  plan_and_apply full = apply_plan client cid desired full (plan_hints walk desired full)

  read_and_apply : Exec W (Unit {0})
  read_and_apply u = continue (challenge_hints client cid u) plan_and_apply

  synced :
      (w w' : W)
      → ValidIds (hints w)
      → sync_hints client walk cid desired w ≡ (ok tt, w')
      → (validate_hint_prereqs desired ≡ ok tt) × Settled desired (hints w) (hints w')
  unfolding sync_hints read_and_apply plan_and_apply
  synced w w' v e =
      let (_, w₀, valid₀, e₀) =
        continue-eq-ok (validate_hint_prereqs desired, w) (λ _. read_and_apply) e in
      let same : w ≡ w₀ = ap (λ r. r.1) valid₀ in
      let (full, w₁, p, e₁) =
        continue-eq-ok (challenge_hints client cid w) plan_and_apply
          (subst (λ u. read_and_apply u ≡ (ok tt, w')) (sym same) e₀) in
      let (all, kept) = challenge_hints-eq client cid hints server full w w₁ v p in
      let run : apply_plan client cid desired (hints w₁) (plan_hints walk desired (hints w₁)) w₁
          ≡ (ok tt, w') =
        subst (λ hs. apply_plan client cid desired hs (plan_hints walk desired hs) w₁ ≡ (ok tt, w'))
          (all ∙ sym kept) e₁ in
      (
        ap (λ r. r.0) valid₀,
        subst (λ hs. Settled desired hs (hints w')) kept
            (applied w₁ w' (subst ValidIds (sym kept) v) run),
      )

  -- If `syncHints` returns without an error, then of the hints with one value the first ones stay,
  -- in order and with their IDs, and a hint with that value was created only if all of them stay.
  -- It holds for every walk order, from any hints with distinct IDs that are not negative, if the
  -- calls on hints that succeed do what they say.
  pub sync_hints-Spared :
      (w w' : W)
      → ValidIds (hints w)
      → sync_hints client walk cid desired w ≡ (ok tt, w')
      → (k : String) → Spared (keyed_ids k (hints w)) (keyed_ids k (hints w'))
  sync_hints-Spared w w' v e k = (synced w w' v e).1.spared k

-- The IDs are then distinct and not negative again.
pub sync_hints-ValidIds :
    {W : Type 0} (client : Client W) (cid : ℤ) (hints : W → List Hint)
    → HintServer client cid hints
    → (walk : Pool → Pool) → ((pool : Pool) → Perm (walk pool) pool)
    → (desired : List ChallengeHint) (w w' : W) → ValidIds (hints w)
    → sync_hints client walk cid desired w ≡ (ok tt, w')
    → ValidIds (hints w')
sync_hints-ValidIds client cid hints server walk order desired w w' v e =
    (synced client cid hints server walk order desired w w' v e).1.valid

-- If `syncHints` returns without an error, `hintsUpToDate` then holds of the hints of the challenge,
-- whatever the walk order of the synchronisation and of the comparison, from any hints with distinct
-- IDs that are not negative, if the calls on hints that succeed do what they say.
pub sync_hints_settles :
    {W : Type 0} (client : Client W) (cid : ℤ) (hints : W → List Hint)
    → HintServer client cid hints
    → (walk walk' : Pool → Pool) → ((pool : Pool) → Perm (walk pool) pool)
    → ((pool : Pool) → Perm (walk' pool) pool)
    → (desired : List ChallengeHint) (w w' : W) → ValidIds (hints w)
    → sync_hints client walk cid desired w ≡ (ok tt, w')
    → hints_up_to_date walk' desired (hints w') ≡ ok true
sync_hints_settles client cid hints server walk walk' order order' desired w w' v e =
    let (valid, settled) = synced client cid hints server walk order desired w w' v e in
    Matched-up_to_date walk' order' desired (hints w') valid settled.matched
