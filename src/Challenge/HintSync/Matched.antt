-- ===== src/Challenge/HintSync/Matched.antt =====
-- Which hints count as up to date (`hintsUpToDate` of internal/controller/challenge/flagshints.go).
use mathlib.Core.List.{Perm}
use mathlib.Core.Path.{subst}
use ctfd_crossplane_provider.Prelude.{
  String, ℤ, ◌≡◌, ◌↔◌, refl, sym, ap, ◌∙◌, true, List, [], ◌∷◌, ◌++◌, arith, length, ==_iff, int_eq,
  string_eq, nat_eq,
}
use ctfd_crossplane_provider.Result.{ok}
use ctfd_crossplane_provider.Ctfd.{Hint}
use ctfd_crossplane_provider.Apis.Challenge.{ChallengeHint}
use ctfd_crossplane_provider.Challenge.Prereqs.{validate_hint_prereqs}
use ctfd_crossplane_provider.Challenge.Prereqs.Graph.{InRange, IsAcyclic}
use ctfd_crossplane_provider.Challenge.Prereqs.Decides.{validate_hint_prereqs_iff}
use ctfd_crossplane_provider.Challenge.Pool.{Pool}
use ctfd_crossplane_provider.Challenge.Hints.{
  plan_hints, map_prereqs, index_by_id, hints_match, planned_up_to_date, hints_up_to_date,
}
use ctfd_crossplane_provider.Challenge.Hints.Plan.{plan_hints-IsPlan}
use ctfd_crossplane_provider.Challenge.Hints.Queues.{
  append-nil, keyed_ids, chosen, plan_hints-chosen,
}
use ctfd_crossplane_provider.Challenge.Hints.Filled.{Filled, Nonneg, created}
use ctfd_crossplane_provider.Challenge.HintSync.{requirements_agree}
use ctfd_crossplane_provider.Challenge.HintSync.Agrees.{hints_match-Agrees, if_valid-eq-true}
use ctfd_crossplane_provider.Challenge.HintSync.Lookup.{hint_at, lookup-index_by_id}
use ctfd_crossplane_provider.Challenge.HintSync.Server.{ValidIds}
use ctfd_crossplane_provider.Challenge.HintSync.Reconcile.{AllPairs, AllPairs-map}
use ctfd_crossplane_provider.Challenge.HintSync.Required.{Required, requirements_agree_iff}
use ctfd_crossplane_provider.Challenge.HintSync.Planned.{Keeps, plan_hints-Keeps}

-- The hints with each value are as many as the desired ones with it; taken in order, each has the
-- prerequisites and the setting `anonymize` that the desired one requires.
pub record Matched (desired : List ChallengeHint) (hs : List Hint) : Type 0 where
  pub ids : List ℤ
  pub sized : length ids ≡ length desired
  pub nonneg : Nonneg ids
  pub placed : (k : String) → keyed_ids k hs ≡ chosen k desired ids
  pub ready : AllPairs (λ d id. Required ids d (hint_at id hs)) desired ids

hints_match-ready :
    (hs : List Hint) (all : List ℤ) (ds : List ChallengeHint) (ids : List ℤ)
    → Nonneg ids
    → AllPairs
        (λ d id.
          (want : List ℤ) × (map_prereqs d.prerequisites all ≡ ok want)
          × (requirements_agree d want (hint_at id hs) ≡ true))
        ds
        ids
    → hints_match (index_by_id [] hs) all ids ds ≡ ok true
unfolding hints_match requirements_agree
hints_match-ready hs all [] ids n a = refl
hints_match-ready hs all (d ∷ ds) [] n a = elim a [ ]
hints_match-ready hs all (d ∷ ds) (id ∷ ids) n a =
    let (want, mapped, agree) = a.0 in
    let rest = hints_match-ready hs all ds ids n.1 a.1 in
    rw (n.0, mapped, lookup-index_by_id id [] hs)
      (ground (arith, rest, agree, ==_iff (length d.prerequisites) 0))

matched_pairs :
    (hs : List Hint) (all : List ℤ) (ds : List ChallengeHint) (ids : List ℤ)
    → length ids ≡ length ds
    → hints_match (index_by_id [] hs) all ids ds ≡ ok true
    → Nonneg ids
      × AllPairs
          (λ d id.
            (want : List ℤ) × (map_prereqs d.prerequisites all ≡ ok want)
            × (requirements_agree d want (hint_at id hs) ≡ true))
          ds
          ids
matched_pairs hs all [] [] n e = (tt, tt)
matched_pairs hs all [] (id ∷ ids) n e = absurd (omega (arith, n))
matched_pairs hs all (d ∷ ds) [] n e = absurd (omega (arith, n))
matched_pairs hs all (d ∷ ds) (id ∷ ids) n e =
    let (here, rest) = hints_match-Agrees (index_by_id [] hs) all id ids d ds e in
    let (nonneg, ready) = matched_pairs hs all ds ids (omega (arith, n)) rest in
    let agree : requirements_agree d here.want (hint_at id hs) ≡ true =
      subst (λ o. requirements_agree d here.want o ≡ true) (lookup-index_by_id id [] hs)
        here.agree in
    ((here.exists, nonneg), ((here.want, here.mapped, agree), ready))

Filled-refl : (ids : List ℤ) → Filled ids ids
Filled-refl [] = tt
Filled-refl (id ∷ ids) = (λ _. refl, Filled-refl ids)

created_none :
    (k : String) (ds : List ChallengeHint) (ids fs : List ℤ) → Nonneg ids → created k ds ids fs ≡ []
created_none k [] ids fs n = refl
created_none k (d ∷ ds) [] fs n = refl
created_none k (d ∷ ds) (id ∷ ids) [] n = refl
created_none k (d ∷ ds) (id ∷ ids) (f ∷ fs) n = ground (arith, created_none k ds ids fs n.1, n.0)

module _ (walk : Pool → Pool) (order : (pool : Pool) → Perm (walk pool) pool)
    (desired : List ChallengeHint) (hs : List Hint) where
  pub Matched-up_to_date :
      validate_hint_prereqs desired ≡ ok tt
      → Matched desired hs
      → hints_up_to_date walk desired hs ≡ ok true
  unfolding hints_up_to_date planned_up_to_date
  Matched-up_to_date valid s = rw valid (
      subst (λ plan. planned_up_to_date desired hs plan ≡ ok true)
        (sym (plan_hints-chosen walk order desired hs s.ids s.sized s.placed))
        (hints_match-ready hs s.ids desired s.ids s.nonneg (
          AllPairs-map _ _ desired s.ids
            (λ d id m r. (requirements_agree_iff s.ids d (hint_at id hs)).1 r) s.ready)))

  planned_up_to_date-Matched :
      (ids deletes : List ℤ)
      → length ids ≡ length desired
      → ((filled : List ℤ)
          → Filled ids filled
          → ((k : String) → keyed_ids k [] ≡ created k desired ids filled)
          → (k : String) → Keeps desired deletes filled hs (hs ++ []) k)
      → planned_up_to_date desired hs (ids, deletes) ≡ ok true
      → Matched desired hs
  unfolding planned_up_to_date
  planned_up_to_date-Matched ids [] n keeps e =
      let (nonneg, ready) = matched_pairs hs ids desired ids n e in
      let kept = keeps ids (Filled-refl ids) (λ k. sym (created_none k desired ids ids nonneg)) in
      record {
        ids = ids;
        sized = n;
        nonneg = nonneg;
        placed = λ k. ap (keyed_ids k) (sym (append-nil hs)) ∙ (kept k).left;
        ready =
            AllPairs-map _ _ desired ids
              (λ d id m r. (requirements_agree_iff ids d (hint_at id hs)).0 r) ready;
      }
  planned_up_to_date-Matched ids (z ∷ zs) n keeps e = absurd (ground (arith, e))

  up_to_date-Matched :
      ValidIds hs
      → hints_up_to_date walk desired hs ≡ ok true
      → (validate_hint_prereqs desired ≡ ok tt) × Matched desired hs
  unfolding hints_up_to_date
  up_to_date-Matched v e =
      let plan = plan_hints walk desired hs in
      let (valid, fresh) =
        if_valid-eq-true (validate_hint_prereqs desired) (planned_up_to_date desired hs plan) e in
      (
        valid,
        planned_up_to_date-Matched plan.0 plan.1 (plan_hints-IsPlan walk order desired hs).sized
            (plan_hints-Keeps walk order desired hs [] v (subst ValidIds (sym (append-nil hs)) v))
            fresh,
      )

  -- For hints with distinct IDs that are not negative, `hintsUpToDate` holds exactly when the desired
  -- hints can be unlocked (indexes in range, no cycle) and the hints match them: with each value there
  -- are as many, and in order each has the prerequisites and the setting `anonymize` that its desired
  -- one wants. It holds for every walk order.
  pub hints_up_to_date_iff :
      ValidIds hs
      → (hints_up_to_date walk desired hs ≡ ok true)
        ↔ ((InRange desired × IsAcyclic desired) × Matched desired hs)
  hints_up_to_date_iff v = (
    λ e.
        let (valid, matched) = up_to_date-Matched v e in
        ((validate_hint_prereqs_iff desired).0 valid, matched),
    λ m. Matched-up_to_date ((validate_hint_prereqs_iff desired).1 m.0) m.1,
  )
