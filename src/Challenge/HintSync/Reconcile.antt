-- ===== src/Challenge/HintSync/Reconcile.antt =====
-- What `reconcileHintRequirements` does to the hints.
use mathlib.Core.Path.{subst}
use ctfd_crossplane_provider.Prelude.{
  ◌≤◌, String, ℤ, ◌≡◌, refl, sym, ap, ◌∙◌, inl, inr, true, false, Option, none, some, List, [], ◌∷◌,
  arith, if◌then◌else◌, count, contains, Distinct, ==_iff, ==_refl, int_eq, string_eq, nat_eq,
  Bool-cases,
}
use ctfd_crossplane_provider.Result.{ok}
use ctfd_crossplane_provider.Exec.{Exec, pure, continue-eq-ok, ◌>>◌}
use ctfd_crossplane_provider.GoMap.{Map, lookup}
use ctfd_crossplane_provider.Strconv.Digits.{itoa}
use ctfd_crossplane_provider.Ctfd.{Hint}
use ctfd_crossplane_provider.CtfdClient.{Client}
use ctfd_crossplane_provider.Apis.Challenge.{ChallengeHint}
use ctfd_crossplane_provider.Challenge.Multiset.{same_int_set}
use ctfd_crossplane_provider.Challenge.Multiset.Same.{same_int_set_iff}
use ctfd_crossplane_provider.Challenge.Conversion.{eq_str_ptr}
use ctfd_crossplane_provider.Challenge.Pool.Stored.{stored-le-numbered}
use ctfd_crossplane_provider.Challenge.Hints.{
  desired_hint_key, existing_hint_key, hint_id, map_prereqs, prereqs_of, anonymize_of, eq_anonymize,
}
use ctfd_crossplane_provider.Challenge.Hints.Queues.{keyed_ids}
use ctfd_crossplane_provider.Challenge.HintSync.{patch_params, requirements_agree, reconcile_loop}
use ctfd_crossplane_provider.Challenge.HintSync.Lookup.{
  numbered_hints, stored_hints, hint_at, numbered-replace, newest-replace_ne, newest-replace,
  keyed_ids-replace, count-keyed_ids,
}
use ctfd_crossplane_provider.Challenge.HintSync.Server.{HintServer}
use ctfd_crossplane_provider.Challenge.HintSync.Create.{existing_hint_key-eq}

-- Every desired hint stands in relation `P` to the ID beside it.
abbrev pub AllPairs : (ChallengeHint → ℤ → Type 0) → List ChallengeHint → List ℤ → Type 0
AllPairs P [] ids = Unit
AllPairs P (d ∷ ds) [] = ⊥
AllPairs P (d ∷ ds) (id ∷ ids) = P d id × AllPairs P ds ids

pub AllPairs-map :
    (P Q : ChallengeHint → ℤ → Type 0) (ds : List ChallengeHint) (ids : List ℤ)
    → ((d : ChallengeHint) (id : ℤ) → contains id ids ≡ true → P d id → Q d id)
    → AllPairs P ds ids
    → AllPairs Q ds ids
AllPairs-map P Q [] ids f a = tt
AllPairs-map P Q (d ∷ ds) [] f a = a
AllPairs-map P Q (d ∷ ds) (id ∷ ids) f a = (
  f d id (ground (arith, ==_refl id)) a.0,
  AllPairs-map P Q ds ids (λ c z m. f c z (ground (arith, m))) a.1,
)

same_int_set_refl : (xs : List ℤ) → same_int_set xs xs ≡ true
same_int_set_refl xs = (same_int_set_iff xs xs).1 (λ z. refl)

-- A hint that a PATCH stored has the requirements that it carried.
patched_agrees :
    {W : Type 0} (client : Client W) (d : ChallengeHint) (want : List ℤ) (h : Hint)
    → prereqs_of (some h) ≡ want
    → ((s : String) → d.anonymize ≡ some s → anonymize_of h.requirements ≡ some s)
    → requirements_agree d want (some h) ≡ true
unfolding requirements_agree eq_anonymize eq_str_ptr
patched_agrees client d want h same settings =
    rw (same, same_int_set_refl want, set_to d.anonymize settings) (ground arith)
  where
    set_to :
        (a : Option String)
        → ((s : String) → a ≡ some s → anonymize_of h.requirements ≡ some s)
        → eq_anonymize a (some h) ≡ true
    set_to none f = refl
    set_to (some s) f = rw (f s refl) (==_refl s)

module _ {W : Type 0} (client : Client W) (cid : ℤ) (hints : W → List Hint)
    (server : HintServer client cid hints) (by_id : Map ℤ Hint) (all : List ℤ) where
  -- A hint requires what the desired one requires.
  abbrev pub Ready : List Hint → ChallengeHint → ℤ → Type 0
  Ready hs d id =
      (want : List ℤ) × (map_prereqs d.prerequisites all ≡ ok want)
      × (requirements_agree d want (hint_at id hs) ≡ true)

  -- A hint that required it before the hints were created still does.
  abbrev pub Fresh : List Hint → ChallengeHint → ℤ → Type 0
  Fresh hs d id =
      (want : List ℤ)
      → map_prereqs d.prerequisites all ≡ ok want
      → requirements_agree d want (lookup id by_id) ≡ true
      → requirements_agree d want (hint_at id hs) ≡ true

  abbrev pub Stands : List Hint → ChallengeHint → ℤ → Type 0
  Stands hs d id = 1 ≤ stored_hints id (desired_hint_key d) hs

  -- The hints after some with the IDs `ids` may have been patched.
  pub record Patched (ids : List ℤ) (before after : List Hint) : Type 0 where
    pub keyed : (k : String) → keyed_ids k after ≡ keyed_ids k before
    pub numbered : (z : ℤ) → numbered_hints z after ≡ numbered_hints z before
    pub others : (y : ℤ) → contains y ids ≡ false → hint_at y after ≡ hint_at y before

  abbrev one_step : ChallengeHint → ℤ → List ℤ → Exec W (Unit {0})
  one_step d id want =
      if requirements_agree d want (lookup id by_id)
      then pure tt
      else client.patch_hint (itoa id) (patch_params client cid d want)

  one_step-Patched :
      (d : ChallengeHint) (id : ℤ) (want : List ℤ) (w w' : W)
      → ((z : ℤ) → numbered_hints z (hints w) ≤ 1)
      → Stands (hints w) d id
      → Fresh (hints w) d id
      → map_prereqs d.prerequisites all ≡ ok want
      → one_step d id want w ≡ (ok tt, w')
      → Patched (id ∷ []) (hints w) (hints w')
        × (requirements_agree d want (hint_at id (hints w')) ≡ true)
  one_step-Patched d id want w w' one st fresh mapped e =
      elim (Bool-cases (requirements_agree d want (lookup id by_id))) [
        | inl agree ↦
            let stays : one_step d id want w ≡ (ok tt, w) = rw agree refl in
            let same : w ≡ w' = cc (stays, e) in
            subst
              (λ u.
                Patched (id ∷ []) (hints w) (hints u)
                × (requirements_agree d want (hint_at id (hints u)) ≡ true))
              same
              (
                record { keyed = λ k. refl; numbered = λ z. refl; others = λ y n. refl },
                fresh want mapped agree,
              )
        | inr differs ↦
            let q = patch_params client cid d want in
            let sent : client.patch_hint (itoa id) q w ≡ (ok tt, w') = sym (rw differs refl) ∙ e in
            let there : 1 ≤ numbered_hints id (hints w) = omega (
              arith,
              st,
              stored-le-numbered existing_hint_key hint_id id (desired_hint_key d) (hints w),
            ) in
            let (h, stored, same_id, content, title, cost, required, setting) =
              server.patched w w' id q refl there sent in
            let key = existing_hint_key-eq h d content title cost in
            (
              record {
                keyed = λ k.
                    ap (keyed_ids k) stored
                    ∙ keyed_ids-replace id h same_id k (hints w)
                        (subst (λ j. 1 ≤ stored_hints id j (hints w)) (sym key) st) (one id);
                numbered =
                    λ z. ap (numbered_hints z) stored ∙ numbered-replace id h same_id z (hints w);
                others = λ y n.
                    ap (hint_at y) stored
                    ∙ newest-replace_ne id h same_id y none (hints w)
                        (λ p. cc (n, (==_iff id y).1 (sym p)));
              },
              rw (stored, newest-replace id h same_id none (hints w) there)
                  (patched_agrees client d want h required setting),
            )
      ]

  -- After one step the hints of the others stand and are fresh as before.
  carry :
      (d : ChallengeHint) (id : ℤ) (ds : List ChallengeHint) (ids : List ℤ)
      (before after : List Hint)
      → contains id ids ≡ false
      → Patched (id ∷ []) before after
      → (AllPairs (Stands before) ds ids → AllPairs (Stands after) ds ids)
        × (AllPairs (Fresh before) ds ids → AllPairs (Fresh after) ds ids)
  carry d id ds ids before after other p = (
    AllPairs-map (Stands before) (Stands after) ds ids (λ c z m st. omega (
      arith,
      st,
      ap (count z) (p.keyed (desired_hint_key c)),
      count-keyed_ids z (desired_hint_key c) before,
      count-keyed_ids z (desired_hint_key c) after,
    )),
    AllPairs-map (Fresh before) (Fresh after) ds ids (λ c z m fresh want mapped agree.
        rw (p.others z (elsewhere z m)) (fresh want mapped agree)),
  )
    where
      elsewhere : (z : ℤ) → contains z ids ≡ true → contains z (id ∷ []) ≡ false
      elsewhere z m =
          ground (arith, m, other, ==_iff id z, (λ (q : id ≡ z). ap (λ (y : ℤ). contains y ids) q))

  -- The loop leaves every desired hint with the requirements that it wants.
  pub reconcile_loop-Ready :
      (ds : List ChallengeHint) (ids : List ℤ) (w w' : W)
      → ((z : ℤ) → numbered_hints z (hints w) ≤ 1)
      → Distinct ids
      → AllPairs (Stands (hints w)) ds ids
      → AllPairs (Fresh (hints w)) ds ids
      → reconcile_loop client cid by_id all ids ds w ≡ (ok tt, w')
      → Patched ids (hints w) (hints w') × AllPairs (Ready (hints w')) ds ids
  unfolding reconcile_loop
  reconcile_loop-Ready [] ids w w' one dis st fr e =
      let same : w ≡ w' = cc in
      subst (λ u. Patched ids (hints w) (hints u) × Unit) same
        (record { keyed = λ k. refl; numbered = λ z. refl; others = λ y n. refl }, tt)
  reconcile_loop-Ready (d ∷ ds) [] w w' one dis st fr e = elim st [ ]
  reconcile_loop-Ready (d ∷ ds) (id ∷ ids) w w' one dis st fr e =
      let (want, w₀, mapped₀, e₁) =
        continue-eq-ok (map_prereqs d.prerequisites all, w) (next d id ds ids) e in
      let mapped : map_prereqs d.prerequisites all ≡ ok want = cc (mapped₀) in
      let same : w ≡ w₀ = cc (mapped₀) in
      let (_, w₁, p, e₂) =
        continue-eq-ok (one_step d id want w₀) (λ _. reconcile_loop client cid by_id all ids ds)
          e₁ in
      let (step, agree) =
        one_step-Patched d id want w w₁ one st.0 fr.0 mapped
          (subst (λ u. one_step d id want u ≡ (ok tt, w₁)) (sym same) p) in
      let moved = carry d id ds ids (hints w) (hints w₁) dis.0 step in
      let (rest, ready) =
        reconcile_loop-Ready ds ids w₁ w' (λ z. omega (arith, one z, step.numbered z)) dis.1
          (moved.0 st.1) (moved.1 fr.1) e₂ in
      (
        record {
          keyed = λ k. rest.keyed k ∙ step.keyed k;
          numbered = λ z. rest.numbered z ∙ step.numbered z;
          others = λ y n. rest.others y (ground (arith, n)) ∙ step.others y (ground (arith, n));
        },
        ((want, mapped, rw (rest.others id dis.0) agree), ready),
      )
    where
      next : ChallengeHint → ℤ → List ChallengeHint → List ℤ → List ℤ → Exec W (Unit {0})
      next d id ds ids want = do one_step d id want; reconcile_loop client cid by_id all ids ds
