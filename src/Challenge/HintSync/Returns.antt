-- ===== src/Challenge/HintSync/Returns.antt =====
-- A synchronisation of hints over calls that succeed.
use mathlib.Core.List.{Perm}
use mathlib.Core.Path.{subst}
use ctfd_crossplane_provider.Challenge.Pool.Stored.{stored-le-numbered}
use ctfd_crossplane_provider.Challenge.HintSync.Reads.{challenge_hints-eq}
use ctfd_crossplane_provider.Challenge.HintSync.Fresh.{chosen_somewhere}
use ctfd_crossplane_provider.Challenge.HintSync.Planned.{plan_hints-Keeps}
use ctfd_crossplane_provider.Challenge.HintSync.Create.{create_missing_hints-Created}
use ctfd_crossplane_provider.Prelude.{
  ==_iff, ◌++◌, contains, ◌==◌, if◌then◌else◌, ℕ, sym, Option, some, suc, ◌≤◌, ℤ, is_negative, ◌≡◌,
  refl, ap, ◌∙◌, inl, inr, true, List, [], ◌∷◌, map, arith, length, count, int_eq, ==_refl,
  Bool-cases,
}
use ctfd_crossplane_provider.Result.{ok}
use ctfd_crossplane_provider.Exec.{continue-ok}
use ctfd_crossplane_provider.GoMap.{Map, lookup}
use ctfd_crossplane_provider.Strconv.Digits.{itoa}
use ctfd_crossplane_provider.Ctfd.{Hint, PostHintsParams, PatchHintsParams}
use ctfd_crossplane_provider.CtfdClient.{Client}
use ctfd_crossplane_provider.Apis.Challenge.{ChallengeHint}
use ctfd_crossplane_provider.Challenge.Prereqs.Graph.{InRange, IsAcyclic}
use ctfd_crossplane_provider.Challenge.Prereqs.Decides.{validate_hint_prereqs_iff}
use ctfd_crossplane_provider.Challenge.Pool.{Pool}
use ctfd_crossplane_provider.Challenge.Hints.{
  existing_hint_key, hint_id, plan_hints, index_by_id, hints_up_to_date,
}
use ctfd_crossplane_provider.Challenge.Hints.Plan.{plan_hints-IsPlan}
use ctfd_crossplane_provider.Challenge.HintSync.{
  full_hints, challenge_hints, create_missing_hints, reconcile_loop, reconcile_hint_requirements,
  delete_hints, apply_plan, sync_hints, hint_params, patch_params, requirements_agree,
}
use ctfd_crossplane_provider.Challenge.HintSync.Lookup.{
  numbered-replace, numbered-append, remove_hint, numbered_hints,
}
use ctfd_crossplane_provider.Challenge.HintSync.Server.{ValidIds, HintServer}
use ctfd_crossplane_provider.Challenge.Hints.Bounds.{Maps, InRange-Maps}
use ctfd_crossplane_provider.Challenge.HintSync.Settles.{sync_hints_settles}

numbered-map : (z : ℤ) (hs : List Hint) → numbered_hints z hs ≡ count z (map hint_id hs)
numbered-map z [] = refl
numbered-map z (h ∷ hs) = omega (arith, numbered-map z hs)

map-some-injective : (hs gs : List Hint) → map {B = Option Hint} some hs ≡ map some gs → hs ≡ gs
map-some-injective [] [] e = refl
map-some-injective [] (g ∷ gs) e = cc (e)
map-some-injective (h ∷ hs) [] e = cc (e)
map-some-injective (h ∷ hs) (g ∷ gs) e =
    let first : h ≡ g = cc (e) in
    let rest : map {B = Option Hint} some hs ≡ map some gs = cc (e) in
    λ i. first i ∷ map-some-injective hs gs rest i

numbered-remove_one :
    (id z : ℤ) (hs : List Hint)
    → numbered_hints z (remove_hint id hs) ≡ (if id == z then 0 else numbered_hints z hs)
numbered-remove_one id z [] = ground arith
numbered-remove_one id z (h ∷ hs) =
    let rest = numbered-remove_one id z hs in
    elim (Bool-cases (h.id == id)) [
      | inl here ↦
          let same : h.id ≡ id = (==_iff h.id id).0 here in
          let alike : (h.id == z) ≡ (id == z) = ap (λ (x : ℤ). x == z) same in
          rw here (ground (arith, rest, alike))
      | inr there ↦
          rw there (ground (arith, rest, there, ==_iff id z, ==_iff h.id z, ==_iff h.id id))
    ]

deletes-le-numbered :
    (walk : Pool → Pool)
    → ((pool : Pool) → Perm (walk pool) pool)
    → (desired : List ChallengeHint) (gs : List Hint) → ValidIds gs
    → (z : ℤ) → count z (plan_hints walk desired gs).1 ≤ numbered_hints z gs
deletes-le-numbered walk order desired gs v z = (plan_hints-IsPlan walk order desired gs).deleted z

module _ {W : Type 0} (client : Client W) (cid : ℤ) (hints : W → List Hint) where
  -- The calls of a synchronisation all succeed; a hint can be read, patched and deleted if it is
  -- there.
  pub record HintCalls : Type 0 where
    pub lists :
        (w : W)
        → (hs : List Hint) × (w' : W) × (client.get_challenge_hints cid w ≡ (ok (map some hs), w'))
    pub gets :
        (z : ℤ) (w : W)
        → 1 ≤ numbered_hints z (hints w)
        → (h : Hint) × (w' : W) × (client.get_hint (itoa z) w ≡ (ok h, w'))
    pub posts :
        (q : PostHintsParams) (w : W)
        → q.challenge_id ≡ cid
        → (h : Hint) × (w' : W) × (client.post_hints q w ≡ (ok h, w'))
    pub patches :
        (z : ℤ) (q : PatchHintsParams) (w : W)
        → 1 ≤ numbered_hints z (hints w)
        → (w' : W) × (client.patch_hint (itoa z) q w ≡ (ok tt, w'))
    pub deletes :
        (z : ℤ) (w : W)
        → 1 ≤ numbered_hints z (hints w)
        → (w' : W) × (client.delete_hint (itoa z) w ≡ (ok tt, w'))

  module _ (server : HintServer client cid hints) (calls : HintCalls) where
    reads_full :
        (listed : List Hint) (w : W)
        → ((z : ℤ) → 1 ≤ numbered_hints z listed → 1 ≤ numbered_hints z (hints w))
        → (full : List Hint) × (w' : W) × (full_hints client (map some listed) w ≡ (ok full, w'))
    unfolding full_hints
    reads_full [] w there = ([], w, refl)
    reads_full (h ∷ listed) w there =
        let (g, w₁, p) = calls.gets h.id w (there h.id (ground (arith, ==_refl h.id))) in
        let kept = (server.got w w₁ h.id g (there h.id (ground (arith, ==_refl h.id))) p).1 in
        let (rest, w', q) = reads_full listed w₁ (λ z n. rw kept (there z (omega (arith, n)))) in
        (g ∷ rest, w', continue-ok _ _ p ∙ continue-ok _ _ q)

    reads : (w : W) → (full : List Hint) × (w' : W) × (challenge_hints client cid w ≡ (ok full, w'))
    unfolding challenge_hints
    reads w =
        let (listed, w₁, p) = calls.lists w in
        let (hs, given, ids, kept) = server.listed w w₁ (map some listed) p in
        let same : map hint_id listed ≡ map hint_id hs =
          ap (map hint_id) (map-some-injective listed hs given) in
        let (full, w', q) = reads_full listed w₁ (λ z n. rw kept (
          omega (
            arith,
            n,
            numbered-map z listed,
            numbered-map z (hints w),
            ap (count z) (same ∙ ids),
          ))) in
        (full, w', continue-ok _ _ p ∙ q)

    creates :
        (ds : List ChallengeHint) (ids : List ℤ) (w : W)
        → length ids ≡ length ds
        → (filled : List ℤ) × (w' : W) × (create_missing_hints client cid ds ids w
            ≡ (ok filled, w'))
          × (length filled ≡ length ds)
    unfolding create_missing_hints
    creates [] ids w n = (ids, w, refl, n)
    creates (d ∷ ds) [] w n = absurd (omega (arith, n))
    creates (d ∷ ds) (id ∷ ids) w n = elim (Bool-cases (is_negative id)) [
      | inr exists ↦
          let (rest, w', e, sized) = creates ds ids w (omega (arith, n)) in
          (id ∷ rest, w', rw (exists, create_missing_hints) (continue-ok _ _ e), ap suc sized)
      | inl gone ↦
          let (h, w₁, p) = calls.posts (hint_params client cid d) w refl in
          let (rest, w', e, sized) = creates ds ids w₁ (omega (arith, n)) in
          (
            h.id ∷ rest,
            w',
            rw (gone, create_missing_hints) (continue-ok _ _ p ∙ continue-ok _ _ e),
            ap suc sized,
          )
    ]

    -- The reconciliation patches hints that are there, and all stay there.
    patches_all :
        (by_id : Map ℤ Hint) (all : List ℤ) (ids : List ℤ) (ds : List ChallengeHint) (w : W)
        → length ids ≡ length ds
        → Maps all ds
        → ((z : ℤ) → contains z ids ≡ true → 1 ≤ numbered_hints z (hints w))
        → (w' : W) × (reconcile_loop client cid by_id all ids ds w ≡ (ok tt, w'))
          × ((z : ℤ) → numbered_hints z (hints w') ≡ numbered_hints z (hints w))
    unfolding reconcile_loop
    patches_all by_id all ids [] w n f there = (w, refl, λ z. refl)
    patches_all by_id all [] (d ∷ ds) w n f there = absurd (omega (arith, n))
    patches_all by_id all (id ∷ ids) (d ∷ ds) w n f there =
        let (want, mapped) = f 0 d refl in
        elim (Bool-cases (requirements_agree d want (lookup id by_id))) [
          | inl agree ↦
              let (w', e, same) =
                patches_all by_id all ids ds w (omega (arith, n)) (λ i. f (suc i))
                  (λ z m. there z (ground (arith, m))) in
              (w', rw (mapped, agree) e, same)
          | inr differs ↦
              let q = patch_params client cid d want in
              let here : 1 ≤ numbered_hints id (hints w) = there id (ground (arith, ==_refl id)) in
              let (w₁, p) = calls.patches id q w here in
              let (h, stored, same_id, _, _, _, _, _) = server.patched w w₁ id q refl here p in
              let still : (z : ℤ) → numbered_hints z (hints w₁) ≡ numbered_hints z (hints w) =
                λ z. ap (numbered_hints z) stored ∙ numbered-replace id h same_id z (hints w) in
              let (w', e, same) =
                patches_all by_id all ids ds w₁ (omega (arith, n)) (λ i. f (suc i))
                  (λ z m. omega (arith, still z, there z (ground (arith, m)))) in
              (w', rw (mapped, differs) (continue-ok _ _ p ∙ e), λ z. same z ∙ still z)
        ]

    -- The deletions delete hints that are there, each once.
    deletes_all :
        (ids : List ℤ) (w : W)
        → ((z : ℤ) → numbered_hints z (hints w) ≤ 1)
        → ((z : ℤ) → count z ids ≤ numbered_hints z (hints w))
        → (w' : W) × (delete_hints client ids w ≡ (ok tt, w'))
    unfolding delete_hints
    deletes_all [] w one there = (w, refl)
    deletes_all (id ∷ ids) w one there =
        let self = ap {B = ℕ} (λ b. if b then 1 else 0) (==_refl id) in
        let (w₁, p) = calls.deletes id w (omega (arith, self, there id)) in
        let gone = server.deleted w w₁ id p in
        let left : (z : ℤ)
            → numbered_hints z (hints w₁) ≡ (if id == z then 0 else numbered_hints z (hints w)) =
          λ z. ap (numbered_hints z) gone ∙ numbered-remove_one id z (hints w) in
        let (w', e) =
          deletes_all ids w₁ (λ z. ground (arith, left z, one z))
            (λ z. ground (arith, left z, one z, there z)) in
        (w', continue-ok _ _ p ∙ e)

    applies :
        (walk : Pool → Pool)
        → ((pool : Pool) → Perm (walk pool) pool)
        → (desired : List ChallengeHint) (w : W) → InRange desired
        → ValidIds (hints w)
        → (w' : W) × (apply_plan client cid desired (hints w) (plan_hints walk desired (hints w)) w
            ≡ (ok tt, w'))
    unfolding apply_plan reconcile_hint_requirements
    applies walk order desired w within v =
        let gs = hints w in
        let plan = plan_hints walk desired gs in
        let is = plan_hints-IsPlan walk order desired gs in
        let (filled, w₁, p, sized) = creates desired plan.0 w is.sized in
        let c =
          create_missing_hints-Created client cid hints server desired plan.0 filled w w₁ is.sized v
            p in
        let keeps =
          plan_hints-Keeps walk order desired gs c.news v (subst ValidIds c.appended c.valid) filled
            c.filled_in c.keyed in
        let there : (z : ℤ) → contains z filled ≡ true → 1 ≤ numbered_hints z (hints w₁) = λ z m.
          let (k, le) = chosen_somewhere z desired filled sized m in
          omega (
            arith,
            le,
            (keeps k).stand z,
            stored-le-numbered existing_hint_key hint_id z k (gs ++ c.news),
            ap (numbered_hints z) c.appended,
          ) in
        let (w₂, q, same) =
          patches_all (index_by_id [] gs) filled filled desired w₁ sized
            (InRange-Maps desired filled within sized) there in
        let (w', r) =
          deletes_all plan.1 w₂ (λ z. omega (arith, same z, c.valid.unique z))
            (λ z. omega (
              arith,
              same z,
              ap (numbered_hints z) c.appended,
              numbered-append z gs c.news,
              deletes-le-numbered walk order desired gs v z,
            )) in
        (w', continue-ok _ _ p ∙ continue-ok _ _ q ∙ r)

    returns :
        (walk : Pool → Pool)
        → ((pool : Pool) → Perm (walk pool) pool)
        → (desired : List ChallengeHint) (w : W) → InRange desired
        → IsAcyclic desired
        → ValidIds (hints w)
        → (w' : W) × (sync_hints client walk cid desired w ≡ (ok tt, w'))
    unfolding sync_hints
    returns walk order desired w within acyclic v =
        let valid = (validate_hint_prereqs_iff desired).1 (within, acyclic) in
        let (full, w₁, p) = reads w in
        let (all, kept) = challenge_hints-eq client cid hints server full w w₁ v p in
        let (w', q) = applies walk order desired w₁ within (subst ValidIds (sym kept) v) in
        let q' : apply_plan client cid desired full (plan_hints walk desired full) w₁
            ≡ (ok tt, w') =
          subst
            (λ gs. apply_plan client cid desired gs (plan_hints walk desired gs) w₁ ≡ (ok tt, w'))
            (kept ∙ sym all) q in
        (w', rw valid (continue-ok _ _ p ∙ q'))

    -- Over calls that succeed (the listing, reads, patches and deletions of hints that are there, and
    -- creations for the challenge) and do what they say, `syncHints` returns without an error and
    -- leaves the hints of the challenge up to date, for desired hints that can be unlocked (indexes in
    -- range, no cycle), from any hints with distinct IDs that are not negative and for every walk
    -- order.
    pub sync_hints_converges :
        (walk walk' : Pool → Pool)
        → ((pool : Pool) → Perm (walk pool) pool)
        → ((pool : Pool) → Perm (walk' pool) pool)
        → (desired : List ChallengeHint) (w : W) → InRange desired
        → IsAcyclic desired
        → ValidIds (hints w)
        → (w' : W) × (sync_hints client walk cid desired w ≡ (ok tt, w'))
          × (hints_up_to_date walk' desired (hints w') ≡ ok true)
    sync_hints_converges walk walk' order order' desired w within acyclic v =
        let (w', e) = returns walk order desired w within acyclic v in
        (w', e, sync_hints_settles client cid hints server walk walk' order order' desired w w' v e)
