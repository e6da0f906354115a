-- ===== src/Challenge/HintSync/Fresh.antt =====
-- What holds of the hints between their creation and their reconciliation.
use mathlib.Core.Path.{subst}
use ctfd_crossplane_provider.Prelude.{
  ◌+◌, ◌≤◌, String, ℤ, ◌≡◌, ◌≢◌, refl, sym, ap, ◌∙◌, inl, inr, true, Option, none, List, [], ◌∷◌,
  ◌++◌, arith, length, length-eq_of_count, count, contains, Distinct, ◌==◌, ==_iff, ==_refl, int_eq,
  string_eq, nat_eq, Bool-cases,
}
use ctfd_crossplane_provider.Result.{ok, >>=-eq-ok}
use ctfd_crossplane_provider.GoMap.{lookup}
use ctfd_crossplane_provider.Ctfd.{Hint}
use ctfd_crossplane_provider.CtfdClient.{Client}
use ctfd_crossplane_provider.Apis.Challenge.{ChallengeHint}
use ctfd_crossplane_provider.Challenge.Multiset.{same_int_set}
use ctfd_crossplane_provider.Challenge.Multiset.Same.{same_int_set_iff}
use ctfd_crossplane_provider.Challenge.Pool.Stored.{stored-le-numbered}
use ctfd_crossplane_provider.Challenge.Hints.{
  desired_hint_key, existing_hint_key, hint_id, at_int, map_prereqs, prereqs_of, index_by_id,
}
use ctfd_crossplane_provider.Challenge.Hints.Queues.{chosen}
use ctfd_crossplane_provider.Challenge.HintSync.{requirements_agree}
use ctfd_crossplane_provider.Challenge.HintSync.Lookup.{
  numbered_hints, stored_hints, newest, hint_at, lookup-index_by_id, newest-append, newest_absent,
  numbered-append,
}
use ctfd_crossplane_provider.Challenge.HintSync.Reconcile.{AllPairs, AllPairs-map}

pub length-map_prereqs :
    (idx all want : List ℤ) → map_prereqs idx all ≡ ok want → length want ≡ length idx
unfolding map_prereqs
length-map_prereqs [] all want e = let none_wanted : want ≡ [] = cc in ap length none_wanted
length-map_prereqs (i ∷ idx) all want e =
    let (id, p, e₁) = >>=-eq-ok (at_int all i) _ e in
    let (out, q, e₂) = >>=-eq-ok (map_prereqs idx all) _ e₁ in
    let shape : id ∷ out ≡ want = cc (e₂) in
    sym (ap length shape) ∙ omega (arith, length-map_prereqs idx all out q)

-- A new hint has no prerequisites, so it has those that are wanted if none are.
agree_bare :
    {W : Type 0} (client : Client W) (d : ChallengeHint) (want : List ℤ) (o : Option Hint)
    → length want ≡ length d.prerequisites
    → prereqs_of o ≡ []
    → requirements_agree d want none ≡ true
    → requirements_agree d want o ≡ true
unfolding requirements_agree prereqs_of
agree_bare client d want o size bare agree =
    let set_ok : same_int_set want [] ≡ true = ground (arith, agree) in
    let none_wanted = length-eq_of_count want [] ((same_int_set_iff want []).0 set_ok) in
    let none_listed : (length d.prerequisites == 0) ≡ true =
      (==_iff (length d.prerequisites) 0).1 (omega (arith, none_wanted, size)) in
    rw (bare, set_ok, none_listed) refl

-- A hint requires what it required before, since the new hints have IDs of their own.
pub agree_after_creation :
    {W : Type 0} (client : Client W) (before news : List Hint) (all : List ℤ) (d : ChallengeHint)
    (id : ℤ)
    → ((z : ℤ) → numbered_hints z (before ++ news) ≤ 1)
    → ((z : ℤ) (o : Option Hint) → prereqs_of o ≡ [] → prereqs_of (newest z o news) ≡ [])
    → (want : List ℤ) → map_prereqs d.prerequisites all ≡ ok want
    → requirements_agree d want (lookup id (index_by_id [] before)) ≡ true
    → requirements_agree d want (hint_at id (before ++ news)) ≡ true
unfolding prereqs_of
agree_after_creation client before news all d id one bare want mapped agree =
    let old : requirements_agree d want (hint_at id before) ≡ true =
      subst (λ o. requirements_agree d want o ≡ true) (lookup-index_by_id id [] before) agree in
    subst (λ o. requirements_agree d want o ≡ true) (sym (newest-append id none before news))
      (elim (Bool-cases (numbered_hints id news == 0)) [
        | inl kept ↦
            rw
              (newest_absent id (hint_at id before) news
                ((==_iff (numbered_hints id news) 0).0 kept))
              old
        | inr new ↦
            let gone : hint_at id before ≡ none = newest_absent id none before (
              ground (
                arith,
                one id,
                numbered-append id before news,
                new,
                ==_iff (numbered_hints id news) 0,
              )) in
            rw gone (
              agree_bare client d want (newest id none news)
                (length-map_prereqs d.prerequisites all want mapped) (bare id none refl)
                (subst (λ o. requirements_agree d want o ≡ true) gone old))
      ])

stored_apart :
    (z : ℤ) (k j : String) (hs : List Hint)
    → k ≢ j
    → stored_hints z k hs + stored_hints z j hs ≤ numbered_hints z hs
stored_apart z k j [] n = omega arith
stored_apart z k j (h ∷ hs) n = ground (
  arith,
  stored_apart z k j hs n,
  ==_iff (existing_hint_key h) k,
  ==_iff (existing_hint_key h) j,
  n,
)

pub chosen_somewhere :
    (z : ℤ) (ds : List ChallengeHint) (ids : List ℤ)
    → length ids ≡ length ds
    → contains z ids ≡ true
    → (k : String) × (1 ≤ count z (chosen k ds ids))
chosen_somewhere z ds [] n m = cc
chosen_somewhere z [] (id ∷ ids) n m = absurd (omega (arith, n))
chosen_somewhere z (d ∷ ds) (id ∷ ids) n m = elim (Bool-cases (id == z)) [
  | inl here ↦ (desired_hint_key d, ground (arith, here, ==_refl (desired_hint_key d)))
  | inr there ↦
      let (k, le) = chosen_somewhere z ds ids (omega (arith, n)) (ground (arith, m, there)) in
      (k, ground (arith, le))
]

-- IDs that stand among the hints under the keys of the desired ones are distinct.
pub chosen-Distinct :
    (hs : List Hint) (ds : List ChallengeHint) (ids : List ℤ)
    → length ids ≡ length ds
    → ((z : ℤ) → numbered_hints z hs ≤ 1)
    → ((k : String) (z : ℤ) → count z (chosen k ds ids) ≤ stored_hints z k hs)
    → Distinct ids
chosen-Distinct hs ds [] n one le = tt
chosen-Distinct hs [] (id ∷ ids) n one le = absurd (omega (arith, n))
chosen-Distinct hs (d ∷ ds) (id ∷ ids) n one le = (
  elim (Bool-cases (contains id ids)) [
    | inr once ↦ once
    | inl again ↦
        let kd = desired_hint_key d in
        let (k, there) = chosen_somewhere id ds ids (omega (arith, n)) again in
        let below = stored-le-numbered existing_hint_key hint_id id in
        elim (Bool-cases (kd == k)) [
          | inl same_key ↦
              absurd (ground (arith, le k id, below k hs, one id, there, same_key, ==_refl id))
          | inr other_key ↦
              let apart = stored_apart id kd k hs (λ e. cc (other_key, (==_iff kd k).1 e)) in
              absurd (
                ground (
                  arith,
                  le kd id,
                  le k id,
                  apart,
                  one id,
                  there,
                  other_key,
                  ==_refl id,
                  ==_refl kd,
                ))
        ]
  ],
  chosen-Distinct hs ds ids (omega (arith, n)) one (λ k z. ground (arith, le k z)),
)

-- Every ID stands beside its desired hint.
pub chosen-AllPairs :
    (ds : List ChallengeHint) (ids : List ℤ)
    → length ids ≡ length ds
    → AllPairs (λ d id. 1 ≤ count id (chosen (desired_hint_key d) ds ids)) ds ids
chosen-AllPairs [] ids n = tt
chosen-AllPairs (d ∷ ds) [] n = absurd (omega (arith, n))
chosen-AllPairs (d ∷ ds) (id ∷ ids) n = (
  ground (arith, ==_refl (desired_hint_key d), ==_refl id),
  AllPairs-map (λ c z. 1 ≤ count z (chosen (desired_hint_key c) ds ids))
      (λ c z. 1 ≤ count z (chosen (desired_hint_key c) (d ∷ ds) (id ∷ ids))) ds ids
      (λ c z m le. ground (arith, le)) (chosen-AllPairs ds ids (omega (arith, n))),
)
