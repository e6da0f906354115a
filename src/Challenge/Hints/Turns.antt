-- ===== src/Challenge/Hints/Turns.antt =====
-- The plan by keys: the desired hints with a value take the IDs of the existing ones with it in turn.
use ctfd_crossplane_provider.Prelude.{
  ℕ, zero, suc, String, ℤ, ◌≡◌, refl, sym, ap, ◌∙◌, inl, inr, List, [], ◌∷◌, if◌then◌else◌, ◌==◌,
  ==_iff, string_eq, Bool-cases, List-cases,
}
use ctfd_crossplane_provider.GoMap.{insert}
use ctfd_crossplane_provider.Apis.Challenge.{ChallengeHint}
use ctfd_crossplane_provider.Challenge.Pool.{Pool, ids_at}
use ctfd_crossplane_provider.Challenge.Pool.Tally.{ids_at-insert}
use ctfd_crossplane_provider.Challenge.Hints.{desired_hint_key, missing, assign}
use ctfd_crossplane_provider.Challenge.Hints.Queues.{chosen}

-- The first `n` of some IDs, and -1 for each that is lacking.
abbrev pub in_turn : ℕ → List ℤ → List ℤ
in_turn zero ids = []
in_turn (suc n) [] = missing ∷ in_turn n []
in_turn (suc n) (id ∷ ids) = id ∷ in_turn n ids

-- How many desired hints have a key.
abbrev pub wanted_hints : String → List ChallengeHint → ℕ
wanted_hints k [] = 0
wanted_hints k (d ∷ ds) =
    let rest = wanted_hints k ds in if desired_hint_key d == k then suc rest else rest

module _ (k : String) (d : ChallengeHint) (ds : List ChallengeHint) where
  turn_missing :
      (pool : Pool) (ids : List ℤ)
      → ids_at (desired_hint_key d) pool ≡ []
      → chosen k ds ids ≡ in_turn (wanted_hints k ds) (ids_at k pool)
      → chosen k (d ∷ ds) (missing ∷ ids) ≡ in_turn (wanted_hints k (d ∷ ds)) (ids_at k pool)
  turn_missing pool ids none_left rest = elim (Bool-cases (desired_hint_key d == k)) [
    | inl here ↦
        let empty : ids_at k pool ≡ [] =
          ap (λ j. ids_at j pool) (sym ((==_iff (desired_hint_key d) k).0 here)) ∙ none_left in
        rw (here, empty) (ap (λ t. missing ∷ t) (rest ∙ ap (in_turn (wanted_hints k ds)) empty))
    | inr there ↦ rw there rest
  ]

  turn_taken :
      (pool : Pool) (id : ℤ) (left ids : List ℤ)
      → ids_at (desired_hint_key d) pool ≡ id ∷ left
      → chosen k ds ids
        ≡ in_turn (wanted_hints k ds) (ids_at k (insert (desired_hint_key d) left pool))
      → chosen k (d ∷ ds) (id ∷ ids) ≡ in_turn (wanted_hints k (d ∷ ds)) (ids_at k pool)
  turn_taken pool id left ids found rest = elim (Bool-cases (desired_hint_key d == k)) [
    | inl here ↦
        let full : ids_at k pool ≡ id ∷ left =
          ap (λ j. ids_at j pool) (sym ((==_iff (desired_hint_key d) k).0 here)) ∙ found in
        let after : ids_at k (insert (desired_hint_key d) left pool) ≡ left =
          ids_at-insert (desired_hint_key d) k left pool ∙ rw here refl in
        rw (here, full) (ap (λ t. id ∷ t) (rest ∙ ap (in_turn (wanted_hints k ds)) after))
    | inr there ↦
        let after : ids_at k (insert (desired_hint_key d) left pool) ≡ ids_at k pool =
          ids_at-insert (desired_hint_key d) k left pool ∙ rw there refl in
        rw there (rest ∙ ap (in_turn (wanted_hints k ds)) after)
  ]

-- Under every key the desired hints take the IDs of the pool in turn.
pub assign-in_turn :
    (k : String) (pool : Pool) (ds : List ChallengeHint)
    → chosen k ds (assign pool ds).0 ≡ in_turn (wanted_hints k ds) (ids_at k pool)
unfolding assign
assign-in_turn k pool [] = refl
assign-in_turn k pool (d ∷ ds) = elim (List-cases (ids_at (desired_hint_key d) pool)) [
  | inl none_left ↦
      rw (none_left, assign)
        (turn_missing k d ds pool (assign pool ds).0 none_left (assign-in_turn k pool ds))
  | inr (id, left, found) ↦
      let after = insert (desired_hint_key d) left pool in
      rw (found, assign)
        (turn_taken k d ds pool id left (assign after ds).0 found (assign-in_turn k after ds))
]
