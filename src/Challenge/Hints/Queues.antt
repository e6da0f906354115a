-- ===== src/Challenge/Hints/Queues.antt =====
-- The plan by what stands in the pool under each key, in order: which plan the hints of a challenge
-- give once they are synchronised.
use mathlib.Core.List.{Perm}
use ctfd_crossplane_provider.Prelude.{
  String, ℤ, ◌≡◌, refl, sym, ap, ◌∙◌, inl, inr, List, [], ◌∷◌, ◌++◌, arith, if◌then◌else◌, length,
  ◌==◌, ==_iff, ==_refl, string_eq, Bool-cases, List-cases, Distinct,
}
use ctfd_crossplane_provider.GoMap.{keys, insert}
use ctfd_crossplane_provider.GoMap.Laws.{Distinct-keys-insert}
use ctfd_crossplane_provider.Ctfd.{Hint}
use ctfd_crossplane_provider.Apis.Challenge.{ChallengeHint}
use ctfd_crossplane_provider.Challenge.Pool.{Pool, ids_at, add, pool_into, all_ids}
use ctfd_crossplane_provider.Challenge.Pool.Tally.{ids_at-insert, held, held-perm, held-ids_at}
use ctfd_crossplane_provider.Challenge.Pool.Stored.{Distinct-pool_into}
use ctfd_crossplane_provider.Challenge.Hints.{
  desired_hint_key, existing_hint_key, hint_id, assign, plan_hints,
}

-- The IDs of the hints with a key, in order.
abbrev pub keyed_ids : String → List Hint → List ℤ
keyed_ids k [] = []
keyed_ids k (h ∷ hs) =
    let rest = keyed_ids k hs in if existing_hint_key h == k then h.id ∷ rest else rest

-- Of IDs that stand beside desired hints, those beside hints with a key, in order.
abbrev pub chosen : String → List ChallengeHint → List ℤ → List ℤ
chosen k [] ids = []
chosen k (d ∷ ds) [] = []
chosen k (d ∷ ds) (id ∷ ids) =
    let rest = chosen k ds ids in if desired_hint_key d == k then id ∷ rest else rest

pub append-nil : {A : Type 0} (xs : List A) → xs ++ [] ≡ xs
append-nil [] = refl
append-nil (x ∷ xs) = ap (λ t. x ∷ t) (append-nil xs)

pub append_assoc : {A : Type 0} (xs ys zs : List A) → (xs ++ ys) ++ zs ≡ xs ++ (ys ++ zs)
append_assoc [] ys zs = refl
append_assoc (x ∷ xs) ys zs = ap (λ t. x ∷ t) (append_assoc xs ys zs)

pub keyed_ids-append :
    (k : String) (hs gs : List Hint) → keyed_ids k (hs ++ gs) ≡ keyed_ids k hs ++ keyed_ids k gs
keyed_ids-append k [] gs = refl
keyed_ids-append k (h ∷ hs) gs = ground (arith, keyed_ids-append k hs gs)

-- The pool of some hints holds under each key their IDs, in order.
pub ids_at-pool_into :
    (k : String) (pool : Pool) (hs : List Hint)
    → ids_at k (pool_into existing_hint_key hint_id pool hs) ≡ ids_at k pool ++ keyed_ids k hs
unfolding pool_into add
ids_at-pool_into k pool [] = sym (append-nil (ids_at k pool))
ids_at-pool_into k pool (h ∷ hs) =
    let j = existing_hint_key h in
    ids_at-pool_into k (add j h.id pool) hs
    ∙ after (ids_at-insert j k (ids_at j pool ++ h.id ∷ []) pool)
  where
    after :
        (let j = existing_hint_key h in
          ids_at k (add j h.id pool)
          ≡ (if j == k then ids_at j pool ++ h.id ∷ [] else ids_at k pool))
        → ids_at k (add (existing_hint_key h) h.id pool) ++ keyed_ids k hs
          ≡ ids_at k pool ++ keyed_ids k (h ∷ hs)
    after e = elim (Bool-cases (existing_hint_key h == k)) [
      | inl here ↦
          let same = (==_iff (existing_hint_key h) k).0 here in
          rw (e, here, same) (append_assoc (ids_at k pool) (h.id ∷ []) (keyed_ids k hs))
      | inr there ↦ rw (e, there) refl
    ]

-- From a pool that holds under each key just the IDs that stand beside the desired hints with that
-- key, every desired hint is given its ID and nothing is left.
assign-chosen :
    (pool : Pool) (ds : List ChallengeHint) (ids : List ℤ)
    → length ids ≡ length ds
    → ((k : String) → ids_at k pool ≡ chosen k ds ids)
    → ((assign pool ds).0 ≡ ids) × ((k : String) → ids_at k (assign pool ds).1 ≡ [])
unfolding assign
assign-chosen pool [] [] n h = (refl, h)
assign-chosen pool [] (id ∷ ids) n h = absurd (omega (arith, n))
assign-chosen pool (d ∷ ds) [] n h = absurd (omega (arith, n))
assign-chosen pool (d ∷ ds) (id ∷ ids) n h =
    let kd = desired_hint_key d in
    let found : ids_at kd pool ≡ id ∷ chosen kd ds ids = h kd ∙ rw (==_refl kd) refl in
    let (same, none_left) =
      assign-chosen (insert kd (chosen kd ds ids) pool) ds ids (omega (arith, n))
        (λ k. ids_at-insert kd k (chosen kd ds ids) pool ∙ rest k) in
    rw (found, assign) (ap (λ t. id ∷ t) same, none_left)
  where
    rest :
        (k : String)
        → (if desired_hint_key d == k then chosen (desired_hint_key d) ds ids else ids_at k pool)
          ≡ chosen k ds ids
    rest k = elim (Bool-cases (desired_hint_key d == k)) [
      | inl here ↦
          rw here (ap (λ (j : String). chosen j ds ids) ((==_iff (desired_hint_key d) k).0 here))
      | inr there ↦ rw there (h k ∙ rw there refl)
    ]

Distinct-assign :
    (pool : Pool) (ds : List ChallengeHint)
    → Distinct (keys pool)
    → Distinct (keys (assign pool ds).1)
unfolding assign
Distinct-assign pool [] d = d
Distinct-assign pool (x ∷ ds) d = elim (List-cases (ids_at (desired_hint_key x) pool)) [
  | inl none_left ↦ rw (none_left, assign) (Distinct-assign pool ds d)
  | inr (id, ids, found) ↦
      rw (found, assign)
        (Distinct-assign (insert (desired_hint_key x) ids pool) ds
          (Distinct-keys-insert (desired_hint_key x) ids pool d))
]

all_ids-nil : (pool : Pool) → ((k : String) → held k pool ≡ 0) → all_ids pool ≡ []
all_ids-nil [] h = refl
all_ids-nil ((k, []) ∷ pool) h = all_ids-nil pool (λ j. ground (arith, h j))
all_ids-nil ((k, id ∷ ids) ∷ pool) h = absurd (ground (arith, h k, ==_refl k))

-- If the hints with each key are just those beside the desired hints with that key, in order, the
-- plan gives every desired hint its ID and deletes nothing.
pub plan_hints-chosen :
    (walk : Pool → Pool)
    → ((pool : Pool) → Perm (walk pool) pool)
    → (desired : List ChallengeHint) (existing : List Hint) (ids : List ℤ)
    → length ids ≡ length desired
    → ((k : String) → keyed_ids k existing ≡ chosen k desired ids)
    → plan_hints walk desired existing ≡ (ids, [])
unfolding plan_hints
plan_hints-chosen walk order desired existing ids n h =
    let start = pool_into existing_hint_key hint_id [] existing in
    let (same, empty) =
      assign-chosen start desired ids n (λ k. ids_at-pool_into k [] existing ∙ h k) in
    let rest = (assign start desired).1 in
    let distinct =
      Distinct-assign start desired (Distinct-pool_into existing_hint_key hint_id [] existing tt) in
    let nothing : all_ids (walk rest) ≡ [] = all_ids-nil (walk rest) (λ k.
      omega (arith, held-perm k (order rest), held-ids_at k rest distinct, ap length (empty k))) in
    λ i. (same i, nothing i)
