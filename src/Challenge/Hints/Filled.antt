-- ===== src/Challenge/Hints/Filled.antt =====
-- What becomes of a plan once the missing hints have their IDs.
use mathlib.Core.Path.{subst}
use ctfd_crossplane_provider.Prelude.{
  suc, ◌≤◌, String, ℤ, is_negative, ◌≡◌, refl, sym, ap, ◌∙◌, ◌⊎◌, inl, inr, false, ◌&&◌, List, [],
  ◌∷◌, ◌++◌, arith, if◌then◌else◌, count, length, ◌==◌, ==_iff, string_eq, int_eq, Bool-cases,
  List-cases,
}
use ctfd_crossplane_provider.GoMap.{insert}
use ctfd_crossplane_provider.Apis.Challenge.{ChallengeHint}
use ctfd_crossplane_provider.Challenge.Pool.{Pool, ids_at}
use ctfd_crossplane_provider.Challenge.Pool.Tally.{ids_at-insert}
use ctfd_crossplane_provider.Challenge.Hints.{desired_hint_key, missing, assign}
use ctfd_crossplane_provider.Challenge.Hints.Queues.{chosen}

-- The IDs `filled` are those planned, but where a hint was missing.
abbrev pub Filled : List ℤ → List ℤ → Type 0
Filled [] [] = Unit
Filled [] (f ∷ fs) = ⊥
Filled (p ∷ ps) [] = ⊥
Filled (p ∷ ps) (f ∷ fs) = (is_negative p ≡ false → f ≡ p) × Filled ps fs

abbrev pub Nonneg : List ℤ → Type 0
Nonneg [] = Unit
Nonneg (z ∷ zs) = (is_negative z ≡ false) × Nonneg zs

pub length-Filled : (ps fs : List ℤ) → Filled ps fs → length fs ≡ length ps
length-Filled [] [] f = refl
length-Filled [] (x ∷ fs) f = elim f [ ]
length-Filled (p ∷ ps) [] f = elim f [ ]
length-Filled (p ∷ ps) (x ∷ fs) f = ap suc (length-Filled ps fs f.1)

-- The IDs of the hints with a key that were missing.
abbrev pub created : String → List ChallengeHint → List ℤ → List ℤ → List ℤ
created k [] ps fs = []
created k (d ∷ ds) [] fs = []
created k (d ∷ ds) (p ∷ ps) [] = []
created k (d ∷ ds) (p ∷ ps) (f ∷ fs) =
    let rest = created k ds ps fs in
    if desired_hint_key d == k && is_negative p then f ∷ rest else rest

-- Under a key: the IDs that the plan takes are the first ones in the pool, and the desired hints
-- have those and then those that were created: none, unless the key has none left in the pool.
pub record Split (k : String) (pool : Pool) (ds : List ChallengeHint) (planned : List ℤ)
    (rest : Pool) (filled : List ℤ) : Type 0 where
  pub taken : List ℤ
  pub before : ids_at k pool ≡ taken ++ ids_at k rest
  pub after : chosen k ds filled ≡ taken ++ created k ds planned filled
  pub planned_once : (z : ℤ) → count z taken ≤ count z planned
  pub spare : (ids_at k rest ≡ []) ⊎ (created k ds planned filled ≡ [])

nil_of_append_right : (xs ys : List ℤ) → [] ≡ xs ++ ys → ys ≡ []
nil_of_append_right [] ys e = sym e
nil_of_append_right (x ∷ xs) ys e = cc

nil_of_append : (xs ys : List ℤ) → [] ≡ xs ++ ys → xs ≡ []
nil_of_append [] ys e = refl
nil_of_append (x ∷ xs) ys e = cc

Nonneg-insert :
    (pool : Pool) (j : String) (id : ℤ) (ids : List ℤ)
    → ids_at j pool ≡ id ∷ ids
    → ((k : String) → Nonneg (ids_at k pool))
    → (k : String) → Nonneg (ids_at k (insert j ids pool))
Nonneg-insert pool j id ids found all k = elim (Bool-cases (j == k)) [
  | inl here ↦ rw (ids_at-insert j k ids pool, here) (subst Nonneg found (all j)).1
  | inr there ↦ rw (ids_at-insert j k ids pool, there) (all k)
]

module _ (d : ChallengeHint) (ds : List ChallengeHint) (pool : Pool) (k : String) where
  Split-missing :
      (f : ℤ) (fs ps : List ℤ) (rest : Pool)
      → ids_at (desired_hint_key d) pool ≡ []
      → Split k pool ds ps rest fs
      → Split k pool (d ∷ ds) (missing ∷ ps) rest (f ∷ fs)
  Split-missing f fs ps rest empty s = elim (Bool-cases (desired_hint_key d == k)) [
    | inl here ↦
        let same = (==_iff (desired_hint_key d) k).0 here in
        let empty_here = sym empty ∙ ap (λ (j : String). ids_at j pool) same ∙ s.before in
        let none_taken = nil_of_append s.taken (ids_at k rest) empty_here in
        record {
          taken = [];
          before = s.before ∙ ap (λ t. t ++ ids_at k rest) none_taken;
          after =
              rw here (ap (λ t. f ∷ t) (s.after ∙ ap (λ t. t ++ created k ds ps fs) none_taken));
          planned_once = λ z. omega arith;
          spare = inl (nil_of_append_right s.taken (ids_at k rest) empty_here);
        }
    | inr there ↦ record {
      taken = s.taken;
      before = s.before;
      after = rw there s.after;
      planned_once = λ z. omega (arith, s.planned_once z);
      spare = rw there s.spare;
    }
  ]

  Split-found :
      (id f : ℤ) (ids fs ps : List ℤ) (rest : Pool)
      → ids_at (desired_hint_key d) pool ≡ id ∷ ids
      → is_negative id ≡ false
      → f ≡ id
      → Split k (insert (desired_hint_key d) ids pool) ds ps rest fs
      → Split k pool (d ∷ ds) (id ∷ ps) rest (f ∷ fs)
  Split-found id f ids fs ps rest found exists kept s =
      let write = ids_at-insert (desired_hint_key d) k ids pool in
      elim (Bool-cases (desired_hint_key d == k)) [
        | inl here ↦
            let same = (==_iff (desired_hint_key d) k).0 here in
            let tail : ids ≡ s.taken ++ ids_at k rest = sym (rw here refl) ∙ sym write ∙ s.before in
            record {
              taken = id ∷ s.taken;
              before =
                  ap (λ (j : String). ids_at j pool) (sym same) ∙ found ∙ ap (λ t. id ∷ t) tail;
              after = rw (here, exists, kept) (ap (λ t. id ∷ t) s.after);
              planned_once = λ z. omega (arith, s.planned_once z);
              spare = rw (here, exists) s.spare;
            }
        | inr there ↦ record {
          taken = s.taken;
          before = sym (rw there refl) ∙ sym write ∙ s.before;
          after = rw there s.after;
          planned_once = λ z. omega (arith, s.planned_once z);
          spare = rw there s.spare;
        }
      ]

abbrev Splits : Pool → List ChallengeHint → List ℤ × Pool → List ℤ → Type 0
Splits pool ds (planned, rest) filled = (k : String) → Split k pool ds planned rest filled

-- The plan that `planHints` makes splits every key in this way, as long as no existing hint has a
-- negative ID.
pub assign-Split :
    (pool : Pool) (ds : List ChallengeHint) (filled : List ℤ)
    → ((k : String) → Nonneg (ids_at k pool))
    → Filled (assign pool ds).0 filled
    → Splits pool ds (assign pool ds) filled
unfolding assign
assign-Split pool [] [] all f k = record {
  taken = [];
  before = refl;
  after = refl;
  planned_once = λ z. omega arith;
  spare = inr refl;
}
assign-Split pool [] (x ∷ filled) all f k = elim f [ ]
assign-Split pool (d ∷ ds) [] all f k = elim (List-cases (ids_at (desired_hint_key d) pool)) [
  | inl none_left ↦
      let here : assign pool (d ∷ ds) ≡ (missing ∷ (assign pool ds).0, (assign pool ds).1) =
        rw (none_left, assign) refl in
      absurd (subst (λ q. Filled q.0 []) here f)
  | inr (id, ids, found) ↦
      let next = assign (insert (desired_hint_key d) ids pool) ds in
      let here : assign pool (d ∷ ds) ≡ (id ∷ next.0, next.1) = rw (found, assign) refl in
      absurd (subst (λ q. Filled q.0 []) here f)
]
assign-Split pool (d ∷ ds) (x ∷ xs) all f k = elim (List-cases (ids_at (desired_hint_key d) pool)) [
  | inl none_left ↦
      let here : assign pool (d ∷ ds) ≡ (missing ∷ (assign pool ds).0, (assign pool ds).1) =
        rw (none_left, assign) refl in
      let f' = subst (λ q. Filled q.0 (x ∷ xs)) here f in
      subst (λ q. Split k pool (d ∷ ds) q.0 q.1 (x ∷ xs)) (sym here)
        (Split-missing d ds pool k x xs (assign pool ds).0 (assign pool ds).1 none_left
          (assign-Split pool ds xs all f'.1 k))
  | inr (id, ids, found) ↦
      let kd = desired_hint_key d in
      let next = assign (insert kd ids pool) ds in
      let here : assign pool (d ∷ ds) ≡ (id ∷ next.0, next.1) = rw (found, assign) refl in
      let f' = subst (λ q. Filled q.0 (x ∷ xs)) here f in
      let exists = (subst Nonneg found (all kd)).0 in
      subst (λ q. Split k pool (d ∷ ds) q.0 q.1 (x ∷ xs)) (sym here)
        (Split-found d ds pool k id x ids xs next.0 next.1 found exists (f'.0 exists)
          (assign-Split (insert kd ids pool) ds xs (Nonneg-insert pool kd id ids found all) f'.1 k))
]
