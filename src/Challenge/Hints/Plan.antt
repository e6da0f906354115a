-- ===== src/Challenge/Hints/Plan.antt =====
-- The plan that matches desired hints with existing ones.
use mathlib.Core.Path.{subst}
use mathlib.Core.List.{Perm}
use ctfd_crossplane_provider.Prelude.{
  ℕ, zero, suc, ◌+◌, ◌≤◌, String, ℤ, ◌≡◌, ◌≢◌, refl, sym, ap, ◌∙◌, ◌⊎◌, inl, inr, some, List, [],
  ◌∷◌, ◌++◌, arith, if◌then◌else◌, length, get_elem?, count, ==_refl, ==_ne, string_eq, int_eq,
  List-cases, count-append,
}
use ctfd_crossplane_provider.GoMap.{insert, total}
use ctfd_crossplane_provider.GoMap.Laws.{total-insert, total-perm}
use ctfd_crossplane_provider.Ctfd.{Hint}
use ctfd_crossplane_provider.Apis.Challenge.{ChallengeHint}
use ctfd_crossplane_provider.Challenge.Pool.{Pool, ids_at, add, pool_into}
use ctfd_crossplane_provider.Challenge.Pool.Tally.{tagged, tagged-insert, count-all_ids}
use ctfd_crossplane_provider.Challenge.Pool.Stored.{stored, numbered, tagged-pool_into}
use ctfd_crossplane_provider.Challenge.Hints.Queues.{keyed_ids, chosen, ids_at-pool_into}
use ctfd_crossplane_provider.Challenge.Hints.Turns.{in_turn, wanted_hints, assign-in_turn}
use ctfd_crossplane_provider.Challenge.Hints.{
  desired_hint_key, existing_hint_key, hint_id, missing, assign, plan_hints,
}

-- How often an ID stands in a pool.
abbrev pooled : ℤ → Pool → ℕ
pooled z pool = total (λ (e : String × List ℤ). count z e.1) pool

pooled-insert :
    (z : ℤ) (k : String) (ids : List ℤ) (pool : Pool)
    → pooled z (insert k ids pool) + count z (ids_at k pool) ≡ pooled z pool + count z ids
pooled-insert z k ids pool = total-insert (λ (e : String × List ℤ). count z e.1) [] k ids pool refl

pooled-pool_into :
    (z : ℤ) (pool : Pool) (hs : List Hint)
    → pooled z (pool_into existing_hint_key hint_id pool hs)
      ≡ pooled z pool + numbered existing_hint_key hint_id z hs
unfolding pool_into add
pooled-pool_into z pool [] = omega arith
pooled-pool_into z pool (h ∷ hs) =
    let k = existing_hint_key h in
    omega (
      arith,
      pooled-pool_into z (add k h.id pool) hs,
      pooled-insert z k (ids_at k pool ++ h.id ∷ []) pool,
      count-append z (ids_at k pool) (h.id ∷ []),
    )

-- The ID at an index is that of an existing hint with the key of the desired one, or -1.
abbrev IsMatch : Pool → ChallengeHint → ℤ → Type 0
IsMatch pool d id = (id ≡ missing) ⊎ (1 ≤ tagged id (desired_hint_key d) pool)

record Assigned (pool : Pool) (ds : List ChallengeHint) (ids : List ℤ) (pool' : Pool) : Type 0 where
  sized : length ids ≡ length ds
  matched :
      (i : ℕ) (d : ChallengeHint) (id : ℤ)
      → get_elem? ds i ≡ some d
      → get_elem? ids i ≡ some id
      → IsMatch pool d id
  conserved : (z : ℤ) → z ≢ missing → count z ids + pooled z pool' ≡ pooled z pool
  fewer : (z : ℤ) → pooled z pool' ≤ pooled z pool

-- The first ID of a key is an ID of that key.
tagged-first :
    (pool : Pool) (k : String) (id : ℤ) (ids : List ℤ)
    → ids_at k pool ≡ id ∷ ids
    → 1 ≤ tagged id k pool
tagged-first pool k id ids found =
    ground (arith, tagged-insert id k k ids pool, ap (count id) found, ==_refl k, ==_refl id)

-- What an ID is tagged with after one is taken from the pool it was tagged with before.
IsMatch-insert :
    (pool : Pool) (k : String) (id : ℤ) (ids : List ℤ)
    → ids_at k pool ≡ id ∷ ids
    → (d : ChallengeHint) (id' : ℤ) → IsMatch (insert k ids pool) d id'
    → IsMatch pool d id'
IsMatch-insert pool k id ids found d id' (inl e) = inl e
IsMatch-insert pool k id ids found d id' (inr le) =
    inr (ground (arith, tagged-insert id' (desired_hint_key d) k ids pool, ap (count id') found))

assign-Assigned :
    (pool : Pool) (ds : List ChallengeHint) → Assigned pool ds (assign pool ds).0 (assign pool ds).1
unfolding assign
assign-Assigned pool [] = record {
  sized = refl;
  matched = λ i d id e f. cc;
  conserved = λ z n. omega arith;
  fewer = λ z. omega arith;
}
assign-Assigned pool (d ∷ ds) = elim (List-cases (ids_at (desired_hint_key d) pool)) [
  | inl none_left ↦
      let r = assign-Assigned pool ds in
      rw (none_left, assign)
        (record {
          sized = ap suc r.sized;
          matched = λ i. no_id i r;
          conserved = λ z n. omega (
            arith,
            r.conserved z n,
            ap {B = ℕ} (λ b. if b then 1 else 0) (==_ne missing z (λ e. n (sym e))),
          );
          fewer = r.fewer;
        })
  | inr (id, ids, found) ↦
      let r = assign-Assigned (insert (desired_hint_key d) ids pool) ds in
      rw (found, assign)
        (record {
          sized = ap suc r.sized;
          matched = λ i. an_id id ids found i r;
          conserved = λ z n. omega (
            arith,
            r.conserved z n,
            pooled-insert z (desired_hint_key d) ids pool,
            ap (count z) found,
          );
          fewer = λ z.
              omega (
                arith,
                r.fewer z,
                pooled-insert z (desired_hint_key d) ids pool,
                ap (count z) found,
              );
        })
]
  where
    no_id :
        (i : ℕ)
        → Assigned pool ds (assign pool ds).0 (assign pool ds).1
        → (d' : ChallengeHint) (id' : ℤ) → get_elem? (d ∷ ds) i ≡ some d'
        → get_elem? (missing ∷ (assign pool ds).0) i ≡ some id'
        → IsMatch pool d' id'
    no_id zero r d' id' e f = inl (cc)
    no_id (suc i) r d' id' e f = r.matched i d' id' e f

    an_id :
        (id : ℤ) (ids : List ℤ)
        → ids_at (desired_hint_key d) pool ≡ id ∷ ids
        → (i : ℕ)
        → (let after = assign (insert (desired_hint_key d) ids pool) ds in
            Assigned (insert (desired_hint_key d) ids pool) ds after.0 after.1)
        → (d' : ChallengeHint) (id' : ℤ) → get_elem? (d ∷ ds) i ≡ some d'
        → get_elem? (id ∷ (assign (insert (desired_hint_key d) ids pool) ds).0) i ≡ some id'
        → IsMatch pool d' id'
    an_id id ids found zero r d' id' e f =
        let same_d : d ≡ d' = cc in
        let same_id : id ≡ id' = cc in
        subst (λ x. IsMatch pool x id') same_d
          (subst (IsMatch pool d) same_id
            (inr (tagged-first pool (desired_hint_key d) id ids found)))
    an_id id ids found (suc i) r d' id' e f =
        IsMatch-insert pool (desired_hint_key d) id ids found d' id' (r.matched i d' id' e f)

-- A plan gives every desired hint an ID: that of an existing hint with its value, or -1. Every other
-- ID stands among those planned and those to delete, together, as often as among the existing hints:
-- no existing hint is planned twice, and each is planned or deleted. The desired hints with one value
-- take the IDs of the existing ones with it in turn, so that -1 comes only after all of them.
pub record IsPlan (desired : List ChallengeHint) (existing : List Hint)
    (id_by_index deletes : List ℤ) : Type 0 where
  pub sized : length id_by_index ≡ length desired
  pub matched :
      (i : ℕ) (d : ChallengeHint) (id : ℤ)
      → get_elem? desired i ≡ some d
      → get_elem? id_by_index i ≡ some id
      → (id ≡ missing) ⊎ (1 ≤ stored existing_hint_key hint_id id (desired_hint_key d) existing)
  pub conserved :
      (z : ℤ)
      → z ≢ missing
      → count z id_by_index + count z deletes ≡ numbered existing_hint_key hint_id z existing
  pub deleted : (z : ℤ) → count z deletes ≤ numbered existing_hint_key hint_id z existing
  pub taken :
      (k : String)
      → chosen k desired id_by_index ≡ in_turn (wanted_hints k desired) (keyed_ids k existing)

-- `planHints` returns a plan, in whatever order `range` walks its pool.
pub plan_hints-IsPlan :
    (walk : Pool → Pool)
    → ((pool : Pool) → Perm (walk pool) pool)
    → (desired : List ChallengeHint) (existing : List Hint)
    → IsPlan desired existing
        (plan_hints walk desired existing).0
        (plan_hints walk desired existing).1
unfolding plan_hints
plan_hints-IsPlan walk order desired existing =
    let start = pool_into existing_hint_key hint_id [] existing in
    let r = assign-Assigned start desired in
    record {
      sized = r.sized;
      matched = λ i d id e f. ground (
        arith,
        r.matched i d id e f,
        tagged-pool_into existing_hint_key hint_id id (desired_hint_key d) [] existing,
      );
      conserved = λ z n. omega (
        arith,
        r.conserved z n,
        count-all_ids z (walk (assign start desired).1),
        total-perm (λ (e : String × List ℤ). count z e.1) (order (assign start desired).1),
        pooled-pool_into z [] existing,
      );
      deleted = λ z. omega (
        arith,
        r.fewer z,
        count-all_ids z (walk (assign start desired).1),
        total-perm (λ (e : String × List ℤ). count z e.1) (order (assign start desired).1),
        pooled-pool_into z [] existing,
      );
      taken = λ k.
          assign-in_turn k start desired
          ∙ ap (in_turn (wanted_hints k desired)) (ids_at-pool_into k [] existing);
    }
