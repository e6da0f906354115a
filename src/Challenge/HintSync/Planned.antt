-- ===== src/Challenge/HintSync/Planned.antt =====
-- What the plan of `syncHints` deletes, and what it keeps.
use mathlib.Core.List.{Perm}
use ctfd_crossplane_provider.Prelude.{
  ◌+◌, ◌≤◌, String, ℤ, is_negative, ◌≡◌, ◌≢◌, sym, ap, ◌∙◌, ◌⊎◌, false, List, [], ◌∷◌, ◌++◌, arith,
  count, count-append, ==_refl, int_eq,
}
use ctfd_crossplane_provider.GoMap.{total}
use ctfd_crossplane_provider.GoMap.Laws.{total-perm}
use ctfd_crossplane_provider.Ctfd.{Hint}
use ctfd_crossplane_provider.Apis.Challenge.{ChallengeHint}
use ctfd_crossplane_provider.Challenge.Pool.{Pool, ids_at, pool_into, all_ids}
use ctfd_crossplane_provider.Challenge.Pool.Tally.{count-all_ids}
use ctfd_crossplane_provider.Challenge.Pool.Stored.{stored-le-numbered}
use ctfd_crossplane_provider.Challenge.Hints.{
  existing_hint_key, hint_id, missing, assign, plan_hints,
}
use ctfd_crossplane_provider.Challenge.Hints.Plan.{plan_hints-IsPlan}
use ctfd_crossplane_provider.Challenge.Hints.Queues.{
  keyed_ids, chosen, keyed_ids-append, ids_at-pool_into, append-nil,
}
use ctfd_crossplane_provider.Challenge.Hints.Filled.{Filled, Nonneg, created, Split, assign-Split}
use ctfd_crossplane_provider.Challenge.HintSync.Lookup.{
  numbered_hints, stored_hints, numbered-append, count-keyed_ids,
}
use ctfd_crossplane_provider.Challenge.HintSync.Server.{ValidIds}
use ctfd_crossplane_provider.Challenge.HintSync.Delete.{
  drop_all, drop_all-append, drop_all_absent, drop_all_present,
}

count-ids_at-le :
    (z : ℤ) (k : String) (pool : Pool) → count z (ids_at k pool) ≤ total (λ e. count z e.1) pool
count-ids_at-le z k [] = omega arith
count-ids_at-le z k ((j, ids) ∷ pool) = ground (arith, count-ids_at-le z k pool)

Nonneg-of_count : (xs : List ℤ) → ((z : ℤ) → 1 ≤ count z xs → is_negative z ≡ false) → Nonneg xs
Nonneg-of_count [] f = tt
Nonneg-of_count (x ∷ xs) f =
    (f x (ground (arith, ==_refl x)), Nonneg-of_count xs (λ z n. f z (omega (arith, n))))

keyed-numbered :
    (z : ℤ) (k : String) (hs : List Hint) → count z (keyed_ids k hs) ≤ numbered_hints z hs
keyed-numbered z k hs =
    omega (arith, count-keyed_ids z k hs, stored-le-numbered existing_hint_key hint_id z k hs)

exists-ne-missing : (z : ℤ) → is_negative z ≡ false → z ≢ missing
exists-ne-missing z n e = cc (n)

-- Of the IDs `old`, in order, the first ones stay, in order, and IDs are added only if all stay.
pub record Spared (old new : List ℤ) : Type 0 where
  pub taken : List ℤ
  pub gone : List ℤ
  pub added : List ℤ
  pub before : old ≡ taken ++ gone
  pub after : new ≡ taken ++ added
  pub spare : (gone ≡ []) ⊎ (added ≡ [])

-- After the creations: the deletions leave under each key the IDs beside the desired hints.
pub record Keeps (desired : List ChallengeHint) (deletes filled : List ℤ) (existing hs : List Hint)
    (k : String) : Type 0 where
  pub left : drop_all deletes (keyed_ids k hs) ≡ chosen k desired filled
  pub kept : (z : ℤ) → 1 ≤ count z (chosen k desired filled) → count z deletes ≡ 0
  pub stand : (z : ℤ) → count z (chosen k desired filled) ≤ stored_hints z k hs
  pub spared : Spared (keyed_ids k existing) (chosen k desired filled)

module _ (walk : Pool → Pool) (order : (pool : Pool) → Perm (walk pool) pool)
    (desired : List ChallengeHint) (existing news : List Hint) (before : ValidIds existing)
    (after : ValidIds (existing ++ news)) where
  abbrev rest : Pool
  rest = (assign (pool_into existing_hint_key hint_id [] existing) desired).1

  abbrev planned : List ℤ
  planned = (assign (pool_into existing_hint_key hint_id [] existing) desired).0

  abbrev deletes : List ℤ
  deletes = all_ids (walk rest)

  conserved :
      (z : ℤ)
      → is_negative z ≡ false
      → count z planned + count z deletes ≡ numbered_hints z existing
  unfolding plan_hints
  conserved z n =
      (plan_hints-IsPlan walk order desired existing).conserved z (exists-ne-missing z n)

  in_start :
      (k : String)
      → ids_at k (pool_into existing_hint_key hint_id [] existing) ≡ keyed_ids k existing
  in_start k = ids_at-pool_into k [] existing

  in_deletes : (z : ℤ) (k : String) → count z (ids_at k rest) ≤ count z deletes
  in_deletes z k = omega (
    arith,
    count-ids_at-le z k rest,
    count-all_ids z (walk rest),
    total-perm (λ (e : String × List ℤ). count z e.1) (order rest),
  )

  existing-Nonneg :
      (k : String) → Nonneg (ids_at k (pool_into existing_hint_key hint_id [] existing))
  existing-Nonneg k = Nonneg-of_count _ (λ z n.
      before.nonneg z (omega (arith, n, ap (count z) (in_start k), keyed-numbered z k existing)))

  -- An ID that is planned once is not deleted.
  planned_kept : (z : ℤ) → 1 ≤ numbered_hints z existing → 1 ≤ count z planned → count z deletes ≡ 0
  planned_kept z here n = omega (arith, n, conserved z (before.nonneg z here), before.unique z)

  -- The ID of a new hint is not deleted.
  new_kept : (z : ℤ) → 1 ≤ numbered_hints z news → count z deletes ≡ 0
  new_kept z here =
      let apart = numbered-append z existing news in
      omega (
        arith,
        here,
        apart,
        after.unique z,
        conserved z (after.nonneg z (omega (arith, here, apart))),
      )

  drop-deletes :
      (k : String) (taken added : List ℤ)
      → ((z : ℤ) → 1 ≤ count z taken → count z deletes ≡ 0)
      → ((z : ℤ) → 1 ≤ count z added → count z deletes ≡ 0)
      → drop_all deletes ((taken ++ ids_at k rest) ++ added) ≡ taken ++ added
  drop-deletes k taken added t a =
      let gone =
        drop_all_present deletes (ids_at k rest) (λ z n. omega (arith, n, in_deletes z k)) in
      let first =
        drop_all-append deletes taken (ids_at k rest)
        ∙ (λ i. drop_all_absent deletes taken t i ++ gone i)
        ∙ append-nil taken in
      drop_all-append deletes (taken ++ ids_at k rest) added
      ∙ (λ i. first i ++ drop_all_absent deletes added a i)

  Split-kept :
      (k : String) (filled : List ℤ)
      (s : Split k (pool_into existing_hint_key hint_id [] existing) desired planned rest filled)
      (z : ℤ)
      → 1 ≤ count z s.taken
      → count z deletes ≡ 0
  Split-kept k filled s z n =
      planned_kept z
        (omega (
          arith,
          n,
          ap (count z) (sym (in_start k) ∙ s.before),
          count-append z s.taken (ids_at k rest),
          keyed-numbered z k existing,
        ))
        (omega (arith, n, s.planned_once z))

  plan-Keeps :
      (filled : List ℤ)
      → Filled planned filled
      → ((k : String) → keyed_ids k news ≡ created k desired planned filled)
      → (k : String) → Keeps desired deletes filled existing (existing ++ news) k
  plan-Keeps filled f keyed k =
      let s : Split k _ desired planned rest filled =
        assign-Split _ desired filled existing-Nonneg f k in
      let old : keyed_ids k existing ≡ s.taken ++ ids_at k rest = sym (in_start k) ∙ s.before in
      let all : keyed_ids k (existing ++ news)
          ≡ (s.taken ++ ids_at k rest) ++ created k desired planned filled =
        keyed_ids-append k existing news ∙ (λ i. old i ++ keyed k i) in
      let taken_kept = Split-kept k filled s in
      let added_kept : (z : ℤ)
          → 1 ≤ count z (created k desired planned filled)
          → count z deletes ≡ 0 =
        λ z n. new_kept z (omega (arith, n, ap (count z) (keyed k), keyed-numbered z k news)) in
      record {
        left =
            ap (drop_all deletes) all
            ∙ drop-deletes k s.taken _ taken_kept added_kept
            ∙ sym s.after;
        kept = λ z n. ground (
          arith,
          n,
          taken_kept z,
          added_kept z,
          ap (count z) s.after,
          count-append z s.taken (created k desired planned filled),
        );
        stand = λ z. omega (
          arith,
          ap (count z) s.after,
          count-append z s.taken (created k desired planned filled),
          count-keyed_ids z k (existing ++ news),
          ap (count z) all,
          count-append z (s.taken ++ ids_at k rest) (created k desired planned filled),
          count-append z s.taken (ids_at k rest),
        );
        spared = record {
          taken = s.taken;
          gone = ids_at k rest;
          added = created k desired planned filled;
          before = old;
          after = s.after;
          spare = s.spare;
        };
      }

  pub plan_hints-Keeps :
      (filled : List ℤ)
      → Filled (plan_hints walk desired existing).0 filled
      → ((k : String)
          → keyed_ids k news ≡ created k desired (plan_hints walk desired existing).0 filled)
      → (k : String)
      → Keeps desired (plan_hints walk desired existing).1 filled existing (existing ++ news) k
  unfolding plan_hints
  plan_hints-Keeps filled f keyed k = plan-Keeps filled f keyed k
