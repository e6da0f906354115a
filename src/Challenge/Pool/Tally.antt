-- ===== src/Challenge/Pool/Tally.antt =====
-- How many IDs a pool holds for a key, and how often an ID: numbers that every write changes by what
-- is written, and that do not depend on the order of the entries.
use mathlib.Core.List.{Perm}
use ctfd_crossplane_provider.Prelude.{
  ℕ, ◌+◌, String, ℤ, ◌≡◌, refl, ap, List, [], ◌∷◌, ◌++◌, arith, if◌then◌else◌, length,
  length-append, count, count-append, contains, Distinct, ◌==◌, ==_iff, string_eq, int_eq,
}
use ctfd_crossplane_provider.GoMap.{keys, insert, total}
use ctfd_crossplane_provider.GoMap.Laws.{lookup-insert, total-insert, total-perm, lookup-none_iff}
use ctfd_crossplane_provider.Challenge.Pool.{Pool, ids_at, add, all_ids}

-- The share of one entry.
abbrev pub held_by : String → String × List ℤ → ℕ
held_by k (j, ids) = if j == k then length ids else 0

abbrev pub tagged_by : ℤ → String → String × List ℤ → ℕ
tagged_by z k (j, ids) = if j == k then count z ids else 0

-- The number of IDs under a key.
abbrev pub held : String → Pool → ℕ
held k pool = total (held_by k) pool

-- How often an ID stands under a key.
abbrev pub tagged : ℤ → String → Pool → ℕ
tagged z k pool = total (tagged_by z k) pool

pub ids_at-insert :
    (k j : String) (ids : List ℤ) (pool : Pool)
    → ids_at j (insert k ids pool) ≡ (if k == j then ids else ids_at j pool)
ids_at-insert k j ids pool = ground (arith, lookup-insert k j ids pool)

held_by_empty : (k j : String) → held_by k (j, []) ≡ 0
held_by_empty k j = ground arith

tagged_by_empty : (z : ℤ) (k j : String) → tagged_by z k (j, []) ≡ 0
tagged_by_empty z k j = ground arith

pub held-insert :
    (k j : String) (ids : List ℤ) (pool : Pool)
    → held k (insert j ids pool) + held_by k (j, ids_at j pool) ≡ held k pool + held_by k (j, ids)
held-insert k j ids pool = total-insert (held_by k) [] j ids pool (held_by_empty k j)

pub tagged-insert :
    (z : ℤ) (k j : String) (ids : List ℤ) (pool : Pool)
    → tagged z k (insert j ids pool) + tagged_by z k (j, ids_at j pool)
      ≡ tagged z k pool + tagged_by z k (j, ids)
tagged-insert z k j ids pool = total-insert (tagged_by z k) [] j ids pool (tagged_by_empty z k j)

pub held-add :
    (k j : String) (id : ℤ) (pool : Pool)
    → held k (add j id pool) ≡ held k pool + (if j == k then 1 else 0)
unfolding add
held-add k j id pool = ground (
  arith,
  held-insert k j (ids_at j pool ++ id ∷ []) pool,
  length-append (ids_at j pool) (id ∷ []),
)

pub tagged-add :
    (z : ℤ) (k j : String) (id : ℤ) (pool : Pool)
    → tagged z k (add j id pool)
      ≡ tagged z k pool + (if j == k then (if id == z then 1 else 0) else 0)
unfolding add
tagged-add z k j id pool = ground (
  arith,
  tagged-insert z k j (ids_at j pool ++ id ∷ []) pool,
  count-append z (ids_at j pool) (id ∷ []),
)

pub held-perm : {p q : Pool} (k : String) → Perm p q → held k p ≡ held k q
held-perm k h = total-perm (held_by k) h

pub tagged-perm : {p q : Pool} (z : ℤ) (k : String) → Perm p q → tagged z k p ≡ tagged z k q
tagged-perm z k h = total-perm (tagged_by z k) h

-- With its keys distinct a pool holds under a key what a lookup finds.
pub held-ids_at :
    (k : String) (pool : Pool) → Distinct (keys pool) → held k pool ≡ length (ids_at k pool)
held-ids_at k [] d = refl
held-ids_at k ((j, ids) ∷ pool) d = ground (
  arith,
  held-ids_at k pool d.1,
  lookup-none_iff k pool,
  ==_iff j k,
  (λ (p : j ≡ k). ap (λ (t : String). contains t (keys pool)) p),
)

pub length-all_ids : (pool : Pool) → length (all_ids pool) ≡ total (λ e. length e.1) pool
length-all_ids [] = refl
length-all_ids ((k, ids) ∷ pool) =
    omega (arith, length-append ids (all_ids pool), length-all_ids pool)

pub count-all_ids : (z : ℤ) (pool : Pool) → count z (all_ids pool) ≡ total (λ e. count z e.1) pool
count-all_ids z [] = refl
count-all_ids z ((k, ids) ∷ pool) =
    omega (arith, count-append z ids (all_ids pool), count-all_ids z pool)
