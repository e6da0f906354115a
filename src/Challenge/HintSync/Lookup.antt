-- ===== src/Challenge/HintSync/Lookup.antt =====
-- What a list of hints holds under an ID, before and after one is added, replaced or removed.
use ctfd_crossplane_provider.Prelude.{
  ℕ, ◌+◌, ◌≤◌, String, ℤ, ◌≡◌, ◌≢◌, refl, sym, ap, ◌∙◌, inl, inr, false, Option, none, some, List,
  [], ◌∷◌, ◌++◌, arith, if◌then◌else◌, ◌==◌, ==_iff, ==_ne, int_eq, string_eq, count, Bool-cases,
}
use ctfd_crossplane_provider.GoMap.{Map, lookup, insert}
use ctfd_crossplane_provider.GoMap.Laws.{lookup-insert}
use ctfd_crossplane_provider.Ctfd.{Hint}
use ctfd_crossplane_provider.Challenge.Pool.Stored.{numbered, stored, remove, stored-le-numbered}
use ctfd_crossplane_provider.Challenge.Hints.{existing_hint_key, hint_id, index_by_id}
use ctfd_crossplane_provider.Challenge.Hints.Queues.{keyed_ids}

-- How many hints have an ID.
abbrev pub numbered_hints : ℤ → List Hint → ℕ
numbered_hints z hs = numbered existing_hint_key hint_id z hs

-- How many hints with a key have an ID.
abbrev pub stored_hints : ℤ → String → List Hint → ℕ
stored_hints z k hs = stored existing_hint_key hint_id z k hs

-- The hints without those of an ID.
abbrev pub remove_hint : ℤ → List Hint → List Hint
remove_hint z hs = remove existing_hint_key hint_id z hs

-- The hints with those of an ID replaced.
abbrev pub replace_hint : ℤ → Hint → List Hint → List Hint
replace_hint z g [] = []
replace_hint z g (h ∷ hs) = (if h.id == z then g else h) ∷ replace_hint z g hs

-- The last hint with an ID, else `o`.
abbrev pub newest : ℤ → Option Hint → List Hint → Option Hint
newest z o [] = o
newest z o (h ∷ hs) = newest z (if h.id == z then some h else o) hs

abbrev pub hint_at : ℤ → List Hint → Option Hint
hint_at z hs = newest z none hs

pub lookup-index_by_id :
    (z : ℤ) (m : Map ℤ Hint) (hs : List Hint)
    → lookup z (index_by_id m hs) ≡ newest z (lookup z m) hs
unfolding index_by_id
lookup-index_by_id z m [] = refl
lookup-index_by_id z m (h ∷ hs) =
    lookup-index_by_id z (insert h.id h m) hs ∙ ap (λ o. newest z o hs) (lookup-insert h.id z h m)

pub newest-append :
    (z : ℤ) (o : Option Hint) (hs gs : List Hint)
    → newest z o (hs ++ gs) ≡ newest z (newest z o hs) gs
newest-append z o [] gs = refl
newest-append z o (h ∷ hs) gs = newest-append z (if h.id == z then some h else o) hs gs

pub newest_absent :
    (z : ℤ) (o : Option Hint) (hs : List Hint) → numbered_hints z hs ≡ 0 → newest z o hs ≡ o
newest_absent z o [] n = refl
newest_absent z o (h ∷ hs) n = elim (Bool-cases (h.id == z)) [
  | inl here ↦ absurd (ground (arith, n, here))
  | inr there ↦ rw there (newest_absent z o hs (ground (arith, n, there)))
]

-- A hint that is there is found, whatever the default.
pub newest_present :
    (z : ℤ) (o o' : Option Hint) (hs : List Hint)
    → 1 ≤ numbered_hints z hs
    → newest z o hs ≡ newest z o' hs
newest_present z o o' [] n = elim n [ ]
newest_present z o o' (h ∷ hs) n = elim (Bool-cases (h.id == z)) [
  | inl here ↦ rw here refl
  | inr there ↦ rw there (newest_present z o o' hs (ground (arith, n, there)))
]

pub numbered-append :
    (z : ℤ) (hs gs : List Hint)
    → numbered_hints z (hs ++ gs) ≡ numbered_hints z hs + numbered_hints z gs
numbered-append z [] gs = omega arith
numbered-append z (h ∷ hs) gs = omega (arith, numbered-append z hs gs)

pub newest-remove :
    (y z : ℤ) (o : Option Hint) (hs : List Hint)
    → y ≢ z
    → newest y o (remove_hint z hs) ≡ newest y o hs
newest-remove y z o [] n = refl
newest-remove y z o (h ∷ hs) n = elim (Bool-cases (h.id == z)) [
  | inl here ↦
      let other : (h.id == y) ≡ false = ==_ne h.id y (λ e. n (sym e ∙ (==_iff h.id z).0 here)) in
      rw (here, other) (newest-remove y z o hs n)
  | inr there ↦ rw there (newest-remove y z (if h.id == y then some h else o) hs n)
]

module _ (z : ℤ) (g : Hint) (same : g.id ≡ z) where
  pub numbered-replace :
      (y : ℤ) (hs : List Hint) → numbered_hints y (replace_hint z g hs) ≡ numbered_hints y hs
  numbered-replace y [] = refl
  numbered-replace y (h ∷ hs) = elim (Bool-cases (h.id == z)) [
    | inl here ↦
        let e : g.id ≡ h.id = same ∙ sym ((==_iff h.id z).0 here) in
        rw (here, e) (ap (λ n. (if h.id == y then 1 else 0) + n) (numbered-replace y hs))
    | inr there ↦ rw there (ap (λ n. (if h.id == y then 1 else 0) + n) (numbered-replace y hs))
  ]

  pub newest-replace_ne :
      (y : ℤ) (o : Option Hint) (hs : List Hint)
      → y ≢ z
      → newest y o (replace_hint z g hs) ≡ newest y o hs
  newest-replace_ne y o [] n = refl
  newest-replace_ne y o (h ∷ hs) n = elim (Bool-cases (h.id == z)) [
    | inl here ↦
        let old : (h.id == y) ≡ false = ==_ne h.id y (λ e. n (sym e ∙ (==_iff h.id z).0 here)) in
        let new : (g.id == y) ≡ false = ==_ne g.id y (λ e. n (sym e ∙ same)) in
        rw (here, old, new) (newest-replace_ne y o hs n)
    | inr there ↦ rw there (newest-replace_ne y (if h.id == y then some h else o) hs n)
  ]

  newest-replace_some : (hs : List Hint) → newest z (some g) (replace_hint z g hs) ≡ some g
  newest-replace_some [] = refl
  newest-replace_some (h ∷ hs) = elim (Bool-cases (h.id == z)) [
    | inl here ↦ rw (here, (==_iff g.id z).1 same) (newest-replace_some hs)
    | inr there ↦ rw (there, there) (newest-replace_some hs)
  ]

  pub newest-replace :
      (o : Option Hint) (hs : List Hint)
      → 1 ≤ numbered_hints z hs
      → newest z o (replace_hint z g hs) ≡ some g
  newest-replace o [] n = elim n [ ]
  newest-replace o (h ∷ hs) n = elim (Bool-cases (h.id == z)) [
    | inl here ↦ rw (here, (==_iff g.id z).1 same) (newest-replace_some hs)
    | inr there ↦ rw (there, there) (newest-replace o hs (ground (arith, n, there)))
  ]

  replace_absent : (hs : List Hint) → numbered_hints z hs ≡ 0 → replace_hint z g hs ≡ hs
  replace_absent [] n = refl
  replace_absent (h ∷ hs) n = elim (Bool-cases (h.id == z)) [
    | inl here ↦ absurd (ground (arith, n, here))
    | inr there ↦ rw there (ap (λ t. h ∷ t) (replace_absent hs (ground (arith, n, there))))
  ]

  -- A hint that keeps its key stands where it stood.
  pub keyed_ids-replace :
      (k : String) (hs : List Hint)
      → 1 ≤ stored_hints z (existing_hint_key g) hs
      → numbered_hints z hs ≤ 1
      → keyed_ids k (replace_hint z g hs) ≡ keyed_ids k hs
  keyed_ids-replace k [] st one = elim st [ ]
  keyed_ids-replace k (h ∷ hs) st one = elim (Bool-cases (h.id == z)) [
    | inl here ↦
        let below = stored-le-numbered existing_hint_key hint_id z (existing_hint_key g) hs in
        let key_kept : existing_hint_key g ≡ existing_hint_key h = sym (
          (==_iff (existing_hint_key h) (existing_hint_key g)).0
            (ground (arith, st, one, here, below))) in
        let absent = replace_absent hs (ground (arith, st, one, here, below)) in
        let id_kept : g.id ≡ h.id = same ∙ sym ((==_iff h.id z).0 here) in
        rw (here, absent)
          (λ i. let rest = keyed_ids k hs in if key_kept i == k then id_kept i ∷ rest else rest)
    | inr there ↦
        let rest =
          keyed_ids-replace k hs (ground (arith, st, there)) (ground (arith, one, there)) in
        rw there (ap (λ t. if existing_hint_key h == k then h.id ∷ t else t) rest)
  ]

pub count-keyed_ids :
    (z : ℤ) (k : String) (hs : List Hint) → count z (keyed_ids k hs) ≡ stored_hints z k hs
count-keyed_ids z k [] = refl
count-keyed_ids z k (h ∷ hs) = ground (arith, count-keyed_ids z k hs)
