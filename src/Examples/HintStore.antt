-- ===== src/Examples/HintStore.antt =====
-- The hints of a challenge in memory: what the calls of an instance do to them.
use ctfd_crossplane_provider.Prelude.{
  ℕ, suc, ◌+◌, ◌≤◌, String, ℤ, pos, negsuc, ◌≡◌, refl, ap, false, inl, inr, Option, none, some,
  List, [], ◌∷◌, arith, if◌then◌else◌, ◌==◌, ==_iff, ==_ne, string_eq, int_eq, Bool-cases,
}
use ctfd_crossplane_provider.Strconv.Digits.{itoa}
use ctfd_crossplane_provider.Strconv.RoundTrip.{itoa-injective}
use ctfd_crossplane_provider.Ctfd.{Hint, PostHintsParams, PatchHintsParams}
use ctfd_crossplane_provider.Challenge.HintSync.Lookup.{
  numbered_hints, remove_hint, replace_hint, newest,
}

abbrev pub magnitude : ℤ → ℕ
magnitude (pos n) = n
magnitude (negsuc n) = 0

-- A number above every ID.
abbrev pub unused : List Hint → ℕ
unused [] = 1
unused (h ∷ hs) = suc (magnitude h.id) + unused hs

pub other : (z : ℤ) (m n : ℕ) → suc (magnitude z) + n ≤ m → (z == pos m) ≡ false
other (pos k) m n h = ==_ne (pos k) (pos m) (λ e. absurd (omega (arith, h, ap magnitude e)))
other (negsuc k) m n h = refl

pub numbered-unused : (hs : List Hint) (m : ℕ) → unused hs ≤ m → numbered_hints (pos m) hs ≡ 0
numbered-unused [] m n = refl
numbered-unused (h ∷ hs) m n =
    ground (arith, numbered-unused hs m (omega (arith, n)), other h.id m (unused hs) n)

abbrev pub new_hint : PostHintsParams → List Hint → Hint
new_hint q hs = record {
  id = pos (unused hs);
  title = q.title;
  content = some q.content;
  cost = q.cost;
  requirements = none;
}

-- A hint with the fields of a PATCH.
abbrev pub changed : ℤ → PatchHintsParams → Hint
changed z q = record {
  id = z;
  title = q.title;
  content = some q.content;
  cost = q.cost;
  requirements = some q.requirements;
}

same_name : (x z : ℤ) → (itoa x == itoa z) ≡ (x == z)
same_name x z =
    ground
      (arith, ==_iff (itoa x) (itoa z), ==_iff x z, itoa-injective x z, (λ (p : x ≡ z). ap itoa p))

-- The last hint with a name, else `o`.
abbrev pub named : String → Option Hint → List Hint → Option Hint
named name o [] = o
named name o (h ∷ hs) = named name (if itoa h.id == name then some h else o) hs

pub named-itoa : (z : ℤ) (o : Option Hint) (hs : List Hint) → named (itoa z) o hs ≡ newest z o hs
named-itoa z o [] = refl
named-itoa z o (h ∷ hs) = rw (same_name h.id z) (named-itoa z (if h.id == z then some h else o) hs)

newest-default : (z : ℤ) (g : Hint) (hs : List Hint) → (h : Hint) × (newest z (some g) hs ≡ some h)
newest-default z g [] = (g, refl)
newest-default z g (h ∷ hs) = elim (Bool-cases (h.id == z)) [
  | inl here ↦ let (x, e) = newest-default z h hs in (x, rw here e)
  | inr there ↦ let (x, e) = newest-default z g hs in (x, rw there e)
]

pub newest-some :
    (z : ℤ) (hs : List Hint) → 1 ≤ numbered_hints z hs → (h : Hint) × (newest z none hs ≡ some h)
newest-some z [] n = elim n [ ]
newest-some z (h ∷ hs) n = elim (Bool-cases (h.id == z)) [
  | inl here ↦ let (x, e) = newest-default z h hs in (x, rw here e)
  | inr there ↦ let (x, e) = newest-some z hs (ground (arith, n, there)) in (x, rw there e)
]

abbrev pub without : String → List Hint → List Hint
without name [] = []
without name (h ∷ hs) = if itoa h.id == name then without name hs else h ∷ without name hs

pub without-itoa : (z : ℤ) (hs : List Hint) → without (itoa z) hs ≡ remove_hint z hs
without-itoa z [] = refl
without-itoa z (h ∷ hs) = rw (same_name h.id z, without-itoa z hs) refl

abbrev pub patched : String → PatchHintsParams → List Hint → List Hint
patched name q [] = []
patched name q (h ∷ hs) = (if itoa h.id == name then changed h.id q else h) ∷ patched name q hs

pub patched-itoa :
    (z : ℤ) (q : PatchHintsParams) (hs : List Hint)
    → patched (itoa z) q hs ≡ replace_hint z (changed z q) hs
patched-itoa z q [] = refl
patched-itoa z q (h ∷ hs) = elim (Bool-cases (h.id == z)) [
  | inl here ↦ rw (same_name h.id z, here, (==_iff h.id z).0 here, patched-itoa z q hs) refl
  | inr there ↦ rw (same_name h.id z, there, patched-itoa z q hs) refl
]
