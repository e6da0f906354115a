-- ===== src/Challenge/Prereqs/Graph.antt =====
-- The prerequisite graph of a list of hints: what the validation is about.
use mathlib.Core.List.{Memᴰ}
use ctfd_crossplane_provider.Prelude.{ℕ, ◌<◌, ℤ, pos, ◌≡◌, some, List, length, get_elem?}
use ctfd_crossplane_provider.Apis.Challenge.{ChallengeHint}

-- Hint `i` lists the index `z`.
abbrev pub Lists : List ChallengeHint → ℕ → ℤ → Type 0
Lists desired i z = (h : ChallengeHint) × (get_elem? desired i ≡ some h) × Memᴰ z h.prerequisites

-- Hint `i` requires hint `p`.
abbrev pub Requires : List ChallengeHint → ℕ → ℕ → Type 0
Requires desired i p = Lists desired i (pos p)

-- Every index that is listed points into the list.
abbrev pub InRange : List ChallengeHint → Type 0
InRange desired = (i : ℕ) (z : ℤ) → Lists desired i z → (p : ℕ) × (z ≡ pos p) × (p < length desired)

-- Hint `i` requires hint `j`, at once or by way of others.
pub data Needs (desired : List ChallengeHint) (i : ℕ) : ℕ → Type 0 where
  once : {p : ℕ} → Requires desired i p → Needs desired i p
  then : {j p : ℕ} → Needs desired i j → Requires desired j p → Needs desired i p

-- No hint requires itself, at once or by way of others: each can be unlocked.
abbrev pub IsAcyclic : List ChallengeHint → Type 0
IsAcyclic desired = (i : ℕ) → ¬ Needs desired i i

pub Needs-trans :
    (desired : List ChallengeHint) {a b c : ℕ}
    → Needs desired a b
    → Needs desired b c
    → Needs desired a c
Needs-trans desired n (once r) = then n r
Needs-trans desired n (then m r) = then (Needs-trans desired n m) r
