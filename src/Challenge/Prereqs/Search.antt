-- ===== src/Challenge/Prereqs/Search.antt =====
-- One call of `visit`: what it leaves behind on every outcome.
use native.Mathlib.Decide.{ℕ_discrete}
use ctfd_crossplane_provider.Prelude.{
  ℕ, zero, suc, ◌≤◌, ◌<◌, ◌≡◌, ◌≢◌, refl, ap, ◌↔◌, ◌⊎◌, inl, inr, some, List, [], ◌∷◌, arith,
  length, get_elem?, set, get_elem?-set_self, get_elem?-set_ne, lt-length_of_get_elem?,
}
use ctfd_crossplane_provider.Result.{Result, ok, err, panic, out_of_fuel, cycle, ◌>>=◌}
use ctfd_crossplane_provider.Apis.Challenge.{ChallengeHint}
use ctfd_crossplane_provider.Challenge.Prereqs.{Color, white, gray, black, Colors}
use ctfd_crossplane_provider.Challenge.Prereqs.Graph.{Requires, Needs, once, then}

abbrev pub Has : Colors → ℕ → Color → Type 0
Has color i c = get_elem? color i ≡ some c

-- The hints that are not visited yet.
abbrev pub whites : Colors → ℕ
whites [] = 0
whites (white ∷ cs) = suc (whites cs)
whites (gray ∷ cs) = whites cs
whites (black ∷ cs) = whites cs

pub whites-set_gray :
    (color : Colors) (i : ℕ) → Has color i white → suc (whites (set color i gray)) ≡ whites color
whites-set_gray [] i h = cc
whites-set_gray (white ∷ cs) zero h = refl
whites-set_gray (gray ∷ cs) zero h = cc
whites-set_gray (black ∷ cs) zero h = cc
whites-set_gray (white ∷ cs) (suc i) h = ap suc (whites-set_gray cs i h)
whites-set_gray (gray ∷ cs) (suc i) h = whites-set_gray cs i h
whites-set_gray (black ∷ cs) (suc i) h = whites-set_gray cs i h

pub whites-set_black :
    (color : Colors) (i : ℕ) → Has color i gray → whites (set color i black) ≡ whites color
whites-set_black [] i h = cc
whites-set_black (white ∷ cs) zero h = cc
whites-set_black (gray ∷ cs) zero h = refl
whites-set_black (black ∷ cs) zero h = cc
whites-set_black (white ∷ cs) (suc i) h = ap suc (whites-set_black cs i h)
whites-set_black (gray ∷ cs) (suc i) h = whites-set_black cs i h
whites-set_black (black ∷ cs) (suc i) h = whites-set_black cs i h

pub whites-le-length : (color : Colors) → whites color ≤ length color
whites-le-length [] = omega arith
whites-le-length (white ∷ cs) = omega (arith, whites-le-length cs)
whites-le-length (gray ∷ cs) = omega (arith, whites-le-length cs)
whites-le-length (black ∷ cs) = omega (arith, whites-le-length cs)

-- Reading after a write, by the index.
pub Has-set :
    (color : Colors) (i j : ℕ) (c d : Color)
    → i < length color
    → Has (set color i c) j d ↔ ((i ≡ j) × (c ≡ d) ⊎ (i ≢ j) × Has color j d)
Has-set color i j c d h = elim (ℕ_discrete i j) [
  | yes e ↦ (
    λ m. inl (e, cc (get_elem?-set_self color i c h, ap (λ t. get_elem? (set color i c) t) e)),
    λ m. elim m [
      | inl (_, q) ↦ cc (get_elem?-set_self color i c h, ap (λ t. get_elem? (set color i c) t) e)
      | inr (n, _) ↦ absurd (n e)
    ],
  )
  | no n ↦ (
    λ m. inr (n, cc (get_elem?-set_ne color i j c n)),
    λ m. elim m [ inl (e, _) ↦ absurd (n e) | inr (_, k) ↦ cc (get_elem?-set_ne color i j c n) ],
  )
]

pub black-set_black :
    (color : Colors) (i j : ℕ) → Has color j black → Has (set color i black) j black
black-set_black color i j h = elim (ℕ_discrete i j) [
  | yes e ↦ cc (
    get_elem?-set_self color j black (lt-length_of_get_elem? color j black h),
    ap (λ t. get_elem? (set color t black) j) e,
  )
  | no n ↦ cc (get_elem?-set_ne color i j black n)
]

-- One hint has one colour.
pub Has-unique : (color : Colors) (i : ℕ) {c d : Color} → Has color i c → Has color i d → c ≡ d
Has-unique color i p q = cc

module _ (desired : List ChallengeHint) where
  -- The black hints are closed under requirements, and none of them lies on a cycle.
  pub record IsExplored (color : Colors) : Type 0 where
    pub sized : length color ≡ length desired
    pub closed : (i p : ℕ) → Has color i black → Requires desired i p → Has color p black
    pub acyclic : (i : ℕ) → Has color i black → ¬ Needs desired i i

  -- What a search that succeeds changes: white hints turn black, and nothing else.
  pub record Extends (color color' : Colors) : Type 0 where
    pub grays : (j : ℕ) → Has color' j gray ↔ Has color j gray
    pub blacks : (j : ℕ) → Has color j black → Has color' j black
    pub fewer : whites color' ≤ whites color

  -- A search ends with all its hints explored, or with a hint that lies on a cycle of the graph.
  abbrev pub Ends : Colors → (Colors → Type 0) → Result Colors → Type 0
  Ends color Done (ok color') = IsExplored color' × Extends color color' × Done color'
  Ends color Done (err e) = (i : ℕ) × (e ≡ cycle i) × Needs desired i i
  Ends color Done panic = ⊥
  Ends color Done out_of_fuel = ⊥

  pub Extends-refl : (color : Colors) → Extends color color
  Extends-refl color = record {
    grays = λ j. (λ h. h, λ h. h);
    blacks = λ j h. h;
    fewer = omega arith;
  }

  pub Extends-trans : {a b c : Colors} → Extends a b → Extends b c → Extends a c
  Extends-trans p q = record {
    grays = λ j. (λ h. (p.grays j).0 ((q.grays j).0 h), λ h. (q.grays j).1 ((p.grays j).1 h));
    blacks = λ j h. q.blacks j (p.blacks j h);
    fewer = omega arith;
  }

  pub Ends-weaken :
      (color : Colors) (Before After : Colors → Type 0) (r : Result Colors)
      → ((c : Colors) → Extends color c → Before c → After c)
      → Ends color Before r
      → Ends color After r
  Ends-weaken color Before After (ok c) f h = (h.0, h.1, f c h.1 h.2)
  Ends-weaken color Before After (err e) f h = h
  Ends-weaken color Before After panic f h = h
  Ends-weaken color Before After out_of_fuel f h = h

  pub Ends-bind :
      (color : Colors) (First Second Both : Colors → Type 0) (r : Result Colors)
      (k : Colors → Result Colors)
      → Ends color First r
      → ((c : Colors) → IsExplored c → Extends color c → First c → Ends c Second (k c))
      → ((c d : Colors) → First c → Extends c d → Second d → Both d)
      → Ends color Both (r >>= k)
  Ends-bind color First Second Both (ok c) k h next glue = after (k c) (next c h.0 h.1 h.2)
    where
      after : (t : Result Colors) → Ends c Second t → Ends color Both t
      after (ok d) g = (g.0, Extends-trans h.1 g.1, glue c d h.2 g.1 g.2)
      after (err e) g = g
      after panic g = g
      after out_of_fuel g = g
  Ends-bind color First Second Both (err e) k h next glue = h
  Ends-bind color First Second Both panic k h next glue = h
  Ends-bind color First Second Both out_of_fuel k h next glue = h

  -- From a set of hints that is closed under requirements no requirement leads out.
  pub Needs-black :
      (color : Colors) (i : ℕ)
      → ((j p : ℕ) → Has color j black → Requires desired j p → Has color p black)
      → ((p : ℕ) → Requires desired i p → Has color p black)
      → {p : ℕ} → Needs desired i p
      → Has color p black
  Needs-black color i closed start (once r) = start _ r
  Needs-black color i closed start (then n r) = closed _ _ (Needs-black color i closed start n) r
