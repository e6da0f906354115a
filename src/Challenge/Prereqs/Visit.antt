-- ===== src/Challenge/Prereqs/Visit.antt =====
-- How a call of `visit` on a white hint ends.
use mathlib.Core.List.{Memᴰ}
use mathlib.Core.List.Memᴰ
use mathlib.Core.Path.{subst}
use native.Mathlib.Nat.{le_trans}
use ctfd_crossplane_provider.Prelude.{
  ℕ, zero, suc, ◌≤◌, ◌<◌, ℤ, pos, negsuc, ◌≡◌, ◌≢◌, refl, sym, ap, ◌⊎◌, inl, inr, some, List, [],
  ◌∷◌, arith, length, get_elem?, set, length-set, get_elem?-set_self, lt-length_of_get_elem?,
  get_elem?_of_lt, Option-cases,
}
use ctfd_crossplane_provider.Result.{Result, ok, err, panic, out_of_fuel, ◌>>=◌, at-get_elem?}
use ctfd_crossplane_provider.Apis.Challenge.{ChallengeHint}
use ctfd_crossplane_provider.Challenge.Prereqs.{white, gray, black, Colors, explore, visit}
use ctfd_crossplane_provider.Challenge.Prereqs.Graph.{
  Lists, Requires, InRange, Needs, once, then, Needs-trans,
}
use ctfd_crossplane_provider.Challenge.Prereqs.Search.{
  Has, whites, whites-set_gray, whites-set_black, Has-set, black-set_black, IsExplored, Extends,
  Extends-refl, Ends, Ends-weaken, Ends-bind, Needs-black,
}

module _ (desired : List ChallengeHint) (in_range : InRange desired) where
  -- All of a list of indexes are black.
  abbrev AllBlack : List ℤ → Colors → Type 0
  AllBlack ps color = (p : ℕ) → Memᴰ (pos p) ps → Has color p black

  module _ (fuel : ℕ) (i : ℕ) (visit_prereq : ℕ → Colors → Result Colors)
      (visited : (p : ℕ) (color : Colors)
        → IsExplored desired color
        → Has color p white
        → whites color ≤ fuel
        → ((j : ℕ) → Has color j gray → Needs desired j p)
        → Ends desired color (λ c. Has c p black) (visit_prereq p color)) where
    explore-Ends :
        (ps : List ℤ) (color : Colors)
        → ((z : ℤ) → Memᴰ z ps → Lists desired i z)
        → IsExplored desired color
        → whites color ≤ fuel
        → ((j : ℕ) → Has color j gray → (j ≡ i) ⊎ Needs desired j i)
        → Ends desired color (AllBlack ps) (explore visit_prereq i ps color)
    unfolding explore
    explore-Ends [] color listed ex fits grays =
        (ex, Extends-refl desired color, λ p m. absurd (Memᴰ.not-nil m))
    explore-Ends (negsuc k ∷ ps) color listed ex fits grays =
        let (p, e, _) = in_range i (negsuc k) (listed (negsuc k) (Memᴰ.head refl)) in cc
    explore-Ends (pos p ∷ ps) color listed ex fits grays = elim (Option-cases (get_elem? color p)) [
      | inl missing ↦
          let (q, e, lt) = in_range i (pos p) edge in
          let (c, found) = get_elem?_of_lt color p (in_bounds q e lt) in cc
      | inr (white, e) ↦
          rw (e, explore)
            (Ends-bind desired color (λ c. Has c p black) (AllBlack ps) (AllBlack (pos p ∷ ps))
              (visit_prereq p color) (explore visit_prereq i ps)
              (visited p color ex e fits (λ j g. to_prereq j (grays j g)))
              (λ c ex' ext _.
                explore-Ends ps c (λ z m. listed z (Memᴰ.tail m)) ex' (le_trans ext.fewer fits)
                  (λ j g. grays j ((ext.grays j).0 g)))
              (λ c d b ext all. cons_black d (ext.blacks p b) all))
      | inr (gray, e) ↦ rw (e, explore) (i, refl, round_trip (grays p e))
      | inr (black, e) ↦
          rw (e, explore)
            (Ends-weaken desired color (AllBlack ps) (AllBlack (pos p ∷ ps))
              (explore visit_prereq i ps color) (λ c ext all. cons_black c (ext.blacks p e) all)
              (explore-Ends ps color (λ z m. listed z (Memᴰ.tail m)) ex fits grays))
    ]
      where
        edge : Requires desired i p
        edge = listed (pos p) (Memᴰ.head refl)

        in_bounds : (q : ℕ) → pos p ≡ pos q → q < length desired → p < length color
        in_bounds q e lt = ground (arith, ex.sized)

        to_prereq : (j : ℕ) → (j ≡ i) ⊎ Needs desired j i → Needs desired j p
        to_prereq j (inl e) = rw e (once edge)
        to_prereq j (inr n) = then n edge

        -- From hint `i` over its gray prerequisite back to it.
        round_trip : (p ≡ i) ⊎ Needs desired p i → Needs desired i i
        round_trip (inl q) = once (subst (Requires desired i) q edge)
        round_trip (inr n) = Needs-trans desired (once edge) n

        cons_black : (c : Colors) → Has c p black → AllBlack ps c → AllBlack (pos p ∷ ps) c
        cons_black c b all q m = elim (Memᴰ.cases_cons m) [
          | inl e ↦ cc (ap (λ (z : ℕ). get_elem? c z) (pos_inj e))
          | inr t ↦ all q t
        ]
          where
            pos_inj : {a b : ℕ} → pos a ≡ pos b → b ≡ a
            pos_inj e = cc

  -- The hint at which a visit starts turns gray.
  IsExplored-set_gray :
      (color : Colors) (i : ℕ)
      → Has color i white
      → IsExplored desired color
      → IsExplored desired (set color i gray)
  IsExplored-set_gray color i w ex =
      let at_i = Has-set color i in
      let lt = lt-length_of_get_elem? color i white w in
      record {
        sized = omega (arith, ex.sized, length-set color i gray);
        closed = λ j p b r. elim ((at_i j gray black lt).0 b) [
          | inl (_, e) ↦ cc
          | inr (_, k) ↦ (at_i p gray black lt).1 (
              inr (
                λ e. cc (ap (λ (z : ℕ). get_elem? color z) e, ex.closed j p k r),
                ex.closed j p k r,
              ))
        ];
        acyclic = λ j b. elim ((at_i j gray black lt).0 b) [
          | inl (_, e) ↦ cc
          | inr (_, k) ↦ ex.acyclic j k
        ];
      }

  module _ (color final : Colors) (i : ℕ) (w : Has color i white) (ex : IsExplored desired final)
      (ext : Extends desired (set color i gray) final)
      (all : (p : ℕ) → Requires desired i p → Has final p black) where
    in_start : i < length color
    in_start = lt-length_of_get_elem? color i white w

    stays_gray : Has final i gray
    stays_gray = (ext.grays i).1 (get_elem?-set_self color i gray in_start)

    in_final : i < length final
    in_final = lt-length_of_get_elem? final i gray stays_gray

    -- The hint at which the visit started turns black, and lies on no cycle.
    IsExplored-set_black : IsExplored desired (set final i black)
    IsExplored-set_black = record {
      sized = omega (arith, ex.sized, length-set final i black);
      closed = λ j p b r. elim ((Has-set final i j black black in_final).0 b) [
        | inl (e, _) ↦
            black-set_black final i p (all p (subst (λ z. Requires desired z p) (sym e) r))
        | inr (_, k) ↦ black-set_black final i p (ex.closed j p k r)
      ];
      acyclic = λ j b. elim ((Has-set final i j black black in_final).0 b) [
        | inl (e, _) ↦ λ n. on_cycle (subst (λ z. Needs desired z z) (sym e) n)
        | inr (_, k) ↦ ex.acyclic j k
      ];
    }
      where
        on_cycle : ¬ Needs desired i i
        on_cycle n = cc (Needs-black desired final i ex.closed all n, stays_gray)

    Extends-set_black : Extends desired color (set final i black)
    Extends-set_black = record {
      grays = λ j. (
        λ g. elim ((Has-set final i j black gray in_final).0 g) [
          | inl (_, e) ↦ cc
          | inr (n, k) ↦ elim ((Has-set color i j gray gray in_start).0 ((ext.grays j).0 k)) [
            | inl (e, _) ↦ absurd (n e)
            | inr (_, m) ↦ m
          ]
        ],
        λ g.
            let n = apart j g in
            (Has-set final i j black gray in_final).1
              (inr (n, (ext.grays j).1 ((Has-set color i j gray gray in_start).1 (inr (n, g))))),
      );
      blacks = λ j b.
          black-set_black final i j
            (ext.blacks j ((Has-set color i j gray black in_start).1 (inr (apart_black j b, b))));
      fewer =
          omega (arith, ext.fewer, whites-set_gray color i w, whites-set_black final i stays_gray);
    }
      where
        apart : (j : ℕ) → Has color j gray → i ≢ j
        apart j g e = cc (ap (λ (z : ℕ). get_elem? color z) e)

        apart_black : (j : ℕ) → Has color j black → i ≢ j
        apart_black j g e = cc (ap (λ (z : ℕ). get_elem? color z) e)

  visit_step :
      (fuel : ℕ) (i : ℕ) (color : Colors) {h : ChallengeHint}
      → get_elem? desired i ≡ some h
      → visit desired (suc fuel) i color ≡ (
          explore (visit desired fuel) i h.prerequisites (set color i gray) >>= λ c.
          ok (set c i black))
  unfolding visit
  visit_step fuel i color e =
      ap
        (λ (r : Result ChallengeHint). r >>= λ h.
          explore (visit desired fuel) i h.prerequisites (set color i gray) >>= λ c.
          ok (set c i black))
        (at-get_elem? desired i e)

  -- A visit of a white hint ends, with the hint black or with a cycle, if the fuel covers the white
  -- hints and each gray hint needs the hint that is visited.
  pub visit-Ends :
      (fuel : ℕ) (i : ℕ) (color : Colors)
      → IsExplored desired color
      → Has color i white
      → whites color ≤ fuel
      → ((j : ℕ) → Has color j gray → Needs desired j i)
      → Ends desired color (λ c. Has c i black) (visit desired fuel i color)
  visit-Ends zero i color ex w fits grays = absurd (omega (arith, whites-set_gray color i w))
  visit-Ends (suc fuel) i color ex w fits grays =
      let lt = lt-length_of_get_elem? color i white w in
      let (h, e) = get_elem?_of_lt desired i (omega (arith, ex.sized)) in
      let start = set color i gray in
      let r = explore (visit desired fuel) i h.prerequisites start in
      rw (visit_step fuel i color e) (
        finish h e r (
          explore-Ends fuel i (visit desired fuel) (λ p c. visit-Ends fuel p c) h.prerequisites
            start (λ z m. (h, e, m)) (IsExplored-set_gray color i w ex)
            (omega (arith, whites-set_gray color i w)) (λ j g. above lt j g)))
    where
      above :
          i < length color → (j : ℕ) → Has (set color i gray) j gray → (j ≡ i) ⊎ Needs desired j i
      above lt j g = elim ((Has-set color i j gray gray lt).0 g) [
        | inl (e, _) ↦ inl (sym e)
        | inr (_, k) ↦ inr (grays j k)
      ]

      finish :
          (h : ChallengeHint)
          → get_elem? desired i ≡ some h
          → (r : Result Colors) → Ends desired (set color i gray) (AllBlack h.prerequisites) r
          → Ends desired color (λ c. Has c i black) (r >>= λ c. ok (set c i black))
      finish h e (ok c) (ex', ext, all) =
          let every = λ (p : ℕ) (q : Requires desired i p).
            let same : q.0 ≡ h = cc in
            all p (subst (λ (t : ChallengeHint). Memᴰ (pos p) t.prerequisites) same q.2) in
          (
            IsExplored-set_black color c i w ex' ext every,
            Extends-set_black color c i w ex' ext every,
            get_elem?-set_self c i black (in_final color c i w ex' ext every),
          )
      finish h e (err x) f = f
      finish h e panic f = f
      finish h e out_of_fuel f = f
