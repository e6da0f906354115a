-- ===== src/Challenge/HintSync/Required.antt =====
-- What a desired hint requires of the hint that CTFd has for it: the reference that the comparison of
-- `hintsUpToDate` and `reconcileHintRequirements` is held against.
use mathlib.Core.Path.{subst}
use ctfd_crossplane_provider.Prelude.{
  ℕ, ℤ, pos, negsuc, String, ◌≡◌, ◌≢◌, ◌↔◌, refl, sym, ap, ◌∙◌, inl, inr, Bool, true, false, ◌||◌,
  ◌==◌, Option-cases, Option, none, some, List, [], ◌∷◌, arith, length, get_elem?, count, ==_iff,
  nat_eq, int_eq, string_eq,
}
use ctfd_crossplane_provider.Result.{ok, panic, at, at-get_elem?, ◌>>=◌, >>=-eq-ok}
use ctfd_crossplane_provider.Ctfd.{CtfdRequirements, Hint}
use ctfd_crossplane_provider.Apis.Challenge.{ChallengeHint}
use ctfd_crossplane_provider.Challenge.Multiset.{same_int_set}
use ctfd_crossplane_provider.Challenge.Multiset.Same.{same_int_set_iff}
use ctfd_crossplane_provider.Challenge.Conversion.{eq_str_ptr, prerequisites_of}
use ctfd_crossplane_provider.Challenge.Hints.{map_prereqs, prereqs_of, anonymize_of, eq_anonymize}
use ctfd_crossplane_provider.Challenge.HintSync.{requirements_agree}

-- `want` are the IDs at the indexes `zs`, each of which points into `ids`.
abbrev pub Points : List ℤ → List ℤ → List ℤ → Type 0
Points ids [] [] = Unit
Points ids [] (x ∷ want) = ⊥
Points ids (z ∷ zs) [] = ⊥
Points ids (z ∷ zs) (x ∷ want) =
    ((p : ℕ) × (z ≡ pos p) × (get_elem? ids p ≡ some x)) × Points ids zs want

-- The prerequisites and the setting `anonymize` that CTFd has for a hint, if it has the hint.
pub data Has : Option Hint → List ℤ → Option String → Type 0 where
  no_hint : Has none [] none
  none_stored : {h : Hint} → h.requirements ≡ none → Has (some h) [] none
  stored :
      {h : Hint} (r : CtfdRequirements)
      → h.requirements ≡ some r
      → Has (some h) r.prerequisites r.anonymize

-- The hint `o` has as prerequisites the hints that the desired one names by their indexes, and, if it
-- names some, the setting `anonymize` of the desired one, if that is set.
pub record Required (ids : List ℤ) (d : ChallengeHint) (o : Option Hint) : Type 0 where
  pub want : List ℤ
  pub points : Points ids d.prerequisites want
  pub listed : List ℤ
  pub setting : Option String
  pub has : Has o listed setting
  pub same : (z : ℤ) → count z want ≡ count z listed
  pub set : d.prerequisites ≢ [] → (s : String) → d.anonymize ≡ some s → setting ≡ some s

abbrev setting_of : Option Hint → Option String
setting_of none = none
setting_of (some h) = anonymize_of h.requirements

abbrev HasFrom : Hint → Option CtfdRequirements → Type 0
HasFrom h r = Has (some h) (prerequisites_of r) (anonymize_of r)

has_it : (o : Option Hint) → Has o (prereqs_of o) (setting_of o)
unfolding prereqs_of
has_it none = no_hint
has_it (some h) = elim (Option-cases h.requirements) [
  | inl bare ↦ subst (HasFrom h) (sym bare) (none_stored bare)
  | inr (r, full) ↦ subst (HasFrom h) (sym full) (stored r full)
]

-- CTFd has one list and one setting for a hint.
has_that :
    (o : Option Hint) (listed : List ℤ) (setting : Option String)
    → Has o listed setting
    → (listed ≡ prereqs_of o) × (setting ≡ setting_of o)
unfolding prereqs_of
has_that _ _ _ no_hint = (refl, refl)
has_that _ _ _ (none_stored bare) = (rw bare refl, rw bare refl)
has_that _ _ _ (stored r full) = (rw full refl, rw full refl)

-- The test of the setting: one that is desired is that of the hint.
eq_anonymize_iff :
    (a : Option String) (o : Option Hint)
    → (eq_anonymize a o ≡ true) ↔ ((s : String) → a ≡ some s → setting_of o ≡ some s)
unfolding eq_anonymize eq_str_ptr
eq_anonymize_iff none o = (λ e s p. cc (p), λ f. refl)
eq_anonymize_iff (some w) none = (λ e s p. cc (e), λ f. absurd (cc (f w refl)))
eq_anonymize_iff (some w) (some h) = compared (anonymize_of h.requirements)
  where
    compared :
        (got : Option String)
        → (eq_str_ptr (some w) got ≡ true) ↔ ((s : String) → some w ≡ some s → got ≡ some s)
    compared none = (λ e s p. cc (e), λ f. absurd (cc (f w refl)))
    compared (some g) = (λ e s p. cc (p, (==_iff w g).0 e), λ f. (==_iff w g).1 (cc (f w refl)))

at-ok : (xs : List ℤ) (p : ℕ) (x : ℤ) → at xs p ≡ ok x → get_elem? xs p ≡ some x
at-ok xs p x e = elim (Option-cases (get_elem? xs p)) [
  | inl gone ↦ let none_there : at xs p ≡ panic = rw (gone, at) refl in absurd (cc (none_there, e))
  | inr (y, found) ↦ let there = at-get_elem? xs p found in cc (there, e, found)
]

map_prereqs-Points : (ids zs want : List ℤ) → map_prereqs zs ids ≡ ok want → Points ids zs want
unfolding map_prereqs
map_prereqs-Points ids [] [] e = tt
map_prereqs-Points ids [] (x ∷ want) e = cc (e)
map_prereqs-Points ids (negsuc n ∷ zs) want e = cc (e)
map_prereqs-Points ids (pos p ∷ zs) want e =
    let (x, there, e₁) =
      >>=-eq-ok (at ids p) (λ id. map_prereqs zs ids >>= λ out. ok (id ∷ out)) e in
    let (out, mapped, e₂) = >>=-eq-ok (map_prereqs zs ids) (λ out. ok (x ∷ out)) e₁ in
    let shape : x ∷ out ≡ want = cc (e₂) in
    subst (Points ids (pos p ∷ zs)) shape
      ((p, refl, at-ok ids p x there), map_prereqs-Points ids zs out mapped)

Points-map_prereqs : (ids zs want : List ℤ) → Points ids zs want → map_prereqs zs ids ≡ ok want
unfolding map_prereqs
Points-map_prereqs ids [] [] q = refl
Points-map_prereqs ids [] (x ∷ want) q = elim q [ ]
Points-map_prereqs ids (z ∷ zs) [] q = elim q [ ]
Points-map_prereqs ids (z ∷ zs) (x ∷ want) ((p, e, there), rest) =
    rw (e, at-get_elem? ids p there, Points-map_prereqs ids zs want rest) refl

-- The code's comparison is `Required`.
pub requirements_agree_iff :
    (ids : List ℤ) (d : ChallengeHint) (o : Option Hint)
    → ((want : List ℤ) × (map_prereqs d.prerequisites ids ≡ ok want)
        × (requirements_agree d want o ≡ true))
      ↔ Required ids d o
unfolding requirements_agree
requirements_agree_iff ids d o = (
  λ (want, mapped, agree).
      let both : (same_int_set want (prereqs_of o) ≡ true)
          × ((length d.prerequisites == 0 || eq_anonymize d.anonymize o) ≡ true) =
        ground (arith, agree) in
      record {
        want = want;
        points = map_prereqs-Points ids d.prerequisites want mapped;
        listed = prereqs_of o;
        setting = setting_of o;
        has = has_it o;
        same = (same_int_set_iff want (prereqs_of o)).0 both.0;
        set = λ some_listed.
            (eq_anonymize_iff d.anonymize o).0
              (or_right (length-nonzero d.prerequisites some_listed) both.1);
      },
  λ r.
      let (same_list, same_setting) = has_that o r.listed r.setting r.has in
      let counts : (z : ℤ) → count z r.want ≡ count z (prereqs_of o) =
        λ z. r.same z ∙ ap (count z) same_list in
      let settings : d.prerequisites ≢ []
          → (s : String) → d.anonymize ≡ some s
          → setting_of o ≡ some s =
        λ n s e. sym same_setting ∙ r.set n s e in
      (
        r.want,
        Points-map_prereqs ids d.prerequisites r.want r.points,
        rw ((same_int_set_iff r.want (prereqs_of o)).1 counts)
            (set_or_none d.prerequisites d.anonymize o settings),
      ),
)
  where
    length-nonzero : (xs : List ℤ) → xs ≢ [] → (length xs == 0) ≡ false
    length-nonzero [] n = absurd (n refl)
    length-nonzero (x ∷ xs) n = ground arith

    or_right : {a b : Bool} → a ≡ false → (a || b) ≡ true → b ≡ true
    or_right p q = ground (arith, p, q)

    set_or_none :
        (zs : List ℤ) (a : Option String) (o : Option Hint)
        → (zs ≢ [] → (s : String) → a ≡ some s → setting_of o ≡ some s)
        → (length zs == 0 || eq_anonymize a o) ≡ true
    set_or_none [] a o f = refl
    set_or_none (z ∷ zs) a o f = rw ((eq_anonymize_iff a o).1 (f (λ e. cc (e)))) (ground arith)
