-- ===== src/Challenge/Conversion/UpToDate.antt =====
-- When a challenge is up to date, field by field.
use mathlib.Core.Path.{subst}
use ctfd_crossplane_provider.Prelude.{
  String, ℤ, ◌≡◌, ◌≢◌, refl, ◌↔◌, Bool, true, false, not, ◌&&◌, ◌||◌, Option, none, some, arith,
  if◌then◌else◌, ◌==◌, ==_iff, string_eq, int_eq, count,
}
use ctfd_crossplane_provider.Ctfd.{CtfdRequirements, CtfdChallenge}
use ctfd_crossplane_provider.Apis.Challenge.{Requirements, ChallengeParameters}
use ctfd_crossplane_provider.Challenge.Multiset.Same.{same_int_set_iff}
use ctfd_crossplane_provider.Challenge.Conversion.{
  default_type, type_or_default, eq_int_ptr, eq_str_ptr, basics_differ, differs_from, value_differs,
  numbers_differ, texts_differ, prerequisites_of, requirements_match, is_up_to_date,
}

-- A field that is set has its value in CTFd; one that is not set may have any.
abbrev pub Enforced {ℓ} : {A : Type ℓ} → Option A → Option A → Type ℓ
Enforced {A = A} want got = (v : A) → want ≡ some v → got ≡ some v

pub eq_int_ptr_iff : (want got : Option ℤ) → (eq_int_ptr want got ≡ true) ↔ Enforced want got
unfolding eq_int_ptr
eq_int_ptr_iff none got = (λ _ v e. cc, λ _. refl)
eq_int_ptr_iff (some w) none = (λ h. cc, λ all. cc (all w refl))
eq_int_ptr_iff (some w) (some g) =
    (λ h v e. cc ((==_iff w g).0 h), λ all. (==_iff w g).1 (cc (all w refl)))

pub eq_str_ptr_iff : (want got : Option String) → (eq_str_ptr want got ≡ true) ↔ Enforced want got
unfolding eq_str_ptr
eq_str_ptr_iff none got = (λ _ v e. cc, λ _. refl)
eq_str_ptr_iff (some w) none = (λ h. cc, λ all. cc (all w refl))
eq_str_ptr_iff (some w) (some g) =
    (λ h v e. cc ((==_iff w g).0 h), λ all. (==_iff w g).1 (cc (all w refl)))

-- The desired parameters are what CTFd reports, as far as they are enforced: the state if it is set,
-- the value of a standard challenge if it is set, the prerequisites (in any order) if requirements
-- are given.
pub record Matches (p : ChallengeParameters) (ch : CtfdChallenge) (req : Option CtfdRequirements)
    : Type 0 where
  pub name : ch.name ≡ p.name
  pub category : ch.category ≡ p.category
  pub description : ch.description ≡ p.description
  pub state : p.state ≢ "" → ch.state ≡ p.state
  pub type : ch.type ≡ type_or_default p.type
  pub value : type_or_default p.type ≡ default_type → (v : ℤ) → p.value ≡ some v → ch.value ≡ v
  pub initial : Enforced p.initial ch.initial
  pub decay : Enforced p.decay ch.decay
  pub minimum : Enforced p.minimum ch.minimum
  pub max_attempts : Enforced p.max_attempts ch.max_attempts
  pub next_id : Enforced p.next_id ch.next_id
  pub function : Enforced p.function ch.function
  pub connection_info : Enforced p.connection_info ch.connection_info
  pub attribution : Enforced p.attribution ch.attribution
  pub prerequisites :
      (r : Requirements)
      → p.requirements ≡ some r
      → (z : ℤ) → count z r.prerequisites ≡ count z (prerequisites_of req)

module _ (p : ChallengeParameters) (ch : CtfdChallenge) where
  basics_iff : (basics_differ p ch ≡ false) ↔ (
      (ch.name ≡ p.name)
      × (ch.category ≡ p.category)
      × (ch.description ≡ p.description)
      × (p.state ≢ "" → ch.state ≡ p.state)
      × (ch.type ≡ type_or_default p.type))
  unfolding basics_differ
  basics_iff = ground (
    arith,
    ==_iff ch.name p.name,
    ==_iff ch.category p.category,
    ==_iff ch.description p.description,
    ==_iff p.state "",
    ==_iff ch.state p.state,
    ==_iff ch.type (type_or_default p.type),
  )

  value_iff :
      (value_differs p ch ≡ false)
      ↔ (type_or_default p.type ≡ default_type → (v : ℤ) → p.value ≡ some v → ch.value ≡ v)
  unfolding value_differs
  value_iff = go p.value
    where
      go :
          (o : Option ℤ)
          → ((type_or_default p.type == default_type && differs_from ch.value o) ≡ false)
            ↔ (type_or_default p.type ≡ default_type → (v : ℤ) → o ≡ some v → ch.value ≡ v)
      go none = (λ _ _ v e. cc, λ _. ground arith)
      go (some w) = (
        λ h t v e. ground (arith, ==_iff (type_or_default p.type) default_type, ==_iff ch.value w),
        λ all. ground (
          arith,
          ==_iff (type_or_default p.type) default_type,
          ==_iff ch.value w,
          λ (t : type_or_default p.type ≡ default_type). all t w refl,
        ),
      )

  numbers_iff : (numbers_differ p ch ≡ false) ↔ (
      Enforced p.initial ch.initial
      × Enforced p.decay ch.decay
      × Enforced p.minimum ch.minimum
      × Enforced p.max_attempts ch.max_attempts
      × Enforced p.next_id ch.next_id)
  unfolding numbers_differ
  numbers_iff =
      go (eq_int_ptr_iff p.initial ch.initial) (eq_int_ptr_iff p.decay ch.decay)
        (eq_int_ptr_iff p.minimum ch.minimum) (eq_int_ptr_iff p.max_attempts ch.max_attempts)
        (eq_int_ptr_iff p.next_id ch.next_id)
    where
      go :
          {a b c d e : Bool} {A B C D E : Type 0}
          → (a ≡ true) ↔ A
          → (b ≡ true) ↔ B
          → (c ≡ true) ↔ C
          → (d ≡ true) ↔ D
          → (e ≡ true) ↔ E
          → ((not a || not b || not c || not d || not e) ≡ false) ↔ (A × B × C × D × E)
      go f g h i j = ground arith

  texts_iff : (texts_differ p ch ≡ false) ↔ (
      Enforced p.function ch.function
      × Enforced p.connection_info ch.connection_info
      × Enforced p.attribution ch.attribution)
  unfolding texts_differ
  texts_iff =
      go (eq_str_ptr_iff p.function ch.function)
        (eq_str_ptr_iff p.connection_info ch.connection_info)
        (eq_str_ptr_iff p.attribution ch.attribution)
    where
      go :
          {a b c : Bool} {A B C : Type 0}
          → (a ≡ true) ↔ A
          → (b ≡ true) ↔ B
          → (c ≡ true) ↔ C
          → ((not a || not b || not c) ≡ false) ↔ (A × B × C)
      go f g h = ground arith

requirements_iff :
    (want : Option Requirements) (req : Option CtfdRequirements)
    → (requirements_match want req ≡ true) ↔ (
        (r : Requirements)
        → want ≡ some r
        → (z : ℤ) → count z r.prerequisites ≡ count z (prerequisites_of req))
unfolding requirements_match
requirements_iff none req = (λ _ r e. cc, λ _. refl)
requirements_iff (some w) req =
    let same = same_int_set_iff w.prerequisites (prerequisites_of req) in
    (
      λ h r e z.
          let q : w ≡ r = cc in
          subst (λ (t : Requirements). count z t.prerequisites ≡ count z (prerequisites_of req)) q
            (same.0 h z),
      λ all. same.1 (all w refl),
    )

chain :
    (a b c d e : Bool)
    → ((if a then false else if b then false else if c then false else if d then false else e)
        ≡ true)
      ↔ ((a ≡ false) × (b ≡ false) × (c ≡ false) × (d ≡ false) × (e ≡ true))
chain a b c d e = ground arith

-- The controller takes a challenge for up to date exactly when CTFd reports the desired name,
-- category, description and type, each optional field that is set, the state if it is set, the value
-- if it is set and the challenge is a standard one, and the prerequisites, in any order, if
-- requirements are given.
pub is_up_to_date_iff :
    (p : ChallengeParameters) (ch : CtfdChallenge) (req : Option CtfdRequirements)
    → (is_up_to_date p ch req ≡ true) ↔ Matches p ch req
unfolding is_up_to_date
is_up_to_date_iff p ch req =
    let parts =
      chain (basics_differ p ch) (value_differs p ch) (numbers_differ p ch) (texts_differ p ch)
        (requirements_match p.requirements req) in
    (
      λ h.
          let (a, b, c, d, e) = parts.0 h in
          let basics = (basics_iff p ch).0 a in
          let numbers = (numbers_iff p ch).0 c in
          let texts = (texts_iff p ch).0 d in
          record {
            name = basics.0;
            category = basics.1;
            description = basics.2;
            state = basics.3;
            type = basics.4;
            value = (value_iff p ch).0 b;
            initial = numbers.0;
            decay = numbers.1;
            minimum = numbers.2;
            max_attempts = numbers.3;
            next_id = numbers.4;
            function = texts.0;
            connection_info = texts.1;
            attribution = texts.2;
            prerequisites = (requirements_iff p.requirements req).0 e;
          },
      λ m. parts.1 (
        (basics_iff p ch).1 (m.name, m.category, m.description, m.state, m.type),
        (value_iff p ch).1 m.value,
        (numbers_iff p ch).1 (m.initial, m.decay, m.minimum, m.max_attempts, m.next_id),
        (texts_iff p ch).1 (m.function, m.connection_info, m.attribution),
        (requirements_iff p.requirements req).1 m.prerequisites,
      ),
    )
