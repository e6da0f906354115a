-- ===== src/Challenge/Conversion/Drift.antt =====
-- What an update repairs, and what it cannot. How CTFd answers a PATCH of a challenge is a hypothesis,
-- since CTFd is no part of this repository.
use ctfd_crossplane_provider.Prelude.{
  String, ℤ, ◌≡◌, refl, ap, ◌∙◌, sym, ◌↔◌, true, Option, some, arith, if◌then◌else◌, ◌==◌, ==_iff,
  string_eq, int_eq, count,
}
use ctfd_crossplane_provider.Ctfd.{CtfdRequirements, CtfdChallenge, PatchChallengeParams}
use ctfd_crossplane_provider.Apis.Challenge.{Requirements, ChallengeParameters}
use ctfd_crossplane_provider.Challenge.Conversion.{
  default_type, type_or_default, to_req?, patch_params, prerequisites_of, is_up_to_date,
}
use ctfd_crossplane_provider.Challenge.Conversion.UpToDate.{Enforced, Matches, is_up_to_date_iff}

-- `after`, with requirements `req`, is what CTFd reports of the challenge `before` once it has taken
-- the PATCH `q`: the fields that the payload carries are stored, the value only where CTFd does not
-- compute it, and the type, which no PATCH carries, stays.
pub record Patched (q : PatchChallengeParams) (before after : CtfdChallenge)
    (req : Option CtfdRequirements) : Type 0 where
  pub name : after.name ≡ q.name
  pub category : after.category ≡ q.category
  pub description : after.description ≡ q.description
  pub state : after.state ≡ q.state
  pub type : after.type ≡ before.type
  pub value : before.type ≡ default_type → (v : ℤ) → q.value ≡ some v → after.value ≡ v
  pub initial : Enforced q.initial after.initial
  pub decay : Enforced q.decay after.decay
  pub minimum : Enforced q.minimum after.minimum
  pub max_attempts : Enforced q.max_attempts after.max_attempts
  pub next_id : Enforced q.next_id after.next_id
  pub function : Enforced q.function after.function
  pub connection_info : Enforced q.connection_info after.connection_info
  pub attribution : Enforced q.attribution after.attribution
  pub requirements :
      (r : CtfdRequirements)
      → q.requirements ≡ some r
      → (z : ℤ) → count z r.prerequisites ≡ count z (prerequisites_of req)

module _ (p : ChallengeParameters) (current : String) (before after : CtfdChallenge)
    (req : Option CtfdRequirements) (h : Patched (patch_params p current) before after req) where
  settled : before.type ≡ type_or_default p.type → Matches p after req
  unfolding patch_params
  settled same = record {
    name = h.name;
    category = h.category;
    description = h.description;
    state = λ set. ground (arith, h.state, ==_iff p.state "");
    type = h.type ∙ same;
    value = λ t. h.value (same ∙ t);
    initial = h.initial;
    decay = h.decay;
    minimum = h.minimum;
    max_attempts = h.max_attempts;
    next_id = h.next_id;
    function = h.function;
    connection_info = h.connection_info;
    attribution = h.attribution;
    prerequisites = λ r e.
        h.requirements (record { anonymize = r.anonymize; prerequisites = r.prerequisites })
          (ap to_req? e);
  }

  -- After an update that CTFd has taken as its PATCH documents, the challenge is up to date exactly
  -- when its type was the desired one before: an update repairs every other field that is enforced,
  -- and, since its payload carries no type, never the type.
  pub patch_params_settle :
      (is_up_to_date p after req ≡ true) ↔ (before.type ≡ type_or_default p.type)
  patch_params_settle = (
    λ u. sym h.type ∙ ((is_up_to_date_iff p after req).0 u).type,
    λ same. (is_up_to_date_iff p after req).1 (settled same),
  )

  -- A state that the user leaves unset is not changed by an update made with the state that was
  -- observed, and one that is set is stored.
  pub state-patch_params :
      current ≡ before.state → after.state ≡ (if p.state == "" then before.state else p.state)
  unfolding patch_params
  state-patch_params e = ground (arith, h.state)

-- A change of the `anonymize` setting of the requirements alone is never seen: whatever the new
-- setting, the challenge is as much up to date as before, so no update is made for it.
pub is_up_to_date-anonymize :
    (p : ChallengeParameters) (r : Requirements) (setting : Option String) (ch : CtfdChallenge)
    (req : Option CtfdRequirements)
    → is_up_to_date (record p { requirements = some (record r { anonymize = setting }) }) ch req
      ≡ is_up_to_date (record p { requirements = some r }) ch req
unfolding is_up_to_date
is_up_to_date-anonymize p r setting ch req = refl
