-- ===== src/Challenge/Conversion.antt =====
-- internal/controller/challenge/conversion.go: the CTFd payloads, the observed status, and the
-- comparison of the desired parameters with the challenge that CTFd reports.
pub mod UpToDate
pub mod Drift
use ctfd_crossplane_provider.Prelude.{
  String, ℤ, pos, Bool, true, false, not, ◌&&◌, ◌||◌, Option, none, some, List, [], length,
  if◌then◌else◌, ◌==◌, string_eq, int_eq,
}
use ctfd_crossplane_provider.Ctfd.{
  CtfdRequirements, CtfdChallenge, Flag, Hint, PostChallengesParams, PatchChallengeParams,
}
use ctfd_crossplane_provider.Apis.Challenge.{
  Requirements, ChallengeParameters, ChallengeObservation,
}
use ctfd_crossplane_provider.Challenge.Multiset.{same_int_set}

-- defaultType
abbrev pub default_type : String
default_type = "standard"

unfoldable pub type_or_default : String → String
type_or_default t = if t == "" then default_type else t

abbrev pub to_req : Requirements → CtfdRequirements
to_req r = record { anonymize = r.anonymize; prerequisites = r.prerequisites }

abbrev pub to_req? : Option Requirements → Option CtfdRequirements
to_req? none = none
to_req? (some r) = some (to_req r)

-- *v, or the zero value that the field has before
abbrev pub deref_int : Option ℤ → ℤ
deref_int none = pos 0
deref_int (some v) = v

unfoldable pub post_params : ChallengeParameters → PostChallengesParams
unfolding type_or_default
post_params p = record {
  name = p.name;
  category = p.category;
  description = p.description;
  type = type_or_default p.type;
  state = p.state;
  attribution = p.attribution;
  connection_info = p.connection_info;
  function = p.function;
  max_attempts = p.max_attempts;
  value = deref_int p.value;
  initial = p.initial;
  decay = p.decay;
  minimum = p.minimum;
  next_id = p.next_id;
  requirements = to_req? p.requirements;
}

unfoldable pub patch_params : ChallengeParameters → String → PatchChallengeParams
patch_params p current = record {
  name = p.name;
  category = p.category;
  description = p.description;
  state = if p.state == "" then current else p.state;
  attribution = p.attribution;
  connection_info = p.connection_info;
  function = p.function;
  max_attempts = p.max_attempts;
  value = p.value;
  initial = p.initial;
  decay = p.decay;
  minimum = p.minimum;
  next_id = p.next_id;
  requirements = to_req? p.requirements;
}

unfoldable pub challenge_observation :
    CtfdChallenge → List (Option Flag) → List Hint → ChallengeObservation
challenge_observation ch flags hints = record {
  id = ch.id;
  value = ch.value;
  state = ch.state;
  type = ch.type;
  solves = ch.solves;
  flags = pos (length flags);
  hints = pos (length hints);
}

unfoldable pub eq_int_ptr : Option ℤ → Option ℤ → Bool
eq_int_ptr none got = true
eq_int_ptr (some w) none = false
eq_int_ptr (some w) (some g) = w == g

unfoldable pub eq_str_ptr : Option String → Option String → Bool
eq_str_ptr none got = true
eq_str_ptr (some w) none = false
eq_str_ptr (some w) (some g) = w == g

-- The cases of the `switch`: one of the fields that are always enforced differs.
unfoldable pub basics_differ : ChallengeParameters → CtfdChallenge → Bool
unfolding type_or_default
basics_differ p ch =
    not (ch.name == p.name)
    || not (ch.category == p.category)
    || not (ch.description == p.description)
    || (not (p.state == "") && not (ch.state == p.state))
    || not (ch.type == type_or_default p.type)

-- ch.Value != *p.Value
abbrev pub differs_from : ℤ → Option ℤ → Bool
differs_from v none = false
differs_from v (some w) = not (v == w)

-- The value is enforced for a standard challenge only.
unfoldable pub value_differs : ChallengeParameters → CtfdChallenge → Bool
unfolding type_or_default
value_differs p ch = type_or_default p.type == default_type && differs_from ch.value p.value

unfoldable pub numbers_differ : ChallengeParameters → CtfdChallenge → Bool
unfolding eq_int_ptr
numbers_differ p ch =
    not (eq_int_ptr p.initial ch.initial)
    || not (eq_int_ptr p.decay ch.decay)
    || not (eq_int_ptr p.minimum ch.minimum)
    || not (eq_int_ptr p.max_attempts ch.max_attempts)
    || not (eq_int_ptr p.next_id ch.next_id)

unfoldable pub texts_differ : ChallengeParameters → CtfdChallenge → Bool
unfolding eq_str_ptr
texts_differ p ch =
    not (eq_str_ptr p.function ch.function)
    || not (eq_str_ptr p.connection_info ch.connection_info)
    || not (eq_str_ptr p.attribution ch.attribution)

-- The prerequisites of requirements that may be nil.
abbrev pub prerequisites_of : Option CtfdRequirements → List ℤ
prerequisites_of none = []
prerequisites_of (some r) = r.prerequisites

unfoldable pub requirements_match : Option Requirements → Option CtfdRequirements → Bool
unfolding same_int_set
requirements_match none req = true
requirements_match (some r) req = same_int_set r.prerequisites (prerequisites_of req)

unfoldable pub is_up_to_date : ChallengeParameters → CtfdChallenge → Option CtfdRequirements → Bool
unfolding basics_differ value_differs numbers_differ texts_differ requirements_match
is_up_to_date p ch req =
    if basics_differ p ch
    then false
    else if value_differs p ch
    then false
    else if numbers_differ p ch
    then false
    else if texts_differ p ch
    then false
    else requirements_match p.requirements req
