-- ===== src/Apis/Challenge.antt =====
-- apis/resources/v1alpha1/challenge_types.go
use ctfd_crossplane_provider.Prelude.{String, ℤ, Option, List}
use ctfd_crossplane_provider.Apis.Managed.{Condition, ObjectMeta}

pub record Requirements : Type 0 where
  pub anonymize : Option String
  pub prerequisites : List ℤ

pub record ChallengeFlag : Type 0 where
  pub content : String
  -- "" if it is left out
  pub type : String
  -- the field `Data`
  pub options : String

pub record ChallengeHint : Type 0 where
  pub content : String
  pub title : Option String
  pub cost : ℤ
  -- indexes into the list of hints
  pub prerequisites : List ℤ
  pub anonymize : Option String

pub record ChallengeParameters : Type 0 where
  pub name : String
  pub category : String
  pub description : String
  pub type : String
  pub state : String
  pub value : Option ℤ
  pub initial : Option ℤ
  pub decay : Option ℤ
  pub minimum : Option ℤ
  pub function : Option String
  pub max_attempts : Option ℤ
  pub connection_info : Option String
  pub attribution : Option String
  pub next_id : Option ℤ
  pub requirements : Option Requirements
  pub flags : List ChallengeFlag
  pub hints : List ChallengeHint

pub record ChallengeObservation : Type 0 where
  pub id : ℤ
  pub value : ℤ
  pub state : String
  pub type : String
  pub solves : ℤ
  pub flags : ℤ
  pub hints : ℤ

pub record ChallengeSpec : Type 0 where
  pub for_provider : ChallengeParameters

pub record ChallengeStatus : Type 0 where
  pub condition : Condition
  pub at_provider : ChallengeObservation

pub record Challenge : Type 0 where
  pub metadata : ObjectMeta
  pub spec : ChallengeSpec
  pub status : ChallengeStatus
