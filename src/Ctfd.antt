-- ===== src/Ctfd.antt =====
-- The records of the go-ctfd API client (`github.com/ctfer-io/go-ctfd/api`), a third-party package:
-- of each only the fields that this repository reads or writes.
use ctfd_crossplane_provider.Prelude.{String, ℤ, Bool, Option, List}

pub record CtfdRequirements : Type 0 where
  pub anonymize : Option String
  -- nil and the empty list are one list
  pub prerequisites : List ℤ

pub record Flag : Type 0 where
  pub id : ℤ
  pub content : String
  pub type : String
  pub options : String

pub record Hint : Type 0 where
  pub id : ℤ
  pub title : Option String
  pub content : Option String
  pub cost : ℤ
  pub requirements : Option CtfdRequirements

pub record CtfdChallenge : Type 0 where
  pub id : ℤ
  pub name : String
  pub category : String
  pub description : String
  pub type : String
  pub state : String
  pub value : ℤ
  pub solves : ℤ
  pub initial : Option ℤ
  pub decay : Option ℤ
  pub minimum : Option ℤ
  pub max_attempts : Option ℤ
  pub next_id : Option ℤ
  pub function : Option String
  pub connection_info : Option String
  pub attribution : Option String

pub record PostChallengesParams : Type 0 where
  pub name : String
  pub category : String
  pub description : String
  pub type : String
  pub state : String
  pub attribution : Option String
  pub connection_info : Option String
  pub function : Option String
  pub max_attempts : Option ℤ
  pub value : ℤ
  pub initial : Option ℤ
  pub decay : Option ℤ
  pub minimum : Option ℤ
  pub next_id : Option ℤ
  pub requirements : Option CtfdRequirements

pub record PatchChallengeParams : Type 0 where
  pub name : String
  pub category : String
  pub description : String
  pub state : String
  pub attribution : Option String
  pub connection_info : Option String
  pub function : Option String
  pub max_attempts : Option ℤ
  pub value : Option ℤ
  pub initial : Option ℤ
  pub decay : Option ℤ
  pub minimum : Option ℤ
  pub next_id : Option ℤ
  pub requirements : Option CtfdRequirements

pub record PostFlagsParams : Type 0 where
  pub challenge : ℤ
  pub content : String
  pub options : String
  pub type : String

pub record PostHintsParams : Type 0 where
  pub challenge_id : ℤ
  pub title : Option String
  pub content : String
  pub cost : ℤ

pub record PatchHintsParams : Type 0 where
  pub challenge_id : ℤ
  pub title : Option String
  pub content : String
  pub cost : ℤ
  pub requirements : CtfdRequirements

pub record CtfdPage : Type 0 where
  pub id : ℤ
  pub title : String
  pub route : String
  pub content : Option String
  pub format : String
  pub draft : Bool
  pub hidden : Bool
  pub auth_required : Bool

-- `PostPagesParams` and `PatchPageParams` have the same fields.
pub record PageParams : Type 0 where
  pub title : String
  pub route : String
  pub content : String
  pub format : String
  pub draft : Bool
  pub hidden : Bool
  pub auth_required : Bool

pub record Config : Type 0 where
  pub key : String
  pub value : String
