-- ===== src/Apis/Page.antt =====
-- apis/resources/v1alpha1/page_types.go
use ctfd_crossplane_provider.Prelude.{String, ℤ, Bool}
use ctfd_crossplane_provider.Apis.Managed.{Condition, ObjectMeta}

pub record PageParameters : Type 0 where
  pub title : String
  pub route : String
  pub content : String
  pub format : String
  pub draft : Bool
  pub hidden : Bool
  pub auth_required : Bool

pub record PageObservation : Type 0 where
  pub id : ℤ
  pub route : String

pub record PageSpec : Type 0 where
  pub for_provider : PageParameters

pub record PageStatus : Type 0 where
  pub condition : Condition
  pub at_provider : PageObservation

pub record Page : Type 0 where
  pub metadata : ObjectMeta
  pub spec : PageSpec
  pub status : PageStatus
