-- ===== src/Apis/Managed.antt =====
-- What the controllers use of a managed resource's metadata and conditions (crossplane-runtime).
use ctfd_crossplane_provider.Prelude.{Option, String, Bool, false}

-- `SetConditions(xpv1.Available())` and its kin set the Ready condition; the last one stays.
pub data Condition : Type 0 where
  unset available creating deleting : Condition

pub record ProviderConfigReference : Type 0 where
  pub kind : String
  pub name : String

pub record ObjectMeta : Type 0 where
  pub namespace : String
  -- the `crossplane.io/external-name` annotation, "" if there is none
  pub external_name : String
  pub provider_config : Option ProviderConfigReference

-- managed.ExternalObservation
pub record ExternalObservation : Type 0 where
  pub resource_exists : Bool
  pub resource_up_to_date : Bool

-- ExternalObservation{ResourceExists: false}
abbrev pub absent : ExternalObservation
absent = record { resource_exists = false; resource_up_to_date = false }
