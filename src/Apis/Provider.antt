-- ===== src/Apis/Provider.antt =====
-- apis/v1alpha1/types.go: the provider configurations.
use ctfd_crossplane_provider.Prelude.{String}
use ctfd_crossplane_provider.Apis.Managed.{ObjectMeta}

-- `S` stands for `xpv1.CommonCredentialSelectors`.
pub record ProviderCredentials (S : Type 0) : Type 0 where
  pub source : String
  pub selectors : S

pub record ProviderConfigSpec (S : Type 0) : Type 0 where
  pub credentials : ProviderCredentials S

-- The status, which the program neither reads nor writes, is left out.
pub record ProviderConfig (S : Type 0) : Type 0 where
  pub metadata : ObjectMeta
  pub spec : ProviderConfigSpec S

pub record ClusterProviderConfig (S : Type 0) : Type 0 where
  pub metadata : ObjectMeta
  pub spec : ProviderConfigSpec S
