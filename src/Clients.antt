-- ===== src/Clients.antt =====
-- internal/clients/ctfd.go: from the reference of a managed resource to a CTFd client.
pub mod Valid
use ctfd_crossplane_provider.Prelude.{
  none, some, String, Bool, true, false, ◌&&◌, ◌||◌, if◌then◌else◌, ◌==◌, string_eq,
}
use ctfd_crossplane_provider.Result.{
  Result, ok, err, panic, out_of_fuel, Error, message, unsupported_kind, wrap,
}
use ctfd_crossplane_provider.Exec.{Exec, pure, lift, raise, wrapping, ◌>>=◌, ◌>>◌}
use ctfd_crossplane_provider.Apis.Managed.{ObjectMeta, ProviderConfigReference}
use ctfd_crossplane_provider.Apis.Provider.{
  ProviderCredentials, ProviderConfigSpec, ProviderConfig, ClusterProviderConfig,
}

-- Credentials
pub record Credentials : Type 0 where
  pub url : String
  pub api_key : String
  pub session : String
  pub nonce : String

-- The part of `NewClient` after the JSON is read. `new_api` is `ctfd.NewClient`, which takes the URL,
-- the nonce, the session and the API key.
unfoldable pub checked_client {ℓ} :
    {C : Type ℓ} → (String → String → String → String → C) → Credentials → Result C
checked_client new_api creds =
    if creds.url == ""
    then err (message "CTFd credentials must contain a non-empty \"url\"")
    else if creds.api_key == "" && (creds.session == "" || creds.nonce == "")
    then err (
        message "CTFd credentials must contain an \"api_key\", or a \"session\" and \"nonce\" pair")
    else ok (new_api creds.url creds.nonce creds.session creds.api_key)

-- The part of `NewClient` after `json.Unmarshal`.
unfoldable pub parsed_client {ℓ} :
    {C : Type ℓ} → (String → String → String → String → C) → Result Credentials → Result C
unfolding checked_client
parsed_client new_api (ok creds) = checked_client new_api creds
parsed_client new_api (err e) = err (wrap e "cannot unmarshal CTFd credentials as JSON")
parsed_client new_api panic = panic
parsed_client new_api out_of_fuel = out_of_fuel

-- `unmarshal` is `json.Unmarshal` into an empty `Credentials`.
unfoldable pub new_client {ℓ κ} :
    {C : Type ℓ} {D : Type κ}
    → (D → Result Credentials)
    → (String → String → String → String → C)
    → D
    → Result C
unfolding parsed_client
new_client unmarshal new_api bytes = parsed_client new_api (unmarshal bytes)

-- The cluster as `FromProviderConfig` reads it: a config by namespace and name (a
-- ClusterProviderConfig has no namespace), and the bytes that a source and its selectors point to
-- (`resource.CommonCredentialExtractor`). `S` is the type of the selectors, `D` that of the bytes.
pub record Cluster (W S D : Type 0) : Type 0 where
  pub get_provider_config : String → String → Exec W (ProviderConfig S)
  pub get_cluster_provider_config : String → Exec W (ClusterProviderConfig S)
  pub extract_credentials : String → S → Exec W D

module _ {W S D : Type 0} (cluster : Cluster W S D) where
  open cluster use {get_provider_config, get_cluster_provider_config, extract_credentials}

  -- The two cases of the `switch` on the kind of the reference.
  abbrev pub namespaced_credentials : String → String → Exec W (ProviderCredentials S)
  namespaced_credentials namespace name = do
    pc ← wrapping (get_provider_config namespace name) "cannot get ProviderConfig"
    pure pc.spec.credentials

  abbrev pub cluster_credentials : String → Exec W (ProviderCredentials S)
  cluster_credentials name = do
    cpc ← wrapping (get_cluster_provider_config name) "cannot get ClusterProviderConfig"
    pure cpc.spec.credentials

  -- The `switch`; a reference that is nil panics.
  unfoldable pub config_credentials : ObjectMeta → Exec W (ProviderCredentials S)
  config_credentials mg = elim mg.provider_config [
    | none ↦ lift panic
    | some ref ↦
        if ref.kind == "ProviderConfig"
        then namespaced_credentials mg.namespace ref.name
        else if ref.kind == "ClusterProviderConfig"
        then cluster_credentials ref.name
        else raise (unsupported_kind ref.kind)
  ]

  unfoldable pub from_provider_config :
      {C : Type 0}
      → (D → Result Credentials)
      → (String → String → String → String → C)
      → ObjectMeta
      → Exec W C
  unfolding config_credentials new_client
  from_provider_config unmarshal new_api mg = do
    cd ← config_credentials mg
    bytes ← wrapping (extract_credentials cd.source cd.selectors) "cannot get credentials"
    lift (new_client unmarshal new_api bytes)

  -- `Connect` of the three connectors; `track` is the call of the usage tracker.
  unfoldable pub connect :
      {C : Type 0}
      → Exec W (Unit {0})
      → (D → Result Credentials)
      → (String → String → String → String → C)
      → ObjectMeta
      → Exec W C
  unfolding from_provider_config
  connect track unmarshal new_api mg = do
    wrapping track "cannot track ProviderConfig usage"
    wrapping (from_provider_config unmarshal new_api mg) "cannot create new CTFd client"
