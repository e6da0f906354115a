-- ===== src/Registration.antt =====
-- How the controllers are set up: `Setup` and `SetupGated` of the three controllers, of
-- internal/controller/config/config.go and of internal/controller/register.go, and the options that
-- cmd/provider/main.go makes for them. The manager, the gate and the loggers and recorders belong to
-- libraries: a value of theirs that is passed on has the type `X`.
pub mod Command
pub mod Safe
use ctfd_crossplane_provider.Prelude.{
  ℕ, String, Bool, true, false, Option, none, some, List, [], ◌∷◌, ◌++◌, if◌then◌else◌,
}
use ctfd_crossplane_provider.Result.{Result, ok, err, panic, out_of_fuel}
use ctfd_crossplane_provider.Exec.{Exec, pure, lift, wrapping, ◌>>=◌, ◌>>◌}

-- The kinds of managed resources.
pub data ManagedKind : Type 0 where
  challenge : ManagedKind
  page : ManagedKind
  settings : ManagedKind

pub data Feature : Type 0 where
  enable_beta_management_policies : Feature
  enable_alpha_change_logs : Feature

pub record MetricOptions (X : Type 0) : Type 0 where
  pub mr_metrics : X
  pub mr_state_metrics : Option X
  pub poll_state_metric_interval : ℕ

-- The fields of `controller.Options` that are read here; `none` is a nil pointer.
pub record Options (X : Type 0) : Type 0 where
  pub logger : X
  pub max_concurrent_reconciles : ℕ
  pub poll_interval : ℕ
  pub global_rate_limiter : X
  pub features : Feature → Bool
  pub change_log_options : Option X
  pub metric_options : Option (MetricOptions X)

-- `managed.ReconcilerOption`: one constructor per function that makes one.
pub data ReconcilerOption (X : Type 0) : Type 0 where
  with_typed_external_connector : ManagedKind → ReconcilerOption X
  with_logger : ManagedKind → X → ReconcilerOption X
  with_poll_interval : ℕ → ReconcilerOption X
  with_recorder : ManagedKind → ReconcilerOption X
  with_management_policies : ReconcilerOption X
  with_change_logger : X → ReconcilerOption X
  with_metric_recorder : X → ReconcilerOption X

-- The kinds of a provider configuration, its usages and their list.
pub record ProviderConfigKinds : Type 0 where
  pub config : String
  pub usage : String
  pub usage_list : String

-- What is called of the manager and of the gate.
pub record Manager (W X : Type 0) : Type 0 where
  -- mgr.Add(statemetrics.NewMRStateRecorder(…)): the kind, the logger, the metrics, the interval
  pub add_state_recorder : ManagedKind → X → X → ℕ → Exec W (Unit {0})
  -- from managed.NewReconciler to Complete
  pub complete : ManagedKind → List (ReconcilerOption X) → Options X → Exec W (Unit {0})
  -- from providerconfig.NewReconciler to Complete
  pub complete_provider_config : ProviderConfigKinds → Options X → Exec W (Unit {0})
  -- o.Gate.Register, which keeps a function to call once the kind is there
  pub register : ManagedKind → Exec W (Unit {0}) → W → W

abbrev pub list_error : ManagedKind → String
list_error challenge = "cannot register MR state metrics recorder for kind v1alpha1.ChallengeList"
list_error page = "cannot register MR state metrics recorder for kind v1alpha1.PageList"
list_error settings = "cannot register MR state metrics recorder for kind v1alpha1.SettingsList"

module _ {X : Type 0} where
  abbrev pub first_options : ManagedKind → Options X → List (ReconcilerOption X)
  first_options kind o =
      with_typed_external_connector kind
      ∷ with_logger kind o.logger
      ∷ with_poll_interval o.poll_interval
      ∷ with_recorder kind
      ∷ []

  abbrev pub policy_options : Options X → List (ReconcilerOption X)
  policy_options o =
      if o.features enable_beta_management_policies then with_management_policies ∷ [] else []

  -- o.ChangeLogOptions.ChangeLogger, a panic for a nil pointer
  abbrev pub change_logger : Option X → Result (List (ReconcilerOption X))
  change_logger none = panic
  change_logger (some l) = ok (with_change_logger l ∷ [])

  abbrev pub change_log_options : Options X → Result (List (ReconcilerOption X))
  change_log_options o =
      if o.features enable_alpha_change_logs then change_logger o.change_log_options else ok []

  abbrev pub metric_options : Option (MetricOptions X) → List (ReconcilerOption X)
  metric_options none = []
  metric_options (some m) = with_metric_recorder m.mr_metrics ∷ []

  module _ {W : Type 0} (mgr : Manager W X) where
    abbrev pub add_recorder : ManagedKind → X → ℕ → Option X → Exec W (Unit {0})
    add_recorder kind logger interval none = pure tt
    add_recorder kind logger interval (some s) =
        wrapping (mgr.add_state_recorder kind logger s interval) (list_error kind)

    abbrev pub add_state_metrics : ManagedKind → X → Option (MetricOptions X) → Exec W (Unit {0})
    add_state_metrics kind logger none = pure tt
    add_state_metrics kind logger (some m) =
        add_recorder kind logger m.poll_state_metric_interval m.mr_state_metrics

    -- `Setup`, the same for every kind.
    unfoldable pub setup : ManagedKind → Options X → Exec W (Unit {0})
    setup kind o = do
      change ← lift (change_log_options o)
      add_state_metrics kind o.logger o.metric_options
      mgr.complete kind
          (first_options kind o
            ++ (policy_options o ++ (change ++ metric_options o.metric_options)))
          o

    -- The function that `SetupGated` registers: an error of `Setup` is a panic.
    abbrev pub or_panic : Result (Unit {0}) → Result (Unit {0})
    or_panic (err e) = panic
    or_panic r = r

    unfoldable pub gated : ManagedKind → Options X → Exec W (Unit {0})
    unfolding setup
    gated kind o w = let (r, w') = setup kind o w in (or_panic r, w')

    unfoldable pub setup_gated : ManagedKind → Options X → Exec W (Unit {0})
    unfolding gated
    setup_gated kind o w = (ok tt, mgr.register kind (gated kind o) w)

    -- The code for pages and for settings is that for challenges, with the kind.
    abbrev pub setup_page : Options X → Exec W (Unit {0})
    setup_page o = setup page o

    abbrev pub setup_gated_page : Options X → Exec W (Unit {0})
    setup_gated_page o = setup_gated page o

    abbrev pub setup_settings : Options X → Exec W (Unit {0})
    setup_settings o = setup settings o

    abbrev pub setup_gated_settings : Options X → Exec W (Unit {0})
    setup_gated_settings o = setup_gated settings o

    -- `setupNamespacedProviderConfig`
    unfoldable pub setup_namespaced_provider_config : Options X → Exec W (Unit {0})
    setup_namespaced_provider_config o =
        mgr.complete_provider_config
          (record {
            config = "ProviderConfig";
            usage = "ProviderConfigUsage";
            usage_list = "ProviderConfigUsageList";
          })
          o

    -- `setupClusterProviderConfig`
    unfoldable pub setup_cluster_provider_config : Options X → Exec W (Unit {0})
    setup_cluster_provider_config o =
        mgr.complete_provider_config
          (record {
            config = "ClusterProviderConfig";
            usage = "ClusterProviderConfigUsage";
            usage_list = "ClusterProviderConfigUsageList";
          })
          o

    -- `Setup` of the provider configurations
    unfoldable pub setup_config : Options X → Exec W (Unit {0})
    unfolding setup_namespaced_provider_config setup_cluster_provider_config
    setup_config o = setup_namespaced_provider_config o >> setup_cluster_provider_config o

    -- The loop of register.go: up to the first error.
    abbrev pub run_all : List (Options X → Exec W (Unit {0})) → Options X → Exec W (Unit {0})
    run_all [] o = pure tt
    run_all (f ∷ fs) o = f o >> run_all fs o

    unfoldable pub setup_all : Options X → Exec W (Unit {0})
    unfolding setup_config setup_gated
    setup_all o =
        run_all
          (setup_config ∷ setup_gated challenge ∷ setup_gated_page ∷ setup_gated_settings ∷ []) o
