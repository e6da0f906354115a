-- ===== src/Registration/Command.antt =====
-- The end of `main` of cmd/provider/main.go: the options of the controllers, and their start. An error
-- for which `kingpin.FatalIfError` ends the process is the error of the run.
use ctfd_crossplane_provider.Prelude.{ℕ, Bool, true, false, none, some, if◌then◌else◌}
use ctfd_crossplane_provider.Exec.{Exec, pure, ◌>>=◌, ◌>>◌}
use ctfd_crossplane_provider.Registration.{
  Feature, enable_beta_management_policies, enable_alpha_change_logs, Options, Manager, setup_all,
}

-- The flags of the command that these lines read.
pub record Flags : Type 0 where
  pub poll_interval : ℕ
  pub poll_state_metric_interval : ℕ
  pub max_reconcile_rate : ℕ
  pub enable_management_policies : Bool
  pub enable_change_logs : Bool

-- What is called of libraries.
pub record Library (W X : Type 0) : Type 0 where
  pub logger : X
  pub metric_recorder : X
  pub state_metrics : X
  pub new_rate_limiter : ℕ → X
  -- grpc.NewClient, and the change logger over its connection
  pub new_change_logger : Exec W X
  -- customresourcesgate.Setup and mgr.Start
  pub setup_gate : Options X → Exec W (Unit {0})
  pub start : Exec W (Unit {0})

-- o.Features.Enable
abbrev pub enable : Feature → (Feature → Bool) → Feature → Bool
enable enable_beta_management_policies fs enable_beta_management_policies = true
enable enable_beta_management_policies fs enable_alpha_change_logs = fs enable_alpha_change_logs
enable enable_alpha_change_logs fs enable_beta_management_policies =
    fs enable_beta_management_policies
enable enable_alpha_change_logs fs enable_alpha_change_logs = true

module _ {W X : Type 0} (lib : Library W X) where
  abbrev pub first_options : Flags → Options X
  first_options flags = record {
    logger = lib.logger;
    max_concurrent_reconciles = flags.max_reconcile_rate;
    poll_interval = flags.poll_interval;
    global_rate_limiter = lib.new_rate_limiter flags.max_reconcile_rate;
    features = λ f. false;
    change_log_options = none;
    metric_options = some (record {
      mr_metrics = lib.metric_recorder;
      mr_state_metrics = some lib.state_metrics;
      poll_state_metric_interval = flags.poll_state_metric_interval;
    });
  }

  abbrev pub with_policies : Flags → Options X → Options X
  with_policies flags o =
      if flags.enable_management_policies
      then record o { features = enable enable_beta_management_policies o.features }
      else o

  abbrev pub with_change_logger : Options X → X → Options X
  with_change_logger o l = record o {
    features = enable enable_alpha_change_logs o.features;
    change_log_options = some l;
  }

  abbrev pub with_change_logs : Flags → Options X → Exec W (Options X)
  with_change_logs flags o =
      if flags.enable_change_logs
      then (lib.new_change_logger >>= λ l. pure (with_change_logger o l))
      else pure o

  unfoldable pub controller_options : Flags → Exec W (Options X)
  controller_options flags = with_change_logs flags (with_policies flags (first_options flags))

  unfoldable pub run : Manager W X → Flags → Exec W (Unit {0})
  unfolding controller_options setup_all
  run mgr flags = do o ← controller_options flags; lib.setup_gate o; setup_all mgr o; lib.start
