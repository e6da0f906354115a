-- ===== src/Examples/Registered.antt =====
-- The setup of the controllers over a manager that counts what it has started.
use ctfd_crossplane_provider.Prelude.{ℕ, suc, ◌≡◌, ◌↔◌, refl, true, none}
use ctfd_crossplane_provider.Result.{ok, err, external}
use ctfd_crossplane_provider.Exec.Returned.{IsReturned, AlwaysReturns}
use ctfd_crossplane_provider.Registration.{
  Options, Manager, challenge, setup, setup_config, setup_all,
}
use ctfd_crossplane_provider.Registration.Command.{
  Flags, Library, first_options, with_policies, with_change_logger, controller_options,
}
use ctfd_crossplane_provider.Registration.Safe.{
  ManagerReturns, HasChangeLogger, setup-IsReturned_iff, controller_options-setup,
  setup_all-error_iff,
}

abbrev manager : Manager ℕ ℕ
manager = record {
  add_state_recorder = λ kind logger metrics interval n. (ok tt, n);
  complete = λ kind options o n. (ok tt, suc n);
  complete_provider_config = λ kinds o n. (ok tt, suc n);
  register = λ kind f n. suc n;
}

-- A manager that cannot start a controller of provider configurations.
abbrev broken : Manager ℕ ℕ
broken = record manager {
  complete_provider_config = λ kinds o n. (err (external "no such kind"), n);
}

manager-ManagerReturns : ManagerReturns manager
manager-ManagerReturns = record {
  add_state_recorder = λ kind l s n w. tt;
  complete = λ kind os o w. tt;
}

abbrev library : Library ℕ ℕ
library = record {
  logger = 1;
  metric_recorder = 2;
  state_metrics = 3;
  new_rate_limiter = λ rate. rate;
  new_change_logger = λ n. (ok 4, n);
  setup_gate = λ o n. (ok tt, n);
  start = λ n. (ok tt, n);
}

abbrev flags : Flags
flags = record {
  poll_interval = 60;
  poll_state_metric_interval = 5;
  max_reconcile_rate = 10;
  enable_management_policies = true;
  enable_change_logs = true;
}

abbrev options : Options ℕ
options = record {
  logger = 1;
  max_concurrent_reconciles = 10;
  poll_interval = 60;
  global_rate_limiter = 10;
  features = λ f. true;
  change_log_options = none;
  metric_options = none;
}

abbrev made : Options ℕ
made = with_change_logger library (with_policies library flags (first_options library flags)) 4

made-controller_options : controller_options library flags 0 ≡ (ok made, 0)
unfolding controller_options
made-controller_options = refl

broken-failed : setup_config broken options 0 ≡ (err (external "no such kind"), 0)
unfolding setup_config
broken-failed = refl

setup-IsReturned_iff_example :
    IsReturned (setup manager challenge options 0).0 ↔ HasChangeLogger options
setup-IsReturned_iff_example =
    setup-IsReturned_iff manager manager-ManagerReturns challenge options 0

controller_options-setup_example : AlwaysReturns (setup manager challenge made)
controller_options-setup_example =
    controller_options-setup manager manager-ManagerReturns library flags made 0 0
      made-controller_options challenge

setup_all-error_iff_example :
    (setup_all broken options 0 ≡ (err (external "no such kind"), 0))
    ↔ (setup_config broken options 0 ≡ (err (external "no such kind"), 0))
setup_all-error_iff_example = setup_all-error_iff broken options (external "no such kind") 0 0
