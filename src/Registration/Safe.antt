-- ===== src/Registration/Safe.antt =====
-- When the setup of a controller panics, and the options that the command makes for it.
use mathlib.Core.Path.{subst}
use ctfd_crossplane_provider.Prelude.{
  ℕ, ◌≡◌, ◌↔◌, refl, sym, ap, ◌∙◌, true, false, inl, inr, Option, none, some, List, Bool-cases,
}
use ctfd_crossplane_provider.Result.{Result, Error, ok, err, panic, out_of_fuel}
use ctfd_crossplane_provider.Exec.{Exec, continue, continue-eq-ok, pure}
use ctfd_crossplane_provider.Exec.Returned.{
  IsReturned, AlwaysReturns, continue-IsReturned, wrapping-AlwaysReturns,
}
use ctfd_crossplane_provider.Registration.{
  ManagedKind, enable_alpha_change_logs, Options, MetricOptions, ReconcilerOption, Manager,
  list_error, change_logger, add_recorder, change_log_options, add_state_metrics, setup, gated,
  setup_gated, setup_config, setup_all, challenge, page, settings,
}
use ctfd_crossplane_provider.Registration.Command.{
  Flags, Library, first_options, with_policies, with_change_logger, controller_options,
}

-- The calls of the manager return a value or an error.
pub record ManagerReturns {W X : Type 0} (mgr : Manager W X) : Type 0 where
  pub add_state_recorder :
      (kind : ManagedKind) (l s : X) (n : ℕ) → AlwaysReturns (mgr.add_state_recorder kind l s n)
  pub complete :
      (kind : ManagedKind) (os : List (ReconcilerOption X)) (o : Options X)
      → AlwaysReturns (mgr.complete kind os o)

-- There is a change logger if change logs are enabled.
abbrev pub HasChangeLogger : {X : Type 0} → Options X → Type 0
HasChangeLogger {X = X} o =
    o.features enable_alpha_change_logs ≡ true → (l : X) × (o.change_log_options ≡ some l)

IsReturned-before :
    {S A B : Type 0} (r : Result A × S) (f : A → Exec S B)
    → IsReturned (continue r f).0
    → IsReturned r.0
IsReturned-before (ok a, s) f p = tt
IsReturned-before (err e, s) f p = tt
IsReturned-before (panic, s) f p = p
IsReturned-before (out_of_fuel, s) f p = p

logger_iff : {X : Type 0} (c : Option X) → IsReturned (change_logger c) ↔ ((l : X) × (c ≡ some l))
logger_iff none = (λ p. elim p [ ], λ (l, e). cc (e))
logger_iff (some l) = (λ _. (l, refl), λ _. tt)

change_logs_iff :
    {X : Type 0} (o : Options X) → IsReturned (change_log_options o) ↔ HasChangeLogger o
change_logs_iff o = elim (Bool-cases (o.features enable_alpha_change_logs)) [
  | inl on ↦
      let per = logger_iff o.change_log_options in
      (λ p _. per.0 (subst IsReturned (rw on refl) p), λ has. rw on (per.1 (has on)))
  | inr off ↦ (λ _ on. cc (on, off), λ _. rw off tt)
]

policies-features :
    {W X : Type 0} (lib : Library W X) (flags : Flags)
    → (with_policies lib flags (first_options lib flags)).features enable_alpha_change_logs ≡ false
policies-features lib flags = elim (Bool-cases flags.enable_management_policies) [
  | inl on ↦ rw on refl
  | inr off ↦ rw off refl
]

controller_options-HasChangeLogger :
    {W X : Type 0} (lib : Library W X) (flags : Flags) (o : Options X) (w w' : W)
    → controller_options lib flags w ≡ (ok o, w')
    → HasChangeLogger o
unfolding controller_options
controller_options-HasChangeLogger lib flags o w w' e =
    let o₁ = with_policies lib flags (first_options lib flags) in
    elim (Bool-cases flags.enable_change_logs) [
      | inl on ↦
          let (l, w₁, _, last) =
            continue-eq-ok (lib.new_change_logger w) (λ l. pure (with_change_logger lib o₁ l))
              (sym (rw on refl) ∙ e) in
          let made : with_change_logger lib o₁ l ≡ o = cc (last) in
          λ _. (l, ap (λ x. x.change_log_options) (sym made))
      | inr off ↦
          let same : o₁ ≡ o = cc (off, e) in
          λ on.
            cc (on, policies-features lib flags, ap (λ x. x.features enable_alpha_change_logs) same)
    ]

module _ {W X : Type 0} (mgr : Manager W X) (returns : ManagerReturns mgr) where
  recorder-AlwaysReturns :
      (kind : ManagedKind) (l : X) (n : ℕ) (s : Option X)
      → AlwaysReturns (add_recorder mgr kind l n s)
  recorder-AlwaysReturns kind l n none w = tt
  recorder-AlwaysReturns kind l n (some s) w =
      wrapping-AlwaysReturns (mgr.add_state_recorder kind l s n) (list_error kind)
        (returns.add_state_recorder kind l s n) w

  metrics-AlwaysReturns :
      (kind : ManagedKind) (l : X) (m : Option (MetricOptions X))
      → AlwaysReturns (add_state_metrics mgr kind l m)
  metrics-AlwaysReturns kind l none w = tt
  metrics-AlwaysReturns kind l (some m) w =
      recorder-AlwaysReturns kind l m.poll_state_metric_interval m.mr_state_metrics w

  setup-IsReturned :
      (kind : ManagedKind) (o : Options X) (w : W)
      → IsReturned (change_log_options o)
      → IsReturned (setup mgr kind o w).0
  unfolding setup
  setup-IsReturned kind o w p =
      continue-IsReturned (change_log_options o, w) _ p
        (λ change u.
          continue-IsReturned _ _ (metrics-AlwaysReturns kind o.logger o.metric_options u)
            (λ _ v. returns.complete kind _ o v))

  -- `Setup` of a kind returns a value or an error exactly when change logs are off or there is a
  -- change logger: else it is a nil pointer that panics. The calls of the manager do not panic.
  pub setup-IsReturned_iff :
      (kind : ManagedKind) (o : Options X) (w : W)
      → IsReturned (setup mgr kind o w).0 ↔ HasChangeLogger o
  unfolding setup
  setup-IsReturned_iff kind o w = (
    λ p. (change_logs_iff o).0 (IsReturned-before (change_log_options o, w) _ p),
    λ has. setup-IsReturned kind o w ((change_logs_iff o).1 has),
  )

  -- With the options that `main` makes, whatever its flags, `Setup` of no kind panics, if the calls of
  -- the manager do not.
  pub controller_options-setup :
      (lib : Library W X) (flags : Flags) (o : Options X) (w w' : W)
      → controller_options lib flags w ≡ (ok o, w')
      → (kind : ManagedKind) → AlwaysReturns (setup mgr kind o)
  controller_options-setup lib flags o w w' e kind v =
      (setup-IsReturned_iff kind o v).1 (controller_options-HasChangeLogger lib flags o w w' e)

errors_only_first :
    {W : Type 0} (r : Result (Unit {0}) × W) (f : W → W) (e : Error) (w : W)
    → (continue {B = Unit {0}} r (λ _ u. (ok tt, f u)) ≡ (err e, w)) ↔ (r ≡ (err e, w))
errors_only_first (ok _, s) f e w = (λ q. cc (q), λ q. cc (q))
errors_only_first (err x, s) f e w = (λ q. q, λ q. q)
errors_only_first (panic, s) f e w = (λ q. q, λ q. q)
errors_only_first (out_of_fuel, s) f e w = (λ q. q, λ q. q)

-- `SetupGated` of register.go fails exactly when the setup of the provider configurations does, with
-- its error and in its state: no controller of a managed resource is registered then.
pub setup_all-error_iff :
    {W X : Type 0} (mgr : Manager W X) (o : Options X) (e : Error) (w w' : W)
    → (setup_all mgr o w ≡ (err e, w')) ↔ (setup_config mgr o w ≡ (err e, w'))
unfolding setup_all setup_gated gated
setup_all-error_iff mgr o e w w' =
    errors_only_first (setup_config mgr o w)
      (λ u.
        mgr.register settings (gated mgr settings o)
          (mgr.register page (gated mgr page o) (mgr.register challenge (gated mgr challenge o) u)))
      e w'
