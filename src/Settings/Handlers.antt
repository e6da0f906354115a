-- ===== src/Settings/Handlers.antt =====
-- internal/controller/settings/settings.go: the handlers that the managed reconciler calls.
pub mod Settled
pub mod Untouched
use ctfd_crossplane_provider.Prelude.{
  String, Bool, true, false, Option, none, some, List, [], ◌∷◌, if◌then◌else◌, ◌==◌, string_eq,
}
use ctfd_crossplane_provider.Exec.{Exec, pure, wrapping, ◌>>=◌, ◌>>◌}
use ctfd_crossplane_provider.GoMap.{Map, insert, lookup_or}
use ctfd_crossplane_provider.Session.{calling, the_resource, change}
use ctfd_crossplane_provider.Ctfd.{Config}
use ctfd_crossplane_provider.Apis.Managed.{
  Condition, available, creating, deleting, ExternalObservation, absent,
}
use ctfd_crossplane_provider.Apis.Settings.{
  Settings, MailSettings, SecretKeySelector, SettingsObservation,
}
use ctfd_crossplane_provider.Settings.Config.{ConfigValue, desired_config, is_up_to_date}

-- What the handlers call: CTFd's configuration, and the data of a Secret by namespace and name.
pub record ConfigClient (W : Type 0) : Type 0 where
  pub get_configs : Exec W (List Config)
  pub patch_configs : Map String ConfigValue → Exec W (Unit {0})
  pub get_secret : String → String → Exec W (Map String String)

-- The loop of `currentConfig`.
unfoldable pub config_values : Map String String → List Config → Map String String
config_values values [] = values
config_values values (c ∷ cs) = config_values (insert c.key c.value values) cs

abbrev pub set_external_name : String → Settings → Settings
set_external_name name cr = record cr { metadata = record cr.metadata { external_name = name } }

abbrev pub set_condition : Condition → Settings → Settings
set_condition c cr = record cr { status = record cr.status { condition = c } }

abbrev pub set_at_provider : SettingsObservation → Settings → Settings
set_at_provider o cr = record cr { status = record cr.status { at_provider = o } }

module _ {W : Type 0} (client : ConfigClient W) where
  open client use {get_configs, patch_configs, get_secret}

  unfoldable pub current_config : Exec W (Map String String)
  unfolding config_values
  current_config = do configs ← get_configs; pure (config_values [] configs)

  unfoldable pub secret_password : Option SecretKeySelector → Exec W String
  secret_password none = pure ""
  secret_password (some ref) = do
    values ← wrapping (get_secret ref.namespace ref.name) "cannot read mail password secret"
    pure (lookup_or "" ref.key values)

  unfoldable pub mail_password : Option MailSettings → Exec W String
  unfolding secret_password
  mail_password none = pure ""
  mail_password (some mail) = secret_password mail.password_secret_ref

  -- The part of `Observe` after the configuration is read.
  unfoldable pub report : Map String String → Exec (Settings × W) ExternalObservation
  unfolding mail_password is_up_to_date desired_config
  report observed = do
    cr ← the_resource
    change (
        set_at_provider (record {
          name = lookup_or "" "ctf_name" observed;
          theme = lookup_or "" "ctf_theme" observed;
          user_mode = lookup_or "" "user_mode" observed;
        }))
    change (set_condition available)
    pw ← calling (mail_password cr.spec.for_provider.mail)
    pure (record {
      resource_exists = true;
      resource_up_to_date = is_up_to_date (desired_config cr.spec.for_provider pw) observed;
    })

  unfoldable pub observe : Exec (Settings × W) ExternalObservation
  unfolding current_config report
  observe = do
    cr ← the_resource
    (if cr.metadata.external_name == "" then pure absent else do
      observed ← calling (wrapping current_config "cannot read CTFd configuration")
      report observed)

  -- The part of `apply` after the body is made.
  unfoldable pub apply_body : Map String ConfigValue → Exec W (Unit {0})
  apply_body [] = pure tt
  apply_body (e ∷ body) = wrapping (patch_configs (e ∷ body)) "cannot apply configuration to CTFd"

  unfoldable pub apply : Settings → Exec W (Unit {0})
  unfolding mail_password desired_config apply_body
  apply cr = do
    pw ← mail_password cr.spec.for_provider.mail
    apply_body (desired_config cr.spec.for_provider pw)

  unfoldable pub create : Exec (Settings × W) (Unit {0})
  unfolding apply
  create = do
    change (set_condition creating)
    cr ← the_resource
    calling (apply cr)
    change (set_external_name "settings")

  unfoldable pub update : Exec (Settings × W) (Unit {0})
  unfolding apply
  update = do cr ← the_resource; calling (apply cr)

  unfoldable pub delete : Exec (Settings × W) (Unit {0})
  delete = change (set_condition deleting)
