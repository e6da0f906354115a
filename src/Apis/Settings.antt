-- ===== src/Apis/Settings.antt =====
-- apis/resources/v1alpha1/settings_types.go
use ctfd_crossplane_provider.Prelude.{String, ℤ, Bool, Option}
use ctfd_crossplane_provider.Apis.Managed.{Condition, ObjectMeta}

-- xpv1.SecretKeySelector
pub record SecretKeySelector : Type 0 where
  pub namespace : String
  pub name : String
  pub key : String

pub record MailSettings : Type 0 where
  pub server : Option String
  pub port : Option String
  pub username : Option String
  pub password_secret_ref : Option SecretKeySelector
  pub tls : Option Bool
  pub ssl : Option Bool
  pub use_auth : Option Bool

pub record SettingsParameters : Type 0 where
  pub name : Option String
  pub description : Option String
  pub theme : Option String
  pub theme_header : Option String
  pub theme_footer : Option String
  pub theme_settings : Option String
  pub default_locale : Option String
  pub challenge_visibility : Option String
  pub account_visibility : Option String
  pub score_visibility : Option String
  pub registration_visibility : Option String
  pub start : Option String
  pub end : Option String
  pub freeze : Option String
  pub paused : Option Bool
  pub user_mode : Option String
  pub team_size : Option ℤ
  pub verify_emails : Option Bool
  pub name_changes : Option Bool
  pub registration_code : Option String
  pub challenge_ratings : Option String
  pub hints_free_public_access : Option Bool
  pub html_sanitization : Option Bool
  pub robots_txt : Option String
  pub tos_url : Option String
  pub tos_text : Option String
  pub privacy_url : Option String
  pub privacy_text : Option String
  pub mail : Option MailSettings

pub record SettingsObservation : Type 0 where
  pub name : String
  pub theme : String
  pub user_mode : String

pub record SettingsSpec : Type 0 where
  pub for_provider : SettingsParameters

pub record SettingsStatus : Type 0 where
  pub condition : Condition
  pub at_provider : SettingsObservation

pub record Settings : Type 0 where
  pub metadata : ObjectMeta
  pub spec : SettingsSpec
  pub status : SettingsStatus
