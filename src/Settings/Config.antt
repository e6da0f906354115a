-- ===== src/Settings/Config.antt =====
-- internal/controller/settings/conversion.go: the configuration keys to apply, and their comparison
-- with the configuration that CTFd reports.
pub mod UpToDate
pub mod Keys
pub mod Wanted
use mathlib.Core.Option.{map}
use ctfd_crossplane_provider.Prelude.{
  String, ℤ, Bool, true, false, not, Option, none, some, List, [], ◌∷◌, ◌++◌, if◌then◌else◌, ◌==◌,
  string_eq,
}
use ctfd_crossplane_provider.GoMap.{Map, insert, lookup_or}
use ctfd_crossplane_provider.Strconv.Digits.{itoa}
use ctfd_crossplane_provider.Apis.Settings.{SettingsParameters, MailSettings}

-- The values of the map are an `any` in Go: a string, a bool or an int.
pub data ConfigValue : Type 0 where
  text : String → ConfigValue
  switch : Bool → ConfigValue
  number : ℤ → ConfigValue

-- A key with its value, if the user set it: the arguments of `set`, `setBool` and `setInt`.
abbrev pub Setting : Type 0
Setting = String × Option ConfigValue

abbrev pub set : String → Option String → Setting
set key v = (key, map text v)

abbrev pub set_bool : String → Option Bool → Setting
set_bool key v = (key, map switch v)

abbrev pub set_int : String → Option ℤ → Setting
set_int key v = (key, map number v)

-- The effect of these calls, one after another, on the map.
abbrev pub set_all : List Setting → Map String ConfigValue → Map String ConfigValue
set_all [] m = m
set_all ((key, none) ∷ rest) m = set_all rest m
set_all ((key, some v) ∷ rest) m = set_all rest (insert key v m)

abbrev pub general_settings : SettingsParameters → List Setting
general_settings p =
    set "ctf_name" p.name
    ∷ set "ctf_description" p.description
    ∷ set "ctf_theme" p.theme
    ∷ set "theme_header" p.theme_header
    ∷ set "theme_footer" p.theme_footer
    ∷ set "theme_settings" p.theme_settings
    ∷ set "default_locale" p.default_locale
    ∷ set "challenge_visibility" p.challenge_visibility
    ∷ set "account_visibility" p.account_visibility
    ∷ set "score_visibility" p.score_visibility
    ∷ set "registration_visibility" p.registration_visibility
    ∷ set "start" p.start
    ∷ set "end" p.end
    ∷ set "freeze" p.freeze
    ∷ set_bool "paused" p.paused
    ∷ set "user_mode" p.user_mode
    ∷ set_int "team_size" p.team_size
    ∷ set_bool "verify_emails" p.verify_emails
    ∷ set_bool "name_changes" p.name_changes
    ∷ set "registration_code" p.registration_code
    ∷ set "challenge_ratings" p.challenge_ratings
    ∷ set_bool "hints_free_public_access" p.hints_free_public_access
    ∷ set_bool "html_sanitization" p.html_sanitization
    ∷ set "robots_txt" p.robots_txt
    ∷ set "tos_url" p.tos_url
    ∷ set "tos_text" p.tos_text
    ∷ set "privacy_url" p.privacy_url
    ∷ set "privacy_text" p.privacy_text
    ∷ []

abbrev pub mail_settings : MailSettings → List Setting
mail_settings mp =
    set "mail_server" mp.server
    ∷ set "mail_port" mp.port
    ∷ set "mail_username" mp.username
    ∷ set_bool "mail_tls" mp.tls
    ∷ set_bool "mail_ssl" mp.ssl
    ∷ set_bool "mail_useauth" mp.use_auth
    ∷ []

abbrev pub set_password : String → Map String ConfigValue → Map String ConfigValue
set_password pw m = if pw == "" then m else insert "mail_password" (text pw) m

-- The block on `p.Mail`.
unfoldable pub with_mail :
    Option MailSettings → String → Map String ConfigValue → Map String ConfigValue
with_mail none pw m = m
with_mail (some mp) pw m = set_password pw (set_all (mail_settings mp) m)

unfoldable pub desired_config : SettingsParameters → String → Map String ConfigValue
unfolding with_mail
desired_config p pw = with_mail p.mail pw (set_all (general_settings p) [])

unfoldable pub config_string : ConfigValue → String
config_string (text t) = t
config_string (switch true) = "1"
config_string (switch false) = "0"
config_string (number n) = itoa n

-- The order of the loop does not show in its result.
unfoldable pub is_up_to_date : Map String ConfigValue → Map String String → Bool
unfolding config_string
is_up_to_date [] observed = true
is_up_to_date ((k, v) ∷ desired) observed =
    let rest = is_up_to_date desired observed in
    if k == "mail_password"
    then rest
    else if not (lookup_or "" k observed == config_string v)
    then false
    else rest
