-- ===== src/Settings/Config/Wanted.antt =====
-- The keys under which CTFd keeps its configuration, and the text that it keeps for a value: what the
-- parameters of a Settings resource ask for, beside the code of
-- internal/controller/settings/conversion.go.
use mathlib.Core.Option.{map}
use ctfd_crossplane_provider.Prelude.{
  String, ℤ, ◌≡◌, refl, true, false, Option, none, some, List, [], ◌∷◌, ◌++◌, if◌then◌else◌, ◌==◌,
  string_eq,
}
use ctfd_crossplane_provider.Strconv.Digits.{itoa}
use ctfd_crossplane_provider.Apis.Settings.{SettingsParameters, MailSettings}
use ctfd_crossplane_provider.Settings.Config.{
  ConfigValue, text, switch, number, Setting, config_string,
}

-- The first of two values that there is.
abbrev pub or_else : Option ConfigValue → Option ConfigValue → Option ConfigValue
or_else (some v) other = some v
or_else none other = other

-- The value that a list of settings has for a key: the last one that is set.
abbrev pub setting : String → List Setting → Option ConfigValue
setting k [] = none
setting k ((j, o) ∷ rest) = or_else (setting k rest) (if j == k then o else none)

-- A setting of the mail server, if the parameters have some.
abbrev pub of_mail : Option MailSettings → (MailSettings → Option ConfigValue) → Option ConfigValue
of_mail none f = none
of_mail (some mp) f = f mp

abbrev pub general_wanted : SettingsParameters → List Setting
general_wanted p =
    ("ctf_name", map text p.name)
    ∷ ("ctf_description", map text p.description)
    ∷ ("ctf_theme", map text p.theme)
    ∷ ("theme_header", map text p.theme_header)
    ∷ ("theme_footer", map text p.theme_footer)
    ∷ ("theme_settings", map text p.theme_settings)
    ∷ ("default_locale", map text p.default_locale)
    ∷ ("challenge_visibility", map text p.challenge_visibility)
    ∷ ("account_visibility", map text p.account_visibility)
    ∷ ("score_visibility", map text p.score_visibility)
    ∷ ("registration_visibility", map text p.registration_visibility)
    ∷ ("start", map text p.start)
    ∷ ("end", map text p.end)
    ∷ ("freeze", map text p.freeze)
    ∷ ("paused", map switch p.paused)
    ∷ ("user_mode", map text p.user_mode)
    ∷ ("team_size", map number p.team_size)
    ∷ ("verify_emails", map switch p.verify_emails)
    ∷ ("name_changes", map switch p.name_changes)
    ∷ ("registration_code", map text p.registration_code)
    ∷ ("challenge_ratings", map text p.challenge_ratings)
    ∷ ("hints_free_public_access", map switch p.hints_free_public_access)
    ∷ ("html_sanitization", map switch p.html_sanitization)
    ∷ ("robots_txt", map text p.robots_txt)
    ∷ ("tos_url", map text p.tos_url)
    ∷ ("tos_text", map text p.tos_text)
    ∷ ("privacy_url", map text p.privacy_url)
    ∷ ("privacy_text", map text p.privacy_text)
    ∷ []

abbrev pub mail_wanted : Option MailSettings → List Setting
mail_wanted mail =
    ("mail_server", of_mail mail (λ mp. map text mp.server))
    ∷ ("mail_port", of_mail mail (λ mp. map text mp.port))
    ∷ ("mail_username", of_mail mail (λ mp. map text mp.username))
    ∷ ("mail_tls", of_mail mail (λ mp. map switch mp.tls))
    ∷ ("mail_ssl", of_mail mail (λ mp. map switch mp.ssl))
    ∷ ("mail_useauth", of_mail mail (λ mp. map switch mp.use_auth))
    ∷ []

-- The mail password counts only beside mail settings, and if it is not empty.
abbrev pub password_wanted : Option MailSettings → String → List Setting
password_wanted mail pw =
    ("mail_password", of_mail mail (λ _. if pw == "" then none else some (text pw))) ∷ []

-- What the parameters ask for, the mail password apart, and with it.
abbrev pub compared : SettingsParameters → List Setting
compared p = general_wanted p ++ mail_wanted p.mail

abbrev pub wanted : SettingsParameters → String → List Setting
wanted p pw = general_wanted p ++ (mail_wanted p.mail ++ password_wanted p.mail pw)

-- The text that CTFd keeps for a value: a Boolean is "1" or "0".
pub data Stores : ConfigValue → String → Type 0 where
  as_text : (s : String) → Stores (text s) s
  as_on : Stores (switch true) "1"
  as_off : Stores (switch false) "0"
  as_number : (n : ℤ) → Stores (number n) (itoa n)

-- CTFd has what the parameters ask for, the mail password apart; `value k` is the text for a key.
abbrev pub Shown : SettingsParameters → (String → String) → Type 0
Shown p value =
    (k : String) (v : ConfigValue) → setting k (compared p) ≡ some v → Stores v (value k)

-- The rendering of the code is the text that CTFd keeps.
pub config_string-Stores : (v : ConfigValue) → Stores v (config_string v)
unfolding config_string
config_string-Stores (text s) = as_text s
config_string-Stores (switch true) = as_on
config_string-Stores (switch false) = as_off
config_string-Stores (number n) = as_number n

pub Stores-eq : (v : ConfigValue) (s : String) → Stores v s → s ≡ config_string v
unfolding config_string
Stores-eq (text _) _ (as_text s) = refl
Stores-eq (switch true) _ as_on = refl
Stores-eq (switch false) _ as_off = refl
Stores-eq (number _) _ (as_number n) = refl
