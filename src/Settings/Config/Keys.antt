-- ===== src/Settings/Config/Keys.antt =====
-- Which keys a configuration carries: those that the parameters set.
use ctfd_crossplane_provider.Prelude.{
  Bool, true, false, ◌≢◌, ==_ne, String, ◌≡◌, refl, sym, ap, ◌∙◌, Option, none, some, List, [], ◌∷◌,
  ◌++◌, inl, inr, if◌then◌else◌, ◌==◌, string_eq, Bool-cases,
}
use ctfd_crossplane_provider.GoMap.{Map, insert, lookup}
use ctfd_crossplane_provider.GoMap.Laws.{lookup-insert}
use ctfd_crossplane_provider.Apis.Settings.{SettingsParameters, MailSettings}
use ctfd_crossplane_provider.Settings.Config.Wanted.{
  or_else, setting, general_wanted, mail_wanted, password_wanted, compared, wanted,
}
use ctfd_crossplane_provider.Settings.Config.{
  ConfigValue, text, Setting, set_all, general_settings, mail_settings, set_password, with_mail,
  desired_config,
}

-- The settings of the mail server.
abbrev mail_table : Option MailSettings → List Setting
mail_table none = []
mail_table (some mp) = mail_settings mp

-- The password of the mail server, for a resource with mail settings and a password.
abbrev password_table : Option MailSettings → String → List Setting
password_table none pw = []
password_table (some mp) pw = ("mail_password", if pw == "" then none else some (text pw)) ∷ []

-- All that the parameters set.
abbrev table : SettingsParameters → String → List Setting
table p pw = general_settings p ++ (mail_table p.mail ++ password_table p.mail pw)

or_else_assoc : (a b c : Option ConfigValue) → or_else a (or_else b c) ≡ or_else (or_else a b) c
or_else_assoc none b c = refl
or_else_assoc (some v) b c = refl

lookup-set_one :
    (k j : String) (o : Option ConfigValue) (m : Map String ConfigValue)
    → lookup k (set_all ((j, o) ∷ []) m) ≡ or_else (if j == k then o else none) (lookup k m)
lookup-set_one k j none m = elim (Bool-cases (j == k)) [
  | inl here ↦ rw here refl
  | inr there ↦ rw there refl
]
lookup-set_one k j (some v) m = elim (Bool-cases (j == k)) [
  | inl here ↦ lookup-insert j k v m ∙ rw here refl
  | inr there ↦ lookup-insert j k v m ∙ rw there refl
]

set_all-append :
    (xs ys : List Setting) (m : Map String ConfigValue)
    → set_all (xs ++ ys) m ≡ set_all ys (set_all xs m)
set_all-append [] ys m = refl
set_all-append ((k, none) ∷ xs) ys m = set_all-append xs ys m
set_all-append ((k, some v) ∷ xs) ys m = set_all-append xs ys (insert k v m)

lookup-set_all :
    (k : String) (settings : List Setting) (m : Map String ConfigValue)
    → lookup k (set_all settings m) ≡ or_else (setting k settings) (lookup k m)
lookup-set_all k [] m = refl
lookup-set_all k ((j, o) ∷ settings) m =
    ap (lookup k) (set_all-append ((j, o) ∷ []) settings m)
    ∙ lookup-set_all k settings (set_all ((j, o) ∷ []) m)
    ∙ ap (or_else (setting k settings)) (lookup-set_one k j o m)
    ∙ or_else_assoc (setting k settings) (if j == k then o else none) (lookup k m)

set_password-eq :
    (mp : MailSettings) (pw : String) (m : Map String ConfigValue)
    → set_password pw m ≡ set_all (password_table (some mp) pw) m
set_password-eq mp pw m = elim (Bool-cases (pw == "")) [
  | inl empty ↦ rw empty refl
  | inr given ↦ rw given refl
]

with_mail-eq :
    (mail : Option MailSettings) (pw : String) (m : Map String ConfigValue)
    → with_mail mail pw m ≡ set_all (mail_table mail ++ password_table mail pw) m
unfolding with_mail
with_mail-eq none pw m = refl
with_mail-eq (some mp) pw m =
    set_password-eq mp pw (set_all (mail_settings mp) m)
    ∙ sym (set_all-append (mail_settings mp) (password_table (some mp) pw) m)

or_else-none : (a : Option ConfigValue) → or_else a none ≡ a
or_else-none none = refl
or_else-none (some v) = refl

if_none : {A : Type 0} (b : Bool) → ◌≡◌ {A = Option A} (if b then none else none) none
if_none true = refl
if_none false = refl

setting-append :
    (k : String) (xs ys : List Setting)
    → setting k (xs ++ ys) ≡ or_else (setting k ys) (setting k xs)
setting-append k [] ys = sym (or_else-none (setting k ys))
setting-append k ((j, o) ∷ xs) ys =
    ap (λ v. or_else v (if j == k then o else none)) (setting-append k xs ys)
    ∙ sym (or_else_assoc (setting k ys) (setting k xs) (if j == k then o else none))

-- Without mail settings no key of the mail server is asked for.
no_mail :
    (k : String) (pw : String) → setting k (mail_wanted none ++ password_wanted none pw) ≡ none
no_mail k pw = simp if_none

mail_asked :
    (k : String) (mail : Option MailSettings) (pw : String)
    → setting k (mail_table mail ++ password_table mail pw)
      ≡ setting k (mail_wanted mail ++ password_wanted mail pw)
mail_asked k none pw = sym (no_mail k pw)
mail_asked k (some mp) pw = refl

-- For every key, `desiredConfig` has the value that the parameters ask for, and none if they ask for
-- none: the table `wanted` names the parameter for each key, and the mail password counts only beside
-- mail settings and if it is not empty.
pub lookup-desired_config :
    (p : SettingsParameters) (pw k : String)
    → lookup k (desired_config p pw) ≡ setting k (wanted p pw)
unfolding desired_config
lookup-desired_config p pw k =
    ap (lookup k) (
      with_mail-eq p.mail pw (set_all (general_settings p) [])
      ∙ sym
          (set_all-append (general_settings p) (mail_table p.mail ++ password_table p.mail pw) []))
    ∙ lookup-set_all k (table p pw) []
    ∙ or_else-none (setting k (table p pw))
    ∙ setting-append k (general_settings p) (mail_table p.mail ++ password_table p.mail pw)
    ∙ ap (λ v. or_else v (setting k (general_wanted p))) (mail_asked k p.mail pw)
    ∙ sym (setting-append k (general_wanted p) (mail_wanted p.mail ++ password_wanted p.mail pw))

no_password :
    (k : String) (mail : Option MailSettings) (pw : String)
    → k ≢ "mail_password"
    → setting k (password_wanted mail pw) ≡ none
no_password k mail pw n = rw (==_ne "mail_password" k (λ e. n (sym e))) refl

-- Beside the mail password, what is asked for is what is compared.
pub wanted-compared :
    (p : SettingsParameters) (pw k : String)
    → k ≢ "mail_password"
    → setting k (wanted p pw) ≡ setting k (compared p)
wanted-compared p pw k n =
    setting-append k (general_wanted p) (mail_wanted p.mail ++ password_wanted p.mail pw)
    ∙ ap (λ v. or_else v (setting k (general_wanted p)))
        (setting-append k (mail_wanted p.mail) (password_wanted p.mail pw)
          ∙ ap (λ v. or_else v (setting k (mail_wanted p.mail))) (no_password k p.mail pw n))
    ∙ sym (setting-append k (general_wanted p) (mail_wanted p.mail))

pub compared-no_password : (p : SettingsParameters) → setting "mail_password" (compared p) ≡ none
compared-no_password p =
    setting-append "mail_password" (general_wanted p) (mail_wanted p.mail)
    ∙ ap (λ v. or_else v none) (in_mail p.mail)
  where
    in_mail : (mail : Option MailSettings) → setting "mail_password" (mail_wanted mail) ≡ none
    in_mail none = refl
    in_mail (some mp) = refl
