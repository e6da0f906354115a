-- ===== src/Settings/Config/UpToDate.antt =====
-- When a configuration is up to date.
use mathlib.Core.Path.{subst}
use ctfd_crossplane_provider.Prelude.{
  String, ◌≡◌, ◌≢◌, refl, sym, ◌∙◌, ◌↔◌, true, Option, none, some, List, [], ◌∷◌, inl, inr, arith,
  ◌==◌, ==_iff, ==_refl, string_eq, Bool-cases, Distinct,
}
use ctfd_crossplane_provider.GoMap.{Map, keys, insert, lookup, lookup_or}
use ctfd_crossplane_provider.GoMap.Laws.{lookup-none_iff, Distinct-keys-insert}
use ctfd_crossplane_provider.Apis.Settings.{SettingsParameters, MailSettings}
use ctfd_crossplane_provider.Settings.Config.Wanted.{
  setting, compared, Stores, Shown, config_string-Stores, Stores-eq,
}
use ctfd_crossplane_provider.Settings.Config.Keys.{
  lookup-desired_config, wanted-compared, compared-no_password,
}
use ctfd_crossplane_provider.Settings.Config.{
  ConfigValue, Setting, set_all, set_password, text, with_mail, general_settings, mail_settings,
  desired_config, config_string, is_up_to_date,
}

-- Every key of `desired` but the mail password has its value.
abbrev pub Shows : Map String ConfigValue → (String → String) → Type 0
Shows desired value =
    (k : String) (v : ConfigValue)
    → lookup k desired ≡ some v
    → k ≢ "mail_password"
    → value k ≡ config_string v

-- What a configuration map reports for a key, "" for one that it does not hold.
abbrev pub reported : Map String String → String → String
reported observed k = lookup_or "" k observed

module _ (j : String) (w : ConfigValue) (desired : Map String ConfigValue)
    (observed : Map String String) where
  tail_fresh :
      is_up_to_date ((j, w) ∷ desired) observed ≡ true → is_up_to_date desired observed ≡ true
  unfolding is_up_to_date
  tail_fresh u = ground arith

  head_fresh :
      is_up_to_date ((j, w) ∷ desired) observed ≡ true
      → j ≢ "mail_password"
      → reported observed j ≡ config_string w
  unfolding is_up_to_date
  head_fresh u n =
      ground (arith, u, ==_iff j "mail_password", ==_iff (reported observed j) (config_string w))

fresh :
    (desired : Map String ConfigValue) (observed : Map String String)
    → is_up_to_date desired observed ≡ true
    → Shows desired (reported observed)
fresh [] observed u k v e n = cc
fresh ((j, w) ∷ desired) observed u k v e n = elim (Bool-cases (j == k)) [
  | inl here ↦
      let same : j ≡ k = (==_iff j k).0 here in
      let w≡v : some w ≡ some v = sym (rw (here, lookup) refl) ∙ e in
      let shown = head_fresh j w desired observed u (λ q. n (sym same ∙ q)) in cc
  | inr there ↦
      let e' : lookup k desired ≡ some v = sym (rw there refl) ∙ e in
      fresh desired observed (tail_fresh j w desired observed u) k v e' n
]

all_shown :
    (desired : Map String ConfigValue) (observed : Map String String)
    → Distinct (keys desired)
    → Shows desired (reported observed)
    → is_up_to_date desired observed ≡ true
unfolding is_up_to_date
all_shown [] observed d s = refl
all_shown ((j, w) ∷ desired) observed d s =
    let rest =
      all_shown desired observed d.1
        (λ k v e n. s k v (ground (arith, e, d.0, lookup-none_iff k desired, ==_iff j k)) n) in
    elim (Bool-cases (j == "mail_password")) [
      | inl password ↦ rw password rest
      | inr other ↦
          let shown =
            s j w (rw (==_refl j) refl) (λ q. cc (other, (==_iff j "mail_password").1 q)) in
          rw (other, (==_iff (reported observed j) (config_string w)).1 shown) rest
    ]

-- `isUpToDate` holds exactly when every key to apply, the mail password apart, has its value in the
-- configuration, a key that is missing there counting as "".
is_up_to_date_iff :
    (desired : Map String ConfigValue) (observed : Map String String)
    → Distinct (keys desired)
    → (is_up_to_date desired observed ≡ true) ↔ Shows desired (reported observed)
is_up_to_date_iff desired observed d = (fresh desired observed, all_shown desired observed d)

Distinct-set_all :
    (settings : List Setting) (m : Map String ConfigValue)
    → Distinct (keys m)
    → Distinct (keys (set_all settings m))
Distinct-set_all [] m d = d
Distinct-set_all ((k, none) ∷ settings) m d = Distinct-set_all settings m d
Distinct-set_all ((k, some v) ∷ settings) m d =
    Distinct-set_all settings (insert k v m) (Distinct-keys-insert k v m d)

Distinct-set_password :
    (pw : String) (m : Map String ConfigValue)
    → Distinct (keys m)
    → Distinct (keys (set_password pw m))
Distinct-set_password pw m d = elim (Bool-cases (pw == "")) [
  | inl none_set ↦ rw none_set d
  | inr one_set ↦ rw one_set (Distinct-keys-insert "mail_password" (text pw) m d)
]

Distinct-with_mail :
    (mail : Option MailSettings) (pw : String) (m : Map String ConfigValue)
    → Distinct (keys m)
    → Distinct (keys (with_mail mail pw m))
unfolding with_mail
Distinct-with_mail none pw m d = d
Distinct-with_mail (some mp) pw m d =
    Distinct-set_password pw (set_all (mail_settings mp) m)
      (Distinct-set_all (mail_settings mp) m d)

-- What a configuration shows is what the parameters ask for.
pub Shows-Shown :
    (p : SettingsParameters) (pw : String) (value : String → String)
    → Shows (desired_config p pw) value
    → Shown p value
Shows-Shown p pw value s k v asked = elim (Bool-cases (k == "mail_password")) [
  | inl here ↦
      let at =
        subst (λ j. setting j (compared p) ≡ some v) ((==_iff k "mail_password").0 here) asked in
      absurd (cc (at, compared-no_password p))
  | inr other ↦
      let n : k ≢ "mail_password" = λ e. cc (other, (==_iff k "mail_password").1 e) in
      let shown = s k v (lookup-desired_config p pw k ∙ wanted-compared p pw k n ∙ asked) n in
      subst (Stores v) (sym shown) (config_string-Stores v)
]

pub Shown-Shows :
    (p : SettingsParameters) (pw : String) (value : String → String)
    → Shown p value
    → Shows (desired_config p pw) value
Shown-Shows p pw value s k v found n =
    Stores-eq v (value k)
      (s k v (sym (wanted-compared p pw k n) ∙ sym (lookup-desired_config p pw k) ∙ found))

desired_config-Distinct :
    (p : SettingsParameters) (pw : String) → Distinct (keys (desired_config p pw))
unfolding desired_config
desired_config-Distinct p pw =
    Distinct-with_mail p.mail pw (set_all (general_settings p) [])
      (Distinct-set_all (general_settings p) [] tt)

-- A Settings resource is up to date exactly when CTFd reports, for every key that its parameters
-- ask for, the mail password apart, the text that it keeps for the value: a Boolean as "1" or "0",
-- a number in decimal; a key that it does not report counts as "".
pub desired_config-is_up_to_date_iff :
    (p : SettingsParameters) (pw : String) (observed : Map String String)
    → (is_up_to_date (desired_config p pw) observed ≡ true) ↔ Shown p (reported observed)
desired_config-is_up_to_date_iff p pw observed =
    let iff = is_up_to_date_iff (desired_config p pw) observed (desired_config-Distinct p pw) in
    (
      λ u. Shows-Shown p pw (reported observed) (iff.0 u),
      λ s. iff.1 (Shown-Shows p pw (reported observed) s),
    )
