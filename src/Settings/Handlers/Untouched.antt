-- ===== src/Settings/Handlers/Untouched.antt =====
-- What an update leaves of the configuration.
use ctfd_crossplane_provider.Prelude.{
  String, ◌≡◌, ap, sym, ◌∙◌, Option, none, some, [], ◌∷◌, string_eq,
}
use ctfd_crossplane_provider.Result.{ok}
use ctfd_crossplane_provider.Exec.{continue-eq-ok, wrapping, wrapping-eq-ok}
use ctfd_crossplane_provider.Exec.Preserves.{Preserves, lift-Preserves, >>=-Preserves}
use ctfd_crossplane_provider.GoMap.{Map, lookup, lookup_or}
use ctfd_crossplane_provider.Apis.Settings.{
  Settings, SettingsParameters, MailSettings, SecretKeySelector,
}
use ctfd_crossplane_provider.Settings.Config.{ConfigValue, desired_config}
use ctfd_crossplane_provider.Settings.Config.Keys.{lookup-desired_config}
use ctfd_crossplane_provider.Settings.Config.Wanted.{setting, wanted}
use ctfd_crossplane_provider.Settings.Handlers.{
  ConfigClient, secret_password, mail_password, apply_body, apply,
}

-- What is relied on of CTFd and of the cluster: a PATCH of the configuration changes only the keys
-- that it carries, and to read a Secret changes none. `config w k` is the value of a key.
pub record ConfigKeeper {W : Type 0} (client : ConfigClient W) (config : W → String → String)
    : Type 0 where
  pub patched :
      (w w' : W) (body : Map String ConfigValue)
      → client.patch_configs body w ≡ (ok tt, w')
      → (k : String) → lookup k body ≡ none
      → config w' k ≡ config w k
  pub read_secret : (namespace name : String) → Preserves config (client.get_secret namespace name)

-- The parameters ask for no value of the key, whatever the mail password.
abbrev pub Unset : SettingsParameters → String → Type 0
Unset p k = (pw : String) → setting k (wanted p pw) ≡ none

module _ {W : Type 0} (client : ConfigClient W) (config : W → String → String)
    (keeper : ConfigKeeper client config) where
  wrapping-Preserves :
      {A : Type 0} (m : W → _) (text : String)
      → Preserves config {A = A} m
      → Preserves config (wrapping m text)
  wrapping-Preserves m text p w w' a e = p w w' a (wrapping-eq-ok m text w e)

  secret_password-Preserves :
      (ref : Option SecretKeySelector) → Preserves config (secret_password client ref)
  unfolding secret_password
  secret_password-Preserves none = lift-Preserves config (ok "")
  secret_password-Preserves (some ref) =
      >>=-Preserves config _ _
        (wrapping-Preserves (client.get_secret ref.namespace ref.name)
          "cannot read mail password secret" (keeper.read_secret ref.namespace ref.name))
        (λ values. lift-Preserves config (ok (lookup_or "" ref.key values)))

  mail_password-Preserves :
      (mail : Option MailSettings) → Preserves config (mail_password client mail)
  unfolding mail_password
  mail_password-Preserves none = lift-Preserves config (ok "")
  mail_password-Preserves (some mail) = secret_password-Preserves mail.password_secret_ref

  apply_body-keeps :
      (body : Map String ConfigValue) (w w' : W) (k : String)
      → lookup k body ≡ none
      → apply_body client body w ≡ (ok tt, w')
      → config w' k ≡ config w k
  unfolding apply_body
  apply_body-keeps [] w w' k absent e = ap (λ q. config q.1 k) (sym e)
  apply_body-keeps (x ∷ body) w w' k absent e =
      keeper.patched w w' (x ∷ body) (wrapping-eq-ok (client.patch_configs (x ∷ body)) _ w e) k
        absent

  -- If `apply`, which both `Create` and `Update` call, returns without an error, every key for which
  -- the parameters ask for none keeps the one that it had, if a PATCH changes only the keys that it
  -- carries and to read a Secret changes none.
  pub apply-untouched :
      (cr : Settings) (w w' : W) (k : String)
      → Unset cr.spec.for_provider k
      → apply client cr w ≡ (ok tt, w')
      → config w' k ≡ config w k
  unfolding apply
  apply-untouched cr w w' k unset e =
      let p = cr.spec.for_provider in
      let (pw, w₁, read, sent) =
        continue-eq-ok (mail_password client p.mail w) (λ x. apply_body client (desired_config p x))
          e in
      apply_body-keeps (desired_config p pw) w₁ w' k (lookup-desired_config p pw k ∙ unset pw) sent
      ∙ ap (λ c. c k) (mail_password-Preserves p.mail w w₁ pw read)
