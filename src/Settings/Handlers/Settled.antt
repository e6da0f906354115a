-- ===== src/Settings/Handlers/Settled.antt =====
-- What an update does to the configuration.
use mathlib.Core.Path.{subst}
use ctfd_crossplane_provider.Prelude.{
  String, ◌≡◌, ◌≢◌, refl, ap, sym, ◌∙◌, Bool, true, some, List, [], ◌∷◌, ==_ne, string_eq,
}
use ctfd_crossplane_provider.Result.{Result, ok, err, panic, out_of_fuel, wrapped}
use ctfd_crossplane_provider.Exec.{pure, continue, continue-eq-ok, wrapping}
use ctfd_crossplane_provider.GoMap.{Map, lookup}
use ctfd_crossplane_provider.Session.{calling}
use ctfd_crossplane_provider.Ctfd.{Config}
use ctfd_crossplane_provider.Apis.Managed.{ExternalObservation}
use ctfd_crossplane_provider.Apis.Settings.{Settings}
use ctfd_crossplane_provider.Settings.Config.{ConfigValue, desired_config, is_up_to_date}
use ctfd_crossplane_provider.Settings.Config.UpToDate.{
  Shows, reported, desired_config-is_up_to_date_iff, Shows-Shown,
}
use ctfd_crossplane_provider.Settings.Config.Wanted.{Stores, Shown, Stores-eq}
use ctfd_crossplane_provider.Settings.Handlers.{
  ConfigClient, config_values, current_config, mail_password, report, observe, apply_body, apply,
  update,
}

-- What the handlers rely on of CTFd: the calls on its configuration that succeed do what they say.
-- `config w k` is the value of a key in the world `w`, as CTFd reports it; it keeps a Boolean as
-- "1" or "0".
pub record ConfigServer {W : Type 0} (client : ConfigClient W) (config : W → String → String)
    : Type 0 where
  pub got :
      (w w' : W) (cs : List Config)
      → client.get_configs w ≡ (ok cs, w')
      → (k : String) → config w k ≡ reported (config_values [] cs) k
  pub patched :
      (w w' : W) (body : Map String ConfigValue)
      → client.patch_configs body w ≡ (ok tt, w')
      → (k : String) (v : ConfigValue) → lookup k body ≡ some v
      → k ≢ "mail_password"
      → Stores v (config w' k)

-- An observation of a resource that exists, and one that finds the configuration as desired.
abbrev pub seen : Bool → ExternalObservation
seen b = record { resource_exists = true; resource_up_to_date = b }

abbrev pub settled : ExternalObservation
settled = seen true

wrapped-eq-ok {ℓ} :
    {W : Type ℓ} {A : Type 0} (r : Result A × W) (s : String) {a : A} {w : W}
    → ◌≡◌ {A = Result A × W} (wrapped r.0 s, r.1) (ok a, w)
    → r ≡ (ok a, w)
wrapped-eq-ok (ok a, w) s e = e
wrapped-eq-ok (err x, w) s e = cc
wrapped-eq-ok (panic, w) s e = cc
wrapped-eq-ok (out_of_fuel, w) s e = cc

module _ {W : Type 0} (client : ConfigClient W) (config : W → String → String)
    (server : ConfigServer client config) where
  body-Shows :
      (body : Map String ConfigValue) (w w' : W)
      → apply_body client body w ≡ (ok tt, w')
      → Shows body (config w')
  unfolding apply_body
  body-Shows [] w w' e = λ k v found n. cc
  body-Shows (x ∷ body) w w' e = λ k v found n. Stores-eq v (config w' k) (
      server.patched w w' (x ∷ body) (wrapped-eq-ok (client.patch_configs (x ∷ body) w) _ e) k v
        found n)

  apply-Shown :
      (cr : Settings) (w w' : W)
      → apply client cr w ≡ (ok tt, w')
      → Shown cr.spec.for_provider (config w')
  unfolding apply
  apply-Shown cr w w' e =
      let (sent, w₁, _, e₁) =
        continue-eq-ok (mail_password client cr.spec.for_provider.mail w)
          (λ x. apply_body client (desired_config cr.spec.for_provider x)) e in
      Shows-Shown cr.spec.for_provider sent (config w')
        (body-Shows (desired_config cr.spec.for_provider sent) w₁ w' e₁)

  -- The end of an observation of a configuration that shows the parameters.
  found_settled :
      (cr after : Settings) (observed : Map String String)
      → ((pw : String) → is_up_to_date (desired_config cr.spec.for_provider pw) observed ≡ true)
      → (r : Result String × W) {o : ExternalObservation} {t : Settings × W}
      → continue {S = Settings × W}
          (r.0, (after, r.1))
          (λ pw. pure (seen (is_up_to_date (desired_config cr.spec.for_provider pw) observed)))
        ≡ (ok o, t)
      → o ≡ settled
  found_settled cr after observed fresh (ok pw, w) {o = o} e =
      let got : seen (is_up_to_date (desired_config cr.spec.for_provider pw) observed) ≡ o = cc in
      sym got ∙ ap seen (fresh pw)
  found_settled cr after observed fresh (err x, w) e = cc
  found_settled cr after observed fresh (panic, w) e = cc
  found_settled cr after observed fresh (out_of_fuel, w) e = cc

  -- An observation from the configuration that CTFd returned on.
  abbrev read_from :
      Settings → W → Result (List Config) × W → Result ExternalObservation × (Settings × W)
  read_from cr w r =
      continue {S = Settings × W}
        (calling
          (wrapping (λ _. continue r (λ cs. pure (config_values [] cs)))
            "cannot read CTFd configuration")
          (cr, w))
        (report client)

  read_settled :
      (cr : Settings) (w : W)
      → Shown cr.spec.for_provider (config w)
      → (r : Result (List Config) × W) → client.get_configs w ≡ r
      → {o : ExternalObservation} {t : Settings × W} → read_from cr w r ≡ (ok o, t)
      → o ≡ settled
  unfolding report
  read_settled cr w shown (ok cs, w') q e =
      let fresh : (pw : String)
          → is_up_to_date (desired_config cr.spec.for_provider pw) (config_values [] cs) ≡ true =
        λ pw.
          (desired_config-is_up_to_date_iff cr.spec.for_provider pw (config_values [] cs)).1
            (λ k v asked. subst (Stores v) (server.got w w' cs q k) (shown k v asked)) in
      found_settled cr _ (config_values [] cs) fresh
        (mail_password client cr.spec.for_provider.mail w') e
  read_settled cr w shown (err x, w') q e = cc
  read_settled cr w shown (panic, w') q e = cc
  read_settled cr w shown (out_of_fuel, w') q e = cc

  -- If an update of a named resource returns without an error, CTFd has what the parameters ask for,
  -- the mail password apart, and every observation after it that returns finds the configuration
  -- there and up to date, also if the mail password has changed between.
  pub update-configured :
      (cr cr' : Settings) (w w' : W) (o : ExternalObservation) (t : Settings × W)
      → cr.metadata.external_name ≢ ""
      → update client (cr, w) ≡ (ok tt, (cr', w'))
      → observe client (cr', w') ≡ (ok o, t)
      → Shown cr.spec.for_provider (config w') × (o ≡ settled)
  unfolding update observe current_config
  update-configured cr cr' w w' o t named sent e =
      let same : cr ≡ cr' = cc in
      let applied : apply client cr w ≡ (ok tt, w') = cc in
      let shown = apply-Shown cr w w' applied in
      let name = cr'.metadata.external_name in
      let read : observe client (cr', w') ≡ read_from cr' w' (client.get_configs w') =
        rw (==_ne name "" (λ q. named (ap (λ (x : Settings). x.metadata.external_name) same ∙ q)))
          refl in
      (
        shown,
        read_settled cr' w'
            (subst (λ (x : Settings). Shown x.spec.for_provider (config w')) same shown)
            (client.get_configs w') refl (sym read ∙ e),
      )
