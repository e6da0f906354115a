-- ===== src/Examples/ConfigKeys.antt =====
-- The keys of a configuration at the instance that holds it in memory.
use ctfd_crossplane_provider.Prelude.{
  String, ◌≡◌, refl, sym, ◌∙◌, ap, inl, inr, none, [], ◌∷◌, ◌++◌, arith, if◌then◌else◌, ◌==◌,
  string_eq, Bool-cases,
}
use ctfd_crossplane_provider.Result.{ok}
use ctfd_crossplane_provider.GoMap.{lookup}
use ctfd_crossplane_provider.GoMap.Laws.{lookup-insert}
use ctfd_crossplane_provider.Settings.Config.{ConfigValue, config_string, desired_config}
use ctfd_crossplane_provider.Settings.Config.UpToDate.{reported}
use ctfd_crossplane_provider.Settings.Config.Keys.{lookup-desired_config}
use ctfd_crossplane_provider.Settings.Config.Wanted.{setting, wanted}
use ctfd_crossplane_provider.Settings.Handlers.{config_values, apply}
use ctfd_crossplane_provider.Settings.Handlers.Untouched.{ConfigKeeper, Unset, apply-untouched}
use ctfd_crossplane_provider.Examples.Configuration.{
  World, listing, config_values-snoc, client, value_of, params, resource, written,
}

value_of-cons :
    (k j : String) (v : ConfigValue) (m : World)
    → value_of ((j, v) ∷ m) k ≡ (if j == k then config_string v else value_of m k)
value_of-cons k j v m =
    ap (λ values. reported values k)
      (config_values-snoc [] (listing m) (record { key = j; value = config_string v }))
    ∙ ground (arith, lookup-insert j k (config_string v) (config_values [] (listing m)))

value_of-append :
    (k : String) (body m : World) → lookup k body ≡ none → value_of (body ++ m) k ≡ value_of m k
value_of-append k [] m e = refl
value_of-append k ((j, v) ∷ body) m e = elim (Bool-cases (j == k)) [
  | inl here ↦ absurd (ground (arith, e, here))
  | inr there ↦
      value_of-cons k j v (body ++ m)
      ∙ rw there (value_of-append k body m (sym (rw there refl) ∙ e))
]

keeper : ConfigKeeper client value_of
keeper = record {
  patched = λ w w' body e k absent.
      let there : body ++ w ≡ w' = cc (e) in
      ap (λ (x : World). value_of x k) (sym there) ∙ value_of-append k body w absent;
  read_secret = λ namespace name w w' m e. ap (λ q. value_of q.1) (sym e);
}

lookup-desired_config_example :
    lookup "mail_password" (desired_config params "secret")
    ≡ setting "mail_password" (wanted params "secret")
lookup-desired_config_example = lookup-desired_config params "secret" "mail_password"

theme-Unset : Unset params "ctf_theme"
theme-Unset pw = refl

applied : apply client resource [] ≡ (ok tt, written)
unfolding apply desired_config
applied = refl

apply-untouched_example : value_of written "ctf_theme" ≡ value_of [] "ctf_theme"
apply-untouched_example =
    apply-untouched client value_of keeper resource [] written "ctf_theme" theme-Unset applied
