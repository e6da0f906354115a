-- ===== src/Examples/Configuration.antt =====
-- The theorems on the configuration at an instance that holds it in memory.
use mathlib.Core.Path.{subst}
use ctfd_crossplane_provider.Prelude.{
  String, pos, ◌≡◌, ◌↔◌, refl, sym, ◌∙◌, ap, true, false, none, some, List, [], ◌∷◌, ◌++◌, arith,
  string_eq,
}
use ctfd_crossplane_provider.Result.{ok}
use ctfd_crossplane_provider.GoMap.{Map, lookup, insert}
use ctfd_crossplane_provider.GoMap.Laws.{lookup-insert}
use ctfd_crossplane_provider.Strconv.Digits.{itoa}
use ctfd_crossplane_provider.Ctfd.{Config}
use ctfd_crossplane_provider.Apis.Managed.{unset, available}
use ctfd_crossplane_provider.Apis.Settings.{SettingsParameters, Settings}
use ctfd_crossplane_provider.Settings.Config.{
  ConfigValue, desired_config, config_string, is_up_to_date,
}
use ctfd_crossplane_provider.Settings.Config.UpToDate.{reported, desired_config-is_up_to_date_iff}
use ctfd_crossplane_provider.Settings.Config.Wanted.{Shown, Stores, config_string-Stores}
use ctfd_crossplane_provider.Settings.Handlers.{ConfigClient, config_values, observe, update}
use ctfd_crossplane_provider.Settings.Handlers.Settled.{ConfigServer, settled, update-configured}
use ctfd_crossplane_provider.Examples.Others.{meta_named}

-- What was written, the last write first.
abbrev pub World : Type 0
World = Map String ConfigValue

abbrev pub listing : World → List Config
listing [] = []
listing ((k, v) ∷ m) = listing m ++ record { key = k; value = config_string v } ∷ []

pub config_values-snoc :
    (values : Map String String) (cs : List Config) (c : Config)
    → config_values values (cs ++ c ∷ []) ≡ insert c.key c.value (config_values values cs)
unfolding config_values
config_values-snoc values [] c = refl
config_values-snoc values (x ∷ cs) c = config_values-snoc (insert x.key x.value values) cs c

lookup-listing :
    (k : String) (v : ConfigValue) (m : World)
    → lookup k m ≡ some v
    → lookup k (config_values [] (listing m)) ≡ some (config_string v)
lookup-listing k v [] e = cc
lookup-listing k v ((j, u) ∷ m) e =
    let stored = config_values [] (listing m) in
    ap (lookup k) (config_values-snoc [] (listing m) (record { key = j; value = config_string u }))
    ∙ lookup-insert j k (config_string u) stored
    ∙ ground (arith, e, lookup-listing k v m, ap config_string)

lookup-append :
    (k : String) (v : ConfigValue) (body m : World)
    → lookup k body ≡ some v
    → lookup k (body ++ m) ≡ some v
lookup-append k v [] m e = cc
lookup-append k v ((j, u) ∷ body) m e = ground (arith, e, lookup-append k v body m)

reported-some :
    (k : String) (m : Map String String) {s : String} → lookup k m ≡ some s → reported m k ≡ s
reported-some k m e = ground (arith, e)

abbrev pub client : ConfigClient World
client = record {
  get_configs = λ w. (ok (listing w), w);
  patch_configs = λ body w. (ok tt, body ++ w);
  get_secret = λ namespace name w. (ok [], w);
}

abbrev pub value_of : World → String → String
value_of w k = reported (config_values [] (listing w)) k

server : ConfigServer client value_of
server = record {
  got = λ w w' cs e k.
      let same : listing w ≡ cs = cc in
      ap (λ (xs : List Config). reported (config_values [] xs) k) same;
  patched = λ w w' body e k v found n.
      let there : body ++ w ≡ w' = cc in
      let here : value_of (body ++ w) k ≡ config_string v =
        reported-some k (config_values [] (listing (body ++ w)))
          (lookup-listing k v (body ++ w) (lookup-append k v body w found)) in
      subst (Stores v) (sym here ∙ ap (λ (x : World). value_of x k) there) (config_string-Stores v);
}

abbrev pub params : SettingsParameters
params = record {
  name = some "Spring CTF";
  description = none;
  theme = none;
  theme_header = none;
  theme_footer = none;
  theme_settings = none;
  default_locale = none;
  challenge_visibility = some "private";
  account_visibility = none;
  score_visibility = none;
  registration_visibility = none;
  start = none;
  end = none;
  freeze = none;
  paused = some false;
  user_mode = none;
  team_size = some (pos 4);
  verify_emails = none;
  name_changes = none;
  registration_code = none;
  challenge_ratings = none;
  hints_free_public_access = none;
  html_sanitization = none;
  robots_txt = none;
  tos_url = none;
  tos_text = none;
  privacy_url = none;
  privacy_text = none;
  mail = none;
}

abbrev pub resource : Settings
resource = record {
  metadata = meta_named "settings";
  spec = record { for_provider = params };
  status = record {
    condition = unset;
    at_provider = record { name = ""; theme = ""; user_mode = "" };
  };
}

abbrev ready : Settings
ready = record resource {
  status = record {
    condition = available;
    at_provider = record { name = "Spring CTF"; theme = ""; user_mode = "" };
  };
}

abbrev pub written : World
written = desired_config params ""

updated : update client (resource, []) ≡ (ok tt, (resource, written))
unfolding update desired_config
updated = refl

observed : observe client (resource, written) ≡ (ok settled, (ready, written))
unfolding observe desired_config config_string itoa
observed = refl

update-configured_example : Shown params (value_of written) × (settled ≡ settled)
update-configured_example =
    update-configured client value_of server resource resource [] written settled (ready, written)
      (λ e. cc) updated observed

desired_config-is_up_to_date_iff_example :
    (is_up_to_date (desired_config params "") [] ≡ true) ↔ Shown params (reported [])
desired_config-is_up_to_date_iff_example = desired_config-is_up_to_date_iff params "" []
