-- ===== src/Examples/Others.antt =====
-- The theorems on pages, the configuration and the credentials at concrete inputs.
use mathlib.Core.Path.{subst}
use ctfd_crossplane_provider.Prelude.{
  String, pos, ◌≡◌, ◌↔◌, refl, sym, ap, true, false, Option, some, arith,
}
use ctfd_crossplane_provider.Result.{Result, ok, err, external}
use ctfd_crossplane_provider.Strconv.Digits.{itoa}
use ctfd_crossplane_provider.Strconv.RoundTrip.{IsInt}
use ctfd_crossplane_provider.Ctfd.{CtfdPage, PageParams}
use ctfd_crossplane_provider.PageClient.{PageClient}
use ctfd_crossplane_provider.Apis.Managed.{unset, creating, absent, ObjectMeta}
use ctfd_crossplane_provider.Apis.Page.{PageParameters, Page}
use ctfd_crossplane_provider.Page.{
  is_up_to_date, page_params, observe, create, update, set_external_name, set_condition,
}
use ctfd_crossplane_provider.Page.UpToDate.{
  Matches, is_up_to_date_iff_page, Stored, PageServer, settled, create-settled, update-settled,
}
use ctfd_crossplane_provider.Page.Unread.{unread-recreated}
use ctfd_crossplane_provider.Clients.{Credentials, new_client}
use ctfd_crossplane_provider.Clients.Valid.{IsValid, new_client_iff}

-- The one page of the instance.
abbrev World : Type 0
World = PageParams

abbrev page_of : PageParams → CtfdPage
page_of q = record {
  id = pos 2;
  title = q.title;
  route = q.route;
  content = some q.content;
  format = q.format;
  draft = q.draft;
  hidden = q.hidden;
  auth_required = q.auth_required;
}

abbrev page_client : PageClient World
page_client = record {
  get_page = λ id w. (ok (page_of w), w);
  post_pages = λ q w. (ok (page_of q), q);
  patch_page = λ id q w. (ok (page_of q), q);
  delete_page = λ id w. (ok tt, w);
}

abbrev page_at : World → String → Option CtfdPage
page_at w id = some (page_of w)

page_server : PageServer page_client page_at
page_server = record {
  got = λ id w w' p e. cc;
  posted = λ q w w' p e.
      let same : page_of q ≡ p = cc in
      let there : q ≡ w' = cc in
      (
        subst (λ (x : CtfdPage). IsInt x.id) same (omega arith),
        cc,
        subst (Stored q) same (itself q),
      );
  patched = λ id q w w' p e.
      let there : q ≡ w' = cc in (page_of q, ap (λ x. some (page_of x)) (sym there), itself q);
}
  where
    itself : (q : PageParams) → Stored q (page_of q)
    itself q = record {
      title = refl;
      route = refl;
      content = refl;
      format = refl;
      draft = refl;
      hidden = refl;
      auth_required = refl;
    }

abbrev rules : PageParameters
rules = record {
  title = "Rules";
  route = "rules";
  content = "Be kind";
  format = "";
  draft = false;
  hidden = false;
  auth_required = true;
}

abbrev old_page : World
old_page = record {
  title = "Old";
  route = "rules";
  content = "";
  format = "html";
  draft = true;
  hidden = false;
  auth_required = false;
}

abbrev pub meta_named : String → ObjectMeta
meta_named name = record {
  namespace = "ctf";
  external_name = name;
  provider_config = some (record { kind = "ProviderConfig"; name = "default" });
}

abbrev page_named : String → Page
page_named name = record {
  metadata = meta_named name;
  spec = record { for_provider = rules };
  status = record { condition = unset; at_provider = record { id = pos 0; route = "" } };
}

is_up_to_date_iff_page_example :
    (is_up_to_date rules (page_of old_page) ≡ true) ↔ Matches rules (page_of old_page)
is_up_to_date_iff_page_example = is_up_to_date_iff_page rules (page_of old_page)

update-settled_example :
    (update page_client (page_named "2", old_page) ≡ (ok tt, (page_named "2", page_params rules)))
    × ((cr : Page) × (observe page_client (page_named "2", page_params rules)
          ≡ (ok settled, (cr, page_params rules))))
update-settled_example =
    update-settled page_client page_at page_server (page_named "2") old_page (page_params rules)
      (page_params rules) (page_of (page_params rules)) (page_of (page_params rules)) (λ e. cc) refl
      refl

create-settled_example :
    (named : Page) × (create page_client (page_named "rules", old_page)
      ≡ (ok tt, (named, page_params rules)))
    × (named.metadata.external_name ≡ itoa (pos 2))
    × ((cr : Page) × (observe page_client (named, page_params rules)
          ≡ (ok settled, (cr, page_params rules))))
create-settled_example =
    create-settled page_client page_at page_server (page_named "rules") old_page (page_params rules)
      (page_params rules) (page_of (page_params rules)) (page_of (page_params rules)) refl refl

-- A client whose reads fail, though the page is there.
abbrev offline : PageClient World
offline = record page_client { get_page = λ id w. (err (external "timeout"), w) }

offline_server : PageServer offline page_at
offline_server = record {
  got = λ id w w' p e. cc;
  posted = page_server.posted;
  patched = page_server.patched;
}

abbrev renamed : Page
renamed = set_external_name "2" (set_condition creating (page_named "rules"))

unread-recreated_example :
    (observe offline (page_named "rules", old_page) ≡ (ok absent, (page_named "rules", old_page)))
    × ((p : CtfdPage) × (offline.post_pages (page_params rules) old_page
          ≡ (ok p, page_params rules))
        × (renamed.metadata.external_name ≡ itoa p.id)
        × (page_at (page_params rules) renamed.metadata.external_name ≡ some p)
        × Stored (page_params rules) p)
unfolding create itoa
unread-recreated_example =
    unread-recreated offline page_at offline_server (page_named "rules") renamed old_page old_page
      (page_params rules) (external "timeout") (λ e. cc) refl refl

-- Credentials in the form that `json.Unmarshal` yields them.
abbrev parsed : Credentials → Result Credentials
parsed c = ok c

abbrev client_text : String → String → String → String → String
client_text url nonce session api_key = url

abbrev with_token : Credentials
with_token = record {
  url = "https://ctf.example.com";
  api_key = "ctfd_1";
  session = "";
  nonce = "";
}

abbrev address : String
address = "https://ctf.example.com"

new_client_iff_example : (new_client parsed client_text with_token ≡ ok address) ↔ (
    (c : Credentials) × (parsed with_token ≡ ok c)
    × IsValid c
    × (address ≡ client_text c.url c.nonce c.session c.api_key))
new_client_iff_example = new_client_iff parsed client_text with_token address
