-- ===== src/Page/UpToDate.antt =====
-- When a page is up to date, and what a creation and an update make of it.
use mathlib.Core.Path.{subst}
use ctfd_crossplane_provider.Prelude.{
  String, ◌≡◌, ◌≢◌, refl, ◌↔◌, true, Option, some, arith, if◌then◌else◌, ◌==◌, ==_iff, ==_ne,
  string_eq, bool_eq,
}
use ctfd_crossplane_provider.Result.{ok}
use ctfd_crossplane_provider.Strconv.Digits.{itoa}
use ctfd_crossplane_provider.Strconv.RoundTrip.{IsInt}
use ctfd_crossplane_provider.Ctfd.{CtfdPage, PageParams}
use ctfd_crossplane_provider.PageClient.{PageClient}
use ctfd_crossplane_provider.Apis.Managed.{available, creating, ExternalObservation}
use ctfd_crossplane_provider.Apis.Page.{Page, PageParameters}
use ctfd_crossplane_provider.Challenge.Controller.ExternalName.{itoa-nonempty}
use ctfd_crossplane_provider.Page.{
  format_or_default, content_of, is_up_to_date, page_params, set_external_name, set_condition,
  set_at_provider, observe, report, create, update,
}

-- The page `p` shows what the parameters say.
pub record Matches (d : PageParameters) (p : CtfdPage) : Type 0 where
  pub title : p.title ≡ d.title
  pub route : p.route ≡ d.route
  pub content : content_of p.content ≡ d.content
  pub format : p.format ≡ (if d.format == "" then "markdown" else d.format)
  pub draft : p.draft ≡ d.draft
  pub hidden : p.hidden ≡ d.hidden
  pub auth_required : p.auth_required ≡ d.auth_required

compared :
    (d : PageParameters) (p : CtfdPage)
    → (is_up_to_date d p ≡ true) ↔ (
        (p.title ≡ d.title)
        × (p.route ≡ d.route)
        × (content_of p.content ≡ d.content)
        × (p.format ≡ (if d.format == "" then "markdown" else d.format))
        × (p.draft ≡ d.draft)
        × (p.hidden ≡ d.hidden)
        × (p.auth_required ≡ d.auth_required))
unfolding is_up_to_date format_or_default
compared d p = ground (
  arith,
  ==_iff p.title d.title,
  ==_iff p.route d.route,
  ==_iff (content_of p.content) d.content,
  ==_iff p.format (if d.format == "" then "markdown" else d.format),
  ==_iff p.draft d.draft,
  ==_iff p.hidden d.hidden,
  ==_iff p.auth_required d.auth_required,
)

-- `isUpToDate` holds exactly when every field of the page is as desired, the format "markdown" if none
-- is set and a content that CTFd leaves out counting as "".
pub is_up_to_date_iff_page :
    (d : PageParameters) (p : CtfdPage) → (is_up_to_date d p ≡ true) ↔ Matches d p
is_up_to_date_iff_page d p =
    let parts = compared d p in
    (
      λ u.
          let (a, b, c, f, x, y, z) = parts.0 u in
          record {
            title = a;
            route = b;
            content = c;
            format = f;
            draft = x;
            hidden = y;
            auth_required = z;
          },
      λ m. parts.1 (m.title, m.route, m.content, m.format, m.draft, m.hidden, m.auth_required),
    )

-- A page has the fields of a payload.
pub record Stored (q : PageParams) (p : CtfdPage) : Type 0 where
  pub title : p.title ≡ q.title
  pub route : p.route ≡ q.route
  pub content : content_of p.content ≡ q.content
  pub format : p.format ≡ q.format
  pub draft : p.draft ≡ q.draft
  pub hidden : p.hidden ≡ q.hidden
  pub auth_required : p.auth_required ≡ q.auth_required

-- What the handlers rely on of CTFd: calls on pages that succeed do what they say. `page w id` is the
-- page of that ID in the world `w`.
pub record PageServer {W : Type 0} (client : PageClient W) (page : W → String → Option CtfdPage)
    : Type 0 where
  pub got :
      (id : String) (w w' : W) (p : CtfdPage)
      → client.get_page id w ≡ (ok p, w')
      → page w id ≡ some p
  pub posted :
      (q : PageParams) (w w' : W) (p : CtfdPage)
      → client.post_pages q w ≡ (ok p, w')
      → IsInt p.id × (page w' (itoa p.id) ≡ some p) × Stored q p
  pub patched :
      (id : String) (q : PageParams) (w w' : W) (p : CtfdPage)
      → client.patch_page id q w ≡ (ok p, w')
      → (stored : CtfdPage) × (page w' id ≡ some stored) × Stored q stored

-- An observation that finds the page as desired.
abbrev pub settled : ExternalObservation
settled = record { resource_exists = true; resource_up_to_date = true }

Stored-Matches : (d : PageParameters) (p : CtfdPage) → Stored (page_params d) p → Matches d p
unfolding page_params format_or_default
Stored-Matches d p s = record {
  title = s.title;
  route = s.route;
  content = s.content;
  format = s.format;
  draft = s.draft;
  hidden = s.hidden;
  auth_required = s.auth_required;
}

module _ {W : Type 0} (client : PageClient W) (page : W → String → Option CtfdPage)
    (server : PageServer client page) where
  observe-settled :
      (cr : Page) (w w' : W) (p stored : CtfdPage)
      → cr.metadata.external_name ≢ ""
      → client.get_page cr.metadata.external_name w ≡ (ok p, w')
      → page w cr.metadata.external_name ≡ some stored
      → Stored (page_params cr.spec.for_provider) stored
      → (cr' : Page) × (observe client (cr, w) ≡ (ok settled, (cr', w')))
  unfolding observe report
  observe-settled cr w w' p stored named e here s =
      let same : stored ≡ p = cc (server.got cr.metadata.external_name w w' p e) in
      let d = cr.spec.for_provider in
      let u =
        (is_up_to_date_iff_page d p).1
          (Stored-Matches d p (subst (Stored (page_params d)) same s)) in
      let ready =
        set_condition available (set_at_provider (record { id = p.id; route = p.route }) cr) in
      (ready, rw (==_ne cr.metadata.external_name "" named, e, u) refl)

  -- After an update whose PATCH succeeded, the next observation that reaches CTFd finds the page there
  -- and up to date.
  pub update-settled :
      (cr : Page) (w w' w'' : W) (p q : CtfdPage)
      → cr.metadata.external_name ≢ ""
      → client.patch_page cr.metadata.external_name (page_params cr.spec.for_provider) w
        ≡ (ok q, w')
      → client.get_page cr.metadata.external_name w' ≡ (ok p, w'')
      → (update client (cr, w) ≡ (ok tt, (cr, w')))
        × ((cr' : Page) × (observe client (cr, w') ≡ (ok settled, (cr', w''))))
  unfolding update
  update-settled cr w w' w'' p q named sent e =
      let (stored, here, s) =
        server.patched cr.metadata.external_name (page_params cr.spec.for_provider) w w' q sent in
      (rw sent refl, observe-settled cr w' w'' p stored named e here s)

  -- After a creation whose POST succeeded, the resource is named by the ID of the new page, and the
  -- next observation that reaches CTFd finds that page there and up to date.
  pub create-settled :
      (cr : Page) (w w' w'' : W) (p q : CtfdPage)
      → client.post_pages (page_params cr.spec.for_provider) w ≡ (ok q, w')
      → client.get_page (itoa q.id) w' ≡ (ok p, w'')
      → (named : Page) × (create client (cr, w) ≡ (ok tt, (named, w')))
        × (named.metadata.external_name ≡ itoa q.id)
        × ((cr' : Page) × (observe client (named, w') ≡ (ok settled, (cr', w''))))
  unfolding create
  create-settled cr w w' w'' p q sent e =
      let (i, here, s) = server.posted (page_params cr.spec.for_provider) w w' q sent in
      let named = set_external_name (itoa q.id) (set_condition creating cr) in
      (named, rw sent refl, refl, observe-settled named w' w'' p q (itoa-nonempty q.id i) e here s)
