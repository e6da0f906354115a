-- ===== src/Page.antt =====
-- internal/controller/page/page.go
pub mod UpToDate
pub mod Unread
use ctfd_crossplane_provider.Prelude.{
  String, Bool, true, false, not, ◌||◌, Option, none, some, if◌then◌else◌, ◌==◌, string_eq, bool_eq,
}
use ctfd_crossplane_provider.Exec.{Exec, pure, wrapping, ◌>>=◌, ◌>>◌}
use ctfd_crossplane_provider.Session.{calling, the_resource, change, or_absent}
use ctfd_crossplane_provider.Strconv.Digits.{itoa}
use ctfd_crossplane_provider.Ctfd.{CtfdPage, PageParams}
use ctfd_crossplane_provider.PageClient.{PageClient}
use ctfd_crossplane_provider.Apis.Managed.{
  Condition, available, creating, deleting, ExternalObservation, absent,
}
use ctfd_crossplane_provider.Apis.Page.{Page, PageParameters, PageObservation}

-- defaultFormat
abbrev pub default_format : String
default_format = "markdown"

unfoldable pub format_or_default : String → String
format_or_default f = if f == "" then default_format else f

-- The content of a page, "" if CTFd reports none.
abbrev pub content_of : Option String → String
content_of none = ""
content_of (some content) = content

unfoldable pub is_up_to_date : PageParameters → CtfdPage → Bool
unfolding format_or_default
is_up_to_date d p =
    if not (p.title == d.title)
      || not (p.route == d.route)
      || not (content_of p.content == d.content)
      || not (p.format == format_or_default d.format)
      || not (p.draft == d.draft)
      || not (p.hidden == d.hidden)
      || not (p.auth_required == d.auth_required)
    then false
    else true

-- The payload of `Create` and of `Update`.
unfoldable pub page_params : PageParameters → PageParams
unfolding format_or_default
page_params d = record {
  title = d.title;
  route = d.route;
  content = d.content;
  format = format_or_default d.format;
  draft = d.draft;
  hidden = d.hidden;
  auth_required = d.auth_required;
}

-- meta.SetExternalName
abbrev pub set_external_name : String → Page → Page
set_external_name name cr = record cr { metadata = record cr.metadata { external_name = name } }

-- cr.Status.SetConditions
abbrev pub set_condition : Condition → Page → Page
set_condition c cr = record cr { status = record cr.status { condition = c } }

abbrev pub set_at_provider : PageObservation → Page → Page
set_at_provider o cr = record cr { status = record cr.status { at_provider = o } }

module _ {W : Type 0} (client : PageClient W) where
  open client use {get_page, post_pages, patch_page, delete_page}

  -- The part of `Observe` after the page is retrieved.
  unfoldable pub report : CtfdPage → Exec (Page × W) ExternalObservation
  unfolding is_up_to_date
  report p = do
    cr ← the_resource
    change (set_at_provider (record { id = p.id; route = p.route }))
    change (set_condition available)
    pure (record {
      resource_exists = true;
      resource_up_to_date = is_up_to_date cr.spec.for_provider p;
    })

  unfoldable pub observe : Exec (Page × W) ExternalObservation
  unfolding report
  observe = do
    cr ← the_resource
    (if cr.metadata.external_name == ""
        then pure absent
        else or_absent (calling (get_page cr.metadata.external_name)) report)

  unfoldable pub create : Exec (Page × W) (Unit {0})
  unfolding page_params
  create = do
    change (set_condition creating)
    cr ← the_resource
    p ←
        calling
          (wrapping (post_pages (page_params cr.spec.for_provider)) "cannot create page in CTFd")
    change (set_external_name (itoa p.id))

  unfoldable pub update : Exec (Page × W) (Unit {0})
  unfolding page_params
  update = do
    cr ← the_resource
    _ ← calling (
        wrapping (patch_page cr.metadata.external_name (page_params cr.spec.for_provider))
          "cannot update page in CTFd")
    pure tt

  unfoldable pub delete : Exec (Page × W) (Unit {0})
  delete = do
    change (set_condition deleting)
    cr ← the_resource
    (if cr.metadata.external_name == ""
        then pure tt
        else calling
            (wrapping (delete_page cr.metadata.external_name) "cannot delete page in CTFd"))
