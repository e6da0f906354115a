-- ===== src/Page/Unread.antt =====
-- What becomes of a page whose read fails (`Observe` and `Create` of
-- internal/controller/page/page.go).
use ctfd_crossplane_provider.Prelude.{
  String, ◌≡◌, ◌≢◌, refl, ap, ◌∙◌, sym, Option, some, ==_ne, string_eq,
}
use ctfd_crossplane_provider.Result.{Error, ok, err}
use ctfd_crossplane_provider.Exec.{wrapping, continue-eq-ok, wrapping-eq-ok}
use ctfd_crossplane_provider.Session.{calling, calling-eq-ok}
use ctfd_crossplane_provider.Strconv.Digits.{itoa}
use ctfd_crossplane_provider.Ctfd.{CtfdPage}
use ctfd_crossplane_provider.PageClient.{PageClient}
use ctfd_crossplane_provider.Apis.Managed.{creating, absent}
use ctfd_crossplane_provider.Apis.Page.{Page}
use ctfd_crossplane_provider.Page.{page_params, set_condition, observe, create}
use ctfd_crossplane_provider.Page.UpToDate.{Stored, PageServer}

module _ {W : Type 0} (client : PageClient W) (page : W → String → Option CtfdPage)
    (server : PageServer client page) where
  -- If the read of a named page fails, whatever the error, the observation reports without an error
  -- that the page does not exist; and if the creation after it returns without an error, the
  -- resource is named by the ID of a page that was posted then and shows what the parameters say,
  -- whichever page it named before.
  pub unread-recreated :
      (cr made : Page) (w w' w'' : W) (x : Error)
      → cr.metadata.external_name ≢ ""
      → client.get_page cr.metadata.external_name w ≡ (err x, w')
      → create client (cr, w') ≡ (ok tt, (made, w''))
      → (observe client (cr, w) ≡ (ok absent, (cr, w')))
        × ((p : CtfdPage) × (client.post_pages (page_params cr.spec.for_provider) w' ≡ (ok p, w''))
            × (made.metadata.external_name ≡ itoa p.id)
            × (page w'' made.metadata.external_name ≡ some p)
            × Stored (page_params cr.spec.for_provider) p)
  unfolding observe create
  unread-recreated cr made w w' w'' x named failed e =
      let ask = client.post_pages (page_params cr.spec.for_provider) in
      let text : String = "cannot create page in CTFd" in
      let post = wrapping ask text in
      let (p, (cr', t), sent, rest) =
        continue-eq-ok (calling post (set_condition creating cr, w')) _ e in
      let (posted, same) = calling-eq-ok post (set_condition creating cr) cr' w' t p sent in
      let to : t ≡ w'' = cc in
      let call : ask w' ≡ (ok p, w'') =
        wrapping-eq-ok ask text w' posted ∙ ap (λ v. (ok p, v)) to in
      let name : made.metadata.external_name ≡ itoa p.id =
        sym (ap (λ r. r.1.0.metadata.external_name) rest) in
      let (i, here, s) = server.posted (page_params cr.spec.for_provider) w' w'' p call in
      (
        rw (==_ne cr.metadata.external_name "" named, failed) refl,
        (p, call, name, ap (page w'') name ∙ here, s),
      )
