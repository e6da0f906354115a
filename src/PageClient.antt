-- ===== src/PageClient.antt =====
-- The operations of the go-ctfd client that the page controller calls, as an interface: the package
-- is not part of the repository.
use ctfd_crossplane_provider.Prelude.{String}
use ctfd_crossplane_provider.Exec.{Exec}
use ctfd_crossplane_provider.Ctfd.{CtfdPage, PageParams}

pub record PageClient (W : Type 0) : Type 0 where
  pub get_page : String → Exec W CtfdPage
  pub post_pages : PageParams → Exec W CtfdPage
  pub patch_page : String → PageParams → Exec W CtfdPage
  pub delete_page : String → Exec W (Unit {0})
