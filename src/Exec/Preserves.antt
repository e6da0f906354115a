-- ===== src/Exec/Preserves.antt =====
-- What calls that succeed leave as it is.
use ctfd_crossplane_provider.Prelude.{◌≡◌, sym, ap, ◌∙◌}
use ctfd_crossplane_provider.Result.{Result, ok}
use ctfd_crossplane_provider.Exec.{Exec, lift, continue-eq-ok, ◌>>=◌}

module _ {S X : Type 0} (view : S → X) where
  abbrev pub Preserves : {A : Type 0} → Exec S A → Type 0
  Preserves {A = A} m = (s s' : S) (a : A) → m s ≡ (ok a, s') → view s' ≡ view s

  pub lift-Preserves : {A : Type 0} (r : Result A) → Preserves (lift r)
  lift-Preserves r s s' a e = ap (λ q. view q.1) (sym e)

  pub >>=-Preserves :
      {A B : Type 0} (m : Exec S A) (k : A → Exec S B)
      → Preserves m
      → ((a : A) → Preserves (k a))
      → Preserves (m >>= k)
  >>=-Preserves m k p q s s' b e =
      let (a, t, first, second) = continue-eq-ok (m s) k e in q a t s' b second ∙ p s t a first
