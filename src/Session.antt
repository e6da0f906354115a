-- ===== src/Session.antt =====
-- A reconciliation of a managed resource: the calls of a controller read and change the resource
-- and the world outside (CTFd and the cluster). A handler that fails keeps what it changed before.
use ctfd_crossplane_provider.Prelude.{◌≡◌}
use ctfd_crossplane_provider.Result.{Result, ok, err, panic, out_of_fuel}
use ctfd_crossplane_provider.Exec.{Exec}
use ctfd_crossplane_provider.Apis.Managed.{ExternalObservation, absent}

module _ {R W : Type 0} where
  -- A call of a client: it does not touch the resource.
  abbrev pub calling {ℓ} : {A : Type ℓ} → Exec W A → Exec (R × W) A
  calling m (cr, w) = let (r, w') = m w in (r, (cr, w'))

  abbrev pub the_resource : Exec (R × W) R
  the_resource (cr, w) = (ok cr, (cr, w))

  abbrev pub change : (R → R) → Exec (R × W) (Unit {0})
  change f (cr, w) = (ok tt, (f cr, w))

  -- `if err != nil { return managed.ExternalObservation{ResourceExists: false}, nil }`
  abbrev pub or_absent_after {ℓ} :
      {A : Type ℓ}
      → Result A × (R × W)
      → (A → Exec (R × W) ExternalObservation)
      → Result ExternalObservation × (R × W)
  or_absent_after (ok a, s) f = f a s
  or_absent_after (err e, s) f = (ok absent, s)
  or_absent_after (panic, s) f = (panic, s)
  or_absent_after (out_of_fuel, s) f = (out_of_fuel, s)

  abbrev pub or_absent {ℓ} :
      {A : Type ℓ}
      → Exec (R × W) A
      → (A → Exec (R × W) ExternalObservation)
      → Exec (R × W) ExternalObservation
  or_absent m f s = or_absent_after (m s) f

  -- A call that returned has left the resource as it was.
  pub calling-eq-ok :
      {A : Type 0} (m : Exec W A) (cr cr' : R) (w w' : W) (a : A)
      → calling m (cr, w) ≡ (ok a, (cr', w'))
      → (m w ≡ (ok a, w')) × (cr ≡ cr')
  calling-eq-ok m cr cr' w w' a e = (λ i. ((e i).0, (e i).1.1), λ i. (e i).1.0)
