-- ===== src/Challenge/Controller/Observation.antt =====
-- What an observation does to the resource.
use mathlib.Core.Path.{subst}
use ctfd_crossplane_provider.Prelude.{
  ℤ, ◌≡◌, refl, sym, ◌∙◌, Bool, true, ◌⊎◌, inl, inr, Option, none, some, ◌==◌, string_eq,
  Bool-cases,
}
use ctfd_crossplane_provider.Result.{Result, ok, err, panic, out_of_fuel}
use ctfd_crossplane_provider.Exec.{continue, pure}
use ctfd_crossplane_provider.Strconv.Digits.{atoi}
use ctfd_crossplane_provider.Ctfd.{CtfdChallenge}
use ctfd_crossplane_provider.CtfdClient.{Client}
use ctfd_crossplane_provider.Apis.Managed.{available, ExternalObservation, absent}
use ctfd_crossplane_provider.Apis.Challenge.{Challenge}
use ctfd_crossplane_provider.Challenge.Pool.{Pool}
use ctfd_crossplane_provider.Session.{or_absent_after}
use ctfd_crossplane_provider.Challenge.Controller.{
  observe, observe_numbered, observe_existing, report, read_parts, Parts, all_up_to_date,
}

-- What stands after an observation `o` of `before`.
pub record Seen (o : ExternalObservation) (before after : Challenge) : Type 0 where
  pub exists : o.resource_exists ≡ true
  pub ready : after.status.condition ≡ available
  pub spec : after.spec ≡ before.spec
  pub metadata : after.metadata ≡ before.metadata

-- The resource is absent and untouched, or it exists and is ready.
abbrev pub IsObserved : ExternalObservation → Challenge → Challenge → Type 0
IsObserved o before after = ((o ≡ absent) × (after ≡ before)) ⊎ Seen o before after

module _ {W : Type 0} (client : Client W) (walk : Pool → Pool) where
  answered :
      (up_to_date : Result Bool) (before after cr' : Challenge) (w w' : W) (o : ExternalObservation)
      → after.status.condition ≡ available
      → after.spec ≡ before.spec
      → after.metadata ≡ before.metadata
      → continue {S = Challenge × W}
          (up_to_date, (after, w))
          (λ b. pure (record { resource_exists = true; resource_up_to_date = b }))
        ≡ (ok o, (cr', w'))
      → Seen o before cr'
  answered (ok b) before after cr' w w' o c s m e =
      let same : after ≡ cr' = cc in
      let shown : record { resource_exists = true; resource_up_to_date = b } ≡ o = cc in
      subst (Seen o before) same (
        subst (λ x. Seen x before after) shown
          (record { exists = refl; ready = c; spec = s; metadata = m }))
  answered (err x) before after cr' w w' o c s m e = cc
  answered panic before after cr' w w' o c s m e = cc
  answered out_of_fuel before after cr' w w' o c s m e = cc

  reported :
      (parts : Result (Parts client walk) × W) (ch : CtfdChallenge) (cr cr' : Challenge) (w' : W)
      (o : ExternalObservation)
      → continue {S = Challenge × W} (parts.0, (cr, parts.1)) (report client walk ch)
        ≡ (ok o, (cr', w'))
      → Seen o cr cr'
  unfolding report
  reported (ok (req, flags, hints), w) ch cr cr' w' o e =
      answered (all_up_to_date client walk cr.spec.for_provider ch req flags hints) cr _ cr' w w' o
        refl refl refl e
  reported (err x, w) ch cr cr' w' o e = cc
  reported (panic, w) ch cr cr' w' o e = cc
  reported (out_of_fuel, w) ch cr cr' w' o e = cc

  retrieved :
      (r : Result CtfdChallenge × W) (cid : ℤ) (cr cr' : Challenge) (w' : W)
      (o : ExternalObservation)
      → or_absent_after (r.0, (cr, r.1)) (observe_existing client walk cid) ≡ (ok o, (cr', w'))
      → IsObserved o cr cr'
  unfolding observe_existing
  retrieved (ok ch, w) cid cr cr' w' o e =
      inr
        (reported (read_parts client walk cid cr.spec.for_provider.requirements w) ch cr cr' w' o e)
  retrieved (err x, w) cid cr cr' w' o e = inl (cc, cc)
  retrieved (panic, w) cid cr cr' w' o e = cc
  retrieved (out_of_fuel, w) cid cr cr' w' o e = cc

  numbered :
      (name : Option ℤ) (cr cr' : Challenge) (w w' : W) (o : ExternalObservation)
      → observe_numbered client walk name (cr, w) ≡ (ok o, (cr', w'))
      → IsObserved o cr cr'
  unfolding observe_numbered
  numbered none cr cr' w w' o e = inl (cc, cc)
  numbered (some cid) cr cr' w w' o e = retrieved (client.get_challenge cid w) cid cr cr' w' o e

  -- Whatever the resource and whatever CTFd answers, an observation that returns has either reported
  -- that the challenge does not exist and left the resource as it was, or reported that it exists and
  -- set the resource ready; it never changes the desired parameters or the external name.
  pub observe-IsObserved :
      (cr cr' : Challenge) (w w' : W) (o : ExternalObservation)
      → observe client walk (cr, w) ≡ (ok o, (cr', w'))
      → IsObserved o cr cr'
  unfolding observe
  observe-IsObserved cr cr' w w' o e = elim (Bool-cases (cr.metadata.external_name == "")) [
    | inl no_name ↦
        let here : observe client walk (cr, w) ≡ (ok absent, (cr, w)) = rw no_name refl in
        inl (cc, cc)
    | inr named ↦
        let name = atoi cr.metadata.external_name in
        let here : observe client walk (cr, w) ≡ observe_numbered client walk name (cr, w) =
          rw named refl in
        numbered name cr cr' w w' o (sym here ∙ e)
  ]
