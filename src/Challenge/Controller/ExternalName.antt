-- ===== src/Challenge/Controller/ExternalName.antt =====
-- The external name: what `Create` writes and the other handlers read.
use mathlib.Core.Path.{subst}
use ctfd_crossplane_provider.Prelude.{String, ℤ, ◌≡◌, ◌≢◌, refl, some, ==_ne, string_eq}
use ctfd_crossplane_provider.Result.{Error, ok}
use ctfd_crossplane_provider.Strconv.Digits.{itoa, atoi}
use ctfd_crossplane_provider.Strconv.RoundTrip.{IsInt, atoi-itoa}
use ctfd_crossplane_provider.Ctfd.{CtfdChallenge}
use ctfd_crossplane_provider.CtfdClient.{Client}
use ctfd_crossplane_provider.Apis.Managed.{creating, deleting}
use ctfd_crossplane_provider.Apis.Challenge.{Challenge}
use ctfd_crossplane_provider.Challenge.Pool.{Pool}
use ctfd_crossplane_provider.Challenge.Conversion.{post_params}
use ctfd_crossplane_provider.Challenge.Controller.{
  set_external_name, set_condition, observe, observe_numbered, create, update, update_numbered,
  delete, delete_numbered,
}

pub itoa-nonempty : (z : ℤ) → IsInt z → itoa z ≢ ""
unfolding atoi
itoa-nonempty z i e =
    let read : atoi "" ≡ some z = subst (λ s. atoi s ≡ some z) e (atoi-itoa z i) in cc

module _ {W : Type 0} (client : Client W) (walk : Pool → Pool) where
  pub observe-numeric :
      (cr : Challenge) (w : W) (z : ℤ)
      → IsInt z
      → cr.metadata.external_name ≡ itoa z
      → observe client walk (cr, w) ≡ observe_numbered client walk (some z) (cr, w)
  unfolding observe
  observe-numeric cr w z i e = rw (e, ==_ne (itoa z) "" (itoa-nonempty z i), atoi-itoa z i) refl

  -- Once CTFd has answered a POST with a challenge whose ID a Go `int` holds, `Create` has returned
  -- and named the resource so that `Observe`, `Update` and `Delete` all act on the challenge of that
  -- ID.
  pub create-numbers :
      (cr : Challenge) (w w' : W) (ch : CtfdChallenge)
      → IsInt ch.id
      → client.post_challenges (post_params cr.spec.for_provider) w ≡ (ok ch, w')
      → (named : Challenge) × (create client walk (cr, w) ≡ (ok tt, (named, w')))
        × ((v : W)
            → observe client walk (named, v) ≡ observe_numbered client walk (some ch.id) (named, v))
        × ((e : String → Error) (v : W)
            → update client walk e (named, v)
              ≡ update_numbered client walk (e (itoa ch.id)) (some ch.id) (named, v))
        × ((v : W)
            → delete client walk (named, v)
              ≡ delete_numbered client walk (some ch.id) (set_condition deleting named, v))
  unfolding create update delete
  create-numbers cr w w' ch i posted =
      let named = set_external_name (itoa ch.id) (set_condition creating cr) in
      (
        named,
        rw posted refl,
        λ v. observe-numeric named v ch.id i refl,
        λ e v. rw (atoi-itoa ch.id i) refl,
        λ v. rw (atoi-itoa ch.id i) refl,
      )
