-- ===== src/Challenge/Controller/Lifecycle.antt =====
-- A challenge from its creation to the first observation that finds it up to date.
use mathlib.Core.List.{Perm}
use mathlib.Core.Path.{subst}
use ctfd_crossplane_provider.Prelude.{String, ◌≡◌, none, refl, sym, ap, ◌∙◌, true, [], arith}
use ctfd_crossplane_provider.Result.{Error, ok}
use ctfd_crossplane_provider.Strconv.Digits.{itoa}
use ctfd_crossplane_provider.Strconv.RoundTrip.{IsInt}
use ctfd_crossplane_provider.Ctfd.{CtfdChallenge, PostChallengesParams}
use ctfd_crossplane_provider.CtfdClient.{Client}
use ctfd_crossplane_provider.Apis.Managed.{ExternalObservation, creating}
use ctfd_crossplane_provider.Apis.Challenge.{Challenge}
use ctfd_crossplane_provider.Challenge.Pool.{Pool}
use ctfd_crossplane_provider.Challenge.Conversion.{post_params, type_or_default}
use ctfd_crossplane_provider.Challenge.Flags.Sync.{UniqueIds}
use ctfd_crossplane_provider.Challenge.HintSync.Server.{ValidIds}
use ctfd_crossplane_provider.Challenge.Controller.{
  set_external_name, set_condition, observe, create, update,
}
use ctfd_crossplane_provider.Challenge.Controller.Server.{Stored, ChallengeServer}
use ctfd_crossplane_provider.Challenge.Controller.Reading.{answered}
use ctfd_crossplane_provider.Challenge.Controller.Update.{update-observed}

-- A new challenge, as CTFd stores it once it has taken the POST `q`: it has the type of the payload,
-- and no flags and hints.
pub record New (q : PostChallengesParams) (s : Stored) : Type 0 where
  pub type : s.challenge.type ≡ q.type
  pub flags : s.flags ≡ []
  pub hints : s.hints ≡ []

none-ValidIds : ValidIds []
none-ValidIds = record { unique = λ z. omega arith; nonneg = λ z n. elim n [ ] }

created-named :
    {W : Type 0} (client : Client W) (walk : Pool → Pool) (cr named : Challenge) (w w' v : W)
    (ch : CtfdChallenge)
    → client.post_challenges (post_params cr.spec.for_provider) w ≡ (ok ch, w')
    → create client walk (cr, w) ≡ (ok tt, (named, v))
    → (set_external_name (itoa ch.id) (set_condition creating cr) ≡ named) × (w' ≡ v)
unfolding create
created-named client walk cr named w w' v ch posted e =
    let done : create client walk (cr, w)
        ≡ (ok tt, (set_external_name (itoa ch.id) (set_condition creating cr), w')) =
      rw posted refl in
    let same = sym done ∙ e in (λ i. (same i).1.0, λ i. (same i).1.1)

-- A challenge that was created and then updated, both without an error, is up to date: the next
-- observation that returns, finds it and reads its requirements without an error says so. Between
-- the two the resource may have changed in its status, and CTFd keeps what it stored of the
-- challenge; CTFd has stored a new challenge with the type of the payload, an ID that an `int`
-- holds and no flags and hints, its calls that succeed do what they say, and the walk orders are
-- any.
pub create-update-observed :
    {W : Type 0} (client : Client W) (state : W → Stored) (walk walk' : Pool → Pool)
    → ((pool : Pool) → Perm (walk pool) pool)
    → ((pool : Pool) → Perm (walk' pool) pool)
    → (atoi_error : String → Error) (cr named cr₁ cr₂ cr₃ : Challenge) (w v w₁ w₂ w₃ : W)
      (ch : CtfdChallenge) (o : ExternalObservation)
    → ChallengeServer client ch.id state
    → IsInt ch.id
    → client.post_challenges (post_params cr.spec.for_provider) w ≡ (ok ch, v)
    → New (post_params cr.spec.for_provider) (state v)
    → create client walk (cr, w) ≡ (ok tt, (named, v))
    → cr₁.metadata ≡ named.metadata
    → cr₁.spec ≡ named.spec
    → state w₁ ≡ state v
    → update client walk atoi_error (cr₁, w₁) ≡ (ok tt, (cr₂, w₂))
    → observe client walk' (cr₂, w₂) ≡ (ok o, (cr₃, w₃))
    → o.resource_exists ≡ true
    → (answered client ch.id w₂).1 ≡ none
    → o.resource_up_to_date ≡ true
unfolding post_params
create-update-observed client state walk walk' order order' atoi_error cr named cr₁ cr₂ cr₃ w v w₁
      w₂ w₃ ch o server fits posted new made meta spec kept ran seen there fine =
    let (is_named, _) = created-named client walk cr named w v v ch posted made in
    let name : cr₁.metadata.external_name ≡ itoa ch.id =
      ap (λ m. m.external_name) meta ∙ ap (λ c. c.metadata.external_name) (sym is_named) in
    let same_spec : cr.spec ≡ cr₁.spec = ap (λ c. c.spec) is_named ∙ sym spec in
    (update-observed client ch.id state server walk walk' order order' atoi_error cr₁ cr₂ cr₃ w₁ w₂
        w₃ o fits name
        (subst UniqueIds (sym (ap (λ s. s.flags) kept ∙ new.flags)) (λ z. omega arith))
        (subst ValidIds (sym (ap (λ s. s.hints) kept ∙ new.hints)) none-ValidIds) ran seen there
        fine).1.1
      (ap (λ s. s.challenge.type) kept
        ∙ new.type
        ∙ ap (λ s. type_or_default s.for_provider.type) same_spec)
