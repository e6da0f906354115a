-- ===== src/Challenge/Controller/Update.antt =====
-- What the observation after an update finds.
use mathlib.Core.List.{Perm}
use mathlib.Core.Path.{subst}
use ctfd_crossplane_provider.Prelude.{
  String, ℤ, ◌≡◌, ◌↔◌, refl, sym, ap, ◌∙◌, true, Option, none, some, count, int_eq, string_eq,
}
use ctfd_crossplane_provider.Result.{Error, ok}
use ctfd_crossplane_provider.Exec.{Exec, ◌>>◌, continue-eq-ok, wrapping, wrapping-eq-ok}
use ctfd_crossplane_provider.Session.{calling, calling-eq-ok}
use ctfd_crossplane_provider.Strconv.Digits.{itoa, atoi}
use ctfd_crossplane_provider.Strconv.RoundTrip.{IsInt, atoi-itoa}
use ctfd_crossplane_provider.Ctfd.{CtfdRequirements, CtfdChallenge}
use ctfd_crossplane_provider.CtfdClient.{Client}
use ctfd_crossplane_provider.Apis.Managed.{ExternalObservation}
use ctfd_crossplane_provider.Apis.Challenge.{Requirements, Challenge, ChallengeParameters}
use ctfd_crossplane_provider.Challenge.Pool.{Pool}
use ctfd_crossplane_provider.Challenge.Conversion.{
  type_or_default, patch_params, to_req?, prerequisites_of, is_up_to_date,
}
use ctfd_crossplane_provider.Challenge.Conversion.Drift.{Patched, patch_params_settle}
use ctfd_crossplane_provider.Challenge.Flags.{flags_up_to_date, sync_flags}
use ctfd_crossplane_provider.Challenge.Flags.Sync.{UniqueIds, sync_flags_settles}
use ctfd_crossplane_provider.Challenge.Hints.{hints_up_to_date}
use ctfd_crossplane_provider.Challenge.HintSync.{sync_hints}
use ctfd_crossplane_provider.Challenge.HintSync.Server.{ValidIds}
use ctfd_crossplane_provider.Challenge.HintSync.Settles.{sync_hints_settles, sync_hints-ValidIds}
use ctfd_crossplane_provider.Challenge.Controller.{observe, update, update_numbered}
use ctfd_crossplane_provider.Challenge.Controller.Server.{Stored, ChallengeServer}
use ctfd_crossplane_provider.Challenge.Controller.Reading.{
  requested, answered, concluded, only_first, ok-injective, observe-concluded, answered-true,
}
use ctfd_crossplane_provider.Challenge.Controller.Apart.{
  sync_flags-KeepsHints, sync_hints-KeepsFlags,
}

-- What an update of a resource with parameters `p` leaves of what CTFd stored.
pub record Repaired (p : ChallengeParameters) (current : String) (before after : Stored)
    : Type 0 where
  pub challenge :
      Patched (patch_params p current) before.challenge after.challenge after.requirements
  pub flags : flags_up_to_date p.flags after.flags ≡ true
  pub hints :
      (walk : Pool → Pool)
      → ((pool : Pool) → Perm (walk pool) pool)
      → hints_up_to_date walk p.hints after.hints ≡ ok true
  pub valid : ValidIds after.hints

asked :
    (o : Option Requirements) (r : CtfdRequirements)
    → to_req? o ≡ some r
    → (x : Requirements) × (o ≡ some x)
asked none r e = cc (e)
asked (some x) r e = (x, refl)

-- A PATCH is taken as well if the requirements count only where the resource sets some.
requested-Patched :
    (p : ChallengeParameters) (current : String) (before after : CtfdChallenge)
    (stored : Option CtfdRequirements)
    → Patched (patch_params p current) before after stored
    → Patched (patch_params p current) before after (requested p.requirements stored)
unfolding patch_params
requested-Patched p current before after stored h = record {
  name = h.name;
  category = h.category;
  description = h.description;
  state = h.state;
  type = h.type;
  value = h.value;
  initial = h.initial;
  decay = h.decay;
  minimum = h.minimum;
  max_attempts = h.max_attempts;
  next_id = h.next_id;
  function = h.function;
  connection_info = h.connection_info;
  attribution = h.attribution;
  requirements = λ r e z.
      let (x, set) = asked p.requirements r e in
      h.requirements r e z ∙ ap (λ o. count z (prerequisites_of (requested o stored))) (sym set);
}

module _ {W : Type 0} (client : Client W) (cid : ℤ) (state : W → Stored)
    (server : ChallengeServer client cid state) (walk : Pool → Pool)
    (order : (pool : Pool) → Perm (walk pool) pool) where
  -- The three calls of an update, one after the other.
  called :
      (p : ChallengeParameters) (current : String) (w w₁ w₂ w' : W)
      → UniqueIds (state w).flags
      → ValidIds (state w).hints
      → client.patch_challenge cid (patch_params p current) w ≡ (ok tt, w₁)
      → sync_flags client walk cid p.flags w₁ ≡ (ok tt, w₂)
      → sync_hints client walk cid p.hints w₂ ≡ (ok tt, w')
      → Repaired p current (state w) (state w')
  called p current w w₁ w₂ w' one v patch flags hints =
      let (patched, same_flags, same_hints) = server.patched w w₁ (patch_params p current) patch in
      let kept = sync_flags-KeepsHints client cid state server walk p.flags w₁ w₂ tt flags in
      let still = sync_hints-KeepsFlags client cid state server walk p.hints w₂ w' tt hints in
      let valid = subst ValidIds (sym (ap (λ b. b.2) kept ∙ same_hints)) v in
      record {
        challenge =
            rw (ap (λ b. b.0) still ∙ ap (λ b. b.0) kept, ap (λ b. b.1) still ∙ ap (λ b. b.1) kept)
              patched;
        flags = rw (ap (λ b. b.2) still) (
            sync_flags_settles client cid (λ u. (state u).flags) server.on_flags walk order p.flags
              w₁ w₂ (subst UniqueIds (sym same_flags) one) flags);
        hints = λ walk' order'.
            sync_hints_settles client cid (λ u. (state u).hints) server.on_hints walk walk' order
              order' p.hints w₂ w' valid hints;
        valid =
            sync_hints-ValidIds client cid (λ u. (state u).hints) server.on_hints walk order p.hints
              w₂ w' valid hints;
      }

  updated :
      (e : Error) (cr cr' : Challenge) (w w' : W)
      → UniqueIds (state w).flags
      → ValidIds (state w).hints
      → update_numbered client walk e (some cid) (cr, w) ≡ (ok tt, (cr', w'))
      → (cr ≡ cr') × Repaired cr.spec.for_provider cr.status.at_provider.state (state w) (state w')
  unfolding update_numbered
  updated e cr cr' w w' one v run =
      let p = cr.spec.for_provider in
      let current = cr.status.at_provider.state in
      let (_, (cr₁, w₁), first, rest) =
        continue-eq-ok (calling (patch_call p current) (cr, w)) (λ _. after_patch p) run in
      let (_, (cr₂, w₂), second, third) =
        continue-eq-ok (calling (flags_call p) (cr₁, w₁)) (λ _. calling (hints_call p)) rest in
      let (e₁, same₁) = calling-eq-ok (patch_call p current) cr cr₁ w w₁ tt first in
      let (e₂, same₂) = calling-eq-ok (flags_call p) cr₁ cr₂ w₁ w₂ tt second in
      let (e₃, same₃) = calling-eq-ok (hints_call p) cr₂ cr' w₂ w' tt third in
      (
        same₁ ∙ same₂ ∙ same₃,
        called p current w w₁ w₂ w' one v
            (wrapping-eq-ok (client.patch_challenge cid (patch_params p current)) no_patch w e₁)
            (wrapping-eq-ok (sync_flags client walk cid p.flags) no_flags w₁ e₂)
            (wrapping-eq-ok (sync_hints client walk cid p.hints) no_hints w₂ e₃),
      )
    where
      no_patch : String
      no_patch = "cannot update challenge in CTFd"

      no_flags : String
      no_flags = "cannot reconcile challenge flags in CTFd"

      no_hints : String
      no_hints = "cannot reconcile challenge hints in CTFd"

      patch_call : ChallengeParameters → String → Exec W (Unit {0})
      patch_call p current = wrapping (client.patch_challenge cid (patch_params p current)) no_patch

      flags_call : ChallengeParameters → Exec W (Unit {0})
      flags_call p = wrapping (sync_flags client walk cid p.flags) no_flags

      hints_call : ChallengeParameters → Exec W (Unit {0})
      hints_call p = wrapping (sync_hints client walk cid p.hints) no_hints

      after_patch : ChallengeParameters → Exec (Challenge × W) (Unit {0})
      after_patch p = calling (flags_call p) >> calling (hints_call p)

-- If an update returns without an error, CTFd stores what its PATCH carried, and flags and hints
-- that are up to date; and an observation after it that returns, finds the challenge and reads its
-- requirements without an error reports it up to date exactly when its type was the desired one
-- before the update. The resource is named by the ID of the challenge, which an `int` holds, its
-- flags and hints had distinct IDs, those of hints not negative, the calls that succeed do what
-- they say, and the walk orders are any.
pub update-observed :
    {W : Type 0} (client : Client W) (cid : ℤ) (state : W → Stored)
    → ChallengeServer client cid state
    → (walk walk' : Pool → Pool) → ((pool : Pool) → Perm (walk pool) pool)
    → ((pool : Pool) → Perm (walk' pool) pool)
    → (atoi_error : String → Error) (cr cr' cr'' : Challenge) (w w' w'' : W)
      (o : ExternalObservation)
    → IsInt cid
    → cr.metadata.external_name ≡ itoa cid
    → UniqueIds (state w).flags
    → ValidIds (state w).hints
    → update client walk atoi_error (cr, w) ≡ (ok tt, (cr', w'))
    → observe client walk' (cr', w') ≡ (ok o, (cr'', w''))
    → o.resource_exists ≡ true
    → (answered client cid w').1 ≡ none
    → Repaired cr.spec.for_provider cr.status.at_provider.state (state w) (state w')
      × ((o.resource_up_to_date ≡ true)
          ↔ ((state w).challenge.type ≡ type_or_default cr.spec.for_provider.type))
unfolding update
update-observed client cid state server walk walk' order order' atoi_error cr cr' cr'' w w' w'' o
      fits name one v ran seen there fine =
    let numbered : update_numbered client walk (atoi_error cr.metadata.external_name) (some cid)
          (cr, w)
        ≡ (ok tt, (cr', w')) =
      subst
        (λ n.
          update_numbered client walk (atoi_error cr.metadata.external_name) n (cr, w)
          ≡ (ok tt, (cr', w')))
        (ap atoi name ∙ atoi-itoa cid fits) ran in
    let (same, repaired) =
      updated client cid state server walk order (atoi_error cr.metadata.external_name) cr cr' w w'
        one v numbered in
    let p = cr.spec.for_provider in
    let (concludes, kept) =
      observe-concluded client cid state server walk' cr' cr'' w' w'' o fits
        (ap (λ c. c.metadata.external_name) (sym same) ∙ name) repaired.valid seen there in
    let told : concluded walk' p (state w').requirements (state w') ≡ ok o.resource_up_to_date =
      (λ i.
        concluded walk' (same i).spec.for_provider
          (sym (answered-true client cid state server walk w' kept fine) i) (state w'))
      ∙ concludes in
    let settles =
      patch_params_settle p cr.status.at_provider.state (state w).challenge (state w').challenge
        (requested p.requirements (state w').requirements)
        (requested-Patched p cr.status.at_provider.state (state w).challenge (state w').challenge
          (state w').requirements repaired.challenge) in
    let req = requested p.requirements (state w').requirements in
    let same_answer : is_up_to_date p (state w').challenge req ≡ o.resource_up_to_date =
      ok-injective (
        sym (
          only_first (is_up_to_date p (state w').challenge req) _ _ repaired.flags
            (repaired.hints walk' order'))
        ∙ told) in
    (
      repaired,
      subst (λ b. (b ≡ true) ↔ ((state w).challenge.type ≡ type_or_default p.type)) same_answer
          settles,
    )
