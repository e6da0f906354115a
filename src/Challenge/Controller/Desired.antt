-- ===== src/Challenge/Controller/Desired.antt =====
-- When an observation reports a challenge up to date.
use mathlib.Core.List.{Perm}
use ctfd_crossplane_provider.Prelude.{
  String, ℤ, ◌≡◌, ◌≢◌, ◌⊎◌, inl, inr, Option, none, some, ◌↔◌, refl, sym, ap, ◌∙◌, Bool, true,
  false, ◌&&◌, map, count, if◌then◌else◌, string_eq,
}
use ctfd_crossplane_provider.Result.{Error, Result, ok}
use ctfd_crossplane_provider.Strconv.Digits.{itoa}
use ctfd_crossplane_provider.Strconv.RoundTrip.{IsInt}
use ctfd_crossplane_provider.Ctfd.{CtfdRequirements}
use ctfd_crossplane_provider.CtfdClient.{Client}
use ctfd_crossplane_provider.Apis.Managed.{ExternalObservation}
use ctfd_crossplane_provider.Apis.Challenge.{Challenge, ChallengeParameters}
use ctfd_crossplane_provider.Challenge.Pool.{Pool}
use ctfd_crossplane_provider.Challenge.Conversion.{is_up_to_date}
use ctfd_crossplane_provider.Challenge.Conversion.UpToDate.{Matches, is_up_to_date_iff}
use ctfd_crossplane_provider.Challenge.Prereqs.Graph.{InRange, IsAcyclic}
use ctfd_crossplane_provider.Challenge.HintSync.Matched.{Matched, hints_up_to_date_iff}
use ctfd_crossplane_provider.Challenge.Flags.{desired_key, existing_key, flags_up_to_date}
use ctfd_crossplane_provider.Challenge.Flags.UpToDate.{flags_up_to_date_iff}
use ctfd_crossplane_provider.Challenge.HintSync.Server.{ValidIds}
use ctfd_crossplane_provider.Challenge.Controller.{observe}
use ctfd_crossplane_provider.Challenge.Controller.Server.{Stored, ChallengeServer}
use ctfd_crossplane_provider.Challenge.Controller.Reading.{
  requested, answered, ok-injective, observe-concluded, answered-true,
}

-- What CTFd stores, with the requirements `read`, is what a resource with parameters `p` desires.
pub record AsDesired (p : ChallengeParameters) (read : Option CtfdRequirements) (s : Stored)
    : Type 0 where
  pub fields : Matches p s.challenge (requested p.requirements read)
  pub flags : (k : String) → count k (map desired_key p.flags) ≡ count k (map existing_key s.flags)
  pub unlockable : InRange p.hints × IsAcyclic p.hints
  pub hints : Matched p.hints s.hints

all_true :
    (a b : Bool) (r : Result Bool)
    → (if a && b then r else ok false) ≡ ok true
    → (a ≡ true) × (b ≡ true) × (r ≡ ok true)
all_true true true r e = (refl, refl, e)
all_true true false r e = cc (e)
all_true false b r e = cc (e)

both_true :
    (a b : Bool) (r : Result Bool)
    → a ≡ true
    → b ≡ true
    → r ≡ ok true
    → (if a && b then r else ok false) ≡ ok true
both_true a b r p q e = rw (p, q) e

true_or_failed : {A : Type 0} (x : Option Error) → (x ≡ none → A) → A ⊎ (x ≢ none)
true_or_failed none f = inl (f refl)
true_or_failed (some e) f = inr (λ p. cc (p))

module _ {W : Type 0} (client : Client W) (cid : ℤ) (state : W → Stored)
    (server : ChallengeServer client cid state) (walk : Pool → Pool) where
  -- An observation that returns and finds the challenge reports it up to date exactly when what
  -- CTFd stores is what the resource desires: its fields are as enforced, its flags have the
  -- desired values, each as often, the desired hints can be unlocked and the hints match them. Its
  -- requirements count as the observation has read them, which is as CTFd stores them unless that
  -- read, whose error `Observe` ignores, has failed. The resource is named by the ID of the
  -- challenge, which an `int` holds, the hints have distinct IDs that are not negative, the reads
  -- that succeed are true, and the walk order is any.
  pub observe-up_to_date_iff :
      ((pool : Pool) → Perm (walk pool) pool)
      → (cr cr' : Challenge) (w w' : W) (o : ExternalObservation) → IsInt cid
      → cr.metadata.external_name ≡ itoa cid
      → ValidIds (state w).hints
      → observe client walk (cr, w) ≡ (ok o, (cr', w'))
      → o.resource_exists ≡ true
      → ((o.resource_up_to_date ≡ true)
          ↔ AsDesired cr.spec.for_provider (answered client cid w).0 (state w))
        × (((answered client cid w).0 ≡ (state w).requirements)
            ⊎ ((answered client cid w).1 ≢ none))
  observe-up_to_date_iff order cr cr' w w' o fits name v e there =
      let p = cr.spec.for_provider in
      let s = state w in
      let (told, kept) =
        observe-concluded client cid state server walk cr cr' w w' o fits name v e there in
      let req = requested p.requirements (answered client cid w).0 in
      let fields = is_up_to_date_iff p s.challenge req in
      let flags = flags_up_to_date_iff p.flags s.flags in
      let hints = hints_up_to_date_iff walk order p.hints s.hints v in
      (
        (
          λ up.
              let (x, y, z) =
                all_true (is_up_to_date p s.challenge req) (flags_up_to_date p.flags s.flags) _
                  (told ∙ ap ok up) in
              record {
                fields = fields.0 x;
                flags = flags.0 y;
                unlockable = (hints.0 z).0;
                hints = (hints.0 z).1;
              },
          λ d. ok-injective (
              sym told
              ∙ both_true _ _ _ (fields.1 d.fields) (flags.1 d.flags)
                  (hints.1 (d.unlockable, d.hints))),
        ),
        true_or_failed (answered client cid w).1
            (answered-true client cid state server walk w kept),
      )
