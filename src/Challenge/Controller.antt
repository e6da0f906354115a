-- ===== src/Challenge/Controller.antt =====
-- internal/controller/challenge/challenge.go: the four handlers that the managed reconciler calls.
pub mod ExternalName
pub mod Observation
pub mod Server
pub mod Reading
pub mod Desired
pub mod Apart
pub mod Update
pub mod Returned
pub mod Lifecycle
use ctfd_crossplane_provider.Prelude.{
  String, ℤ, Bool, true, false, ◌&&◌, Option, none, some, List, if◌then◌else◌, ◌==◌, string_eq,
}
use ctfd_crossplane_provider.Result.{both, Result, ok, Error, wrap}
use ctfd_crossplane_provider.Exec.{Exec, pure, raise, lift, wrapping, ◌>>=◌, ◌>>◌}
use ctfd_crossplane_provider.Session.{calling, the_resource, change, or_absent}
use ctfd_crossplane_provider.Strconv.Digits.{itoa, atoi}
use ctfd_crossplane_provider.Ctfd.{CtfdRequirements, CtfdChallenge, Flag, Hint}
use ctfd_crossplane_provider.CtfdClient.{Client}
use ctfd_crossplane_provider.Apis.Managed.{
  Condition, available, creating, deleting, ExternalObservation, absent,
}
use ctfd_crossplane_provider.Apis.Challenge.{
  Requirements, Challenge, ChallengeParameters, ChallengeObservation,
}
use ctfd_crossplane_provider.Challenge.Pool.{Pool}
use ctfd_crossplane_provider.Challenge.Conversion.{
  post_params, patch_params, challenge_observation, is_up_to_date,
}
use ctfd_crossplane_provider.Challenge.Flags.{listing_up_to_date, sync_flags}
use ctfd_crossplane_provider.Challenge.Hints.{hints_up_to_date}
use ctfd_crossplane_provider.Challenge.HintSync.{challenge_hints, sync_hints}

-- meta.SetExternalName
abbrev pub set_external_name : String → Challenge → Challenge
set_external_name name cr = record cr { metadata = record cr.metadata { external_name = name } }

-- cr.Status.SetConditions
abbrev pub set_condition : Condition → Challenge → Challenge
set_condition c cr = record cr { status = record cr.status { condition = c } }

abbrev pub set_at_provider : ChallengeObservation → Challenge → Challenge
set_at_provider o cr = record cr { status = record cr.status { at_provider = o } }

-- `walk` is the order in which `range` goes through the pools.
module _ {W : Type 0} (client : Client W) (walk : Pool → Pool) where
  open client use {
    get_challenge, get_challenge_requirements, get_challenge_flags, post_challenges,
    patch_challenge, delete_challenge,
  }

  -- The requirements are read only for a resource that sets some; an error is ignored.
  abbrev pub read_requirements : ℤ → Option Requirements → Exec W (Option CtfdRequirements)
  read_requirements cid none w = (ok none, w)
  read_requirements cid (some r) w =
      let ((req, _), w') = get_challenge_requirements cid w in (ok req, w')

  -- The conjunction at the end of `Observe`.
  abbrev pub all_up_to_date :
      ChallengeParameters
      → CtfdChallenge
      → Option CtfdRequirements
      → List (Option Flag)
      → List Hint
      → Result Bool
  all_up_to_date p ch req flags hints =
      if is_up_to_date p ch req
      then both (listing_up_to_date p.flags flags) (hints_up_to_date walk p.hints hints)
      else ok false

  -- The requirements, the flags and the hints of the challenge.
  abbrev pub Parts : Type 0
  Parts = Option CtfdRequirements × List (Option Flag) × List Hint

  unfoldable pub read_parts : ℤ → Option Requirements → Exec W Parts
  unfolding challenge_hints
  read_parts cid requirements = do
    req ← read_requirements cid requirements
    flags ← wrapping (get_challenge_flags cid) "cannot list challenge flags in CTFd"
    hints ← wrapping (challenge_hints client cid) "cannot list challenge hints in CTFd"
    pure (req, flags, hints)

  -- The part of `Observe` after the reads.
  unfoldable pub report : CtfdChallenge → Parts → Exec (Challenge × W) ExternalObservation
  unfolding is_up_to_date listing_up_to_date hints_up_to_date challenge_observation
  report ch (req, flags, hints) = do
    cr ← the_resource
    change (set_at_provider (challenge_observation ch flags hints))
    change (set_condition available)
    up_to_date ← lift (all_up_to_date cr.spec.for_provider ch req flags hints)
    pure (record { resource_exists = true; resource_up_to_date = up_to_date })

  -- The part of `Observe` after the challenge is retrieved.
  unfoldable pub observe_existing : ℤ → CtfdChallenge → Exec (Challenge × W) ExternalObservation
  unfolding read_parts report
  observe_existing cid ch = do
    cr ← the_resource
    parts ← calling (read_parts cid cr.spec.for_provider.requirements)
    report ch parts

  -- The part of `Observe` after `strconv.Atoi`.
  unfoldable pub observe_numbered : Option ℤ → Exec (Challenge × W) ExternalObservation
  unfolding observe_existing
  observe_numbered none = pure absent
  observe_numbered (some cid) = or_absent (calling (get_challenge cid)) (observe_existing cid)

  unfoldable pub observe : Exec (Challenge × W) ExternalObservation
  unfolding observe_numbered
  observe = do
    cr ← the_resource
    (if cr.metadata.external_name == ""
        then pure absent
        else observe_numbered (atoi cr.metadata.external_name))

  unfoldable pub create : Exec (Challenge × W) (Unit {0})
  unfolding post_params
  create = do
    change (set_condition creating)
    cr ← the_resource
    ch ← calling (
        wrapping (post_challenges (post_params cr.spec.for_provider))
          "cannot create challenge in CTFd")
    change (set_external_name (itoa ch.id))

  -- The part of `Update` after `strconv.Atoi`. Its first argument is the error of `strconv.Atoi`,
  -- for a name that is no number.
  unfoldable pub update_numbered : Error → Option ℤ → Exec (Challenge × W) (Unit {0})
  unfolding patch_params sync_flags sync_hints
  update_numbered e none = raise (wrap e "cannot parse external name as a challenge ID")
  update_numbered e (some cid) = do
    cr ← the_resource
    calling (
        wrapping
          (patch_challenge cid (patch_params cr.spec.for_provider cr.status.at_provider.state))
          "cannot update challenge in CTFd")
    calling (
        wrapping (sync_flags client walk cid cr.spec.for_provider.flags)
          "cannot reconcile challenge flags in CTFd")
    calling (
        wrapping (sync_hints client walk cid cr.spec.for_provider.hints)
          "cannot reconcile challenge hints in CTFd")

  -- `atoi_error` is the error of `strconv.Atoi` for a name that is no number.
  unfoldable pub update : (String → Error) → Exec (Challenge × W) (Unit {0})
  unfolding update_numbered
  update atoi_error = do
    cr ← the_resource
    update_numbered (atoi_error cr.metadata.external_name) (atoi cr.metadata.external_name)

  -- The part of `Delete` after `strconv.Atoi`.
  unfoldable pub delete_numbered : Option ℤ → Exec (Challenge × W) (Unit {0})
  delete_numbered none = pure tt
  delete_numbered (some cid) =
      calling (wrapping (delete_challenge cid) "cannot delete challenge in CTFd")

  unfoldable pub delete : Exec (Challenge × W) (Unit {0})
  unfolding delete_numbered
  delete = do
    change (set_condition deleting)
    cr ← the_resource
    delete_numbered (atoi cr.metadata.external_name)
