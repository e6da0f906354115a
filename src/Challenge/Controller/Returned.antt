-- ===== src/Challenge/Controller/Returned.antt =====
-- How the handlers of internal/controller/challenge/challenge.go end.
use mathlib.Core.List.{Perm}
use ctfd_crossplane_provider.Challenge.Hints.{hints_up_to_date}
use ctfd_crossplane_provider.Prelude.{
  Bool, true, false, ◌≡◌, refl, if◌then◌else◌, String, ℤ, inl, inr, Option, none, some, List, [],
  ◌∷◌, ◌==◌, string_eq, Bool-cases, List-cases,
}
use ctfd_crossplane_provider.Result.{dereferenced, Result, Error, ok, err, panic, out_of_fuel}
use ctfd_crossplane_provider.Exec.{wrapping, Exec}
use ctfd_crossplane_provider.Exec.Returned.{
  Ends, continue-Ends, wrapped-Ends, IsReturned, AlwaysReturns, continue-IsReturned,
  wrapping-AlwaysReturns,
}
use ctfd_crossplane_provider.Session.{or_absent_after}
use ctfd_crossplane_provider.GoMap.{insert}
use ctfd_crossplane_provider.Strconv.Digits.{itoa, atoi}
use ctfd_crossplane_provider.Ctfd.{CtfdRequirements, CtfdChallenge, Flag, Hint}
use ctfd_crossplane_provider.CtfdClient.{AllGiven, Client, ClientReturns}
use ctfd_crossplane_provider.Apis.Managed.{ExternalObservation}
use ctfd_crossplane_provider.Apis.Challenge.{
  Requirements, Challenge, ChallengeFlag, ChallengeParameters,
}
use ctfd_crossplane_provider.Challenge.Conversion.{post_params, patch_params, is_up_to_date}
use ctfd_crossplane_provider.Challenge.Pool.{Pool, ids_at, pool_into}
use ctfd_crossplane_provider.Challenge.Flags.{
  listing_up_to_date, desired_key, existing_key, flag_params, post_missing_flags, delete_flags,
  delete_unmatched, sync_flags, flags_up_to_date,
}
use ctfd_crossplane_provider.Challenge.HintSync.{challenge_hints, sync_hints}
use ctfd_crossplane_provider.Challenge.Hints.Bounds.{hints_up_to_date-IsReturned}
use ctfd_crossplane_provider.Challenge.HintSync.Bounds.{
  challenge_hints-AlwaysReturns, sync_hints-AlwaysReturns,
}
use ctfd_crossplane_provider.Challenge.Controller.{
  read_requirements, all_up_to_date, Parts, read_parts, report, observe_existing, observe_numbered,
  observe, create, update_numbered, update, delete_numbered, delete,
}

-- A listing without a nil pointer can be dereferenced.
dereferenced-given :
    {A : Type 0} (ps : List (Option A)) → AllGiven ps → (xs : List A) × (dereferenced ps ≡ ok xs)
dereferenced-given [] given = ([], refl)
dereferenced-given (none ∷ ps) given = elim given [ ]
dereferenced-given (some a ∷ ps) given =
    let (xs, e) = dereferenced-given ps given in (a ∷ xs, rw e refl)

dereferenced-IsReturned :
    {A : Type 0} (ps : List (Option A)) → AllGiven ps → IsReturned (dereferenced ps)
dereferenced-IsReturned ps given = let (xs, e) = dereferenced-given ps given in rw e tt

if-IsReturned : (b : Bool) (r : Result Bool) → IsReturned r → IsReturned (if b then r else ok false)
if-IsReturned true r p = p
if-IsReturned false r p = tt

module _ {W : Type 0} (client : Client W) (returns : ClientReturns client) (walk : Pool → Pool)
    (order : (pool : Pool) → Perm (walk pool) pool) where
  posted :
      (cid : ℤ) (pool : Pool) (ds : List ChallengeFlag)
      → AlwaysReturns (post_missing_flags client cid pool ds)
  unfolding post_missing_flags
  posted cid pool [] w = tt
  posted cid pool (d ∷ ds) w = elim (List-cases (ids_at (desired_key d) pool)) [
    | inl none_left ↦
        rw (none_left, post_missing_flags)
          (continue-IsReturned _ _ (returns.post_flags (flag_params client cid d) w)
            (λ _. posted cid pool ds))
    | inr (id, ids, found) ↦
        rw (found, post_missing_flags) (posted cid (insert (desired_key d) ids pool) ds w)
  ]

  flags_deleted : (ids : List ℤ) → AlwaysReturns (delete_flags client ids)
  unfolding delete_flags
  flags_deleted [] w = tt
  flags_deleted (id ∷ ids) w =
      continue-IsReturned _ _ (returns.delete_flag (itoa id) w) (λ _. flags_deleted ids)

  unmatched_deleted : (pool : Pool) → AlwaysReturns (delete_unmatched client pool)
  unfolding delete_unmatched
  unmatched_deleted [] w = tt
  unmatched_deleted ((k, ids) ∷ pool) w =
      continue-IsReturned _ _ (flags_deleted ids w) (λ _. unmatched_deleted pool)

  sync_flags-AlwaysReturns :
      (cid : ℤ) (ds : List ChallengeFlag) → AlwaysReturns (sync_flags client walk cid ds)
  unfolding sync_flags
  sync_flags-AlwaysReturns cid ds w =
      continue-Ends AllGiven (λ _. Unit) (client.get_challenge_flags cid w) _
        (returns.get_challenge_flags cid w)
        (λ listing u given.
          continue-IsReturned (dereferenced listing, u) _ (dereferenced-IsReturned listing given)
            (λ fs u.
              continue-IsReturned _ _ (posted cid (pool_into existing_key (λ f. f.id) [] fs) ds u)
                (λ pool. unmatched_deleted (walk pool))))

  read_requirements-AlwaysReturns :
      (cid : ℤ) (rs : Option Requirements) → AlwaysReturns (read_requirements client walk cid rs)
  read_requirements-AlwaysReturns cid none w = tt
  read_requirements-AlwaysReturns cid (some r) w = tt

  read_parts-AlwaysReturns :
      (cid : ℤ) (rs : Option Requirements) (w : W)
      → Ends (λ (parts : Parts client walk). AllGiven parts.1) (read_parts client walk cid rs w).0
  unfolding read_parts
  read_parts-AlwaysReturns cid rs w =
      continue-Ends (λ _. Unit) Given _ _ (read_requirements-AlwaysReturns cid rs w)
        (λ req u _.
          continue-Ends (AllGiven {A = Flag}) Given
            (wrapping (client.get_challenge_flags cid) "cannot list challenge flags in CTFd" u) _
            (wrapped-Ends AllGiven (client.get_challenge_flags cid u).0
              "cannot list challenge flags in CTFd" (returns.get_challenge_flags cid u))
            (λ fs v given.
              continue-Ends (λ _. Unit) Given _ _
                (wrapping-AlwaysReturns (challenge_hints client cid) _
                  (challenge_hints-AlwaysReturns client cid returns) v)
                (λ hs x _. given)))
    where
      Given : Parts client walk → Type 0
      Given parts = AllGiven parts.1

  concluded-IsReturned :
      (p : ChallengeParameters) (ch : CtfdChallenge) (req : Option CtfdRequirements)
      (fs : List (Option Flag)) (hs : List Hint)
      → AllGiven fs
      → IsReturned (all_up_to_date client walk p ch req fs hs)
  unfolding listing_up_to_date
  concluded-IsReturned p ch req fs hs given = elim (Bool-cases (is_up_to_date p ch req)) [
    | inl so_far ↦
        let (existing, e) = dereferenced-given fs given in
        rw (so_far, e)
          (if-IsReturned (flags_up_to_date p.flags existing) (hints_up_to_date walk p.hints hs)
            (hints_up_to_date-IsReturned walk order p.hints hs))
    | inr differs ↦ rw differs tt
  ]

  report-AlwaysReturns :
      (ch : CtfdChallenge) (parts : Parts client walk)
      → AllGiven parts.1
      → AlwaysReturns (report client walk ch parts)
  unfolding report
  report-AlwaysReturns ch (req, fs, hs) given (cr, w) =
      continue-IsReturned {S = Challenge × W}
        (all_up_to_date client walk cr.spec.for_provider ch req fs hs, _) _
        (concluded-IsReturned cr.spec.for_provider ch req fs hs given) (λ b u. tt)

  or_absent-IsReturned :
      (r : Result CtfdChallenge × (Challenge × W))
      (f : CtfdChallenge → Exec (Challenge × W) ExternalObservation)
      → IsReturned r.0
      → ((ch : CtfdChallenge) → AlwaysReturns (f ch))
      → IsReturned (or_absent_after r f).0
  or_absent-IsReturned (ok ch, s) f p q = q ch s
  or_absent-IsReturned (err e, s) f p q = tt
  or_absent-IsReturned (panic, s) f p q = p
  or_absent-IsReturned (out_of_fuel, s) f p q = p

  observe_numbered-AlwaysReturns :
      (name : Option ℤ) → AlwaysReturns (observe_numbered client walk name)
  unfolding observe_numbered observe_existing
  observe_numbered-AlwaysReturns none s = tt
  observe_numbered-AlwaysReturns (some cid) (cr, w) =
      or_absent-IsReturned _ _ (returns.get_challenge cid w) (λ ch (cr', u).
        continue-Ends {S = Challenge × W} (λ (parts : Parts client walk). AllGiven parts.1)
          (λ _. Unit) _ _ (read_parts-AlwaysReturns cid cr'.spec.for_provider.requirements u)
          (λ parts s given. report-AlwaysReturns ch parts given s))

  observe-AlwaysReturns : AlwaysReturns (observe client walk)
  unfolding observe
  observe-AlwaysReturns (cr, w) = elim (Bool-cases (cr.metadata.external_name == "")) [
    | inl empty ↦ rw empty tt
    | inr named ↦ rw named (observe_numbered-AlwaysReturns (atoi cr.metadata.external_name) (cr, w))
  ]

  create-AlwaysReturns : AlwaysReturns (create client walk)
  unfolding create
  create-AlwaysReturns (cr, w) =
      continue-IsReturned {S = Challenge × W} _ _
        (wrapping-AlwaysReturns (client.post_challenges (post_params cr.spec.for_provider)) _
          (returns.post_challenges (post_params cr.spec.for_provider)) w)
        (λ ch s. tt)

  update_numbered-AlwaysReturns :
      (e : Error) (name : Option ℤ) → AlwaysReturns (update_numbered client walk e name)
  unfolding update_numbered
  update_numbered-AlwaysReturns e none s = tt
  update_numbered-AlwaysReturns e (some cid) (cr, w) =
      let p = cr.spec.for_provider in
      let q = patch_params p cr.status.at_provider.state in
      continue-IsReturned {S = Challenge × W} _ _
        (wrapping-AlwaysReturns (client.patch_challenge cid q) _ (returns.patch_challenge cid q) w)
        (λ _ (cr₁, u).
          continue-IsReturned {S = Challenge × W} _ _
            (wrapping-AlwaysReturns (sync_flags client walk cid p.flags) _
              (sync_flags-AlwaysReturns cid p.flags) u)
            (λ _ (cr₂, v).
              wrapping-AlwaysReturns (sync_hints client walk cid p.hints) _
                (sync_hints-AlwaysReturns client cid returns walk order p.hints) v))

  delete_numbered-AlwaysReturns :
      (name : Option ℤ) → AlwaysReturns (delete_numbered client walk name)
  unfolding delete_numbered
  delete_numbered-AlwaysReturns none s = tt
  delete_numbered-AlwaysReturns (some cid) (cr, w) =
      wrapping-AlwaysReturns (client.delete_challenge cid) _ (returns.delete_challenge cid) w

  -- If no call of the client panics and no listing holds a nil pointer, none of the four handlers
  -- panics, and no search runs out of fuel: every index that they use is in range, whatever the
  -- resource and whatever the flags and hints that CTFd lists, and for every walk order.
  pub handlers-AlwaysReturns :
      AlwaysReturns (observe client walk)
      × AlwaysReturns (create client walk)
      × ((atoi_error : String → Error) → AlwaysReturns (update client walk atoi_error))
      × AlwaysReturns (delete client walk)
  unfolding update delete
  handlers-AlwaysReturns = (
    observe-AlwaysReturns,
    create-AlwaysReturns,
    λ atoi_error (cr, w).
        update_numbered-AlwaysReturns (atoi_error cr.metadata.external_name)
          (atoi cr.metadata.external_name) (cr, w),
    λ (cr, w). delete_numbered-AlwaysReturns (atoi cr.metadata.external_name) _,
  )
