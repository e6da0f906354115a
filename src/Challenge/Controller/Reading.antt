-- ===== src/Challenge/Controller/Reading.antt =====
-- What an observation reads, and what it concludes from it.
use mathlib.Core.Path.{subst}
use ctfd_crossplane_provider.Prelude.{
  map, ℤ, ◌≡◌, refl, sym, ap, ◌∙◌, Bool, true, false, ◌&&◌, Option, none, some, List, if◌then◌else◌,
  string_eq,
}
use ctfd_crossplane_provider.Result.{
  both, dereferenced-map, Error, Result, ok, err, panic, out_of_fuel,
}
use ctfd_crossplane_provider.Exec.{Exec, continue-eq-ok, wrapping, wrapping-eq-ok, pure, ◌>>=◌}
use ctfd_crossplane_provider.Session.{calling, calling-eq-ok, or_absent_after}
use ctfd_crossplane_provider.Strconv.Digits.{itoa}
use ctfd_crossplane_provider.Strconv.RoundTrip.{IsInt}
use ctfd_crossplane_provider.Ctfd.{CtfdRequirements, CtfdChallenge, Flag, Hint}
use ctfd_crossplane_provider.CtfdClient.{Client}
use ctfd_crossplane_provider.Apis.Managed.{ExternalObservation, absent, available}
use ctfd_crossplane_provider.Apis.Challenge.{Requirements, Challenge, ChallengeParameters}
use ctfd_crossplane_provider.Challenge.Pool.{Pool}
use ctfd_crossplane_provider.Challenge.Conversion.{challenge_observation, is_up_to_date}
use ctfd_crossplane_provider.Challenge.Flags.{listing_up_to_date, flags_up_to_date}
use ctfd_crossplane_provider.Challenge.Hints.{hints_up_to_date}
use ctfd_crossplane_provider.Challenge.HintSync.{challenge_hints}
use ctfd_crossplane_provider.Challenge.HintSync.Server.{ValidIds}
use ctfd_crossplane_provider.Challenge.HintSync.Reads.{challenge_hints-eq}
use ctfd_crossplane_provider.Challenge.Controller.{
  set_condition, set_at_provider, observe, observe_numbered, observe_existing, report,
  read_requirements, read_parts, Parts, all_up_to_date,
}
use ctfd_crossplane_provider.Challenge.Controller.ExternalName.{observe-numeric}
use ctfd_crossplane_provider.Challenge.Controller.Server.{Stored, ChallengeServer}

-- The requirements that an observation goes by: those that it read, if the resource sets some.
abbrev pub requested : Option Requirements → Option CtfdRequirements → Option CtfdRequirements
requested none read = none
requested (some r) read = read

-- What CTFd answers to the read of the requirements that follows the read of the challenge: the value
-- and the error.
abbrev pub answered : {W : Type 0} → Client W → ℤ → W → Option CtfdRequirements × Option Error
answered client cid w = (client.get_challenge_requirements cid (client.get_challenge cid w).1).0

-- The conjunction over the requirements that were read and the rest of what CTFd stores.
abbrev pub concluded :
    (Pool → Pool) → ChallengeParameters → Option CtfdRequirements → Stored → Result Bool
concluded walk p read s =
    if is_up_to_date p s.challenge (requested p.requirements read)
      && flags_up_to_date p.flags s.flags
    then hints_up_to_date walk p.hints s.hints
    else ok false

pub only_first :
    (a b : Bool) (r : Result Bool)
    → b ≡ true
    → r ≡ ok true
    → (if a && b then r else ok false) ≡ ok a
only_first true b r q e = rw q e
only_first false b r q e = refl

pub ok-injective : {a b : Bool} → ◌≡◌ {A = Result Bool} (ok a) (ok b) → a ≡ b
ok-injective e = cc (e)

nested :
    (a b : Bool) (r : Result Bool)
    → (if a && b then r else ok false) ≡ (if a then both (ok b) r else ok false)
nested true b r = refl
nested false b r = refl

or_absent-exists :
    {A S : Type 0} {R : Type 0} (r : Result A × (R × S)) (f : A → Exec (R × S) ExternalObservation)
    (o : ExternalObservation) (s : R × S)
    → or_absent_after r f ≡ (ok o, s)
    → o.resource_exists ≡ true
    → (a : A) × (t : R × S) × (r ≡ (ok a, t)) × (f a t ≡ (ok o, s))
or_absent-exists (ok a, t) f o s e there = (a, t, refl, e)
or_absent-exists (err x, t) f o s e there =
    let none_there : absent ≡ o = cc (e) in absurd (cc (none_there, there))
or_absent-exists (panic, t) f o s e there = cc (e)
or_absent-exists (out_of_fuel, t) f o s e there = cc (e)

module _ {W : Type 0} (client : Client W) (cid : ℤ) (state : W → Stored)
    (server : ChallengeServer client cid state) (walk : Pool → Pool) where
  all_up_to_date-eq :
      (p : ChallengeParameters) (ch : CtfdChallenge) (req : Option CtfdRequirements)
      (fs : List Flag) (hs : List Hint)
      → (if is_up_to_date p ch req && flags_up_to_date p.flags fs
          then hints_up_to_date walk p.hints hs
          else ok false)
        ≡ all_up_to_date client walk p ch req (map some fs) hs
  unfolding listing_up_to_date
  all_up_to_date-eq p ch req fs hs = rw (dereferenced-map fs) (
      nested (is_up_to_date p ch req) (flags_up_to_date p.flags fs)
        (hints_up_to_date walk p.hints hs))

  report-eq :
      (ch : CtfdChallenge) (req : Option CtfdRequirements) (fs : List (Option Flag))
      (hs : List Hint) (cr cr' : Challenge) (w w' : W) (o : ExternalObservation)
      → report client walk ch (req, fs, hs) (cr, w) ≡ (ok o, (cr', w'))
      → all_up_to_date client walk cr.spec.for_provider ch req fs hs ≡ ok o.resource_up_to_date
  unfolding report
  report-eq ch req fs hs cr cr' w w' o e =
      let shown = set_condition available (set_at_provider (challenge_observation ch fs hs) cr) in
      let (b, s, first, last) =
        continue-eq-ok {S = Challenge × W}
          (all_up_to_date client walk cr.spec.for_provider ch req fs hs, (shown, w))
          (λ b. pure (record { resource_exists = true; resource_up_to_date = b })) e in
      let shape : record { resource_exists = true; resource_up_to_date = b } ≡ o = cc (last) in
      (λ i. (first i).0) ∙ ap (λ x. ok x.resource_up_to_date) shape

  read_requirements-eq :
      (rs : Option Requirements) (req : Option CtfdRequirements) (w w' : W)
      → read_requirements client walk cid rs w ≡ (ok req, w')
      → (req ≡ requested rs (client.get_challenge_requirements cid w).0.0) × (state w' ≡ state w)
  read_requirements-eq none req w w' e = (cc (e), ap state (sym (λ i. (e i).1)))
  read_requirements-eq (some r) req w w' e =
      let got : (client.get_challenge_requirements cid w).0.0 ≡ req = cc (e) in
      (sym got, ap state (sym (λ i. (e i).1)) ∙ server.reads w)

  read_parts-eq :
      (p : ChallengeParameters) (req : Option CtfdRequirements) (fs : List (Option Flag))
      (hs : List Hint) (w w' : W)
      → ValidIds (state w).hints
      → read_parts client walk cid p.requirements w ≡ (ok (req, fs, hs), w')
      → (req ≡ requested p.requirements (client.get_challenge_requirements cid w).0.0)
        × (fs ≡ map some (state w).flags)
        × (hs ≡ (state w).hints)
  unfolding read_parts
  read_parts-eq p req fs hs w w' v e =
      let (req₀, w₁, first, rest) =
        continue-eq-ok (read_requirements client walk cid p.requirements w) after_requirements e in
      let (wanted, kept) = read_requirements-eq p.requirements req₀ w w₁ first in
      let (fs₀, w₂, second, rest₁) = continue-eq-ok (list_flags w₁) (after_flags req₀) rest in
      let listing = wrapping-eq-ok (client.get_challenge_flags cid) _ w₁ second in
      let (listed, _) = server.on_flags.listed w₁ w₂ fs₀ listing in
      let (hs₀, w₃, third, last) =
        continue-eq-ok (list_hints w₂) (λ hs. pure (req₀, fs₀, hs)) rest₁ in
      let reading = wrapping-eq-ok (challenge_hints client cid) _ w₂ third in
      let unchanged : (state w₂).hints ≡ (state w).hints =
        ap (λ b. b.2) (server.lists_flags w₁ w₂ fs₀ listing) ∙ ap (λ s. s.hints) kept in
      let (all, _) =
        challenge_hints-eq client cid (λ u. (state u).hints) server.on_hints hs₀ w₂ w₃
          (subst ValidIds (sym unchanged) v) reading in
      let same : ◌≡◌ {A = Parts client walk} (req₀, fs₀, hs₀) (req, fs, hs) = cc (last) in
      (
        sym (λ i. (same i).0) ∙ wanted,
        sym (λ i. (same i).1) ∙ listed ∙ ap (λ s. map some s.flags) kept,
        sym (λ i. (same i).2) ∙ all ∙ unchanged,
      )
    where
      list_flags : Exec W (List (Option Flag))
      list_flags = wrapping (client.get_challenge_flags cid) "cannot list challenge flags in CTFd"

      list_hints : Exec W (List Hint)
      list_hints = wrapping (challenge_hints client cid) "cannot list challenge hints in CTFd"

      after_flags : Option CtfdRequirements → List (Option Flag) → Exec W (Parts client walk)
      after_flags req fs = list_hints >>= λ hs. pure (req, fs, hs)

      after_requirements : Option CtfdRequirements → Exec W (Parts client walk)
      after_requirements req = list_flags >>= after_flags req

  observe_existing-eq :
      (cr cr' : Challenge) (w w' : W) (ch : CtfdChallenge) (o : ExternalObservation)
      → ValidIds (state w).hints
      → observe_existing client walk cid ch (cr, w) ≡ (ok o, (cr', w'))
      → ch ≡ (state w).challenge
      → concluded walk cr.spec.for_provider (client.get_challenge_requirements cid w).0.0 (state w)
        ≡ ok o.resource_up_to_date
  unfolding observe_existing
  observe_existing-eq cr cr' w w' ch o v e here =
      let read = read_parts client walk cid cr.spec.for_provider.requirements in
      let ((req, fs, hs), (cr₁, w₁), first, last) =
        continue-eq-ok (calling read (cr, w)) (report client walk ch) e in
      let (reading, same) = calling-eq-ok read cr cr₁ w w₁ (req, fs, hs) first in
      let (wanted, flags, hints) = read_parts-eq cr.spec.for_provider req fs hs w w₁ v reading in
      let told = report-eq ch req fs hs cr₁ cr' w₁ w' o last in
      all_up_to_date-eq cr.spec.for_provider (state w).challenge _ (state w).flags (state w).hints
      ∙ (λ i.
          all_up_to_date client walk (same i).spec.for_provider (sym here i) (sym wanted i)
            (sym flags i) (sym hints i))
      ∙ told

  -- An observation that finds the challenge concludes from what CTFd stores of it.
  pub observe-concluded :
      (cr cr' : Challenge) (w w' : W) (o : ExternalObservation)
      → IsInt cid
      → cr.metadata.external_name ≡ itoa cid
      → ValidIds (state w).hints
      → observe client walk (cr, w) ≡ (ok o, (cr', w'))
      → o.resource_exists ≡ true
      → (concluded walk cr.spec.for_provider (answered client cid w).0 (state w)
          ≡ ok o.resource_up_to_date)
        × (state (client.get_challenge cid w).1 ≡ state w)
  unfolding observe_numbered
  observe-concluded cr cr' w w' o fits name v e there =
      let run = sym (observe-numeric client walk cr w cid fits name) ∙ e in
      let (ch, (cr₁, w₁), first, rest) =
        or_absent-exists (calling (client.get_challenge cid) (cr, w))
          (observe_existing client walk cid) o (cr', w') run there in
      let (read, same) = calling-eq-ok (client.get_challenge cid) cr cr₁ w w₁ ch first in
      let (here, kept) = server.got w w₁ ch read in
      let told =
        observe_existing-eq cr₁ cr' w₁ w' ch o (subst (λ s. ValidIds s.hints) (sym kept) v) rest
          (here ∙ ap (λ s. s.challenge) (sym kept)) in
      let after : w₁ ≡ (client.get_challenge cid w).1 = sym (λ i. (read i).1) in
      (
        (λ i.
              concluded walk (same i).spec.for_provider
                (client.get_challenge_requirements cid (sym after i)).0.0 (sym kept i))
            ∙ told,
        ap state (sym after) ∙ kept,
      )

  -- Requirements that were read without an error are those that are stored.
  pub answered-true :
      (w : W)
      → state (client.get_challenge cid w).1 ≡ state w
      → (answered client cid w).1 ≡ none
      → (answered client cid w).0 ≡ (state w).requirements
  answered-true w kept fine =
      let u = (client.get_challenge cid w).1 in
      let (r, v) = client.get_challenge_requirements cid u in
      server.required u v r.0 (λ i. ((r.0, fine i), v)) ∙ ap (λ s. s.requirements) kept
