-- ===== src/Challenge/Controller/Server.antt =====
-- What `Update` and the observation after it rely on of CTFd, whose documented behaviour this is: the
-- calls that succeed do what they say, and a change of one part of a challenge leaves the others.
use ctfd_crossplane_provider.Prelude.{String, ℤ, ◌≡◌, Option, none, List}
use ctfd_crossplane_provider.Result.{ok}
use ctfd_crossplane_provider.Exec.Preserves.{Preserves}
use ctfd_crossplane_provider.Ctfd.{
  CtfdRequirements, CtfdChallenge, Flag, Hint, PatchChallengeParams, PostFlagsParams,
  PostHintsParams, PatchHintsParams,
}
use ctfd_crossplane_provider.CtfdClient.{Client}
use ctfd_crossplane_provider.Challenge.Conversion.Drift.{Patched}
use ctfd_crossplane_provider.Challenge.Flags.Server.{FlagServer}
use ctfd_crossplane_provider.Challenge.HintSync.Server.{HintServer}

-- What CTFd stores of a challenge.
pub record Stored : Type 0 where
  pub challenge : CtfdChallenge
  pub requirements : Option CtfdRequirements
  pub flags : List Flag
  pub hints : List Hint

-- All but the flags, and all but the hints.
abbrev pub beside_flags : Stored → CtfdChallenge × Option CtfdRequirements × List Hint
beside_flags s = (s.challenge, s.requirements, s.hints)

abbrev pub beside_hints : Stored → CtfdChallenge × Option CtfdRequirements × List Flag
beside_hints s = (s.challenge, s.requirements, s.flags)

-- `state w` is what CTFd stores of challenge `cid` in the world `w`.
pub record ChallengeServer {W : Type 0} (client : Client W) (cid : ℤ) (state : W → Stored)
    : Type 0 where
  pub on_flags : FlagServer client cid (λ w. (state w).flags)
  pub on_hints : HintServer client cid (λ w. (state w).hints)
  pub got :
      (w w' : W) (ch : CtfdChallenge)
      → client.get_challenge cid w ≡ (ok ch, w')
      → (ch ≡ (state w).challenge) × (state w' ≡ state w)
  -- the read of the requirements is true if it reports no error
  pub required :
      (w w' : W) (r : Option CtfdRequirements)
      → client.get_challenge_requirements cid w ≡ ((r, none), w')
      → r ≡ (state w).requirements
  -- and it changes nothing, also if it fails
  pub reads : (w : W) → state (client.get_challenge_requirements cid w).1 ≡ state w
  pub patched :
      (w w' : W) (q : PatchChallengeParams)
      → client.patch_challenge cid q w ≡ (ok tt, w')
      → Patched q (state w).challenge (state w').challenge (state w').requirements
        × ((state w').flags ≡ (state w).flags)
        × ((state w').hints ≡ (state w).hints)
  pub lists_flags : Preserves (λ w. beside_flags (state w)) (client.get_challenge_flags cid)
  pub posts_flag :
      (q : PostFlagsParams) → Preserves (λ w. beside_flags (state w)) (client.post_flags q)
  pub deletes_flag :
      (name : String) → Preserves (λ w. beside_flags (state w)) (client.delete_flag name)
  pub lists_hints : Preserves (λ w. beside_hints (state w)) (client.get_challenge_hints cid)
  pub gets_hint : (name : String) → Preserves (λ w. beside_hints (state w)) (client.get_hint name)
  pub posts_hint :
      (q : PostHintsParams) → Preserves (λ w. beside_hints (state w)) (client.post_hints q)
  pub patches_hint :
      (name : String) (q : PatchHintsParams)
      → Preserves (λ w. beside_hints (state w)) (client.patch_hint name q)
  pub deletes_hint :
      (name : String) → Preserves (λ w. beside_hints (state w)) (client.delete_hint name)
