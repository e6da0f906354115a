-- ===== src/CtfdClient.antt =====
-- The operations of the go-ctfd client that the challenge controller calls, as an interface: the
-- package is not part of the repository. `W` is the world that the calls read and change. A call that
-- returns a single object without an error returns a pointer to it, which is not nil.
use ctfd_crossplane_provider.Prelude.{String, ℤ, Option, none, some, List, [], ◌∷◌}
use ctfd_crossplane_provider.Result.{Error}
use ctfd_crossplane_provider.Exec.{Exec}
use ctfd_crossplane_provider.Exec.Returned.{AlwaysReturns, Ends}
use ctfd_crossplane_provider.Ctfd.{
  CtfdRequirements, CtfdChallenge, Flag, Hint, PostChallengesParams, PatchChallengeParams,
  PostFlagsParams, PostHintsParams, PatchHintsParams,
}

pub record Client (W : Type 0) : Type 0 where
  pub get_challenge : ℤ → Exec W CtfdChallenge
  -- the value and the error, if there is one: the controller takes the value and ignores the error
  pub get_challenge_requirements : ℤ → W → (Option CtfdRequirements × Option Error) × W
  -- a listing is a list of pointers, which may be nil
  pub get_challenge_flags : ℤ → Exec W (List (Option Flag))
  pub get_challenge_hints : ℤ → Exec W (List (Option Hint))
  -- with `Preview` set
  pub get_hint : String → Exec W Hint
  pub post_challenges : PostChallengesParams → Exec W CtfdChallenge
  pub patch_challenge : ℤ → PatchChallengeParams → Exec W (Unit {0})
  pub delete_challenge : ℤ → Exec W (Unit {0})
  pub post_flags : PostFlagsParams → Exec W (Unit {0})
  pub delete_flag : String → Exec W (Unit {0})
  pub post_hints : PostHintsParams → Exec W Hint
  pub patch_hint : String → PatchHintsParams → Exec W (Unit {0})
  pub delete_hint : String → Exec W (Unit {0})

-- No pointer of a listing is nil.
abbrev pub AllGiven : {A : Type 0} → List (Option A) → Type 0
AllGiven [] = Unit
AllGiven (none ∷ ps) = ⊥
AllGiven (some a ∷ ps) = AllGiven ps

-- Every call of a client returns a value or an error: none panics. A listing holds no nil pointer.
pub record ClientReturns {W : Type 0} (client : Client W) : Type 0 where
  pub get_challenge : (cid : ℤ) → AlwaysReturns (client.get_challenge cid)
  pub get_challenge_flags : (cid : ℤ) → (w : W) → Ends AllGiven (client.get_challenge_flags cid w).0
  pub get_challenge_hints : (cid : ℤ) → (w : W) → Ends AllGiven (client.get_challenge_hints cid w).0
  pub get_hint : (name : String) → AlwaysReturns (client.get_hint name)
  pub post_challenges : (q : PostChallengesParams) → AlwaysReturns (client.post_challenges q)
  pub patch_challenge :
      (cid : ℤ) (q : PatchChallengeParams) → AlwaysReturns (client.patch_challenge cid q)
  pub delete_challenge : (cid : ℤ) → AlwaysReturns (client.delete_challenge cid)
  pub post_flags : (q : PostFlagsParams) → AlwaysReturns (client.post_flags q)
  pub delete_flag : (name : String) → AlwaysReturns (client.delete_flag name)
  pub post_hints : (q : PostHintsParams) → AlwaysReturns (client.post_hints q)
  pub patch_hint : (name : String) (q : PatchHintsParams) → AlwaysReturns (client.patch_hint name q)
  pub delete_hint : (name : String) → AlwaysReturns (client.delete_hint name)
