-- ===== src/Challenge/Flags/Server.antt =====
-- What `syncFlags` relies on of CTFd: the three calls on flags do what they say when they succeed.
-- Nothing is assumed of a call that fails.
use ctfd_crossplane_provider.Prelude.{Option, some, map, ℕ, ℤ, ◌≡◌, List, [], ◌∷◌, ◌++◌}
use ctfd_crossplane_provider.Result.{ok}
use ctfd_crossplane_provider.Strconv.Digits.{itoa}
use ctfd_crossplane_provider.Ctfd.{Flag, PostFlagsParams}
use ctfd_crossplane_provider.CtfdClient.{Client}
use ctfd_crossplane_provider.Challenge.Flags.{existing_key}
use ctfd_crossplane_provider.Challenge.Pool.Stored.{numbered, remove}

abbrev pub flag_id : Flag → ℤ
flag_id f = f.id

-- How many flags have an ID.
abbrev pub numbered_flags : ℤ → List Flag → ℕ
numbered_flags z fs = numbered existing_key flag_id z fs

-- The flags without those of an ID.
abbrev pub remove_flag : ℤ → List Flag → List Flag
remove_flag z fs = remove existing_key flag_id z fs

-- `flags w` are the flags of challenge `cid` in the world `w`.
pub record FlagServer {W : Type 0} (client : Client W) (cid : ℤ) (flags : W → List Flag)
    : Type 0 where
  pub listed :
      (w w' : W) (listing : List (Option Flag))
      → client.get_challenge_flags cid w ≡ (ok listing, w')
      → (listing ≡ map some (flags w)) × (flags w' ≡ flags w)
  -- a new flag has the fields of the payload and an ID of its own
  pub posted :
      (w w' : W) (q : PostFlagsParams)
      → q.challenge ≡ cid
      → client.post_flags q w ≡ (ok tt, w')
      → (f : Flag) × (flags w' ≡ flags w ++ f ∷ [])
        × (numbered_flags f.id (flags w) ≡ 0)
        × (f.content ≡ q.content)
        × (f.type ≡ q.type)
        × (f.options ≡ q.options)
  pub deleted :
      (w w' : W) (z : ℤ)
      → client.delete_flag (itoa z) w ≡ (ok tt, w')
      → flags w' ≡ remove_flag z (flags w)
