-- ===== src/Challenge/Flags.antt =====
-- The flags of a challenge (`flagsUpToDate` and `syncFlags` of
-- internal/controller/challenge/flagshints.go).
pub mod UpToDate
pub mod Server
pub mod Sync
pub mod Stable
use ctfd_crossplane_provider.Prelude.{Option, String, ℤ, Bool, List, [], ◌∷◌, map, string_eq}
use ctfd_crossplane_provider.Result.{on_ok, dereferenced, Result, ok}
use ctfd_crossplane_provider.Exec.{lift, Exec, pure, ◌>>=◌, ◌>>◌}
use ctfd_crossplane_provider.GoMap.{insert}
use ctfd_crossplane_provider.Strconv.Digits.{itoa}
use ctfd_crossplane_provider.Ctfd.{Flag, PostFlagsParams}
use ctfd_crossplane_provider.CtfdClient.{Client}
use ctfd_crossplane_provider.Apis.Challenge.{ChallengeFlag}
use ctfd_crossplane_provider.Challenge.Keys.{flag_type_or_default, flag_key}
use ctfd_crossplane_provider.Challenge.Multiset.{multiset, same_multiset}
use ctfd_crossplane_provider.Challenge.Pool.{Pool, ids_at, pool_into}

abbrev pub desired_key : ChallengeFlag → String
desired_key f = flag_key f.content f.type f.options

-- of a flag whose pointer was dereferenced
abbrev pub existing_key : Flag → String
existing_key f = flag_key f.content f.type f.options

unfoldable pub flags_up_to_date : List ChallengeFlag → List Flag → Bool
unfolding multiset same_multiset
flags_up_to_date desired existing =
    same_multiset (multiset (map desired_key desired)) (multiset (map existing_key existing))

-- `flagsUpToDate` on the listing: it dereferences every pointer first.
unfoldable pub listing_up_to_date : List ChallengeFlag → List (Option Flag) → Result Bool
unfolding flags_up_to_date
listing_up_to_date desired listing = on_ok (dereferenced listing) (flags_up_to_date desired)

module _ {W : Type 0} (client : Client W) where
  open client use {get_challenge_flags, post_flags, delete_flag}

  abbrev pub flag_params : ℤ → ChallengeFlag → PostFlagsParams
  flag_params cid d = record {
    challenge = cid;
    content = d.content;
    options = d.options;
    type = flag_type_or_default d.type;
  }

  -- The loop over the desired flags. It returns the pool of the flags that were not matched.
  unfoldable pub post_missing_flags : ℤ → Pool → List ChallengeFlag → Exec W Pool
  post_missing_flags cid pool [] = pure pool
  post_missing_flags cid pool (d ∷ ds) = elim (ids_at (desired_key d) pool) [
    | _ ∷ ids ↦ post_missing_flags cid (insert (desired_key d) ids pool) ds
    | [] ↦ post_flags (flag_params cid d) >> post_missing_flags cid pool ds
  ]

  unfoldable pub delete_flags : List ℤ → Exec W (Unit {0})
  delete_flags [] = pure tt
  delete_flags (id ∷ ids) = delete_flag (itoa id) >> delete_flags ids

  -- for _, ids := range pool { for _, id := range ids { … } }
  unfoldable pub delete_unmatched : Pool → Exec W (Unit {0})
  unfolding delete_flags
  delete_unmatched [] = pure tt
  delete_unmatched ((k, ids) ∷ pool) = delete_flags ids >> delete_unmatched pool

  -- `walk` is the order in which `range` goes through the pool.
  unfoldable pub sync_flags : (Pool → Pool) → ℤ → List ChallengeFlag → Exec W (Unit {0})
  unfolding pool_into post_missing_flags delete_unmatched
  sync_flags walk cid desired = do
    listing ← get_challenge_flags cid
    existing ← lift (dereferenced listing)
    pool ← post_missing_flags cid (pool_into existing_key (λ f. f.id) [] existing) desired
    delete_unmatched (walk pool)
