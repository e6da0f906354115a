-- ===== src/Challenge/Flags/UpToDate.antt =====
-- When the flags of a challenge are up to date.
use ctfd_crossplane_provider.Prelude.{◌≡◌, ◌↔◌, String, true, List, map, count, string_eq}
use ctfd_crossplane_provider.Ctfd.{Flag}
use ctfd_crossplane_provider.Apis.Challenge.{ChallengeFlag}
use ctfd_crossplane_provider.Challenge.Multiset.Same.{same_multiset_iff}
use ctfd_crossplane_provider.Challenge.Flags.{desired_key, existing_key, flags_up_to_date}

-- The flags are up to date exactly when every key stands as often among the desired flags as among
-- the existing ones: the order of neither plays a part.
pub flags_up_to_date_iff :
    (desired : List ChallengeFlag) (existing : List Flag)
    → (flags_up_to_date desired existing ≡ true)
      ↔ ((k : String) → count k (map desired_key desired) ≡ count k (map existing_key existing))
unfolding flags_up_to_date
flags_up_to_date_iff desired existing =
    same_multiset_iff (map desired_key desired) (map existing_key existing)
