-- ===== src/Examples/Flags.antt =====
-- The theorems on flags at a challenge with one flag that is desired and one that is not.
use mathlib.Core.List.{Perm}
use mathlib.Core.List.Perm
use ctfd_crossplane_provider.Prelude.{
  String, ℤ, pos, ◌≡◌, ◌↔◌, refl, true, List, [], ◌∷◌, map, arith, count, string_eq, int_eq,
}
use ctfd_crossplane_provider.Result.{ok}
use ctfd_crossplane_provider.Strconv.Digits.{itoa}
use ctfd_crossplane_provider.Ctfd.{Flag}
use ctfd_crossplane_provider.Apis.Challenge.{ChallengeFlag}
use ctfd_crossplane_provider.Challenge.Keys.{flag_type_or_default, flag_key}
use ctfd_crossplane_provider.Challenge.Keys.Identity.{NoNul, flag_key_iff}
use ctfd_crossplane_provider.Challenge.Multiset.{multiset, same_multiset, same_int_set}
use ctfd_crossplane_provider.Challenge.Multiset.Same.{same_multiset_iff, same_int_set_iff}
use ctfd_crossplane_provider.Challenge.Pool.{Pool}
use ctfd_crossplane_provider.Challenge.Flags.{
  desired_key, existing_key, flags_up_to_date, sync_flags,
}
use ctfd_crossplane_provider.Challenge.Flags.UpToDate.{flags_up_to_date_iff}
use ctfd_crossplane_provider.Challenge.Flags.Sync.{UniqueIds, sync_flags_settles}
use ctfd_crossplane_provider.Challenge.Flags.Stable.{sync_flags_stable, sync_flags_converges}
use ctfd_crossplane_provider.Examples.Instance.{
  World, instance_client, flags_of, instance_server, instance_calls,
}

-- `range` goes through the entries as they stand.
abbrev pub as_stored : Pool → Pool
as_stored pool = pool

pub as_stored-Perm : (pool : Pool) → Perm (as_stored pool) pool
as_stored-Perm pool = Perm.refl pool

abbrev kept_flag : Flag
kept_flag = record { id = pos 3; content = "flag{kept}"; type = "static"; options = "" }

abbrev old_flag : Flag
old_flag = record { id = pos 4; content = "flag{old}"; type = "static"; options = "" }

abbrev added_flag : Flag
added_flag = record {
  id = pos 10;
  content = "flag{new}";
  type = "regex";
  options = "case_insensitive";
}

abbrev desired : List ChallengeFlag
desired =
    record { content = "flag{new}"; type = "regex"; options = "case_insensitive" }
    ∷ record { content = "flag{kept}"; type = ""; options = "" }
    ∷ []

abbrev before : World
before = (kept_flag ∷ old_flag ∷ [], [])

abbrev after : World
after = (kept_flag ∷ added_flag ∷ [], [])

before-UniqueIds : UniqueIds (flags_of before)
before-UniqueIds z = ground arith

run : sync_flags instance_client as_stored (pos 7) desired before ≡ (ok tt, after)
unfolding sync_flags flag_key itoa
run = refl

flag-NoNul : NoNul "flag{a}"
flag-NoNul = ground arith

default-NoNul : NoNul (flag_type_or_default "")
unfolding flag_type_or_default
default-NoNul = ground arith

static-NoNul : NoNul (flag_type_or_default "static")
unfolding flag_type_or_default
static-NoNul = ground arith

after-fresh : flags_up_to_date desired (flags_of after) ≡ true
unfolding flags_up_to_date flag_key
after-fresh = refl

sync_flags_converges_example :
    (w' : World) × (sync_flags instance_client as_stored (pos 7) desired before ≡ (ok tt, w'))
    × (flags_up_to_date desired (flags_of w') ≡ true)
sync_flags_converges_example =
    sync_flags_converges instance_client (pos 7) instance_calls flags_of instance_server as_stored
      as_stored-Perm desired before before-UniqueIds

sync_flags_settles_example : flags_up_to_date desired (flags_of after) ≡ true
sync_flags_settles_example =
    sync_flags_settles instance_client (pos 7) flags_of instance_server as_stored as_stored-Perm
      desired before after before-UniqueIds run

sync_flags_stable_example :
    sync_flags instance_client as_stored (pos 7) desired after ≡ (ok tt, after)
sync_flags_stable_example =
    sync_flags_stable instance_client (pos 7) as_stored as_stored-Perm desired (flags_of after)
      after after refl after-fresh

flags_up_to_date_iff_example : (flags_up_to_date desired (flags_of after) ≡ true) ↔ (
    (k : String) → count k (map desired_key desired) ≡ count k (map existing_key (flags_of after)))
flags_up_to_date_iff_example = flags_up_to_date_iff desired (flags_of after)

same_multiset_iff_example :
    (same_multiset {K = String} (multiset ("a" ∷ "b" ∷ "a" ∷ [])) (multiset ("b" ∷ "a" ∷ "a" ∷ []))
      ≡ true)
    ↔ ((k : String) → count k ("a" ∷ "b" ∷ "a" ∷ []) ≡ count k ("b" ∷ "a" ∷ "a" ∷ []))
same_multiset_iff_example = same_multiset_iff ("a" ∷ "b" ∷ "a" ∷ []) ("b" ∷ "a" ∷ "a" ∷ [])

same_int_set_iff_example :
    (same_int_set (pos 1 ∷ pos 2 ∷ []) (pos 2 ∷ pos 1 ∷ []) ≡ true)
    ↔ ((z : ℤ) → count z (pos 1 ∷ pos 2 ∷ []) ≡ count z (pos 2 ∷ pos 1 ∷ []))
same_int_set_iff_example = same_int_set_iff (pos 1 ∷ pos 2 ∷ []) (pos 2 ∷ pos 1 ∷ [])

abbrev content : String
content = "flag{a}"

abbrev options_of_flag : String
options_of_flag = "case_insensitive"

flag_key_iff_example :
    (flag_key content "" options_of_flag ≡ flag_key content "static" options_of_flag) ↔ (
      (content ≡ content)
      × (flag_type_or_default "" ≡ flag_type_or_default "static")
      × (options_of_flag ≡ options_of_flag))
flag_key_iff_example =
    flag_key_iff content "" options_of_flag content "static" options_of_flag flag-NoNul
      default-NoNul flag-NoNul static-NoNul
