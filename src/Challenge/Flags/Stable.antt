-- ===== src/Challenge/Flags/Stable.antt =====
-- A synchronisation of flags that are up to date already, and one over calls that succeed.
use mathlib.Core.List.{Perm}
use ctfd_crossplane_provider.Prelude.{
  some, ℕ, String, ℤ, ◌≡◌, refl, ap, ◌∙◌, true, inl, inr, List, [], ◌∷◌, map, arith, if◌then◌else◌,
  length, count, ==_refl, string_eq, int_eq, List-cases, Distinct,
}
use ctfd_crossplane_provider.Result.{dereferenced, dereferenced-map, ok}
use ctfd_crossplane_provider.Exec.{continue-ok}
use ctfd_crossplane_provider.GoMap.{insert, keys}
use ctfd_crossplane_provider.GoMap.Laws.{Distinct-keys-insert}
use ctfd_crossplane_provider.Strconv.Digits.{itoa}
use ctfd_crossplane_provider.Ctfd.{Flag, PostFlagsParams}
use ctfd_crossplane_provider.CtfdClient.{Client}
use ctfd_crossplane_provider.Apis.Challenge.{ChallengeFlag}
use ctfd_crossplane_provider.Challenge.Pool.{Pool, ids_at, pool_into}
use ctfd_crossplane_provider.Challenge.Pool.Tally.{held, held-insert, held-perm, held-ids_at}
use ctfd_crossplane_provider.Challenge.Pool.Stored.{keyed-count, held-pool_into, Distinct-pool_into}
use ctfd_crossplane_provider.Challenge.Flags.{
  desired_key, existing_key, flags_up_to_date, flag_params, post_missing_flags, delete_flags,
  delete_unmatched, sync_flags,
}
use ctfd_crossplane_provider.Challenge.Flags.UpToDate.{flags_up_to_date_iff}
use ctfd_crossplane_provider.Challenge.Flags.Server.{flag_id, FlagServer}
use ctfd_crossplane_provider.Challenge.Flags.Sync.{UniqueIds, sync_flags_settles}

abbrev IsEmpty : Pool → Type 0
IsEmpty pool = (k : String) → held k pool ≡ 0

module _ {W : Type 0} (client : Client W) (cid : ℤ) where
  -- With a pool that holds each key as often as it is desired no flag is posted.
  all_matched :
      (pool : Pool) (ds : List ChallengeFlag) (w : W)
      → Distinct (keys pool)
      → ((k : String) → held k pool ≡ count k (map desired_key ds))
      → (rest : Pool) × (post_missing_flags client cid pool ds w ≡ (ok rest, w)) × IsEmpty rest
  unfolding post_missing_flags
  all_matched pool [] w d h = (pool, refl, h)
  all_matched pool (f ∷ ds) w d h = elim (List-cases (ids_at (desired_key f) pool)) [
    | inl none_left ↦ absurd (
        omega (
          arith,
          ap length none_left,
          held-ids_at (desired_key f) pool d,
          h (desired_key f),
          ap {B = ℕ} (λ b. if b then 1 else 0) (==_refl (desired_key f)),
        ))
    | inr (id, ids, found) ↦
        let (rest, e, empty) =
          all_matched (insert (desired_key f) ids pool) ds w
            (Distinct-keys-insert (desired_key f) ids pool d)
            (λ k. ground (arith, h k, held-insert k (desired_key f) ids pool, ap length found)) in
        (rest, rw (found, post_missing_flags) e, empty)
  ]

  nothing_to_delete :
      (pool : Pool) (w : W) → IsEmpty pool → delete_unmatched client pool w ≡ (ok tt, w)
  unfolding delete_unmatched
  nothing_to_delete [] w h = refl
  nothing_to_delete ((k, []) ∷ pool) w h = nothing_to_delete pool w (λ j. ground (arith, h j))
  nothing_to_delete ((k, id ∷ ids) ∷ pool) w h = absurd (ground (arith, h k, ==_refl k))

  -- If the flags that CTFd lists are up to date, `syncFlags` makes no call but the listing: nothing
  -- is created and nothing deleted, whatever the walk order.
  pub sync_flags_stable :
      (walk : Pool → Pool)
      → ((pool : Pool) → Perm (walk pool) pool)
      → (desired : List ChallengeFlag) (fs : List Flag) (w w' : W)
      → client.get_challenge_flags cid w ≡ (ok (map some fs), w')
      → flags_up_to_date desired fs ≡ true
      → sync_flags client walk cid desired w ≡ (ok tt, w')
  unfolding sync_flags
  sync_flags_stable walk order desired fs w w' e fresh =
      let start = pool_into existing_key flag_id [] fs in
      let (rest, p, empty) =
        all_matched start desired w' (Distinct-pool_into existing_key flag_id [] fs tt) (λ k.
          omega (
            arith,
            held-pool_into existing_key flag_id k [] fs,
            keyed-count existing_key flag_id k fs,
            (flags_up_to_date_iff desired fs).0 fresh k,
          )) in
      continue-ok _ _ e
      ∙ continue-ok (dereferenced (map some fs), w') _ (ap (λ r. (r, w')) (dereferenced-map fs))
      ∙ continue-ok _ _ p
      ∙ nothing_to_delete (walk rest) w' (λ k. held-perm k (order rest) ∙ empty k)

  -- The calls of a synchronisation all succeed.
  pub record Succeeds : Type 0 where
    pub lists :
        (w : W)
        → (fs : List Flag) × (w' : W) × (client.get_challenge_flags cid w ≡ (ok (map some fs), w'))
    pub posts : (q : PostFlagsParams) (w : W) → (w' : W) × (client.post_flags q w ≡ (ok tt, w'))
    pub deletes : (z : ℤ) (w : W) → (w' : W) × (client.delete_flag (itoa z) w ≡ (ok tt, w'))

  module _ (calls : Succeeds) where
    posts_all :
        (pool : Pool) (ds : List ChallengeFlag) (w : W)
        → (rest : Pool) × (w' : W) × (post_missing_flags client cid pool ds w ≡ (ok rest, w'))
    unfolding post_missing_flags
    posts_all pool [] w = (pool, w, refl)
    posts_all pool (d ∷ ds) w = elim (List-cases (ids_at (desired_key d) pool)) [
      | inl none_left ↦
          let (w₁, p) = calls.posts (flag_params client cid d) w in
          let (rest, w', e) = posts_all pool ds w₁ in
          (rest, w', rw (none_left, post_missing_flags) (continue-ok _ _ p ∙ e))
      | inr (id, ids, found) ↦
          let (rest, w', e) = posts_all (insert (desired_key d) ids pool) ds w in
          (rest, w', rw (found, post_missing_flags) e)
    ]

    deletes_ids : (ids : List ℤ) (w : W) → (w' : W) × (delete_flags client ids w ≡ (ok tt, w'))
    unfolding delete_flags
    deletes_ids [] w = (w, refl)
    deletes_ids (id ∷ ids) w =
        let (w₁, p) = calls.deletes id w in
        let (w', e) = deletes_ids ids w₁ in (w', continue-ok _ _ p ∙ e)

    deletes_all : (pool : Pool) (w : W) → (w' : W) × (delete_unmatched client pool w ≡ (ok tt, w'))
    unfolding delete_unmatched
    deletes_all [] w = (w, refl)
    deletes_all ((k, ids) ∷ pool) w =
        let (w₁, p) = deletes_ids ids w in
        let (w', e) = deletes_all pool w₁ in (w', continue-ok _ _ p ∙ e)

    sync_flags_returns :
        (walk : Pool → Pool) (desired : List ChallengeFlag) (w : W)
        → (w' : W) × (sync_flags client walk cid desired w ≡ (ok tt, w'))
    unfolding sync_flags
    sync_flags_returns walk desired w =
        let (fs, w₁, p) = calls.lists w in
        let (rest, w₂, q) = posts_all (pool_into existing_key flag_id [] fs) desired w₁ in
        let (w', r) = deletes_all (walk rest) w₂ in
        (
          w',
          continue-ok _ _ p
              ∙ continue-ok (dereferenced (map some fs), w₁) _
                  (ap (λ r. (r, w₁)) (dereferenced-map fs))
              ∙ continue-ok _ _ q
              ∙ r,
        )

    -- Over calls that succeed and do what they say, `syncFlags` returns, and leaves exactly the
    -- desired flags, from any flags with distinct IDs and for every order of the walk.
    pub sync_flags_converges :
        (flags : W → List Flag)
        → FlagServer client cid flags
        → (walk : Pool → Pool) → ((pool : Pool) → Perm (walk pool) pool)
        → (desired : List ChallengeFlag) (w : W) → UniqueIds (flags w)
        → (w' : W) × (sync_flags client walk cid desired w ≡ (ok tt, w'))
          × (flags_up_to_date desired (flags w') ≡ true)
    sync_flags_converges flags server walk order desired w one =
        let (w', e) = sync_flags_returns walk desired w in
        (w', e, sync_flags_settles client cid flags server walk order desired w w' one e)
