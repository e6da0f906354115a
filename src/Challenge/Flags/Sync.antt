-- ===== src/Challenge/Flags/Sync.antt =====
-- What a synchronisation of flags that returns leaves.
use mathlib.Core.List.{Perm}
use native.Mathlib.Nat.{le_trans}
use mathlib.Core.Path.{subst}
use ctfd_crossplane_provider.Prelude.{
  ℕ, ◌+◌, ◌≤◌, String, ℤ, ◌≡◌, refl, ap, ◌∙◌, sym, true, inl, inr, List, [], ◌∷◌, ◌++◌, map, arith,
  if◌then◌else◌, length, count, ◌==◌, ==_iff, string_eq, int_eq, List-cases, ==_refl,
}
use ctfd_crossplane_provider.Result.{dereferenced, dereferenced-map, ok}
use ctfd_crossplane_provider.Exec.{continue-eq-ok}
use ctfd_crossplane_provider.GoMap.{insert}
use ctfd_crossplane_provider.Ctfd.{Flag}
use ctfd_crossplane_provider.CtfdClient.{Client}
use ctfd_crossplane_provider.Apis.Challenge.{ChallengeFlag}
use ctfd_crossplane_provider.Challenge.Keys.{flag_type_or_default, flag_key}
use ctfd_crossplane_provider.Challenge.Keys.Identity.{flag_type_or_default_idem}
use ctfd_crossplane_provider.Challenge.Pool.{Pool, ids_at, pool_into}
use ctfd_crossplane_provider.Challenge.Pool.Tally.{
  held, tagged, held-insert, tagged-insert, held-perm, tagged-perm,
}
use ctfd_crossplane_provider.Challenge.Pool.Stored.{
  stored, keyed, keyed-append, numbered-append, stored-append, keyed-count, numbered-remove,
  keyed-remove, stored-remove, held-pool_into, tagged-pool_into,
}
use ctfd_crossplane_provider.Challenge.Flags.{
  desired_key, existing_key, flags_up_to_date, flag_params, post_missing_flags, delete_flags,
  delete_unmatched, sync_flags,
}
use ctfd_crossplane_provider.Challenge.Flags.UpToDate.{flags_up_to_date_iff}
use ctfd_crossplane_provider.Challenge.Flags.Server.{flag_id, numbered_flags, FlagServer}

abbrev keyed_flags : String → List Flag → ℕ
keyed_flags k fs = keyed existing_key flag_id k fs

abbrev stored_flags : ℤ → String → List Flag → ℕ
stored_flags z k fs = stored existing_key flag_id z k fs

abbrev wanted : String → List ChallengeFlag → ℕ
wanted k ds = count k (map desired_key ds)

-- No two flags have one ID.
abbrev pub UniqueIds : List Flag → Type 0
UniqueIds fs = (z : ℤ) → numbered_flags z fs ≤ 1

module _ {W : Type 0} (client : Client W) (cid : ℤ) (flags : W → List Flag)
    (server : FlagServer client cid flags) where
  -- The flags in the pool are flags of the challenge, and no two flags share an ID.
  record IsPooled (pool : Pool) (fs : List Flag) : Type 0 where
    unique : UniqueIds fs
    pooled : (z : ℤ) (k : String) → tagged z k pool ≤ stored_flags z k fs

  -- A flag that is posted for a desired one has its key.
  posted_key :
      (d : ChallengeFlag) (f : Flag)
      → f.content ≡ d.content
      → f.type ≡ flag_type_or_default d.type
      → f.options ≡ d.options
      → existing_key f ≡ desired_key d
  unfolding flag_key
  posted_key d f p q r = cc (flag_type_or_default_idem d.type)

  IsPooled-take :
      (pool : Pool) (fs : List Flag) (k : String) (id : ℤ) (ids : List ℤ)
      → ids_at k pool ≡ id ∷ ids
      → IsPooled pool fs
      → IsPooled (insert k ids pool) fs
  IsPooled-take pool fs k id ids e h = record {
    unique = h.unique;
    pooled = λ z j. ground (arith, h.pooled z j, tagged-insert z j k ids pool, ap (count z) e);
  }

  IsPooled-append :
      (pool : Pool) (fs : List Flag) (f : Flag)
      → numbered_flags f.id fs ≡ 0
      → IsPooled pool fs
      → IsPooled pool (fs ++ f ∷ [])
  IsPooled-append pool fs f fresh h = record {
    unique = λ z. ground (
      arith,
      h.unique z,
      numbered-append existing_key flag_id z fs (f ∷ []),
      ==_iff f.id z,
      (λ (p : f.id ≡ z). ap (λ (t : ℤ). numbered_flags t fs) p),
    );
    pooled = λ z k. omega (arith, h.pooled z k, stored-append existing_key flag_id z k fs (f ∷ []));
  }

  -- What the loop over the desired flags does to the counts of a key.
  record Posted (pool : Pool) (ds : List ChallengeFlag) (fs : List Flag) (pool' : Pool)
      (fs' : List Flag) : Type 0 where
    still : IsPooled pool' fs'
    balance :
        (k : String)
        → keyed_flags k fs' + held k pool ≡ keyed_flags k fs + wanted k ds + held k pool'

  post_missing_flags-Posted :
      (pool : Pool) (ds : List ChallengeFlag) (w w' : W) (pool' : Pool)
      → IsPooled pool (flags w)
      → post_missing_flags client cid pool ds w ≡ (ok pool', w')
      → Posted pool ds (flags w) pool' (flags w')
  unfolding post_missing_flags
  post_missing_flags-Posted pool [] w w' pool' h e =
      let p : pool ≡ pool' = cc in
      let q : w ≡ w' = cc in rw (← p, ← q) (record { still = h; balance = λ k. omega arith })
  post_missing_flags-Posted pool (d ∷ ds) w w' pool' h e =
      elim (List-cases (ids_at (desired_key d) pool)) [
        | inl none_left ↦
            let (_, w₁, p, rest) = continue-eq-ok _ _ (rw (none_left, post_missing_flags) at e) in
            let (f, q, fresh, c, t, o) = server.posted w w₁ (flag_params client cid d) refl p in
            let r =
              post_missing_flags-Posted pool ds w₁ w' pool'
                (rw q (IsPooled-append pool (flags w) f fresh h)) rest in
            record {
              still = r.still;
              balance = λ k. omega (
                arith,
                r.balance k,
                ap (keyed_flags k) q,
                keyed-append existing_key flag_id k (flags w) (f ∷ []),
                ap {B = ℕ} (λ (x : String). if x == k then 1 else 0) (posted_key d f c t o),
              );
            }
        | inr (id, ids, found) ↦
            let r =
              post_missing_flags-Posted (insert (desired_key d) ids pool) ds w w' pool'
                (IsPooled-take pool (flags w) (desired_key d) id ids found h)
                (rw (found, post_missing_flags) at e) in
            record {
              still = r.still;
              balance = λ k.
                  ground
                    (arith, r.balance k, held-insert k (desired_key d) ids pool, ap length found);
            }
      ]

  -- The counts after the removal of IDs that stand under one key.
  record Deleted (share : Pool) (fs fs' : List Flag) : Type 0 where
    unique : UniqueIds fs'
    fewer_ids : (z : ℤ) (k : String) → stored_flags z k fs' + tagged z k share ≡ stored_flags z k fs
    fewer : (k : String) → keyed_flags k fs' + held k share ≡ keyed_flags k fs

  delete_flags-Deleted :
      (k : String) (ids : List ℤ) (w w' : W)
      → UniqueIds (flags w)
      → ((z : ℤ) → count z ids ≤ stored_flags z k (flags w))
      → delete_flags client ids w ≡ (ok tt, w')
      → Deleted ((k, ids) ∷ []) (flags w) (flags w')
  unfolding delete_flags
  delete_flags-Deleted k [] w w' one fits e =
      let q : w ≡ w' = cc in
      rw (← q) (record { unique = one; fewer_ids = λ z j. ground arith; fewer = λ j. ground arith })
  delete_flags-Deleted k (id ∷ ids) w w' one fits e =
      let (_, w₁, p, rest) = continue-eq-ok _ _ e in
      let q = server.deleted w w₁ id p in
      let here : 1 ≤ stored_flags id k (flags w) = ground (arith, fits id, ==_refl id) in
      let r =
        delete_flags-Deleted k ids w₁ w'
          (rw q (λ z. le_trans (numbered-remove existing_key flag_id id z (flags w)) (one z)))
          (rw q (λ z. ground (
            arith,
            fits z,
            stored-remove existing_key flag_id id k (flags w) z k here (one id),
            ==_refl k,
          )))
          rest in
      record {
        unique = r.unique;
        fewer_ids = λ z j. ground (
          arith,
          r.fewer_ids z j,
          ap (stored_flags z j) q,
          stored-remove existing_key flag_id id k (flags w) z j here (one id),
        );
        fewer = λ j. ground (
          arith,
          r.fewer j,
          ap (keyed_flags j) q,
          keyed-remove existing_key flag_id id k (flags w) j here (one id),
        );
      }

  delete_unmatched-Deleted :
      (pool : Pool) (w w' : W)
      → UniqueIds (flags w)
      → ((z : ℤ) (k : String) → tagged z k pool ≤ stored_flags z k (flags w))
      → delete_unmatched client pool w ≡ (ok tt, w')
      → Deleted pool (flags w) (flags w')
  unfolding delete_unmatched
  delete_unmatched-Deleted [] w w' one fits e =
      let q : w ≡ w' = cc in
      rw (← q) (record { unique = one; fewer_ids = λ z k. omega arith; fewer = λ k. omega arith })
  delete_unmatched-Deleted ((k, ids) ∷ pool) w w' one fits e =
      let (_, w₁, p, rest) = continue-eq-ok _ _ e in
      let first =
        delete_flags-Deleted k ids w w₁ one (λ z. ground (arith, fits z k, ==_refl k)) p in
      let r =
        delete_unmatched-Deleted pool w₁ w' first.unique
          (λ z j. omega (arith, fits z j, first.fewer_ids z j)) rest in
      record {
        unique = r.unique;
        fewer_ids = λ z j. omega (arith, r.fewer_ids z j, first.fewer_ids z j);
        fewer = λ j. omega (arith, r.fewer j, first.fewer j);
      }

  -- If `syncFlags` returns without an error, the flags of the challenge are then exactly the desired
  -- ones, in any order: the next observation finds them up to date. It holds for every order in
  -- which `range` walks the pool, from any flags with distinct IDs, if the calls on flags that
  -- succeed do what they say.
  pub sync_flags_settles :
      (walk : Pool → Pool)
      → ((pool : Pool) → Perm (walk pool) pool)
      → (desired : List ChallengeFlag) (w w' : W) → UniqueIds (flags w)
      → sync_flags client walk cid desired w ≡ (ok tt, w')
      → flags_up_to_date desired (flags w') ≡ true
  unfolding sync_flags
  sync_flags_settles walk order desired w w' one e =
      let (listing, w₁, p, e₀) = continue-eq-ok _ _ e in
      let (fs, w₁', given, e₁) = continue-eq-ok (dereferenced listing, w₁) _ e₀ in
      let (pool, w₂, q, e₂) = continue-eq-ok _ _ e₁ in
      let (all, kept) = server.listed w w₁ listing p in
      let found : dereferenced listing ≡ ok (flags w) =
        ap dereferenced all ∙ dereferenced-map (flags w) in
      let same : fs ≡ flags w = cc (given, found) in
      let unmoved : w₁' ≡ w₁ = cc (given) in
      let start = pool_into existing_key flag_id [] fs in
      let stays : flags w₁ ≡ fs = kept ∙ sym same in
      let posted =
        post_missing_flags-Posted start desired w₁ w₂ pool
          (record {
            unique = rw kept one;
            pooled = λ z k. omega (
              arith,
              tagged-pool_into existing_key flag_id z k [] fs,
              ap (stored_flags z k) stays,
            );
          })
          (subst
            (λ u.
              post_missing_flags client cid (pool_into existing_key flag_id [] fs) desired u
              ≡ (ok pool, w₂))
            unmoved q) in
      let done =
        delete_unmatched-Deleted (walk pool) w₂ w' posted.still.unique
          (λ z k. omega (arith, tagged-perm z k (order pool), posted.still.pooled z k)) e₂ in
      (flags_up_to_date_iff desired (flags w')).1 (λ k. omega (
        arith,
        done.fewer k,
        held-perm k (order pool),
        posted.balance k,
        held-pool_into existing_key flag_id k [] fs,
        ap (keyed_flags k) stays,
        keyed-count existing_key flag_id k (flags w'),
      ))
