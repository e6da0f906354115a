-- ===== src/Challenge/HintSync/Reads.antt =====
-- What `challengeHints` returns: the hints of the challenge.
use mathlib.Core.Path.{subst}
use ctfd_crossplane_provider.Prelude.{
  ◌≤◌, ℤ, ◌≡◌, sym, ap, ◌∙◌, none, some, List, [], ◌∷◌, ◌++◌, map, arith, ==_iff, ==_refl, int_eq,
}
use ctfd_crossplane_provider.Result.{ok}
use ctfd_crossplane_provider.Exec.{continue-eq-ok}
use ctfd_crossplane_provider.Ctfd.{Hint}
use ctfd_crossplane_provider.CtfdClient.{Client}
use ctfd_crossplane_provider.Challenge.Hints.{hint_id}
use ctfd_crossplane_provider.Challenge.Hints.Queues.{append_assoc}
use ctfd_crossplane_provider.Challenge.HintSync.{full_hints, challenge_hints}
use ctfd_crossplane_provider.Challenge.HintSync.Lookup.{
  numbered_hints, hint_at, newest-append, newest_absent, numbered-append,
}
use ctfd_crossplane_provider.Challenge.HintSync.Server.{ValidIds, HintServer}

-- A hint in a list is the one with its ID.
hint_at-middle :
    (before : List Hint) (h : Hint) (after : List Hint)
    → numbered_hints h.id (before ++ h ∷ after) ≤ 1
    → hint_at h.id (before ++ h ∷ after) ≡ some h
hint_at-middle before h after one =
    newest-append h.id none before (h ∷ after)
    ∙ rw (==_refl h.id) (
        newest_absent h.id (some h) after
          (ground (arith, one, numbered-append h.id before (h ∷ after), ==_refl h.id)))

module _ {W : Type 0} (client : Client W) (cid : ℤ) (hints : W → List Hint)
    (server : HintServer client cid hints) where
  full_hints-eq :
      (before after listed full : List Hint) (w w' : W)
      → hints w ≡ before ++ after
      → ValidIds (hints w)
      → map hint_id listed ≡ map hint_id after
      → full_hints client (map some listed) w ≡ (ok full, w')
      → (full ≡ after) × (hints w' ≡ hints w)
  unfolding full_hints
  full_hints-eq before [] [] full w w' all v ids e = (cc, ap hints (cc))
  full_hints-eq before (a ∷ after) [] full w w' all v ids e = cc
  full_hints-eq before [] (h ∷ listed) full w w' all v ids e = cc
  full_hints-eq before (a ∷ after) (h ∷ listed) full w w' all v ids e =
      let same_id : h.id ≡ a.id = cc (ids) in
      let one_there : 1 ≤ numbered_hints h.id (hints w) = ground (
        arith,
        ap (numbered_hints h.id) all,
        numbered-append h.id before (a ∷ after),
        ap (numbered_hints h.id) all,
        (==_iff h.id a.id).1 same_id,
        (==_iff a.id h.id).1 (sym same_id),
      ) in
      let (g, w₁, p, e₁) = continue-eq-ok _ _ e in
      let (rest, w₂, q, e₂) = continue-eq-ok _ _ e₁ in
      let (found, kept) = server.got w w₁ h.id g one_there p in
      let here : hint_at h.id (hints w) ≡ some a =
        ap (hint_at h.id) all
        ∙ subst (λ z. hint_at z (before ++ a ∷ after) ≡ some a) (sym same_id)
            (hint_at-middle before a after
              (subst (λ l. numbered_hints a.id l ≤ 1) all (v.unique a.id))) in
      let (same, unchanged) =
        full_hints-eq (before ++ a ∷ []) after listed rest w₁ w₂
          (kept ∙ all ∙ sym (append_assoc before (a ∷ []) after)) (subst ValidIds (sym kept) v)
          (cc (ids)) q in
      let g≡a : g ≡ a = cc (found, here) in
      let shape : g ∷ rest ≡ full = cc (e₂) in
      let last : w₂ ≡ w' = cc (e₂) in
      (sym shape ∙ (λ i. g≡a i ∷ same i), ap hints (sym last) ∙ unchanged ∙ kept)

  -- `challengeHints` returns the hints of the challenge, in order, and changes none.
  pub challenge_hints-eq :
      (full : List Hint) (w w' : W)
      → ValidIds (hints w)
      → challenge_hints client cid w ≡ (ok full, w')
      → (full ≡ hints w) × (hints w' ≡ hints w)
  unfolding challenge_hints
  challenge_hints-eq full w w' v e =
      let (listed, w₁, p, e₁) = continue-eq-ok _ _ e in
      let (hs, given, ids, kept) = server.listed w w₁ listed p in
      let (same, unchanged) =
        full_hints-eq [] (hints w) hs full w₁ w' kept (subst ValidIds (sym kept) v) ids
          (subst (λ ps. full_hints client ps w₁ ≡ (ok full, w')) given e₁) in
      (same, unchanged ∙ kept)
