-- ===== src/Challenge/HintSync/Create.antt =====
-- What `createMissingHints` does to the hints.
use mathlib.Core.Path.{subst}
use ctfd_crossplane_provider.Prelude.{
  String, ℤ, is_negative, ◌≡◌, refl, sym, ap, ◌∙◌, inl, inr, true, false, length, Option, some,
  List, [], ◌∷◌, ◌++◌, arith, if◌then◌else◌, ◌==◌, ==_iff, int_eq, string_eq, Bool-cases,
}
use ctfd_crossplane_provider.Result.{ok}
use ctfd_crossplane_provider.Exec.{Exec, pure, continue, continue-eq-ok, ◌>>=◌}
use ctfd_crossplane_provider.Ctfd.{Hint}
use ctfd_crossplane_provider.CtfdClient.{Client}
use ctfd_crossplane_provider.Apis.Challenge.{ChallengeHint}
use ctfd_crossplane_provider.Challenge.Keys.{deref_string, hint_key}
use ctfd_crossplane_provider.Challenge.Hints.{desired_hint_key, existing_hint_key, prereqs_of}
use ctfd_crossplane_provider.Challenge.Hints.Queues.{keyed_ids, append_assoc, append-nil}
use ctfd_crossplane_provider.Challenge.Hints.Filled.{Filled, Nonneg, created}
use ctfd_crossplane_provider.Challenge.HintSync.{create_missing_hints, hint_params}
use ctfd_crossplane_provider.Challenge.HintSync.Lookup.{numbered_hints, newest, numbered-append}
use ctfd_crossplane_provider.Challenge.HintSync.Server.{ValidIds, HintServer}

pub record Created (ds : List ChallengeHint) (planned filled : List ℤ) (before after : List Hint)
    : Type 0 where
  pub news : List Hint
  pub appended : after ≡ before ++ news
  pub keyed : (k : String) → keyed_ids k news ≡ created k ds planned filled
  pub valid : ValidIds after
  pub filled_in : Filled planned filled
  pub nonneg : Nonneg filled
  pub bare : (z : ℤ) (o : Option Hint) → prereqs_of o ≡ [] → prereqs_of (newest z o news) ≡ []

-- A hint with the fields of a desired one has its key.
pub existing_hint_key-eq :
    (h : Hint) (d : ChallengeHint)
    → deref_string h.content ≡ d.content
    → deref_string h.title ≡ deref_string d.title
    → h.cost ≡ d.cost
    → existing_hint_key h ≡ desired_hint_key d
unfolding hint_key
existing_hint_key-eq h d c t n = cc

ValidIds-snoc :
    (hs : List Hint) (h : Hint)
    → ValidIds hs
    → numbered_hints h.id hs ≡ 0
    → is_negative h.id ≡ false
    → ValidIds (hs ++ h ∷ [])
ValidIds-snoc hs h v fresh exists = record {
  unique = λ z. ground (
    arith,
    numbered-append z hs (h ∷ []),
    v.unique z,
    fresh,
    ==_iff h.id z,
    (λ (p : h.id ≡ z). ap (λ (y : ℤ). numbered_hints y hs) p),
  );
  nonneg = λ z n. elim (Bool-cases (h.id == z)) [
    | inl here ↦ subst (λ y. is_negative y ≡ false) ((==_iff h.id z).0 here) exists
    | inr there ↦ v.nonneg z (ground (arith, numbered-append z hs (h ∷ []), n, there))
  ];
}

module _ {W : Type 0} (client : Client W) (cid : ℤ) (hints : W → List Hint)
    (server : HintServer client cid hints) where
  kept :
      (d : ChallengeHint) (ds : List ChallengeHint) (p : ℤ) (ps fs : List ℤ)
      (before after : List Hint)
      → is_negative p ≡ false
      → Created ds ps fs before after
      → Created (d ∷ ds) (p ∷ ps) (p ∷ fs) before after
  kept d ds p ps fs before after exists c = record {
    news = c.news;
    appended = c.appended;
    keyed = λ k. ground (arith, c.keyed k, exists);
    valid = c.valid;
    filled_in = (λ _. refl, c.filled_in);
    nonneg = (exists, c.nonneg);
    bare = c.bare;
  }

  added :
      (d : ChallengeHint) (ds : List ChallengeHint) (p : ℤ) (ps fs : List ℤ)
      (before after : List Hint) (h : Hint)
      → is_negative p ≡ true
      → is_negative h.id ≡ false
      → existing_hint_key h ≡ desired_hint_key d
      → prereqs_of (some h) ≡ []
      → Created ds ps fs (before ++ h ∷ []) after
      → Created (d ∷ ds) (p ∷ ps) (h.id ∷ fs) before after
  added d ds p ps fs before after h gone exists same none_required c = record {
    news = h ∷ c.news;
    appended = c.appended ∙ append_assoc before (h ∷ []) c.news;
    keyed = λ k.
        let rest = c.keyed k in (λ i. if same i == k then h.id ∷ rest i else rest i) ∙ counted k;
    valid = c.valid;
    filled_in = (λ e. cc, c.filled_in);
    nonneg = (exists, c.nonneg);
    bare = λ z o e. elim (Bool-cases (h.id == z)) [
      | inl here ↦ rw here (c.bare z (some h) none_required)
      | inr there ↦ rw there (c.bare z o e)
    ];
  }
    where
      counted :
          (k : String)
          → (if desired_hint_key d == k then h.id ∷ created k ds ps fs else created k ds ps fs)
            ≡ created k (d ∷ ds) (p ∷ ps) (h.id ∷ fs)
      counted k = ground (arith, gone)

  pub create_missing_hints-Created :
      (ds : List ChallengeHint) (planned filled : List ℤ) (w w' : W)
      → length planned ≡ length ds
      → ValidIds (hints w)
      → create_missing_hints client cid ds planned w ≡ (ok filled, w')
      → Created ds planned filled (hints w) (hints w')
  unfolding create_missing_hints
  create_missing_hints-Created [] [] filled w w' n v e =
      let none_filled : [] ≡ filled = cc in
      let same : w ≡ w' = cc in
      subst (λ fs. Created [] [] fs (hints w) (hints w')) none_filled
        (subst (λ u. Created [] [] [] (hints w) (hints u)) same
          (record {
            news = [];
            appended = sym (append-nil (hints w));
            keyed = λ k. refl;
            valid = v;
            filled_in = tt;
            nonneg = tt;
            bare = λ z o q. q;
          }))
  create_missing_hints-Created [] (p ∷ ps) filled w w' n v e = absurd (omega (arith, n))
  create_missing_hints-Created (d ∷ ds) [] filled w w' n v e = cc
  create_missing_hints-Created (d ∷ ds) (p ∷ ps) filled w w' n v e =
      elim (Bool-cases (is_negative p)) [
        | inr exists ↦
            let run = create_missing_hints client cid ds ps w in
            let here : create_missing_hints client cid (d ∷ ds) (p ∷ ps) w
                ≡ continue run (λ rest. pure (p ∷ rest)) =
              rw (exists, create_missing_hints) refl in
            let (fs, w₁, q, end) = continue-eq-ok run (λ rest. pure (p ∷ rest)) (sym here ∙ e) in
            let all : p ∷ fs ≡ filled = cc (end) in
            let same : w₁ ≡ w' = cc (end) in
            let c = create_missing_hints-Created ds ps fs w w₁ (omega (arith, n)) v q in
            subst (λ xs. Created (d ∷ ds) (p ∷ ps) xs (hints w) (hints w')) all
              (subst (λ u. Created (d ∷ ds) (p ∷ ps) (p ∷ fs) (hints w) (hints u)) same
                (kept d ds p ps fs (hints w) (hints w₁) exists c))
        | inl gone ↦
            let post = client.post_hints (hint_params client cid d) w in
            let here : create_missing_hints client cid (d ∷ ds) (p ∷ ps) w
                ≡ continue post (after_post d ds ps) =
              rw (gone, create_missing_hints) refl in
            let (h, w₁, q, e₁) = continue-eq-ok post (after_post d ds ps) (sym here ∙ e) in
            let (fs, w₂, r, end) =
              continue-eq-ok (create_missing_hints client cid ds ps w₁) (λ rest. pure (h.id ∷ rest))
                e₁ in
            let (grown, fresh, exists, content, title, cost, bare) =
              server.posted w w₁ (hint_params client cid d) h refl q in
            let all : h.id ∷ fs ≡ filled = cc (end) in
            let same : w₂ ≡ w' = cc (end) in
            let c =
              create_missing_hints-Created ds ps fs w₁ w₂ (omega (arith, n))
                (subst ValidIds (sym grown) (ValidIds-snoc (hints w) h v fresh exists)) r in
            subst (λ xs. Created (d ∷ ds) (p ∷ ps) xs (hints w) (hints w')) all
              (subst (λ u. Created (d ∷ ds) (p ∷ ps) (h.id ∷ fs) (hints w) (hints u)) same
                (added d ds p ps fs (hints w) (hints w₂) h gone exists
                  (existing_hint_key-eq h d content title cost) bare
                  (subst (λ hs. Created ds ps fs hs (hints w₂)) grown c)))
      ]
    where
      after_post : ChallengeHint → List ChallengeHint → List ℤ → Hint → Exec W (List ℤ)
      after_post d ds ps h = create_missing_hints client cid ds ps >>= λ rest. pure (h.id ∷ rest)
