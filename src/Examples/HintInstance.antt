-- ===== src/Examples/HintInstance.antt =====
-- What `syncHints` relies on, at the instance in memory.
use mathlib.Core.Path.{subst}
use ctfd_crossplane_provider.Prelude.{
  pos, is_negative, false, ◌≡◌, refl, sym, ◌∙◌, ap, Option, none, some, List, [], ◌∷◌, ◌++◌, map,
  arith,
}
use ctfd_crossplane_provider.Result.{Result, ok}
use ctfd_crossplane_provider.Strconv.Digits.{itoa}
use ctfd_crossplane_provider.Ctfd.{Hint, PostHintsParams}
use ctfd_crossplane_provider.Challenge.Keys.{deref_string}
use ctfd_crossplane_provider.Challenge.Hints.{prereqs_of}
use ctfd_crossplane_provider.Challenge.HintSync.Lookup.{numbered_hints}
use ctfd_crossplane_provider.Challenge.HintSync.Server.{HintServer}
use ctfd_crossplane_provider.Challenge.HintSync.Returns.{HintCalls}
use ctfd_crossplane_provider.Examples.HintStore.{
  unused, numbered-unused, new_hint, changed, named, named-itoa, newest-some, without-itoa,
  patched-itoa,
}
use ctfd_crossplane_provider.Examples.Instance.{World, instance_client, or_refusal}

abbrev pub hints_of : World → List Hint
hints_of w = w.1

found :
    (o : Option Hint) (w w' : World) (h : Hint)
    → or_refusal o w ≡ (ok h, w')
    → (o ≡ some h) × (w ≡ w')
found none w w' h e = cc
found (some g) w w' h e = (cc, cc)

abbrev Posted : World → World → PostHintsParams → Hint → Type 0
Posted w w' q h =
    (hints_of w' ≡ hints_of w ++ h ∷ [])
    × (numbered_hints h.id (hints_of w) ≡ 0)
    × (is_negative h.id ≡ false)
    × (deref_string h.content ≡ q.content)
    × (deref_string h.title ≡ deref_string q.title)
    × (h.cost ≡ q.cost)
    × (prereqs_of (some h) ≡ [])

pub hint_server : HintServer instance_client (pos 7) hints_of
unfolding prereqs_of
hint_server = record {
  listed = λ w w' ps e. (w.1, sym (listing_of e), refl, ap hints_of (sym (moved e)));
  got = λ w w' z h there e.
      let (here, same) = found (named (itoa z) none w.1) w w' h e in
      (sym (named-itoa z none w.1) ∙ here, ap hints_of (sym same));
  posted = λ w w' q h mine e.
      let new : new_hint q w.1 ≡ h = cc (e) in
      subst (Posted w w' q) new (
        ap hints_of (sym (moved e)),
        numbered-unused w.1 (unused w.1) (omega arith),
        refl,
        refl,
        refl,
        refl,
        refl,
      );
  patched = λ w w' z q mine there e. (
    changed z q,
    ap hints_of (sym (moved e)) ∙ patched-itoa z q w.1,
    refl,
    refl,
    refl,
    refl,
    refl,
    λ setting set. set,
  );
  deleted = λ w w' z e. ap hints_of (sym (moved e)) ∙ without-itoa z w.1;
}
  where
    listing_of :
        {w w' : World} {ps : List (Option Hint)}
        → ◌≡◌ {A = Result (List (Option Hint)) × World} (ok (map some w.1), w) (ok ps, w')
        → map some w.1 ≡ ps
    listing_of e = cc (e)

    moved :
        {A : Type 0} {a b : A} {w w' : World}
        → ◌≡◌ {A = Result A × World} (ok a, w) (ok b, w')
        → w ≡ w'
    moved e = cc

pub hint_calls : HintCalls instance_client (pos 7) hints_of
hint_calls = record {
  lists = λ w. (w.1, w, refl);
  gets = λ z w n.
      let (h, here) = newest-some z w.1 n in
      (h, w, ap (λ o. or_refusal o w) (named-itoa z none w.1 ∙ here));
  posts = λ q w mine. (_, _, refl);
  patches = λ z q w n. (_, refl);
  deletes = λ z w n. (_, refl);
}
