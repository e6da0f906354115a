-- ===== src/Challenge/Keys/Identity.antt =====
-- Which values share a key (`flagKey` and `hintKey` of flagshints.go).
use Prim.Native.Char.{code}
use Prim.Native.String.{[], ◌∷◌, ◌++◌}
use text.Mathlib.TextLemmas.{
  nil-append, cons-append, append_assoc, head-eq_of_cons-eq, tail-eq_of_cons-eq,
}
use ctfd_crossplane_provider.Prelude.{
  String, ℤ, ◌≡◌, ◌≢◌, refl, sym, ap, ◌∙◌, ◌↔◌, Option, some, arith, ==_iff, string_eq,
}
use ctfd_crossplane_provider.Strconv.Digits.{itoa}
use ctfd_crossplane_provider.Strconv.RoundTrip.{itoa-injective}
use ctfd_crossplane_provider.Challenge.Keys.{
  flag_type_or_default, deref_string, joined, flag_key, hint_key,
}

-- The text holds no NUL character.
abbrev pub NoNul : String → Type 0
NoNul [] = Unit
NoNul (c ∷ s) = (code c ≢ 0) × NoNul s

-- A text with a NUL is cut at its first NUL in one way.
split_at_nul :
    (s t : String) {u v : String}
    → NoNul s
    → NoNul t
    → s ++ ("\0" ∷ u) ≡ t ++ ("\0" ∷ v)
    → (s ≡ t) × (u ≡ v)
split_at_nul [] [] hs ht e = (refl, tail-eq_of_cons-eq (sym (nil-append _) ∙ e ∙ nil-append _))
split_at_nul [] (d ∷ t) hs ht e =
    absurd (ht.0 (sym (ap code (head-eq_of_cons-eq (sym (nil-append _) ∙ e ∙ cons-append d t _)))))
split_at_nul (c ∷ s) [] hs ht e =
    absurd (hs.0 (ap code (head-eq_of_cons-eq (sym (cons-append c s _) ∙ e ∙ nil-append _))))
split_at_nul (c ∷ s) (d ∷ t) hs ht e =
    let e' = sym (cons-append c s _) ∙ e ∙ cons-append d t _ in
    let (p, q) = split_at_nul s t hs.1 ht.1 (tail-eq_of_cons-eq e') in
    (λ i. head-eq_of_cons-eq e' i ∷ p i, q)

nul_cons : (s : String) → "\0" ++ s ≡ "\0" ∷ s
nul_cons s = cons-append "\0" [] s ∙ ap (λ (t : String). "\0" ∷ t) (nil-append s)

joined-injective :
    (a b c a' b' c' : String)
    → NoNul a
    → NoNul b
    → NoNul a'
    → NoNul b'
    → joined a b c ≡ joined a' b' c'
    → (a ≡ a') × (b ≡ b') × (c ≡ c')
joined-injective a b c a' b' c' ha hb ha' hb' e =
    let (p, q) = split_at_nul a a' ha ha' (cut a b c ∙ e ∙ sym (cut a' b' c')) in
    let (r, s) = split_at_nul b b' hb hb' q in (p, r, s)
  where
    cut : (x y z : String) → x ++ ("\0" ∷ (y ++ ("\0" ∷ z))) ≡ joined x y z
    cut x y z = simp nul_cons

-- Two flags whose contents and types hold no NUL character have one key exactly when content, type
-- (after the default) and data are equal.
pub flag_key_iff :
    (c t d c' t' d' : String)
    → NoNul c
    → NoNul (flag_type_or_default t)
    → NoNul c'
    → NoNul (flag_type_or_default t')
    → (flag_key c t d ≡ flag_key c' t' d')
      ↔ ((c ≡ c') × (flag_type_or_default t ≡ flag_type_or_default t') × (d ≡ d'))
unfolding flag_key
flag_key_iff c t d c' t' d' hc ht hc' ht' = (
  joined-injective c (flag_type_or_default t) d c' (flag_type_or_default t') d' hc ht hc' ht',
  λ (p, q, r). cc,
)

-- Two hints whose contents and titles hold no NUL character have one key exactly when content, title
-- (a missing one being the empty text) and cost are equal.
pub hint_key_iff :
    (c : String) (t : Option String) (n : ℤ) (c' : String) (t' : Option String) (n' : ℤ)
    → NoNul c
    → NoNul (deref_string t)
    → NoNul c'
    → NoNul (deref_string t')
    → (hint_key c t n ≡ hint_key c' t' n')
      ↔ ((c ≡ c') × (deref_string t ≡ deref_string t') × (n ≡ n'))
unfolding hint_key
hint_key_iff c t n c' t' n' hc ht hc' ht' = (
  λ e.
      let (p, q, r) =
        joined-injective c (deref_string t) (itoa n) c' (deref_string t') (itoa n') hc ht hc' ht'
          e in
      (p, q, itoa-injective n n' r),
  λ (p, q, r). cc,
)

-- With a NUL character in the content or the title, two different hints have one key: what stands
-- before a NUL in the title of one can stand at the end of the content of the other.
pub hint_key_collides :
    (a b c : String) (n : ℤ)
    → hint_key (a ++ ("\0" ++ b)) (some c) n ≡ hint_key a (some (b ++ ("\0" ++ c))) n
unfolding hint_key
hint_key_collides a b c n = simp append_assoc

-- The default is filled in once: a type that has been filled in stays.
pub flag_type_or_default_idem :
    (t : String) → flag_type_or_default (flag_type_or_default t) ≡ flag_type_or_default t
unfolding flag_type_or_default
flag_type_or_default_idem t = ground (arith, ==_iff t "")
