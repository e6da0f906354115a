-- ===== src/Challenge/HintSync/Delete.antt =====
-- What the deletions of `syncHints` do to the hints.
use ctfd_crossplane_provider.Prelude.{
  ◌≤◌, String, ℤ, ◌≡◌, refl, sym, ap, ◌∙◌, none, List, [], ◌∷◌, ◌++◌, arith, if◌then◌else◌, count,
  ◌==◌, ==_iff, ==_refl, int_eq, string_eq,
}
use ctfd_crossplane_provider.Result.{ok}
use ctfd_crossplane_provider.Exec.{continue-eq-ok}
use ctfd_crossplane_provider.Ctfd.{Hint}
use ctfd_crossplane_provider.CtfdClient.{Client}
use ctfd_crossplane_provider.Challenge.Pool.Stored.{numbered-remove}
use ctfd_crossplane_provider.Challenge.Hints.{existing_hint_key, hint_id}
use ctfd_crossplane_provider.Challenge.Hints.Queues.{keyed_ids}
use ctfd_crossplane_provider.Challenge.HintSync.{delete_hints}
use ctfd_crossplane_provider.Challenge.HintSync.Lookup.{
  numbered_hints, remove_hint, hint_at, newest-remove,
}
use ctfd_crossplane_provider.Challenge.HintSync.Server.{HintServer}

abbrev pub drop : ℤ → List ℤ → List ℤ
drop z [] = []
drop z (x ∷ xs) = let rest = drop z xs in if x == z then rest else x ∷ rest

abbrev pub drop_all : List ℤ → List ℤ → List ℤ
drop_all [] xs = xs
drop_all (z ∷ zs) xs = drop_all zs (drop z xs)

abbrev pub remove_all : List ℤ → List Hint → List Hint
remove_all [] hs = hs
remove_all (z ∷ zs) hs = remove_all zs (remove_hint z hs)

keyed_ids-remove :
    (k : String) (z : ℤ) (hs : List Hint) → keyed_ids k (remove_hint z hs) ≡ drop z (keyed_ids k hs)
keyed_ids-remove k z [] = refl
keyed_ids-remove k z (h ∷ hs) = ground (arith, keyed_ids-remove k z hs)

pub keyed_ids-remove_all :
    (k : String) (zs : List ℤ) (hs : List Hint)
    → keyed_ids k (remove_all zs hs) ≡ drop_all zs (keyed_ids k hs)
keyed_ids-remove_all k [] hs = refl
keyed_ids-remove_all k (z ∷ zs) hs =
    keyed_ids-remove_all k zs (remove_hint z hs) ∙ ap (drop_all zs) (keyed_ids-remove k z hs)

pub hint_at-remove_all :
    (y : ℤ) (zs : List ℤ) (hs : List Hint)
    → count y zs ≡ 0
    → hint_at y (remove_all zs hs) ≡ hint_at y hs
hint_at-remove_all y [] hs n = refl
hint_at-remove_all y (z ∷ zs) hs n =
    hint_at-remove_all y zs (remove_hint z hs) (omega (arith, n))
    ∙ newest-remove y z none hs (λ e. absurd (ground (arith, n, (==_iff z y).1 (sym e))))

pub numbered-remove_all :
    (y : ℤ) (zs : List ℤ) (hs : List Hint)
    → numbered_hints y (remove_all zs hs) ≤ numbered_hints y hs
numbered-remove_all y [] hs = omega arith
numbered-remove_all y (z ∷ zs) hs = omega (
  arith,
  numbered-remove_all y zs (remove_hint z hs),
  numbered-remove existing_hint_key hint_id z y hs,
)

drop-append : (z : ℤ) (xs ys : List ℤ) → drop z (xs ++ ys) ≡ drop z xs ++ drop z ys
drop-append z [] ys = refl
drop-append z (x ∷ xs) ys = ground (arith, drop-append z xs ys)

pub drop_all-append :
    (zs xs ys : List ℤ) → drop_all zs (xs ++ ys) ≡ drop_all zs xs ++ drop_all zs ys
drop_all-append [] xs ys = refl
drop_all-append (z ∷ zs) xs ys =
    ap (drop_all zs) (drop-append z xs ys) ∙ drop_all-append zs (drop z xs) (drop z ys)

drop_absent : (z : ℤ) (xs : List ℤ) → count z xs ≡ 0 → drop z xs ≡ xs
drop_absent z [] n = refl
drop_absent z (x ∷ xs) n = ground (arith, drop_absent z xs)

count-drop : (y z : ℤ) (xs : List ℤ) → count y (drop z xs) ≡ (if z == y then 0 else count y xs)
count-drop y z [] = ground arith
count-drop y z (x ∷ xs) = ground (arith, count-drop y z xs, ==_iff x z, ==_iff x y, ==_iff z y)

-- What none of the deletions names stays.
pub drop_all_absent :
    (zs xs : List ℤ) → ((z : ℤ) → 1 ≤ count z xs → count z zs ≡ 0) → drop_all zs xs ≡ xs
drop_all_absent [] xs f = refl
drop_all_absent (z ∷ zs) xs f =
    ap (drop_all zs) (drop_absent z xs (ground (arith, f z, ==_refl z)))
    ∙ drop_all_absent zs xs (λ y n. omega (arith, f y n))

nil_of_count : (xs : List ℤ) → ((z : ℤ) → count z xs ≡ 0) → xs ≡ []
nil_of_count [] f = refl
nil_of_count (x ∷ xs) f = absurd (ground (arith, f x, ==_refl x))

-- Of what they all name nothing stays.
pub drop_all_present :
    (zs xs : List ℤ) → ((z : ℤ) → 1 ≤ count z xs → 1 ≤ count z zs) → drop_all zs xs ≡ []
drop_all_present [] xs f = nil_of_count xs (λ z. ground (arith, f z))
drop_all_present (z ∷ zs) xs f =
    drop_all_present zs (drop z xs) (λ y n. ground (arith, n, f y, count-drop y z xs))

pub delete_hints-eq :
    {W : Type 0} (client : Client W) (cid : ℤ) (hints : W → List Hint)
    → HintServer client cid hints
    → (zs : List ℤ) (w w' : W) → delete_hints client zs w ≡ (ok tt, w')
    → hints w' ≡ remove_all zs (hints w)
unfolding delete_hints
delete_hints-eq client cid hints server [] w w' e = ap hints (cc)
delete_hints-eq client cid hints server (z ∷ zs) w w' e =
    let (_, w₁, p, rest) = continue-eq-ok _ _ e in
    delete_hints-eq client cid hints server zs w₁ w' rest
    ∙ ap (remove_all zs) (server.deleted w w₁ z p)
