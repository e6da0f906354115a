-- ===== src/Examples/Instance.antt =====
-- A CTFd instance in memory, for one challenge: its flags and its hints. Every call succeeds that the
-- examples make.
use ctfd_crossplane_provider.Prelude.{
  map, ℕ, suc, ◌+◌, ◌≤◌, String, ℤ, pos, ◌≡◌, refl, sym, ◌∙◌, Option, none, some, List, [], ◌∷◌,
  ◌++◌, arith, if◌then◌else◌, ◌==◌, ==_iff, ap, string_eq, int_eq,
}
use ctfd_crossplane_provider.Result.{Result, ok, err, external}
use ctfd_crossplane_provider.Exec.{Exec}
use ctfd_crossplane_provider.Strconv.Digits.{itoa}
use ctfd_crossplane_provider.Strconv.RoundTrip.{itoa-injective}
use ctfd_crossplane_provider.Ctfd.{Flag, Hint, CtfdChallenge, PostFlagsParams, PostChallengesParams}
use ctfd_crossplane_provider.CtfdClient.{Client}
use ctfd_crossplane_provider.Challenge.Flags.Server.{FlagServer, numbered_flags, remove_flag}
use ctfd_crossplane_provider.Challenge.Flags.Stable.{Succeeds}
use ctfd_crossplane_provider.Examples.HintStore.{
  magnitude, other, new_hint, named, patched, without as without_hint,
}

abbrev pub World : Type 0
World = List Flag × List Hint

-- A number above every ID.
abbrev pub unused : List Flag → ℕ
unused [] = 1
unused (f ∷ fs) = suc (magnitude f.id) + unused fs

numbered-unused : (fs : List Flag) (m : ℕ) → unused fs ≤ m → numbered_flags (pos m) fs ≡ 0
numbered-unused [] m h = refl
numbered-unused (f ∷ fs) m h =
    ground (arith, numbered-unused fs m (omega (arith, h)), other f.id m (unused fs) h)

abbrev pub new_flag : PostFlagsParams → List Flag → Flag
new_flag q fs = record {
  id = pos (unused fs);
  content = q.content;
  type = q.type;
  options = q.options;
}

abbrev pub without : String → List Flag → List Flag
without name [] = []
without name (f ∷ fs) = if itoa f.id == name then without name fs else f ∷ without name fs

without-itoa : (z : ℤ) (fs : List Flag) → without (itoa z) fs ≡ remove_flag z fs
without-itoa z [] = refl
without-itoa z (f ∷ fs) =
    ground
      (arith, without-itoa z fs, ==_iff (itoa f.id) (itoa z), ==_iff f.id z, itoa-injective f.id z)

-- A challenge that CTFd reports with a payload's fields.
abbrev pub reported : ℤ → PostChallengesParams → CtfdChallenge
reported id q = record {
  id = id;
  name = q.name;
  category = q.category;
  description = q.description;
  type = q.type;
  state = q.state;
  value = q.value;
  solves = pos 0;
  initial = q.initial;
  decay = q.decay;
  minimum = q.minimum;
  max_attempts = q.max_attempts;
  next_id = q.next_id;
  function = q.function;
  connection_info = q.connection_info;
  attribution = q.attribution;
}

abbrev refusal : {A : Type 0} → Exec World A
refusal w = (err (external "not found"), w)

abbrev pub or_refusal : Option Hint → Exec World Hint
or_refusal (some h) w = (ok h, w)
or_refusal none w = refusal w

abbrev pub instance_client : Client World
instance_client = record {
  get_challenge = λ cid. refusal;
  get_challenge_requirements = λ cid w. ((none, none), w);
  get_challenge_flags = λ cid w. (ok (map some w.0), w);
  get_challenge_hints = λ cid w. (ok (map some w.1), w);
  get_hint = λ name w. or_refusal (named name none w.1) w;
  post_challenges = λ q w. (ok (reported (pos 7) q), w);
  patch_challenge = λ cid q w. (ok tt, w);
  delete_challenge = λ cid w. (ok tt, w);
  post_flags = λ q w. (ok tt, (w.0 ++ new_flag q w.0 ∷ [], w.1));
  delete_flag = λ name w. (ok tt, (without name w.0, w.1));
  post_hints = λ q w. (ok (new_hint q w.1), (w.0, w.1 ++ new_hint q w.1 ∷ []));
  patch_hint = λ name q w. (ok tt, (w.0, patched name q w.1));
  delete_hint = λ name w. (ok tt, (w.0, without_hint name w.1));
}

abbrev pub flags_of : World → List Flag
flags_of w = w.0

pub instance_server : FlagServer instance_client (pos 7) flags_of
instance_server = record {
  listed = λ w w' fs e. (cc, cc);
  posted = λ w w' q c e. (
    new_flag q w.0,
    ap flags_of (sym (moved e)),
    numbered-unused w.0 (unused w.0) (omega arith),
    refl,
    refl,
    refl,
  );
  deleted = λ w w' z e. ap flags_of (sym (moved e)) ∙ without-itoa z w.0;
}
  where
    moved :
        {A : Type 0} {a b : A} {w w' : World}
        → ◌≡◌ {A = Result A × World} (ok a, w) (ok b, w')
        → w ≡ w'
    moved e = cc

pub instance_calls : Succeeds instance_client (pos 7)
instance_calls = record {
  lists = λ w. (w.0, w, refl);
  posts = λ q w. (_, refl);
  deletes = λ z w. (_, refl);
}
