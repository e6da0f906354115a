-- ===== src/Examples/WholeChallenge.antt =====
-- A CTFd instance in memory that stores a whole challenge, number 7: its fields and requirements
-- beside the flags and hints of the instance.
use mathlib.Core.Path.{subst}
use ctfd_crossplane_provider.Strconv.Digits.{itoa}
use ctfd_crossplane_provider.Prelude.{
  ℤ, pos, ◌≡◌, refl, sym, ◌∙◌, Option, none, some, [], if◌then◌else◌, ◌==◌, string_eq, int_eq,
}
use ctfd_crossplane_provider.Result.{ok}
use ctfd_crossplane_provider.Exec.{Exec}
use ctfd_crossplane_provider.Ctfd.{Hint, CtfdRequirements, CtfdChallenge, PatchChallengeParams}
use ctfd_crossplane_provider.CtfdClient.{Client}
use ctfd_crossplane_provider.Challenge.Conversion.{default_type}
use ctfd_crossplane_provider.Challenge.Conversion.UpToDate.{Enforced}
use ctfd_crossplane_provider.Challenge.Conversion.Drift.{Patched}
use ctfd_crossplane_provider.Challenge.Controller.Server.{
  Stored, beside_flags, beside_hints, ChallengeServer,
}
use ctfd_crossplane_provider.Examples.Instance.{
  World, instance_client, instance_server, or_refusal, reported,
}
use ctfd_crossplane_provider.Examples.HintStore.{named}
use ctfd_crossplane_provider.Examples.HintInstance.{hint_server}

abbrev pub Whole : Type 0
Whole = (CtfdChallenge × Option CtfdRequirements) × World

abbrev or_else : {A : Type 0} → Option A → Option A → Option A
or_else (some a) old = some a
or_else none old = old

or_else-Enforced : {A : Type 0} (want old : Option A) → Enforced want (or_else want old)
or_else-Enforced none old v e = cc (e)
or_else-Enforced (some a) old v e = e

abbrev value_or : Option ℤ → ℤ → ℤ
value_or (some v) old = v
value_or none old = old

abbrev merged : PatchChallengeParams → CtfdChallenge → CtfdChallenge
merged q ch = record ch {
  name = q.name;
  category = q.category;
  description = q.description;
  state = q.state;
  value = if ch.type == default_type then value_or q.value ch.value else ch.value;
  initial = or_else q.initial ch.initial;
  decay = or_else q.decay ch.decay;
  minimum = or_else q.minimum ch.minimum;
  max_attempts = or_else q.max_attempts ch.max_attempts;
  next_id = or_else q.next_id ch.next_id;
  function = or_else q.function ch.function;
  connection_info = or_else q.connection_info ch.connection_info;
  attribution = or_else q.attribution ch.attribution;
}

abbrev below : {A : Type 0} → Exec World A → Exec Whole A
below m (c, w) = let (r, w') = m w in (r, (c, w'))

abbrev pub whole_client : Client Whole
whole_client = record {
  get_challenge = λ cid w. (ok w.0.0, w);
  get_challenge_requirements = λ cid w. ((w.0.1, none), w);
  get_challenge_flags = λ cid. below (instance_client.get_challenge_flags cid);
  get_challenge_hints = λ cid. below (instance_client.get_challenge_hints cid);
  get_hint = λ name. below (instance_client.get_hint name);
  post_challenges =
      λ q w. (ok (reported (pos 7) q), ((reported (pos 7) q, q.requirements), ([], [])));
  patch_challenge = λ cid q w. (ok tt, ((merged q w.0.0, or_else q.requirements w.0.1), w.1));
  delete_challenge = λ cid w. (ok tt, w);
  post_flags = λ q. below (instance_client.post_flags q);
  delete_flag = λ name. below (instance_client.delete_flag name);
  post_hints = λ q. below (instance_client.post_hints q);
  patch_hint = λ name q. below (instance_client.patch_hint name q);
  delete_hint = λ name. below (instance_client.delete_hint name);
}

abbrev pub stored : Whole → Stored
stored w = record { challenge = w.0.0; requirements = w.0.1; flags = w.1.0; hints = w.1.1 }

merged-Patched :
    (q : PatchChallengeParams) (ch : CtfdChallenge) (req : Option CtfdRequirements)
    → Patched q ch (merged q ch) (or_else q.requirements req)
merged-Patched q ch req = record {
  name = refl;
  category = refl;
  description = refl;
  state = refl;
  type = refl;
  value = λ standard v e. rw (standard, e) refl;
  initial = or_else-Enforced q.initial ch.initial;
  decay = or_else-Enforced q.decay ch.decay;
  minimum = or_else-Enforced q.minimum ch.minimum;
  max_attempts = or_else-Enforced q.max_attempts ch.max_attempts;
  next_id = or_else-Enforced q.next_id ch.next_id;
  function = or_else-Enforced q.function ch.function;
  connection_info = or_else-Enforced q.connection_info ch.connection_info;
  attribution = or_else-Enforced q.attribution ch.attribution;
  requirements = λ r e z. rw e refl;
}

unbelow :
    {A : Type 0} (m : Exec World A) (w w' : Whole) (a : A)
    → below m w ≡ (ok a, w')
    → (m w.1 ≡ (ok a, w'.1)) × (w'.0 ≡ w.0)
unbelow m w w' a e = (λ i. ((e i).0, (e i).1.1), sym (λ i. (e i).1.0))

kept_on_get : (o : Option Hint) (w : World) → (or_refusal o w).1 ≡ w
kept_on_get none w = refl
kept_on_get (some h) w = refl

pub whole_server : ChallengeServer whole_client (pos 7) stored
whole_server = record {
  on_flags = record {
    listed = λ w w' fs e.
        instance_server.listed w.1 w'.1 fs
          (unbelow (instance_client.get_challenge_flags (pos 7)) w w' fs e).0;
    posted = λ w w' q mine e.
        instance_server.posted w.1 w'.1 q mine (unbelow (instance_client.post_flags q) w w' tt e).0;
    deleted = λ w w' z e.
        instance_server.deleted w.1 w'.1 z
          (unbelow (instance_client.delete_flag (itoa z)) w w' tt e).0;
  };
  on_hints = record {
    listed = λ w w' hs e.
        hint_server.listed w.1 w'.1 hs
          (unbelow (instance_client.get_challenge_hints (pos 7)) w w' hs e).0;
    got = λ w w' z h there e.
        hint_server.got w.1 w'.1 z h there (unbelow (instance_client.get_hint (itoa z)) w w' h e).0;
    posted = λ w w' q h mine e.
        hint_server.posted w.1 w'.1 q h mine (unbelow (instance_client.post_hints q) w w' h e).0;
    patched = λ w w' z q mine there e.
        hint_server.patched w.1 w'.1 z q mine there
          (unbelow (instance_client.patch_hint (itoa z) q) w w' tt e).0;
    deleted = λ w w' z e.
        hint_server.deleted w.1 w'.1 z (unbelow (instance_client.delete_hint (itoa z)) w w' tt e).0;
  };
  got = λ w w' ch e. (sym (cc (e)), sym (λ i. stored (e i).1));
  required = λ w w' r e. sym (λ i. (e i).0.0);
  reads = λ w. refl;
  patched = λ w w' q e.
      let after : ((merged q w.0.0, or_else q.requirements w.0.1), w.1) ≡ w' = λ i. (e i).1 in
      subst (λ u. Patched q w.0.0 u.0.0 u.0.1 × (u.1.0 ≡ w.1.0) × (u.1.1 ≡ w.1.1)) after
        (merged-Patched q w.0.0 w.0.1, refl, refl);
  lists_flags = λ w w' fs e. sym (λ i. beside_flags (stored (e i).1));
  posts_flag = λ q w w' u e. sym (λ i. beside_flags (stored (e i).1));
  deletes_flag = λ name w w' u e. sym (λ i. beside_flags (stored (e i).1));
  lists_hints = λ w w' hs e. sym (λ i. beside_hints (stored (e i).1));
  gets_hint = λ name w w' h e.
      sym (λ i. beside_hints (stored (e i).1))
      ∙ (λ i. beside_hints (stored (w.0, kept_on_get (named name none w.1.1) w.1 i)));
  posts_hint = λ q w w' h e. sym (λ i. beside_hints (stored (e i).1));
  patches_hint = λ name q w w' u e. sym (λ i. beside_hints (stored (e i).1));
  deletes_hint = λ name w w' u e. sym (λ i. beside_hints (stored (e i).1));
}
