-- ===== src/Challenge/HintSync/Server.antt =====
-- What `syncHints` relies on of CTFd: the calls on hints that succeed do what they say, and a change
-- of one hint leaves the others and their order. Nothing is assumed of a call that fails.
use ctfd_crossplane_provider.Prelude.{
  Option, ◌≤◌, String, ℤ, is_negative, ◌≡◌, false, some, List, [], ◌∷◌, ◌++◌, map,
}
use ctfd_crossplane_provider.Result.{ok}
use ctfd_crossplane_provider.Strconv.Digits.{itoa}
use ctfd_crossplane_provider.Ctfd.{Hint, PostHintsParams, PatchHintsParams}
use ctfd_crossplane_provider.CtfdClient.{Client}
use ctfd_crossplane_provider.Challenge.Keys.{deref_string}
use ctfd_crossplane_provider.Challenge.Hints.{hint_id, prereqs_of, anonymize_of}
use ctfd_crossplane_provider.Challenge.HintSync.Lookup.{
  numbered_hints, remove_hint, replace_hint, hint_at,
}

-- No two hints have one ID, and no ID is negative.
pub record ValidIds (hs : List Hint) : Type 0 where
  pub unique : (z : ℤ) → numbered_hints z hs ≤ 1
  pub nonneg : (z : ℤ) → 1 ≤ numbered_hints z hs → is_negative z ≡ false

-- `hints w` are the hints of challenge `cid` in the world `w`, in the order in which CTFd lists them.
pub record HintServer {W : Type 0} (client : Client W) (cid : ℤ) (hints : W → List Hint)
    : Type 0 where
  -- the listing may leave out everything but the IDs
  pub listed :
      (w w' : W) (listing : List (Option Hint))
      → client.get_challenge_hints cid w ≡ (ok listing, w')
      → (hs : List Hint) × (listing ≡ map some hs)
        × (map hint_id hs ≡ map hint_id (hints w))
        × (hints w' ≡ hints w)
  -- a hint of the challenge is read by its ID; nothing is said of the hints of other challenges
  pub got :
      (w w' : W) (z : ℤ) (h : Hint)
      → 1 ≤ numbered_hints z (hints w)
      → client.get_hint (itoa z) w ≡ (ok h, w')
      → (hint_at z (hints w) ≡ some h) × (hints w' ≡ hints w)
  -- a new hint is the last, has the fields of the payload, an ID of its own and no prerequisites
  pub posted :
      (w w' : W) (q : PostHintsParams) (h : Hint)
      → q.challenge_id ≡ cid
      → client.post_hints q w ≡ (ok h, w')
      → (hints w' ≡ hints w ++ h ∷ [])
        × (numbered_hints h.id (hints w) ≡ 0)
        × (is_negative h.id ≡ false)
        × (deref_string h.content ≡ q.content)
        × (deref_string h.title ≡ deref_string q.title)
        × (h.cost ≡ q.cost)
        × (prereqs_of (some h) ≡ [])
  -- a PATCH of a hint of the challenge stores its fields, and the setting `anonymize` if it carries
  -- one
  pub patched :
      (w w' : W) (z : ℤ) (q : PatchHintsParams)
      → q.challenge_id ≡ cid
      → 1 ≤ numbered_hints z (hints w)
      → client.patch_hint (itoa z) q w ≡ (ok tt, w')
      → (h : Hint) × (hints w' ≡ replace_hint z h (hints w))
        × (h.id ≡ z)
        × (deref_string h.content ≡ q.content)
        × (deref_string h.title ≡ deref_string q.title)
        × (h.cost ≡ q.cost)
        × (prereqs_of (some h) ≡ q.requirements.prerequisites)
        × ((setting : String)
            → q.requirements.anonymize ≡ some setting
            → anonymize_of h.requirements ≡ some setting)
  pub deleted :
      (w w' : W) (z : ℤ)
      → client.delete_hint (itoa z) w ≡ (ok tt, w')
      → hints w' ≡ remove_hint z (hints w)
