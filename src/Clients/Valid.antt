-- ===== src/Clients/Valid.antt =====
-- Which credentials make a client.
use ctfd_crossplane_provider.Prelude.{String, ◌≡◌, ◌≢◌, refl, ◌↔◌, ◌⊎◌, arith, ==_iff, string_eq}
use ctfd_crossplane_provider.Result.{Result, ok, err, panic, out_of_fuel}
use ctfd_crossplane_provider.Clients.{Credentials, checked_client, parsed_client, new_client}

-- A URL, and an API key or a session with a nonce.
abbrev pub IsValid : Credentials → Type 0
IsValid c = (c.url ≢ "") × ((c.api_key ≢ "") ⊎ ((c.session ≢ "") × (c.nonce ≢ "")))

module _ {C : Type 0} (connect : String → String → String → String → C) where
  only_valid :
      (c : Credentials) (client : C)
      → checked_client connect c ≡ ok client
      → IsValid c × (client ≡ connect c.url c.nonce c.session c.api_key)
  unfolding checked_client
  only_valid c client e =
      ground
        (arith, e, ==_iff c.url "", ==_iff c.api_key "", ==_iff c.session "", ==_iff c.nonce "")

  if_valid :
      (c : Credentials)
      → IsValid c
      → checked_client connect c ≡ ok (connect c.url c.nonce c.session c.api_key)
  unfolding checked_client
  if_valid c v =
      ground
        (arith, v, ==_iff c.url "", ==_iff c.api_key "", ==_iff c.session "", ==_iff c.nonce "")

  parsed :
      (r : Result Credentials) (client : C)
      → parsed_client connect r ≡ ok client
      → (c : Credentials) × (r ≡ ok c)
        × IsValid c
        × (client ≡ connect c.url c.nonce c.session c.api_key)
  unfolding parsed_client
  parsed (ok c) client e = let (v, q) = only_valid c client e in (c, refl, v, q)
  parsed (err x) client e = cc
  parsed panic client e = cc
  parsed out_of_fuel client e = cc

module _ {C D : Type 0} (unmarshal : D → Result Credentials)
    (connect : String → String → String → String → C) where
  -- Bytes make a client exactly when they are the JSON of credentials with a URL and with an API key
  -- or a session and a nonce, and the client is then the one of these four strings.
  pub new_client_iff :
      (bytes : D) (client : C)
      → (new_client unmarshal connect bytes ≡ ok client) ↔ (
          (c : Credentials) × (unmarshal bytes ≡ ok c)
          × IsValid c
          × (client ≡ connect c.url c.nonce c.session c.api_key))
  unfolding new_client parsed_client
  new_client_iff bytes client =
      (parsed connect (unmarshal bytes) client, λ (c, e, v, q). rw (e, q) (if_valid connect c v))
