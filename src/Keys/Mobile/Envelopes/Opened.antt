-- ===== src/Keys/Mobile/Envelopes/Opened.antt =====
-- runar-keys/src/mobile.rs: who can open an envelope.
use rust_mono.Prelude.{
  ℕ, ◌≡◌, ◌⊎◌, refl, true, false, String, ◌==◌, eq_refl, none, some, inl, inr, List, [], ◌∷◌,
  is_empty, any,
}
use rust_mono.Prelude.Result.{Result, ok, err, and_then}
use rust_mono.Prelude.HashMap as Map
use rust_mono.Prelude.HashMap.{HashMap, get-insert}
use rust_mono.Prelude.Text.{empty}
use rust_mono.Keys.{
  KeyError, key_not_found, Crypto, EcdsaKeyPair, EnvelopeEncryptedData, encrypt_with_symmetric_key,
  decrypt_with_symmetric_key, decrypt_key_with_ecdsa,
}
use rust_mono.Keys.Ecies.{IsCrypto}
use rust_mono.Keys.Certificates.{Pki}
use rust_mono.Keys.Mobile.{MobileKeyManager}
use rust_mono.Keys.Mobile.Sealing.{
  create_envelope_key, for_network, with_encrypted_data, encrypt_with_envelope, encrypted_part,
  encrypt_for_profile, decrypt_with_profile, decrypt_with_network, try_profiles,
  decrypt_envelope_data,
}
use rust_mono.Keys.Mobile.Owned.{IsOwned}
use rust_mono.Keys.Mobile.Envelopes.{IsFor, encrypt_with_envelope-IsFor}
use rust_mono.Keys.Mobile.Envelopes.Entries.{Has, encrypt_with_envelope-Has}

module _ {R K P Z S C E G : Type 0} (crypto : Crypto R K P Z S C E) (pki : Pki R K P G E)
    (laws : IsCrypto crypto) (m : MobileKeyManager K P) (owned : IsOwned crypto pki m) where
  opened_by_profile :
      (plain envelope_key encrypted : List ℕ) (network_id id : String)
      (envelope : EnvelopeEncryptedData)
      → IsFor crypto pki laws m owned plain envelope_key network_id envelope
      → Map.get id envelope.profile_encrypted_keys ≡ some encrypted
      → decrypt_with_profile crypto pki m envelope id ≡ ok plain
  unfolding decrypt_with_profile
  opened_by_profile plain envelope_key encrypted network_id id envelope it found =
      let (pair, known, opened) = it.opens id encrypted found in
      rw (known, found, opened) it.readable

  pub sealed_nonempty :
      (bytes key : List ℕ) (pair : EcdsaKeyPair K P)
      → decrypt_key_with_ecdsa crypto bytes pair ≡ ok key
      → is_empty bytes ≡ false
  unfolding decrypt_key_with_ecdsa
  sealed_nonempty [] key pair opened = absurd (cc opened)
  sealed_nonempty (b ∷ bytes) key pair opened = refl

  opened_by_network :
      (plain envelope_key : List ℕ) (network_id : String) (envelope : EnvelopeEncryptedData)
      → IsFor crypto pki laws m owned plain envelope_key network_id envelope
      → empty network_id ≡ false
      → decrypt_with_network crypto pki m envelope ≡ ok plain
  unfolding decrypt_with_network
  opened_by_network plain envelope_key network_id envelope it there =
      let (pair, known, opened) = it.by_network there in
      rw (it.named, known, sealed_nonempty _ _ pair opened, opened) it.readable

  try_profiles-opened :
      (plain envelope_key : List ℕ) (network_id : String) (envelope : EnvelopeEncryptedData)
      (keys : HashMap (List ℕ))
      → IsFor crypto pki laws m owned plain envelope_key network_id envelope
      → envelope.profile_encrypted_keys ≡ keys
      → (empty network_id ≡ false) ⊎ ((id : String) × Has crypto pki laws m owned id keys)
      → try_profiles crypto pki m envelope keys ≡ ok plain
  unfolding try_profiles Map.get
  try_profiles-opened plain envelope_key network_id envelope [] it same (inl there) =
      opened_by_network plain envelope_key network_id envelope it there
  try_profiles-opened plain envelope_key network_id envelope [] it same
        (inr (id, (encrypted, found))) =
      absurd (cc found)
  try_profiles-opened plain envelope_key network_id envelope ((id, encrypted) ∷ keys) it same why =
      rw
        (opened_by_profile plain envelope_key encrypted network_id id envelope it
          (rw (same, eq_refl id) refl))
        refl

  -- A mobile whose keys are its own reads what it sealed in an envelope, if the envelope was for a
  -- network or for some profile that it has a key of; the libraries of cryptography keep their
  -- promises.
  pub decrypt_envelope_data-encrypt_with_envelope :
      (plain : List ℕ) (network_id : String) (profile_ids : List String)
      (envelope : EnvelopeEncryptedData) (r : R)
      → (encrypt_with_envelope crypto pki m plain network_id profile_ids r).1 ≡ ok envelope
      → (empty network_id ≡ false)
        ⊎ ((id : String) × (pair : EcdsaKeyPair K P) × (Map.get id m.user_profile_keys ≡ some pair)
            × (any (λ k. k == id) profile_ids ≡ true))
      → decrypt_envelope_data crypto pki m envelope ≡ ok plain
  unfolding decrypt_envelope_data
  decrypt_envelope_data-encrypt_with_envelope plain network_id profile_ids envelope r made why =
      try_profiles-opened plain (crypto.fill_bytes 32 r).1 network_id envelope _
        (encrypt_with_envelope-IsFor crypto pki laws m owned plain network_id profile_ids envelope r
          made)
        refl
        (elim why [
          | inl there ↦ inl there
          | inr (id, pair, known, asked) ↦ inr (
            id,
            encrypt_with_envelope-Has crypto pki laws m owned plain network_id id profile_ids pair
                envelope r made known asked,
          )
        ])

  pub decrypt_with_profile-encrypt_with_envelope :
      (plain : List ℕ) (network_id id : String) (profile_ids : List String)
      (pair : EcdsaKeyPair K P) (envelope : EnvelopeEncryptedData) (r : R)
      → (encrypt_with_envelope crypto pki m plain network_id profile_ids r).1 ≡ ok envelope
      → Map.get id m.user_profile_keys ≡ some pair
      → any (λ k. k == id) profile_ids ≡ true
      → decrypt_with_profile crypto pki m envelope id ≡ ok plain
  decrypt_with_profile-encrypt_with_envelope plain network_id id profile_ids pair envelope r made
        known asked =
      let (encrypted, found) =
        encrypt_with_envelope-Has crypto pki laws m owned plain network_id id profile_ids pair
          envelope r made known asked in
      opened_by_profile plain (crypto.fill_bytes 32 r).1 encrypted network_id id envelope
        (encrypt_with_envelope-IsFor crypto pki laws m owned plain network_id profile_ids envelope r
          made)
        found

  pub encrypt_with_envelope-opens_network :
      (plain : List ℕ) (network_id : String) (profile_ids : List String)
      (envelope : EnvelopeEncryptedData) (r : R)
      → (encrypt_with_envelope crypto pki m plain network_id profile_ids r).1 ≡ ok envelope
      → empty network_id ≡ false
      → (envelope_key : List ℕ) × (pair : EcdsaKeyPair K P) × (envelope.network_id ≡ network_id)
        × (Map.get network_id m.network_data_keys ≡ some pair)
        × (decrypt_key_with_ecdsa crypto envelope.network_encrypted_key pair ≡ ok envelope_key)
        × (decrypt_with_symmetric_key crypto envelope.encrypted_data envelope_key ≡ ok plain)
  encrypt_with_envelope-opens_network plain network_id profile_ids envelope r made there =
      let it =
        encrypt_with_envelope-IsFor crypto pki laws m owned plain network_id profile_ids envelope r
          made in
      let (pair, known, opened) = it.by_network there in
      ((crypto.fill_bytes 32 r).1, pair, it.named, known, opened, it.readable)

module _ {R K P Z S C E G : Type 0} (crypto : Crypto R K P Z S C E) (pki : Pki R K P G E) where
  not_for_network :
      (m : MobileKeyManager K P) (plain : List ℕ) (network_id : String) (profile_ids : List String)
      (o : R × Result (KeyError E) (List ℕ)) (envelope_key : List ℕ)
      → empty network_id ≡ false
      → Map.get network_id m.network_data_keys ≡ none
      → (e : KeyError E) × ((encrypted_part crypto pki
            (and_then o (with_encrypted_data crypto pki m envelope_key network_id profile_ids))).1
          ≡ err e)
  unfolding for_network
  not_for_network m plain network_id profile_ids (r, err e) envelope_key there unknown = (e, refl)
  not_for_network m plain network_id profile_ids (r, ok encrypted) envelope_key there unknown =
      (key_not_found network_id, rw (there, unknown) refl)

  -- Without a network named `default`, `encrypt_for_profile` fails for every profile, also one that
  -- has a key.
  pub encrypt_for_profile_fails :
      (m : MobileKeyManager K P) (plain : List ℕ) (profile_id : String) (r : R)
      → Map.get "default" m.network_data_keys ≡ none
      → (e : KeyError E) × ((encrypt_for_profile crypto pki m plain profile_id r).1 ≡ err e)
  unfolding encrypt_for_profile encrypt_with_envelope create_envelope_key
  encrypt_for_profile_fails m plain profile_id r unknown =
      not_for_network m plain "default" (profile_id ∷ [])
        (encrypt_with_symmetric_key crypto plain (crypto.fill_bytes 32 r).1
          (crypto.fill_bytes 32 r).0)
        (crypto.fill_bytes 32 r).1 refl unknown
