-- ===== src/Keys/Mobile/Sealing.antt =====
-- runar-keys/src/mobile.rs: envelopes, and what is sealed for networks and profiles.
use rust_mono.Prelude.{ℕ, String, Option, none, some, List, [], ◌∷◌, is_empty, if◌then◌else◌}
use rust_mono.Prelude.Result.{Result, ok, err, ◌>>=◌, ok_or, and_then}
use rust_mono.Prelude.HashMap as Map
use rust_mono.Prelude.HashMap.{HashMap}
use rust_mono.Prelude.Text.{empty}
use rust_mono.Keys.{
  KeyError, key_not_found, no_envelope_key, no_network_encrypted_key, Crypto, EcdsaKeyPair,
  EnvelopeEncryptedData, public_key_bytes, encrypt_with_symmetric_key, decrypt_with_symmetric_key,
  encrypt_key_with_ecdsa, decrypt_key_with_ecdsa,
}
use rust_mono.Keys.Certificates.{Pki}
use rust_mono.Keys.Mobile.{MobileKeyManager}

module _ {R K P Z S C E G : Type 0} (crypto : Crypto R K P Z S C E) (pki : Pki R K P G E) where
  unfoldable pub create_envelope_key : R → R × List ℕ
  create_envelope_key r = crypto.fill_bytes 32 r

  abbrev pub for_network_key :
      List ℕ → Option (EcdsaKeyPair K P) → String → R → R × Result (KeyError E) (List ℕ)
  for_network_key envelope_key none network_id r = (r, err (key_not_found network_id))
  for_network_key envelope_key (some pair) network_id r =
      encrypt_key_with_ecdsa crypto envelope_key (public_key_bytes crypto pair) r

  unfoldable pub for_network :
      MobileKeyManager K P → List ℕ → String → R → R × Result (KeyError E) (List ℕ)
  for_network m envelope_key network_id r =
      if empty network_id
      then (r, ok [])
      else for_network_key envelope_key (Map.get network_id m.network_data_keys) network_id r

  abbrev pub with_profile :
      String → HashMap (List ℕ) → List ℕ → R → R × Result (KeyError E) (HashMap (List ℕ))
  with_profile profile_id keys encrypted r = (r, ok (Map.insert profile_id encrypted keys))

  -- A profile without a key is passed over.
  abbrev pub for_profile :
      List ℕ
      → String
      → HashMap (List ℕ)
      → Option (EcdsaKeyPair K P)
      → R
      → R × Result (KeyError E) (HashMap (List ℕ))
  for_profile envelope_key profile_id keys none r = (r, ok keys)
  for_profile envelope_key profile_id keys (some pair) r =
      and_then (encrypt_key_with_ecdsa crypto envelope_key (public_key_bytes crypto pair) r)
        (with_profile profile_id keys)

  unfoldable pub for_profiles :
      MobileKeyManager K P
      → List ℕ
      → List String
      → HashMap (List ℕ)
      → R
      → R × Result (KeyError E) (HashMap (List ℕ))
  for_profiles m envelope_key [] keys r = (r, ok keys)
  for_profiles m envelope_key (profile_id ∷ profile_ids) keys r =
      and_then (for_profile envelope_key profile_id keys (Map.get profile_id m.user_profile_keys) r)
        (for_profiles m envelope_key profile_ids)

  abbrev pub with_keys :
      String
      → List ℕ
      → List ℕ
      → HashMap (List ℕ)
      → R
      → R × Result (KeyError E) EnvelopeEncryptedData
  with_keys network_id encrypted network_encrypted_key profile_encrypted_keys r = (
    r,
    ok (record {
      encrypted_data = encrypted;
      network_id = network_id;
      network_encrypted_key = network_encrypted_key;
      profile_encrypted_keys = profile_encrypted_keys;
    }),
  )

  abbrev pub with_network_key :
      MobileKeyManager K P
      → List ℕ
      → String
      → List String
      → List ℕ
      → List ℕ
      → R
      → R × Result (KeyError E) EnvelopeEncryptedData
  with_network_key m envelope_key network_id profile_ids encrypted network_key r =
      and_then (for_profiles m envelope_key profile_ids [] r)
        (with_keys network_id encrypted network_key)

  abbrev pub with_encrypted_data :
      MobileKeyManager K P
      → List ℕ
      → String
      → List String
      → List ℕ
      → R
      → R × Result (KeyError E) EnvelopeEncryptedData
  with_encrypted_data m envelope_key network_id profile_ids encrypted r =
      and_then (for_network m envelope_key network_id r)
        (with_network_key m envelope_key network_id profile_ids encrypted)

  unfoldable pub encrypt_with_envelope :
      MobileKeyManager K P
      → List ℕ
      → String
      → List String
      → R
      → R × Result (KeyError E) EnvelopeEncryptedData
  unfolding create_envelope_key for_network for_profiles
  encrypt_with_envelope m plain network_id profile_ids r =
      let (drawn, envelope_key) = create_envelope_key r in
      and_then (encrypt_with_symmetric_key crypto plain envelope_key drawn)
        (with_encrypted_data m envelope_key network_id profile_ids)

  unfoldable pub decrypt_with_profile :
      MobileKeyManager K P → EnvelopeEncryptedData → String → Result (KeyError E) (List ℕ)
  decrypt_with_profile m envelope profile_id = do
    pair ← ok_or (key_not_found profile_id) (Map.get profile_id m.user_profile_keys)
    encrypted ←
        ok_or (no_envelope_key profile_id) (Map.get profile_id envelope.profile_encrypted_keys)
    envelope_key ← decrypt_key_with_ecdsa crypto encrypted pair
    decrypt_with_symmetric_key crypto envelope.encrypted_data envelope_key

  unfoldable pub decrypt_with_network :
      MobileKeyManager K P → EnvelopeEncryptedData → Result (KeyError E) (List ℕ)
  decrypt_with_network m envelope = do
    pair ←
        ok_or (key_not_found envelope.network_id) (Map.get envelope.network_id m.network_data_keys)
    if is_empty envelope.network_encrypted_key then err no_network_encrypted_key else do
      envelope_key ← decrypt_key_with_ecdsa crypto envelope.network_encrypted_key pair
      decrypt_with_symmetric_key crypto envelope.encrypted_data envelope_key

  abbrev pub or_else :
      Result (KeyError E) (List ℕ) → Result (KeyError E) (List ℕ) → Result (KeyError E) (List ℕ)
  or_else (ok plain) other = ok plain
  or_else (err e) other = other

  -- The profiles are tried in the order of the envelope's map.
  unfoldable pub try_profiles :
      MobileKeyManager K P → EnvelopeEncryptedData → HashMap (List ℕ) → Result (KeyError E) (List ℕ)
  try_profiles m envelope [] = decrypt_with_network m envelope
  try_profiles m envelope ((profile_id, encrypted) ∷ keys) =
      or_else (decrypt_with_profile m envelope profile_id) (try_profiles m envelope keys)

  unfoldable pub decrypt_envelope_data :
      MobileKeyManager K P → EnvelopeEncryptedData → Result (KeyError E) (List ℕ)
  unfolding try_profiles decrypt_with_network decrypt_with_profile
  decrypt_envelope_data m envelope = try_profiles m envelope envelope.profile_encrypted_keys

  abbrev pub encrypted_part :
      R × Result (KeyError E) EnvelopeEncryptedData → R × Result (KeyError E) (List ℕ)
  encrypted_part (r, err e) = (r, err e)
  encrypted_part (r, ok envelope) = (r, ok envelope.encrypted_data)

  unfoldable pub encrypt_for_profile :
      MobileKeyManager K P → List ℕ → String → R → R × Result (KeyError E) (List ℕ)
  encrypt_for_profile m plain profile_id r =
      encrypted_part (encrypt_with_envelope m plain "default" (profile_id ∷ []) r)

  unfoldable pub encrypt_for_network :
      MobileKeyManager K P → List ℕ → String → R → R × Result (KeyError E) (List ℕ)
  encrypt_for_network m plain network_id r =
      encrypted_part (encrypt_with_envelope m plain network_id [] r)
