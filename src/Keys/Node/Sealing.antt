-- ===== src/Keys/Node/Sealing.antt =====
-- runar-keys/src/node.rs: what a node seals and opens.
use rust_mono.Prelude.{ℕ, Bool, String, Option, List, [], ◌++◌, is_empty, if◌then◌else◌}
use rust_mono.Prelude.Result.{Result, ok, err, ◌>>=◌, map_err, ok_or, and_then}
use rust_mono.Prelude.HashMap as Map
use rust_mono.Prelude.HashMap.{HashMap}
use rust_mono.Prelude.Text.{is_some}
use rust_mono.Keys.{
  KeyError, encryption_error, decryption_error, key_not_found, no_network_encrypted_key, Crypto,
  EcdsaKeyPair, EnvelopeEncryptedData, public_key_bytes, compact_network_id,
  encrypt_with_symmetric_key, decrypt_with_symmetric_key, encrypt_key_with_ecdsa,
  decrypt_key_with_ecdsa,
}
use rust_mono.Keys.Certificates.{Pki, public_key}
use rust_mono.Keys.Node.{NodeKeyManager}

module _ {R K P Z S C E G : Type 0} (crypto : Crypto R K P Z S C E) (pki : Pki R K P G E) where
  unfoldable pub encrypt_local_data :
      NodeKeyManager K P → List ℕ → R → R × Result (KeyError E) (List ℕ)
  encrypt_local_data n plain r = encrypt_with_symmetric_key crypto plain n.storage_key r

  unfoldable pub decrypt_local_data : NodeKeyManager K P → List ℕ → Result (KeyError E) (List ℕ)
  decrypt_local_data n encrypted = decrypt_with_symmetric_key crypto encrypted n.storage_key

  abbrev pub network_key : NodeKeyManager K P → String → Result (KeyError E) (EcdsaKeyPair K P)
  network_key n network_id = ok_or (key_not_found network_id) (Map.get network_id n.network_keys)

  unfoldable pub decrypt_envelope_data :
      NodeKeyManager K P → EnvelopeEncryptedData → Result (KeyError E) (List ℕ)
  decrypt_envelope_data n envelope = do
    pair ← network_key n envelope.network_id
    if is_empty envelope.network_encrypted_key then err no_network_encrypted_key else do
      envelope_key ← decrypt_key_with_ecdsa crypto envelope.network_encrypted_key pair
      decrypt_with_symmetric_key crypto envelope.encrypted_data envelope_key

  abbrev pub envelope_for :
      String → List ℕ → List ℕ → R → R × Result (KeyError E) EnvelopeEncryptedData
  envelope_for network_id encrypted network_encrypted_key r = (
    r,
    ok (record {
      encrypted_data = encrypted;
      network_id = network_id;
      network_encrypted_key = network_encrypted_key;
      profile_encrypted_keys = [];
    }),
  )

  abbrev pub with_sealed_key :
      String
      → EcdsaKeyPair K P
      → List ℕ
      → List ℕ
      → R
      → R × Result (KeyError E) EnvelopeEncryptedData
  with_sealed_key network_id pair envelope_key encrypted r =
      and_then (encrypt_key_with_ecdsa crypto envelope_key (public_key_bytes crypto pair) r)
        (envelope_for network_id encrypted)

  abbrev pub sealed_for :
      String → List ℕ → EcdsaKeyPair K P → R → R × Result (KeyError E) EnvelopeEncryptedData
  sealed_for network_id plain pair r =
      let (drawn, envelope_key) = crypto.fill_bytes 32 r in
      and_then (encrypt_with_symmetric_key crypto plain envelope_key drawn)
        (with_sealed_key network_id pair envelope_key)

  unfoldable pub create_envelope_for_network :
      NodeKeyManager K P → List ℕ → String → R → R × Result (KeyError E) EnvelopeEncryptedData
  create_envelope_for_network n plain network_id r =
      and_then (r, network_key n network_id) (sealed_for network_id plain)

  unfoldable pub get_network_key : NodeKeyManager K P → String → Option (EcdsaKeyPair K P)
  get_network_key n network_id = Map.get network_id n.network_keys

  -- The key for a network's data: a hash of its private key with a fixed text.
  unfoldable pub data_key : List ℕ → List ℕ
  data_key der = crypto.sha256 (der ++ crypto.bytes_of "runar-network-encryption")

  abbrev pub data_key_of : (E → KeyError E) → EcdsaKeyPair K P → Result (KeyError E) (List ℕ)
  data_key_of failed pair = do
    der ← map_err failed (crypto.to_pkcs8_der pair.signing_key)
    ok (data_key der)

  abbrev pub network_data_key :
      (E → KeyError E) → NodeKeyManager K P → String → Result (KeyError E) (List ℕ)
  network_data_key failed n network_id = do pair ← network_key n network_id; data_key_of failed pair

  unfoldable pub encrypt_for_network :
      NodeKeyManager K P → List ℕ → String → R → R × Result (KeyError E) (List ℕ)
  unfolding data_key
  encrypt_for_network n plain network_id r =
      and_then (r, network_data_key encryption_error n network_id)
        (encrypt_with_symmetric_key crypto plain)

  unfoldable pub decrypt_network_data :
      NodeKeyManager K P → List ℕ → String → Result (KeyError E) (List ℕ)
  unfolding data_key
  decrypt_network_data n encrypted network_id = do
    key ← network_data_key decryption_error n network_id
    decrypt_with_symmetric_key crypto encrypted key

  unfoldable pub encrypt_message_for_mobile : List ℕ → List ℕ → R → R × Result (KeyError E) (List ℕ)
  encrypt_message_for_mobile message mobile_public_key r =
      encrypt_key_with_ecdsa crypto message mobile_public_key r

  unfoldable pub decrypt_message_from_mobile :
      NodeKeyManager K P → List ℕ → Result (KeyError E) (List ℕ)
  decrypt_message_from_mobile n message = decrypt_key_with_ecdsa crypto message n.node_key_pair

  unfoldable pub encrypt_for_public_key :
      NodeKeyManager K P → List ℕ → List ℕ → R → R × Result (KeyError E) EnvelopeEncryptedData
  unfolding create_envelope_for_network
  encrypt_for_public_key n plain public_key r =
      create_envelope_for_network n plain (compact_network_id crypto public_key) r

  unfoldable pub has_public_key : NodeKeyManager K P → List ℕ → Bool
  has_public_key n public_key =
      is_some (Map.get (compact_network_id crypto public_key) n.network_keys)
