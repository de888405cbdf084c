-- ===== src/Keys.antt =====
-- runar-keys/src/lib.rs, runar-keys/src/mobile.rs and runar-keys/src/node.rs: what both key managers
-- do with the libraries of cryptography, which are a parameter.
pub mod Ecies
pub mod Certificates
pub mod Mobile
pub mod Node
mod Tests
use rust_mono.Prelude.{
  ℕ, ◌+◌, ◌≡◌, Bool, true, false, not, String, Option, none, some, List, [], ◌∷◌, ◌++◌, length,
  take, drop, ltb, eqb, if◌then◌else◌,
}
use rust_mono.Prelude.Result.{Result, ok, err, ◌>>=◌, map_err, and_then}

-- The errors by the messages they are made with; `E` is an error of a library.
pub data KeyError (E : Type 0) : Type 0 where
  invalid_key_format certificate_error encryption_error decryption_error : E → KeyError E
  key_derivation_error cipher_error validation_error pkcs8_error : E → KeyError E
  wrong_key_length missing_nonce too_short_for_ecies : KeyError E
  no_root_key no_validator no_certificate no_ca_certificate : KeyError E
  empty_csr no_network_encrypted_key wrong_subject : KeyError E
  key_not_found no_envelope_key no_trusted_ca : String → KeyError E
  invalid_public_key not_yet_valid expired : KeyError E

-- What is used of rand, aes_gcm, p256, hkdf, sha2, pkcs8 and base64. `R` is the source of random
-- bytes, `K` a signing key, `P` a point of the curve, `Z` an ephemeral secret, `S` a secret scalar.
pub record Crypto (R K P Z S C E : Type 0) : Type 0 where
  pub fill_bytes : ℕ → R → R × List ℕ
  pub new_cipher : List ℕ → Result E C
  pub encrypt : C → List ℕ → List ℕ → Result E (List ℕ)
  pub decrypt : C → List ℕ → List ℕ → Result E (List ℕ)
  pub random_signing_key : R → R × K
  pub verifying_key : K → P
  pub to_encoded_point : P → List ℕ
  pub from_sec1_bytes : List ℕ → Result E P
  pub random_secret : R → R × Z
  pub ephemeral_public_key : Z → P
  pub ephemeral_diffie_hellman : Z → P → List ℕ
  pub secret_key : K → Result E S
  pub diffie_hellman : S → P → List ℕ
  pub expand : List ℕ → String → Result E (List ℕ)
  pub signing_key_from_bytes : List ℕ → Result E K
  pub to_pkcs8_der : K → Result E (List ℕ)
  pub from_pkcs8_der : List ℕ → Result E K
  pub sha256 : List ℕ → List ℕ
  pub encode_base64 : List ℕ → String
  pub bytes_of : String → List ℕ

pub record EcdsaKeyPair (K P : Type 0) : Type 0 where
  pub signing_key : K
  pub verifying_key : P

pub record EnvelopeEncryptedData : Type 0 where
  pub encrypted_data : List ℕ
  pub network_id : String
  pub network_encrypted_key : List ℕ
  pub profile_encrypted_keys : List (String × List ℕ)

pub record NetworkKeyMessage : Type 0 where
  pub network_id : String
  pub network_public_key : List ℕ
  pub encrypted_network_key : List ℕ
  pub key_derivation_info : String

module _ {R K P Z S C E : Type 0} (crypto : Crypto R K P Z S C E) where
  unfoldable pub from_signing_key : K → EcdsaKeyPair K P
  from_signing_key k = record { signing_key = k; verifying_key = crypto.verifying_key k }

  -- `EcdsaKeyPair::new`
  unfoldable pub new_key_pair : R → R × EcdsaKeyPair K P
  unfolding from_signing_key
  new_key_pair r = let (after, k) = crypto.random_signing_key r in (after, from_signing_key k)

  unfoldable pub public_key_bytes : EcdsaKeyPair K P → List ℕ
  public_key_bytes pair = crypto.to_encoded_point pair.verifying_key

  unfoldable pub private_key_der : EcdsaKeyPair K P → Result (KeyError E) (List ℕ)
  private_key_der pair = map_err invalid_key_format (crypto.to_pkcs8_der pair.signing_key)

  unfoldable pub compact_node_id : List ℕ → String
  compact_node_id public_key = crypto.encode_base64 (take 16 (crypto.sha256 public_key))

  unfoldable pub compact_network_id : List ℕ → String
  compact_network_id public_key = crypto.encode_base64 (take 16 (crypto.sha256 public_key))

  abbrev pub with_nonce : List ℕ → Result E (List ℕ) → Result (KeyError E) (List ℕ)
  with_nonce nonce (ok ciphertext) = ok (nonce ++ ciphertext)
  with_nonce nonce (err e) = err (encryption_error e)

  abbrev pub seal : List ℕ → C → R → R × Result (KeyError E) (List ℕ)
  seal plain cipher r =
      let (after, nonce) = crypto.fill_bytes 12 r in
      (after, with_nonce nonce (crypto.encrypt cipher nonce plain))

  unfoldable pub encrypt_with_symmetric_key : List ℕ → List ℕ → R → R × Result (KeyError E) (List ℕ)
  encrypt_with_symmetric_key plain key r =
      if not (eqb (length key) 32)
      then (r, err wrong_key_length)
      else and_then (r, map_err cipher_error (crypto.new_cipher key)) (seal plain)

  unfoldable pub decrypt_with_symmetric_key : List ℕ → List ℕ → Result (KeyError E) (List ℕ)
  decrypt_with_symmetric_key encrypted key =
      if not (eqb (length key) 32)
      then err wrong_key_length
      else if ltb (length encrypted) 12
      then err missing_nonce
      else do
        cipher ← map_err cipher_error (crypto.new_cipher key)
        map_err decryption_error (crypto.decrypt cipher (take 12 encrypted) (drop 12 encrypted))

  -- The key that both sides derive from the secret they share.
  unfoldable pub encryption_key : List ℕ → Result (KeyError E) (List ℕ)
  encryption_key shared = map_err key_derivation_error (crypto.expand shared "runar-key-encryption")

  abbrev pub with_ephemeral_key :
      P → R × Result (KeyError E) (List ℕ) → R × Result (KeyError E) (List ℕ)
  with_ephemeral_key p (r, ok encrypted) = (r, ok (crypto.to_encoded_point p ++ encrypted))
  with_ephemeral_key p (r, err e) = (r, err e)

  abbrev pub seal_with_key : List ℕ → Z → List ℕ → R → R × Result (KeyError E) (List ℕ)
  seal_with_key plain secret key r =
      with_ephemeral_key (crypto.ephemeral_public_key secret)
        (encrypt_with_symmetric_key plain key r)

  abbrev pub seal_for : List ℕ → Z → P → R → R × Result (KeyError E) (List ℕ)
  seal_for plain secret public r =
      and_then (r, encryption_key (crypto.ephemeral_diffie_hellman secret public))
        (seal_with_key plain secret)

  unfoldable pub encrypt_key_with_ecdsa : List ℕ → List ℕ → R → R × Result (KeyError E) (List ℕ)
  encrypt_key_with_ecdsa plain recipient r =
      let (drawn, secret) = crypto.random_secret r in
      and_then (drawn, map_err invalid_key_format (crypto.from_sec1_bytes recipient))
        (seal_for plain secret)

  unfoldable pub decrypt_key_with_ecdsa : List ℕ → EcdsaKeyPair K P → Result (KeyError E) (List ℕ)
  unfolding encryption_key decrypt_with_symmetric_key
  decrypt_key_with_ecdsa encrypted pair =
      if ltb (length encrypted) 65 then err too_short_for_ecies else do
        public ← map_err decryption_error (crypto.from_sec1_bytes (take 65 encrypted))
        secret ← map_err decryption_error (crypto.secret_key pair.signing_key)
        key ← encryption_key (crypto.diffie_hellman secret public)
        decrypt_with_symmetric_key (drop 65 encrypted) key
