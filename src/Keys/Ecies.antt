-- ===== src/Keys/Ecies.antt =====
-- runar-keys/src/mobile.rs and runar-keys/src/node.rs: what was encrypted can be read again.
use rust_mono.Prelude.{
  ℕ, ◌≡◌, refl, sym, ap, ◌∙◌, false, not, List, ◌++◌, length, length-append, take-append,
  drop-append, ltb, eqb, arith,
}
use rust_mono.Prelude.Result.{
  Result, ok, err, map_err, and_then, and_then-eq-ok, map_err-eq-ok, guard-eq-ok, ok-injective,
}
use rust_mono.Keys.{
  KeyError, invalid_key_format, cipher_error, seal, seal_for, seal_with_key, Crypto, EcdsaKeyPair,
  public_key_bytes, with_nonce, encrypt_with_symmetric_key, decrypt_with_symmetric_key,
  encryption_key, with_ephemeral_key, encrypt_key_with_ecdsa, decrypt_key_with_ecdsa,
}

module _ {R K P Z S C E : Type 0} (crypto : Crypto R K P Z S C E) where
  -- What the libraries say of their functions.
  pub record IsCrypto : Type 0 where
    pub fills : (n : ℕ) (r : R) → length (crypto.fill_bytes n r).1 ≡ n
    pub deciphers :
        (cipher : C) (nonce plain ciphertext : List ℕ)
        → crypto.encrypt cipher nonce plain ≡ ok ciphertext
        → crypto.decrypt cipher nonce ciphertext ≡ ok plain
    pub point_length : (p : P) → length (crypto.to_encoded_point p) ≡ 65
    pub reads_points : (p : P) → crypto.from_sec1_bytes (crypto.to_encoded_point p) ≡ ok p
    pub secret_keys : (k : K) → (s : S) × (crypto.secret_key k ≡ ok s)
    pub agrees :
        (z : Z) (k : K) (s : S)
        → crypto.secret_key k ≡ ok s
        → crypto.diffie_hellman s (crypto.ephemeral_public_key z)
          ≡ crypto.ephemeral_diffie_hellman z (crypto.verifying_key k)
    pub reads_keys :
        (k : K) (der : List ℕ) → crypto.to_pkcs8_der k ≡ ok der → crypto.from_pkcs8_der der ≡ ok k

  abbrev pub IsKeyPair : EcdsaKeyPair K P → Type 0
  IsKeyPair pair = pair.verifying_key ≡ crypto.verifying_key pair.signing_key

  with_nonce-ok :
      (nonce bytes : List ℕ) (o : Result E (List ℕ))
      → with_nonce crypto nonce o ≡ ok bytes
      → (ciphertext : List ℕ) × (o ≡ ok ciphertext) × (bytes ≡ nonce ++ ciphertext)
  with_nonce-ok nonce bytes (ok ciphertext) h = (ciphertext, refl, cc h)
  with_nonce-ok nonce bytes (err e) h = absurd (cc h)

  pub decrypt_with_symmetric_key-encrypt_with_symmetric_key :
      IsCrypto
      → (plain key bytes : List ℕ) (r : R)
      → (encrypt_with_symmetric_key crypto plain key r).1 ≡ ok bytes
      → decrypt_with_symmetric_key crypto bytes key ≡ ok plain
  unfolding encrypt_with_symmetric_key decrypt_with_symmetric_key
  decrypt_with_symmetric_key-encrypt_with_symmetric_key laws plain key bytes r sealed =
      let (right, opened) =
        guard-eq-ok (not (eqb (length key) 32)) r _
          (and_then (r, map_err cipher_error (crypto.new_cipher key)) (seal crypto plain)) sealed in
      let (cipher, made_ok, done) =
        and_then-eq-ok (r, map_err cipher_error (crypto.new_cipher key)) (seal crypto plain)
          opened in
      let made = map_err-eq-ok cipher_error (crypto.new_cipher key) made_ok in
      let nonce = (crypto.fill_bytes 12 r).1 in
      let (ciphertext, encrypted, bytes_are) =
        with_nonce-ok nonce bytes (crypto.encrypt cipher nonce plain) done in
      let twelve : length nonce ≡ 12 = laws.fills 12 r in
      let long : ltb (length (nonce ++ ciphertext)) 12 ≡ false =
        ground (arith, length-append nonce ciphertext, twelve) in
      rw bytes_are (
        rw
          (
            right,
            long,
            made,
            take-append 12 nonce ciphertext twelve,
            drop-append 12 nonce ciphertext twelve,
            laws.deciphers cipher nonce plain ciphertext encrypted,
          )
          refl)

  with_ephemeral_key-ok :
      (p : P) (bytes : List ℕ) (o : R × Result (KeyError E) (List ℕ))
      → (with_ephemeral_key crypto p o).1 ≡ ok bytes
      → (encrypted : List ℕ) × (o.1 ≡ ok encrypted)
        × (bytes ≡ crypto.to_encoded_point p ++ encrypted)
  with_ephemeral_key-ok p bytes (r, ok encrypted) h = (encrypted, refl, cc h)
  with_ephemeral_key-ok p bytes (r, err e) h = absurd (cc h)

  pub decrypt_key_with_ecdsa-encrypt_key_with_ecdsa :
      IsCrypto
      → (plain bytes : List ℕ) (pair : EcdsaKeyPair K P) (r : R) → IsKeyPair pair
      → (encrypt_key_with_ecdsa crypto plain (public_key_bytes crypto pair) r).1 ≡ ok bytes
      → decrypt_key_with_ecdsa crypto bytes pair ≡ ok plain
  unfolding encrypt_key_with_ecdsa decrypt_key_with_ecdsa public_key_bytes encryption_key
  decrypt_key_with_ecdsa-encrypt_key_with_ecdsa laws plain bytes pair r own sealed =
      let (drawn, secret) = crypto.random_secret r in
      let p = crypto.ephemeral_public_key secret in
      let (public, read, with_public) =
        and_then-eq-ok
          (
            drawn,
            map_err invalid_key_format
                (crypto.from_sec1_bytes (crypto.to_encoded_point pair.verifying_key)),
          )
          (seal_for crypto plain secret) sealed in
      let (key, derived, with_key) =
        and_then-eq-ok
          (drawn, encryption_key crypto (crypto.ephemeral_diffie_hellman secret public))
          (seal_with_key crypto plain secret) with_public in
      let (encrypted, payload, bytes_are) =
        with_ephemeral_key-ok p bytes (encrypt_with_symmetric_key crypto plain key drawn)
          with_key in
      let point : crypto.from_sec1_bytes (crypto.to_encoded_point pair.verifying_key) ≡ ok public =
        map_err-eq-ok invalid_key_format _ read in
      let public_is : public ≡ crypto.verifying_key pair.signing_key =
        ok-injective (sym point ∙ laws.reads_points pair.verifying_key) ∙ own in
      let (s, secret_is) = laws.secret_keys pair.signing_key in
      let shared : crypto.diffie_hellman s p ≡ crypto.ephemeral_diffie_hellman secret public =
        laws.agrees secret pair.signing_key s secret_is
        ∙ ap (crypto.ephemeral_diffie_hellman secret) (sym public_is) in
      let long : ltb (length (crypto.to_encoded_point p ++ encrypted)) 65 ≡ false =
        ground (arith, length-append (crypto.to_encoded_point p) encrypted, laws.point_length p) in
      rw bytes_are (
        rw
          (
            long,
            take-append 65 (crypto.to_encoded_point p) encrypted (laws.point_length p),
            drop-append 65 (crypto.to_encoded_point p) encrypted (laws.point_length p),
            laws.reads_points p,
            secret_is,
            shared,
            derived,
          )
          (decrypt_with_symmetric_key-encrypt_with_symmetric_key laws plain key encrypted drawn
            payload))
