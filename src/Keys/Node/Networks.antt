-- ===== src/Keys/Node/Networks.antt =====
-- runar-keys/src/node.rs and runar-keys/src/mobile.rs: a node that was given a network's key.
use rust_mono.Prelude.{ℕ, ◌≡◌, refl, sym, ap, ◌∙◌, false, String, eq_refl, Option, none, some, List}
use rust_mono.Prelude.Result.{
  ok, >>=-eq-ok, ok-injective, map_err, map_err-eq-ok, ok_or, and_then-eq-ok,
}
use rust_mono.Prelude.HashMap as Map
use rust_mono.Prelude.HashMap.{HashMap, get-insert}
use rust_mono.Prelude.Text.{empty}
use rust_mono.Keys.{
  KeyError, invalid_key_format, encryption_error, decryption_error, key_not_found, Crypto,
  EcdsaKeyPair, EnvelopeEncryptedData, NetworkKeyMessage, from_signing_key, public_key_bytes,
  private_key_der, compact_network_id, encrypt_key_with_ecdsa, decrypt_key_with_ecdsa,
  encrypt_with_symmetric_key,
}
use rust_mono.Keys.Ecies.{
  IsCrypto, IsKeyPair, decrypt_with_symmetric_key-encrypt_with_symmetric_key,
  decrypt_key_with_ecdsa-encrypt_key_with_ecdsa,
}
use rust_mono.Keys.Certificates.{Pki}
use rust_mono.Keys.Mobile.{
  MobileKeyManager, key_message, message_for, message_of, create_network_key_message,
}
use rust_mono.Keys.Mobile.Sealing.{encrypt_with_envelope}
use rust_mono.Keys.Mobile.Owned.{IsOwned}
use rust_mono.Keys.Mobile.Envelopes.Opened.{sealed_nonempty, encrypt_with_envelope-opens_network}
use rust_mono.Keys.Node.{NodeKeyManager, key_of_message, install_network_key, get_node_public_key}
use rust_mono.Keys.Node.Sealing.{
  network_key, data_key, data_key_of, network_data_key, encrypt_for_network, decrypt_network_data,
  decrypt_envelope_data,
}

module _ {R K P Z S C E G : Type 0} (crypto : Crypto R K P Z S C E) (pki : Pki R K P G E)
    (laws : IsCrypto crypto) where
  ok_or-eq-ok : {A B : Type 0} (e : B) (o : Option A) (a : A) → ok_or e o ≡ ok a → o ≡ some a
  ok_or-eq-ok e none a h = absurd (cc h)
  ok_or-eq-ok e (some b) a h = cc h

  -- A message for a node brings it the network's own key pair.
  key_of_message-create_network_key_message :
      (m : MobileKeyManager K P) (n : NodeKeyManager K P) (network_id : String)
      (message : NetworkKeyMessage) (r : R)
      → IsOwned crypto pki m
      → IsKeyPair crypto n.node_key_pair
      → (create_network_key_message crypto pki m network_id (get_node_public_key crypto pki n) r).1
        ≡ ok message
      → (pair : EcdsaKeyPair K P) × (Map.get network_id m.network_data_keys ≡ some pair)
        × (key_of_message crypto pki message n ≡ ok pair)
  unfolding create_network_key_message key_of_message get_node_public_key private_key_der
      from_signing_key
  key_of_message-create_network_key_message m n network_id message r owned own sent =
      let public = public_key_bytes crypto n.node_key_pair in
      let (pair, known, rest) =
        and_then-eq-ok
          (r, ok_or (key_not_found network_id) (Map.get network_id m.network_data_keys))
          (message_of crypto pki network_id public) sent in
      let (der, encoded, more) =
        and_then-eq-ok (r, private_key_der crypto pair)
          (message_for crypto pki network_id public pair) rest in
      let (encrypted, sealed, done) =
        and_then-eq-ok (encrypt_key_with_ecdsa crypto der public r)
          (key_message crypto pki network_id public pair) more in
      let found : Map.get network_id m.network_data_keys ≡ some pair =
        ok_or-eq-ok (key_not_found network_id) _ pair known in
      let opened : decrypt_key_with_ecdsa crypto encrypted n.node_key_pair ≡ ok der =
        decrypt_key_with_ecdsa-encrypt_key_with_ecdsa crypto laws der encrypted n.node_key_pair r
          own sealed in
      let carried : message.encrypted_network_key ≡ encrypted =
        ap (λ (x : NetworkKeyMessage). x.encrypted_network_key) (sym (ok-injective done)) in
      let key_is : crypto.from_pkcs8_der der ≡ ok pair.signing_key =
        laws.reads_keys pair.signing_key der (map_err-eq-ok invalid_key_format _ encoded) in
      let whole : from_signing_key crypto pair.signing_key ≡ pair =
        ap (λ (v : P). record { signing_key = pair.signing_key; verifying_key = v })
          (sym (owned.networks network_id pair found).0) in
      (pair, found, rw (carried, opened, key_is) (ap ok whole))

  -- If a mobile whose keys are its own makes the message that brings a network's key to a node,
  -- then the node, whose key pair is its own, installs the key, and can from then on open every
  -- envelope that the mobile seals for the network, whose identifier is not empty, and reads what
  -- was sealed; the libraries of cryptography keep their promises.
  pub decrypt_envelope_data-install_network_key :
      (m : MobileKeyManager K P) (n : NodeKeyManager K P) (network_id : String)
      (message : NetworkKeyMessage) (plain : List ℕ) (profile_ids : List String)
      (envelope : EnvelopeEncryptedData) (r s : R)
      → IsOwned crypto pki m
      → IsKeyPair crypto n.node_key_pair
      → (create_network_key_message crypto pki m network_id (get_node_public_key crypto pki n) r).1
        ≡ ok message
      → (encrypt_with_envelope crypto pki m plain network_id profile_ids s).1 ≡ ok envelope
      → empty network_id ≡ false
      → ((install_network_key crypto pki message n).1 ≡ ok tt)
        × (decrypt_envelope_data crypto pki (install_network_key crypto pki message n).0 envelope
            ≡ ok plain)
  unfolding install_network_key decrypt_envelope_data
  decrypt_envelope_data-install_network_key m n network_id message plain profile_ids envelope r s
        owned own sent made there =
      let (pair, known, brought) =
        key_of_message-create_network_key_message m n network_id message r owned own sent in
      let (envelope_key, other, named, also, opened, readable) =
        encrypt_with_envelope-opens_network crypto pki laws m owned plain network_id profile_ids
          envelope s made there in
      let same : other ≡ pair = cc (known, also) in
      let id = compact_network_id crypto (public_key_bytes crypto pair) in
      let id_is : id ≡ network_id = (owned.networks network_id pair known).1 in
      let held : Map.get network_id (Map.insert id pair n.network_keys) ≡ some pair =
        rw id_is
          (get-insert network_id network_id pair n.network_keys ∙ rw (eq_refl network_id) refl) in
      let unsealed : decrypt_key_with_ecdsa crypto envelope.network_encrypted_key pair
          ≡ ok envelope_key =
        rw (sym same) opened in
      (
        simp (brought) refl,
        simp
            (
              brought,
              named,
              held,
              sealed_nonempty crypto pki laws m owned _ _ pair unsealed,
              unsealed,
            )
            readable,
      )

  network_data_key_fixed :
      (n : NodeKeyManager K P) (network_id : String) (failed other : E → KeyError E) (key : List ℕ)
      → network_data_key crypto pki failed n network_id ≡ ok key
      → network_data_key crypto pki other n network_id ≡ ok key
  network_data_key_fixed n network_id failed other key h =
      let (pair, known, rest) =
        >>=-eq-ok (network_key crypto pki n network_id) (data_key_of crypto pki failed) h in
      let (der, encoded, done) =
        >>=-eq-ok (map_err failed (crypto.to_pkcs8_der pair.signing_key))
          (λ (d : List ℕ). ok (data_key crypto pki d)) rest in
      rw (known, map_err-eq-ok failed _ encoded) done

  -- What a node seals with a network's private key it can read again.
  pub decrypt_network_data-encrypt_for_network :
      (n : NodeKeyManager K P) (plain encrypted : List ℕ) (network_id : String) (r : R)
      → (encrypt_for_network crypto pki n plain network_id r).1 ≡ ok encrypted
      → decrypt_network_data crypto pki n encrypted network_id ≡ ok plain
  unfolding encrypt_for_network decrypt_network_data
  decrypt_network_data-encrypt_for_network n plain encrypted network_id r sealed =
      let (key, derived, done) =
        and_then-eq-ok (r, network_data_key crypto pki encryption_error n network_id)
          (encrypt_with_symmetric_key crypto plain) sealed in
      rw (network_data_key_fixed n network_id encryption_error decryption_error key derived) (
        decrypt_with_symmetric_key-encrypt_with_symmetric_key crypto laws plain key encrypted r
          done)
