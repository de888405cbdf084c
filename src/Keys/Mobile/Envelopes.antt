-- ===== src/Keys/Mobile/Envelopes.antt =====
-- runar-keys/src/mobile.rs: what the keys in an envelope open.
pub mod Entries
pub mod Opened
use mathlib.Core.Path.{subst}
use rust_mono.Prelude.{
  ℕ, ◌+◌, ◌≡◌, ◌⊎◌, refl, sym, ap, ◌∙◌, Bool, true, false, not, String, ◌==◌, eq_iff, eq_refl,
  Option, none, some, Bool-cases, inl, inr, List, [], ◌∷◌, is_empty, any, ◌||◌, if_both,
  if◌then◌else◌, arith,
}
use rust_mono.Prelude.Result.{
  Result, ok, err, ◌>>=◌, >>=-eq-ok, ok-injective, map_err, ok_or, and_then, and_then-eq-ok,
}
use rust_mono.Prelude.HashMap as Map
use rust_mono.Prelude.HashMap.{HashMap, get-insert}
use rust_mono.Prelude.Text.{empty}
use rust_mono.Keys.{
  KeyError, key_not_found, Crypto, EcdsaKeyPair, EnvelopeEncryptedData, public_key_bytes,
  encrypt_with_symmetric_key, decrypt_with_symmetric_key, encrypt_key_with_ecdsa,
  decrypt_key_with_ecdsa,
}
use rust_mono.Keys.Ecies.{
  IsCrypto, IsKeyPair, decrypt_with_symmetric_key-encrypt_with_symmetric_key,
  decrypt_key_with_ecdsa-encrypt_key_with_ecdsa,
}
use rust_mono.Keys.Certificates.{Pki}
use rust_mono.Keys.Mobile.{MobileKeyManager}
use rust_mono.Keys.Mobile.Sealing.{
  create_envelope_key, for_network_key, for_network, with_profile, for_profile, for_profiles,
  with_keys, with_network_key, with_encrypted_data, encrypt_with_envelope, encrypted_part,
  encrypt_for_profile, decrypt_with_profile, decrypt_with_network, or_else, try_profiles,
  decrypt_envelope_data,
}
use rust_mono.Keys.Mobile.Owned.{Pairs, IsNetwork, IsOwned}

module _ {R K P Z S C E G : Type 0} (crypto : Crypto R K P Z S C E) (pki : Pki R K P G E)
    (laws : IsCrypto crypto) (m : MobileKeyManager K P) (owned : IsOwned crypto pki m) where
  -- Each profile that an envelope's map names has a key that opens its entry.
  abbrev pub Opens : List ℕ → HashMap (List ℕ) → Type 0
  Opens envelope_key keys =
      (id : String) (encrypted : List ℕ)
      → Map.get id keys ≡ some encrypted
      → (pair : EcdsaKeyPair K P) × (Map.get id m.user_profile_keys ≡ some pair)
        × (decrypt_key_with_ecdsa crypto encrypted pair ≡ ok envelope_key)

  Opens-insert :
      (envelope_key encrypted : List ℕ) (k : String) (pair : EcdsaKeyPair K P)
      (keys : HashMap (List ℕ))
      → Map.get k m.user_profile_keys ≡ some pair
      → decrypt_key_with_ecdsa crypto encrypted pair ≡ ok envelope_key
      → Opens envelope_key keys
      → Opens envelope_key (Map.insert k encrypted keys)
  Opens-insert envelope_key encrypted k pair keys known opened all id bytes found =
      elim (Bool-cases (k == id)) [
        | inl same ↦
            let it : ◌≡◌ {A = Option (List ℕ)} (some encrypted) (some bytes) =
              sym (get-insert k id encrypted keys ∙ rw same refl) ∙ found in
            let bytes_are : encrypted ≡ bytes = cc it in
            (pair, rw (sym ((eq_iff k id).0 same)) known, rw (sym bytes_are) opened)
        | inr other ↦ all id bytes (sym (get-insert k id encrypted keys ∙ rw other refl) ∙ found)
      ]

  for_profile-Opens :
      (envelope_key : List ℕ) (id : String) (keys after : HashMap (List ℕ))
      (o : Option (EcdsaKeyPair K P)) (r : R)
      → Map.get id m.user_profile_keys ≡ o
      → (for_profile crypto pki envelope_key id keys o r).1 ≡ ok after
      → Opens envelope_key keys
      → Opens envelope_key after
  for_profile-Opens envelope_key id keys after none r known done all =
      subst (Opens envelope_key) (ok-injective done) all
  for_profile-Opens envelope_key id keys after (some pair) r known done all =
      let sealing = encrypt_key_with_ecdsa crypto envelope_key (public_key_bytes crypto pair) r in
      let (encrypted, sealed, inserted) =
        and_then-eq-ok sealing (with_profile crypto pki id keys) done in
      subst (Opens envelope_key) (ok-injective inserted) (
        Opens-insert envelope_key encrypted id pair keys known
          (decrypt_key_with_ecdsa-encrypt_key_with_ecdsa crypto laws envelope_key encrypted pair r
            (owned.profiles id pair known) sealed)
          all)

  for_profiles-Opens :
      (envelope_key : List ℕ) (ids : List String) (keys after : HashMap (List ℕ)) (r : R)
      → (for_profiles crypto pki m envelope_key ids keys r).1 ≡ ok after
      → Opens envelope_key keys
      → Opens envelope_key after
  unfolding for_profiles
  for_profiles-Opens envelope_key [] keys after r done all =
      subst (Opens envelope_key) (ok-injective done) all
  for_profiles-Opens envelope_key (id ∷ ids) keys after r done all =
      let known = Map.get id m.user_profile_keys in
      let first = for_profile crypto pki envelope_key id keys known r in
      let (between, one, rest) =
        and_then-eq-ok first (for_profiles crypto pki m envelope_key ids) done in
      for_profiles-Opens envelope_key ids between after first.0 rest
        (for_profile-Opens envelope_key id keys between known r refl one all)

  -- What an envelope is made of: its data and both kinds of keys.
  pub record IsFor (plain envelope_key : List ℕ) (network_id : String)
      (envelope : EnvelopeEncryptedData) : Type 0 where
    pub named : envelope.network_id ≡ network_id
    pub readable : decrypt_with_symmetric_key crypto envelope.encrypted_data envelope_key ≡ ok plain
    pub opens : Opens envelope_key envelope.profile_encrypted_keys
    pub by_network :
        empty network_id ≡ false
        → (pair : EcdsaKeyPair K P) × (Map.get network_id m.network_data_keys ≡ some pair)
          × (decrypt_key_with_ecdsa crypto envelope.network_encrypted_key pair ≡ ok envelope_key)

  for_network_key-opens :
      (envelope_key encrypted : List ℕ) (network_id : String) (o : Option (EcdsaKeyPair K P))
      (r : R)
      → Map.get network_id m.network_data_keys ≡ o
      → (for_network_key crypto pki envelope_key o network_id r).1 ≡ ok encrypted
      → (pair : EcdsaKeyPair K P) × (Map.get network_id m.network_data_keys ≡ some pair)
        × (decrypt_key_with_ecdsa crypto encrypted pair ≡ ok envelope_key)
  for_network_key-opens envelope_key encrypted network_id none r known done = absurd (cc done)
  for_network_key-opens envelope_key encrypted network_id (some pair) r known done = (
    pair,
    known,
    decrypt_key_with_ecdsa-encrypt_key_with_ecdsa crypto laws envelope_key encrypted pair r
        (owned.networks network_id pair known).0 done,
  )

  for_network-opens :
      (envelope_key encrypted : List ℕ) (network_id : String) (r : R)
      → (for_network crypto pki m envelope_key network_id r).1 ≡ ok encrypted
      → empty network_id ≡ false
      → (pair : EcdsaKeyPair K P) × (Map.get network_id m.network_data_keys ≡ some pair)
        × (decrypt_key_with_ecdsa crypto encrypted pair ≡ ok envelope_key)
  unfolding for_network
  for_network-opens envelope_key encrypted network_id r done there =
      for_network_key-opens envelope_key encrypted network_id
        (Map.get network_id m.network_data_keys) r refl
        (subst
          (λ (b : Bool).
            (if b
              then (r, ok [])
              else for_network_key crypto pki envelope_key (Map.get network_id m.network_data_keys)
                  network_id r).1
            ≡ ok encrypted)
          there done)

  Opens-nil : (envelope_key : List ℕ) → Opens envelope_key []
  unfolding Map.get
  Opens-nil envelope_key id encrypted found = absurd (cc found)

  pub encrypt_with_envelope-IsFor :
      (plain : List ℕ) (network_id : String) (profile_ids : List String)
      (envelope : EnvelopeEncryptedData) (r : R)
      → (encrypt_with_envelope crypto pki m plain network_id profile_ids r).1 ≡ ok envelope
      → IsFor plain (crypto.fill_bytes 32 r).1 network_id envelope
  unfolding encrypt_with_envelope create_envelope_key
  encrypt_with_envelope-IsFor plain network_id profile_ids envelope r made =
      let (drawn, envelope_key) = crypto.fill_bytes 32 r in
      let sealing = encrypt_with_symmetric_key crypto plain envelope_key drawn in
      let (encrypted, sealed, rest) =
        and_then-eq-ok sealing
          (with_encrypted_data crypto pki m envelope_key network_id profile_ids) made in
      let network = for_network crypto pki m envelope_key network_id sealing.0 in
      let (network_key, network_sealed, more) =
        and_then-eq-ok network
          (with_network_key crypto pki m envelope_key network_id profile_ids encrypted) rest in
      let profiles = for_profiles crypto pki m envelope_key profile_ids [] network.0 in
      let (keys, profiles_sealed, done) =
        and_then-eq-ok profiles (with_keys crypto pki network_id encrypted network_key) more in
      subst (IsFor plain envelope_key network_id) (ok-injective done) (record {
        named = refl;
        readable =
            decrypt_with_symmetric_key-encrypt_with_symmetric_key crypto laws plain envelope_key
              encrypted drawn sealed;
        opens =
            for_profiles-Opens envelope_key profile_ids [] keys network.0 profiles_sealed
              (Opens-nil envelope_key);
        by_network = for_network-opens envelope_key network_key network_id sealing.0 network_sealed;
      })
