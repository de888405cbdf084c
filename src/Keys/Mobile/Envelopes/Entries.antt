-- ===== src/Keys/Mobile/Envelopes/Entries.antt =====
-- runar-keys/src/mobile.rs: every profile that was asked for and has a key is named in an envelope.
use mathlib.Core.Path.{subst}
use rust_mono.Prelude.{
  ℕ, ◌≡◌, ◌⊎◌, refl, sym, ◌∙◌, true, String, ◌==◌, eq_iff, Option, none, some, Bool-cases, inl, inr,
  List, [], ◌∷◌, any,
}
use rust_mono.Prelude.Result.{ok, ok-injective, and_then-eq-ok}
use rust_mono.Prelude.HashMap as Map
use rust_mono.Prelude.HashMap.{HashMap, get-insert}
use rust_mono.Keys.{
  Crypto, EcdsaKeyPair, EnvelopeEncryptedData, public_key_bytes, encrypt_with_symmetric_key,
  encrypt_key_with_ecdsa,
}
use rust_mono.Keys.Ecies.{IsCrypto}
use rust_mono.Keys.Certificates.{Pki}
use rust_mono.Keys.Mobile.{MobileKeyManager}
use rust_mono.Keys.Mobile.Sealing.{
  create_envelope_key, for_network, with_profile, for_profile, for_profiles, with_keys,
  with_network_key, with_encrypted_data, encrypt_with_envelope,
}
use rust_mono.Keys.Mobile.Owned.{IsOwned}

module _ {R K P Z S C E G : Type 0} (crypto : Crypto R K P Z S C E) (pki : Pki R K P G E)
    (laws : IsCrypto crypto) (m : MobileKeyManager K P) (owned : IsOwned crypto pki m) where
  abbrev pub Has : String → HashMap (List ℕ) → Type 0
  Has id keys = (encrypted : List ℕ) × (Map.get id keys ≡ some encrypted)

  Has-insert :
      (id k : String) (encrypted : List ℕ) (keys : HashMap (List ℕ))
      → ((k == id) ≡ true) ⊎ Has id keys
      → Has id (Map.insert k encrypted keys)
  Has-insert id k encrypted keys why = elim (Bool-cases (k == id)) [
    | inl same ↦ (encrypted, get-insert k id encrypted keys ∙ rw same refl)
    | inr other ↦ elim why [
      | inl same ↦ absurd (cc (same, other))
      | inr (bytes, found) ↦ (bytes, get-insert k id encrypted keys ∙ rw other found)
    ]
  ]

  for_profile-Has :
      (envelope_key : List ℕ) (id k : String) (keys after : HashMap (List ℕ))
      (o : Option (EcdsaKeyPair K P)) (r : R)
      → (for_profile crypto pki envelope_key k keys o r).1 ≡ ok after
      → (((k == id) ≡ true) × ((pair : EcdsaKeyPair K P) × (o ≡ some pair))) ⊎ Has id keys
      → Has id after
  for_profile-Has envelope_key id k keys after none r done (inl (same, (pair, known))) =
      absurd (cc known)
  for_profile-Has envelope_key id k keys after none r done (inr has) =
      subst (Has id) (ok-injective done) has
  for_profile-Has envelope_key id k keys after (some pair) r done why =
      let sealing = encrypt_key_with_ecdsa crypto envelope_key (public_key_bytes crypto pair) r in
      let (encrypted, sealed, inserted) =
        and_then-eq-ok sealing (with_profile crypto pki k keys) done in
      subst (Has id) (ok-injective inserted) (
        Has-insert id k encrypted keys
          (elim why [ inl (same, known) ↦ inl same | inr has ↦ inr has ]))

  for_profiles-Has :
      (envelope_key : List ℕ) (id : String) (pair : EcdsaKeyPair K P) (ids : List String)
      (keys after : HashMap (List ℕ)) (r : R)
      → (for_profiles crypto pki m envelope_key ids keys r).1 ≡ ok after
      → Map.get id m.user_profile_keys ≡ some pair
      → (any (λ k. k == id) ids ≡ true) ⊎ Has id keys
      → Has id after
  unfolding for_profiles
  for_profiles-Has envelope_key id pair [] keys after r done known (inl asked) = absurd (cc asked)
  for_profiles-Has envelope_key id pair [] keys after r done known (inr has) =
      subst (Has id) (ok-injective done) has
  for_profiles-Has envelope_key id pair (k ∷ ids) keys after r done known why =
      let found = Map.get k m.user_profile_keys in
      let first = for_profile crypto pki envelope_key k keys found r in
      let (between, one, rest) =
        and_then-eq-ok first (for_profiles crypto pki m envelope_key ids) done in
      for_profiles-Has envelope_key id pair ids between after first.0 rest known
        (elim (Bool-cases (k == id)) [
          | inl same ↦ inr (
              for_profile-Has envelope_key id k keys between found r one
                (inl (same, (pair, rw ((eq_iff k id).0 same) known))))
          | inr other ↦ elim why [
            | inl asked ↦ inl (sym (rw other refl) ∙ asked)
            | inr has ↦ inr (for_profile-Has envelope_key id k keys between found r one (inr has))
          ]
        ])

  pub encrypt_with_envelope-Has :
      (plain : List ℕ) (network_id id : String) (profile_ids : List String)
      (pair : EcdsaKeyPair K P) (envelope : EnvelopeEncryptedData) (r : R)
      → (encrypt_with_envelope crypto pki m plain network_id profile_ids r).1 ≡ ok envelope
      → Map.get id m.user_profile_keys ≡ some pair
      → any (λ k. k == id) profile_ids ≡ true
      → Has id envelope.profile_encrypted_keys
  unfolding encrypt_with_envelope create_envelope_key
  encrypt_with_envelope-Has plain network_id id profile_ids pair envelope r made known asked =
      let (drawn, envelope_key) = crypto.fill_bytes 32 r in
      let sealing = encrypt_with_symmetric_key crypto plain envelope_key drawn in
      let (encrypted, sealed, rest) =
        and_then-eq-ok sealing
          (with_encrypted_data crypto pki m envelope_key network_id profile_ids) made in
      let network = for_network crypto pki m envelope_key network_id sealing.0 in
      let (network_key, network_sealed, more) =
        and_then-eq-ok network
          (with_network_key crypto pki m envelope_key network_id profile_ids encrypted) rest in
      let profiles = for_profiles crypto pki m envelope_key profile_ids [] network.0 in
      let (keys, profiles_sealed, done) =
        and_then-eq-ok profiles (with_keys crypto pki network_id encrypted network_key) more in
      subst (λ (e : EnvelopeEncryptedData). Has id e.profile_encrypted_keys) (ok-injective done)
        (for_profiles-Has envelope_key id pair profile_ids [] keys network.0 profiles_sealed known
          (inl asked))
