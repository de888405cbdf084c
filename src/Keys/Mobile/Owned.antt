-- ===== src/Keys/Mobile/Owned.antt =====
-- runar-keys/src/mobile.rs: what holds of the keys of every manager.
use mathlib.Core.Path.{subst}
use rust_mono.Prelude.{
  ◌≡◌, refl, sym, ◌∙◌, String, ◌==◌, eq_iff, Option, some, Bool-cases, inl, inr, [], ◌∷◌, is_empty,
  if_both,
}
use rust_mono.Prelude.Result.{Result, ok, err, ◌>>=◌, >>=-eq-ok, ok-injective, map_err, ok_or}
use rust_mono.Prelude.HashMap as Map
use rust_mono.Prelude.HashMap.{HashMap, get-insert}
use rust_mono.Keys.{
  KeyError, certificate_error, key_derivation_error, no_root_key, private_key_der, Crypto,
  EcdsaKeyPair, new_key_pair, from_signing_key, public_key_bytes, compact_network_id,
}
use rust_mono.Keys.Ecies.{IsKeyPair}
use rust_mono.Keys.Certificates.{
  Pki, CertificateAuthority, X509Certificate, from_der, sign_certificate_request,
}
use rust_mono.Keys.Mobile.{
  MobileKeyManager, SetupToken, NodeCertificateMessage, fresh_manager, certified, self_signed, new,
  initialize_user_root_key, profile_key, pair_of_bytes, expand_key, expand_root, with_profile_key,
  derive_user_profile_key, generate_network_data_key, with_certificate, process_setup_token,
}

module _ {R K P Z S C E G : Type 0} (crypto : Crypto R K P Z S C E) (pki : Pki R K P G E) where
  abbrev pub Pairs : (String → EcdsaKeyPair K P → Type 0) → HashMap (EcdsaKeyPair K P) → Type 0
  Pairs Q keys = (id : String) (pair : EcdsaKeyPair K P) → Map.get id keys ≡ some pair → Q id pair

  -- A network is named by its public key.
  abbrev pub IsNetwork : String → EcdsaKeyPair K P → Type 0
  IsNetwork id pair =
      IsKeyPair crypto pair × (compact_network_id crypto (public_key_bytes crypto pair) ≡ id)

  -- Every private key stands with its own public key, and every network under its identifier; the
  -- authority's certificate is the one that is trusted.
  pub record IsOwned (m : MobileKeyManager K P) : Type 0 where
    pub profiles : Pairs (λ id pair. IsKeyPair crypto pair) m.user_profile_keys
    pub networks : Pairs IsNetwork m.network_data_keys
    pub root : (pair : EcdsaKeyPair K P) → m.user_root_key ≡ some pair → IsKeyPair crypto pair
    pub authority : IsKeyPair crypto m.certificate_authority.ca_key_pair
    pub trusted :
        m.certificate_validator.trusted_ca_certificates
        ≡ m.certificate_authority.ca_certificate ∷ []

  -- What a manager becomes by the operations that change it.
  pub data Reachable : MobileKeyManager K P → Type 0 where
    made : {m : MobileKeyManager K P} (r : R) → (new crypto pki r).1 ≡ ok m → Reachable m
    root_key :
        {m : MobileKeyManager K P} (r : R)
        → Reachable m
        → Reachable (initialize_user_root_key crypto pki m r).1
    derived :
        {m : MobileKeyManager K P} (profile_id : String)
        → Reachable m
        → Reachable (derive_user_profile_key crypto pki profile_id m).0
    generated :
        {m : MobileKeyManager K P} (r : R)
        → Reachable m
        → Reachable (generate_network_data_key crypto pki m r).1
    issued :
        {m : MobileKeyManager K P} (token : SetupToken) (r : R)
        → Reachable m
        → Reachable (process_setup_token crypto pki token m r).1

  Pairs-insert :
      (Q : String → EcdsaKeyPair K P → Type 0) (k : String) (new_pair : EcdsaKeyPair K P)
      (keys : HashMap (EcdsaKeyPair K P))
      → Q k new_pair
      → Pairs Q keys
      → Pairs Q (Map.insert k new_pair keys)
  Pairs-insert Q k new_pair keys q all id pair found = elim (Bool-cases (k == id)) [
    | inl same ↦
        let it : ◌≡◌ {A = Option (EcdsaKeyPair K P)} (some new_pair) (some pair) =
          sym (get-insert k id new_pair keys ∙ rw same refl) ∙ found in
        let pair_is : new_pair ≡ pair = cc it in
        rw (sym pair_is) (rw (sym ((eq_iff k id).0 same)) q)
    | inr other ↦ all id pair (sym (get-insert k id new_pair keys ∙ rw other refl) ∙ found)
  ]

  from_signing_key-IsKeyPair : (k : K) → IsKeyPair crypto (from_signing_key crypto k)
  unfolding from_signing_key
  from_signing_key-IsKeyPair k = refl

  new_key_pair-IsKeyPair : (r : R) → IsKeyPair crypto (new_key_pair crypto r).1
  unfolding new_key_pair
  new_key_pair-IsKeyPair r = from_signing_key-IsKeyPair (crypto.random_signing_key r).1

  Pairs-nil : (Q : String → EcdsaKeyPair K P → Type 0) → Pairs Q []
  unfolding Map.get
  Pairs-nil Q id pair found = absurd (cc found)

  fresh_manager-IsOwned :
      (authority : CertificateAuthority K P)
      → IsKeyPair crypto authority.ca_key_pair
      → IsOwned (fresh_manager crypto pki authority)
  fresh_manager-IsOwned authority own = record {
    profiles = Pairs-nil (λ id pair. IsKeyPair crypto pair);
    networks = Pairs-nil IsNetwork;
    root = λ pair found. absurd (cc found);
    authority = own;
    trusted = refl;
  }

  -- A manager is made only if the key was converted.
  self_signed-ok :
      (pair : EcdsaKeyPair K P) (drawn : R) (converted : Result (KeyError E) (Unit {0}))
      (m : MobileKeyManager K P)
      → (self_signed crypto pki pair drawn converted).1 ≡ ok m
      → (map_err certificate_error
            (pki.self_sign pair.signing_key "CN=Runar User CA,O=Runar,C=US" drawn).1
          >>= certified crypto pki pair)
        ≡ ok m
  self_signed-ok pair drawn (err e) m h = absurd (cc h)
  self_signed-ok pair drawn (ok _) m h = h

  new-IsOwned : (r : R) (m : MobileKeyManager K P) → (new crypto pki r).1 ≡ ok m → IsOwned m
  unfolding new
  new-IsOwned r m h =
      let (drawn, pair) = new_key_pair crypto r in
      let (der, signed, rest) =
        >>=-eq-ok _ (certified crypto pki pair) (self_signed-ok pair drawn _ m h) in
      let (certificate, read, made_is) =
        >>=-eq-ok (from_der pki der)
          (λ (c : X509Certificate).
            ok (fresh_manager crypto pki (record { ca_key_pair = pair; ca_certificate = c })))
          rest in
      subst IsOwned (ok-injective made_is) (
        fresh_manager-IsOwned (record { ca_key_pair = pair; ca_certificate = certificate })
          (new_key_pair-IsKeyPair r))

  profile_key-IsKeyPair :
      (m : MobileKeyManager K P) (profile_id : String) (pair : EcdsaKeyPair K P)
      → profile_key crypto pki m profile_id ≡ ok pair
      → IsKeyPair crypto pair
  unfolding profile_key
  profile_key-IsKeyPair m profile_id pair h =
      let (root, a, rest) =
        >>=-eq-ok (ok_or no_root_key m.user_root_key) (expand_root crypto pki profile_id) h in
      let (der, b, more) =
        >>=-eq-ok (private_key_der crypto root) (expand_key crypto pki profile_id) rest in
      let (bytes, c, last) =
        >>=-eq-ok (map_err key_derivation_error _) (pair_of_bytes crypto pki) more in
      let (key, d, done) =
        >>=-eq-ok (map_err key_derivation_error (crypto.signing_key_from_bytes bytes))
          (λ (k : K). ok (from_signing_key crypto k)) last in
      subst (IsKeyPair crypto) (ok-injective done) (from_signing_key-IsKeyPair key)

  with_profile_key-IsOwned :
      (m : MobileKeyManager K P) (profile_id : String) (o : Result (KeyError E) (EcdsaKeyPair K P))
      → ((pair : EcdsaKeyPair K P) → o ≡ ok pair → IsKeyPair crypto pair)
      → IsOwned m
      → IsOwned (with_profile_key crypto pki profile_id m o).0
  with_profile_key-IsOwned m profile_id (err e) own h = h
  with_profile_key-IsOwned m profile_id (ok pair) own h = record {
    profiles =
        Pairs-insert (λ id p. IsKeyPair crypto p) profile_id pair m.user_profile_keys
          (own pair refl) h.profiles;
    networks = h.networks;
    root = h.root;
    authority = h.authority;
    trusted = h.trusted;
  }

  with_certificate-IsOwned :
      (token : SetupToken) (m : MobileKeyManager K P) (o : R × Result (KeyError E) X509Certificate)
      → IsOwned m
      → IsOwned (with_certificate crypto pki token m o).1
  with_certificate-IsOwned token m (r, err e) h = h
  with_certificate-IsOwned token m (r, ok certificate) h = record {
    profiles = h.profiles;
    networks = h.networks;
    root = h.root;
    authority = h.authority;
    trusted = h.trusted;
  }

  -- In every state that a mobile's key manager reaches from `new` by the operations that change it,
  -- failing ones included, each private key stands with its own public key, each network under the
  -- identifier of its public key, and the only trusted certificate is the authority's own.
  pub Reachable-IsOwned : {m : MobileKeyManager K P} → Reachable m → IsOwned m
  unfolding initialize_user_root_key derive_user_profile_key generate_network_data_key
      process_setup_token
  Reachable-IsOwned {m} (made r h) = new-IsOwned r m h
  Reachable-IsOwned (root_key {m} r reached) =
      let h = Reachable-IsOwned reached in
      record {
        profiles = h.profiles;
        networks = h.networks;
        root = λ pair found. subst (IsKeyPair crypto) (cc found) (new_key_pair-IsKeyPair r);
        authority = h.authority;
        trusted = h.trusted;
      }
  Reachable-IsOwned (derived {m} profile_id reached) =
      with_profile_key-IsOwned m profile_id (profile_key crypto pki m profile_id)
        (profile_key-IsKeyPair m profile_id) (Reachable-IsOwned reached)
  Reachable-IsOwned (generated {m} r reached) =
      let h = Reachable-IsOwned reached in
      let pair = (new_key_pair crypto r).1 in
      record {
        profiles = h.profiles;
        networks =
            Pairs-insert IsNetwork (compact_network_id crypto (public_key_bytes crypto pair)) pair
              m.network_data_keys (new_key_pair-IsKeyPair r, refl) h.networks;
        root = h.root;
        authority = h.authority;
        trusted = h.trusted;
      }
  Reachable-IsOwned (issued {m} token r reached) =
      if_both
        (λ (s : R × MobileKeyManager K P × Result (KeyError E) NodeCertificateMessage). IsOwned s.1)
        (is_empty token.csr_der) _ _ (Reachable-IsOwned reached)
        (with_certificate-IsOwned token m
          (sign_certificate_request pki m.certificate_authority token.csr_der 365 r)
          (Reachable-IsOwned reached))
