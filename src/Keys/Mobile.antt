-- ===== src/Keys/Mobile.antt =====
-- runar-keys/src/mobile.rs: the key manager of the mobile, which issues certificates and keys. Drawing
-- random bytes changes the source of randomness, which every operation that draws passes on; where
-- only the time is read, it is an argument.
pub mod Sealing
pub mod Envelopes
pub mod Owned
use Prim.Native.String as Str
use rust_mono.Prelude.{
  ℕ, ◌+◌, Bool, true, false, not, String, Option, none, some, List, [], ◌∷◌, ◌++◌, is_empty, length,
  if◌then◌else◌,
}
use rust_mono.Prelude.Result.{Result, ok, err, ◌>>=◌, map_err, ok_or, and_then}
use rust_mono.Prelude.HashMap as Map
use rust_mono.Prelude.HashMap.{HashMap}
use rust_mono.Prelude.Text.{empty}
use rust_mono.Keys.{
  KeyError, invalid_key_format, certificate_error, key_derivation_error, no_root_key, key_not_found,
  no_envelope_key, no_network_encrypted_key, empty_csr, Crypto, EcdsaKeyPair, EnvelopeEncryptedData,
  NetworkKeyMessage, from_signing_key, new_key_pair, public_key_bytes, private_key_der,
  compact_node_id, compact_network_id, encrypt_with_symmetric_key, decrypt_with_symmetric_key,
  encrypt_key_with_ecdsa, decrypt_key_with_ecdsa,
}
use rust_mono.Keys.Certificates.{
  X509Certificate, Pki, CertificateAuthority, CertificateValidator, validate_certificate,
  sign_certificate_request, from_der,
}

pub record SetupToken : Type 0 where
  pub node_public_key : List ℕ
  pub csr_der : List ℕ
  pub node_id : String

pub record CertificateMetadata : Type 0 where
  pub issued_at : ℕ
  pub validity_days : ℕ
  pub purpose : String

pub record NodeCertificateMessage : Type 0 where
  pub node_certificate : X509Certificate
  pub ca_certificate : X509Certificate
  pub metadata : CertificateMetadata

pub record MobileKeyManager (K P : Type 0) : Type 0 where
  pub certificate_authority : CertificateAuthority K P
  pub certificate_validator : CertificateValidator
  pub user_root_key : Option (EcdsaKeyPair K P)
  pub user_profile_keys : HashMap (EcdsaKeyPair K P)
  pub network_data_keys : HashMap (EcdsaKeyPair K P)
  pub issued_certificates : HashMap X509Certificate

module _ {R K P Z S C E G : Type 0} (crypto : Crypto R K P Z S C E) (pki : Pki R K P G E) where
  abbrev pub fresh_manager : CertificateAuthority K P → MobileKeyManager K P
  fresh_manager authority = record {
    certificate_authority = authority;
    certificate_validator = record { trusted_ca_certificates = authority.ca_certificate ∷ [] };
    user_root_key = none;
    user_profile_keys = [];
    network_data_keys = [];
    issued_certificates = [];
  }

  abbrev pub certified : EcdsaKeyPair K P → List ℕ → Result (KeyError E) (MobileKeyManager K P)
  certified pair der = do
    certificate ← from_der pki der
    ok (fresh_manager (record { ca_key_pair = pair; ca_certificate = certificate }))

  abbrev pub self_signed :
      EcdsaKeyPair K P
      → R
      → Result (KeyError E) (Unit {0})
      → R × Result (KeyError E) (MobileKeyManager K P)
  self_signed pair drawn (err e) = (drawn, err e)
  self_signed pair drawn (ok _) =
      let (after, der) = pki.self_sign pair.signing_key "CN=Runar User CA,O=Runar,C=US" drawn in
      (after, map_err certificate_error der >>= certified pair)

  -- `MobileKeyManager::new`, by `CertificateAuthority::new`
  unfoldable pub new : R → R × Result (KeyError E) (MobileKeyManager K P)
  new r =
      let (drawn, pair) = new_key_pair crypto r in
      self_signed pair drawn (map_err invalid_key_format (pki.to_rcgen pair.signing_key))

  unfoldable pub initialize_user_root_key :
      MobileKeyManager K P → R → R × MobileKeyManager K P × List ℕ
  unfolding new_key_pair public_key_bytes
  initialize_user_root_key m r =
      let (after, pair) = new_key_pair crypto r in
      (after, record m { user_root_key = some pair }, public_key_bytes crypto pair)

  unfoldable pub get_user_root_public_key : MobileKeyManager K P → Result (KeyError E) (List ℕ)
  get_user_root_public_key m = do
    pair ← ok_or no_root_key m.user_root_key
    ok (public_key_bytes crypto pair)

  abbrev pub pair_of_bytes : List ℕ → Result (KeyError E) (EcdsaKeyPair K P)
  pair_of_bytes derived = do
    key ← map_err key_derivation_error (crypto.signing_key_from_bytes derived)
    ok (from_signing_key crypto key)

  abbrev pub expand_key : String → List ℕ → Result (KeyError E) (EcdsaKeyPair K P)
  expand_key profile_id der = do
    derived ←
        map_err key_derivation_error (crypto.expand der (Str.◌++◌ "runar-profile-" profile_id))
    pair_of_bytes derived

  abbrev pub expand_root : String → EcdsaKeyPair K P → Result (KeyError E) (EcdsaKeyPair K P)
  expand_root profile_id root = do der ← private_key_der crypto root; expand_key profile_id der

  -- The key that is derived from the root key for a profile.
  unfoldable pub profile_key :
      MobileKeyManager K P → String → Result (KeyError E) (EcdsaKeyPair K P)
  profile_key m profile_id = do
    root ← ok_or no_root_key m.user_root_key
    expand_root profile_id root

  abbrev pub with_profile_key :
      String
      → MobileKeyManager K P
      → Result (KeyError E) (EcdsaKeyPair K P)
      → MobileKeyManager K P × Result (KeyError E) (List ℕ)
  with_profile_key profile_id m (err e) = (m, err e)
  with_profile_key profile_id m (ok pair) = (
    record m { user_profile_keys = Map.insert profile_id pair m.user_profile_keys },
    ok (public_key_bytes crypto pair),
  )

  unfoldable pub derive_user_profile_key :
      String → MobileKeyManager K P → MobileKeyManager K P × Result (KeyError E) (List ℕ)
  unfolding profile_key
  derive_user_profile_key profile_id m = with_profile_key profile_id m (profile_key m profile_id)

  unfoldable pub get_network_public_key :
      MobileKeyManager K P → String → Result (KeyError E) (List ℕ)
  get_network_public_key m network_id = do
    pair ← ok_or (key_not_found network_id) (Map.get network_id m.network_data_keys)
    ok (public_key_bytes crypto pair)

  unfoldable pub generate_network_data_key :
      MobileKeyManager K P → R → R × MobileKeyManager K P × String
  unfolding new_key_pair public_key_bytes compact_network_id
  generate_network_data_key m r =
      let (after, pair) = new_key_pair crypto r in
      let network_id = compact_network_id crypto (public_key_bytes crypto pair) in
      (
        after,
        record m { network_data_keys = Map.insert network_id pair m.network_data_keys },
        network_id,
      )

  abbrev pub with_certificate :
      SetupToken
      → MobileKeyManager K P
      → R × Result (KeyError E) X509Certificate
      → R × MobileKeyManager K P × Result (KeyError E) NodeCertificateMessage
  with_certificate token m (r, err e) = (r, m, err e)
  with_certificate token m (r, ok certificate) = (
    r,
    record m { issued_certificates = Map.insert token.node_id certificate m.issued_certificates },
    ok (record {
      node_certificate = certificate;
      ca_certificate = m.certificate_authority.ca_certificate;
      metadata = record {
        issued_at = pki.now r;
        validity_days = 365;
        purpose = "Node TLS Certificate";
      };
    }),
  )

  unfoldable pub process_setup_token :
      SetupToken
      → MobileKeyManager K P
      → R
      → R × MobileKeyManager K P × Result (KeyError E) NodeCertificateMessage
  unfolding sign_certificate_request
  process_setup_token token m r =
      if is_empty token.csr_der
      then (r, m, err empty_csr)
      else with_certificate token m
          (sign_certificate_request pki m.certificate_authority token.csr_der 365 r)

  abbrev pub key_message :
      String → List ℕ → EcdsaKeyPair K P → List ℕ → R → R × Result (KeyError E) NetworkKeyMessage
  key_message network_id node_public_key pair encrypted r = (
    r,
    ok (record {
      network_id = network_id;
      network_public_key = public_key_bytes crypto pair;
      encrypted_network_key = encrypted;
      key_derivation_info =
          Str.◌++◌ "Network key for node "
            (Str.◌++◌ (compact_node_id crypto node_public_key) " (ECIES encrypted)");
    }),
  )

  abbrev pub message_for :
      String → List ℕ → EcdsaKeyPair K P → List ℕ → R → R × Result (KeyError E) NetworkKeyMessage
  message_for network_id node_public_key pair private_key r =
      and_then (encrypt_key_with_ecdsa crypto private_key node_public_key r)
        (key_message network_id node_public_key pair)

  abbrev pub message_of :
      String → List ℕ → EcdsaKeyPair K P → R → R × Result (KeyError E) NetworkKeyMessage
  message_of network_id node_public_key pair r =
      and_then (r, private_key_der crypto pair) (message_for network_id node_public_key pair)

  unfoldable pub create_network_key_message :
      MobileKeyManager K P → String → List ℕ → R → R × Result (KeyError E) NetworkKeyMessage
  create_network_key_message m network_id node_public_key r =
      and_then (r, ok_or (key_not_found network_id) (Map.get network_id m.network_data_keys))
        (message_of network_id node_public_key)

  unfoldable pub encrypt_message_for_node : List ℕ → List ℕ → R → R × Result (KeyError E) (List ℕ)
  encrypt_message_for_node message node_public_key r =
      encrypt_key_with_ecdsa crypto message node_public_key r

  unfoldable pub decrypt_message_from_node :
      MobileKeyManager K P → List ℕ → Result (KeyError E) (List ℕ)
  decrypt_message_from_node m message = do
    root ← ok_or no_root_key m.user_root_key
    decrypt_key_with_ecdsa crypto message root
