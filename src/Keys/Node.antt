-- ===== src/Keys/Node.antt =====
-- runar-keys/src/node.rs: the key manager of a node, which asks for a certificate and is given keys.
pub mod Sealing
pub mod Networks
pub mod State
use Prim.Native.String as Str
use rust_mono.Prelude.{
  ℕ, ◌+◌, ◌≡◌, Bool, true, false, not, ◌&&◌, String, Option, none, some, List, [], ◌∷◌, ◌++◌,
  is_empty, length, if◌then◌else◌,
}
use rust_mono.Prelude.Result.{Result, ok, err, ◌>>=◌, map_err, ok_or, and_then}
use rust_mono.Prelude.HashMap as Map
use rust_mono.Prelude.HashMap.{HashMap}
use rust_mono.Prelude.Text.{contains, is_some}
use rust_mono.Keys.{
  KeyError, invalid_key_format, certificate_error, encryption_error, decryption_error,
  validation_error, key_not_found, no_network_encrypted_key, no_validator, no_certificate,
  no_ca_certificate, wrong_subject, Crypto, EcdsaKeyPair, EnvelopeEncryptedData, NetworkKeyMessage,
  from_signing_key, new_key_pair, private_key_der, public_key_bytes, compact_node_id,
  compact_network_id, encrypt_with_symmetric_key, decrypt_with_symmetric_key,
  encrypt_key_with_ecdsa, decrypt_key_with_ecdsa,
}
use rust_mono.Keys.Certificates.{
  X509Certificate, Pki, CertificateValidator, validate_certificate, public_key,
}
use rust_mono.Keys.Mobile.{SetupToken, NodeCertificateMessage}

pub data CertificateStatus : Type 0 where
  no_certificate_yet pending valid invalid : CertificateStatus

pub record NodeKeyManager (K P : Type 0) : Type 0 where
  pub node_key_pair : EcdsaKeyPair K P
  pub node_certificate : Option X509Certificate
  pub ca_certificate : Option X509Certificate
  pub certificate_validator : Option CertificateValidator
  pub network_keys : HashMap (EcdsaKeyPair K P)
  pub symmetric_keys : HashMap (List ℕ)
  pub storage_key : List ℕ
  pub certificate_status : CertificateStatus

pub record NodeKeyManagerState (K P : Type 0) : Type 0 where
  pub node_key_pair : EcdsaKeyPair K P
  pub node_certificate : Option X509Certificate
  pub ca_certificate : Option X509Certificate
  pub network_keys : HashMap (EcdsaKeyPair K P)
  pub symmetric_keys : HashMap (List ℕ)
  pub storage_key : List ℕ

-- Certificates and the key for TLS are their bytes.
pub record QuicCertificateConfig : Type 0 where
  pub certificate_chain : List (List ℕ)
  pub private_key : List ℕ
  pub certificate_validator : CertificateValidator

abbrev pub validator_for : Option X509Certificate → Option CertificateValidator
validator_for none = none
validator_for (some ca) = some (record { trusted_ca_certificates = ca ∷ [] })

module _ {K P : Type 0} where
  unfoldable pub export_state : NodeKeyManager K P → NodeKeyManagerState K P
  export_state n = record {
    node_key_pair = n.node_key_pair;
    node_certificate = n.node_certificate;
    ca_certificate = n.ca_certificate;
    network_keys = n.network_keys;
    symmetric_keys = n.symmetric_keys;
    storage_key = n.storage_key;
  }

  unfoldable pub imported_status : NodeKeyManagerState K P → CertificateStatus
  imported_status state =
      if is_some state.node_certificate && is_some state.ca_certificate
      then valid
      else if is_some state.node_certificate
      then invalid
      else no_certificate_yet

  unfoldable pub from_state : NodeKeyManagerState K P → NodeKeyManager K P
  unfolding imported_status
  from_state state = record {
    node_key_pair = state.node_key_pair;
    node_certificate = state.node_certificate;
    ca_certificate = state.ca_certificate;
    certificate_validator = validator_for state.ca_certificate;
    network_keys = state.network_keys;
    symmetric_keys = state.symmetric_keys;
    storage_key = state.storage_key;
    certificate_status = imported_status state;
  }

module _ {R K P Z S C E G : Type 0} (crypto : Crypto R K P Z S C E) (pki : Pki R K P G E) where
  unfoldable pub new : R → R × NodeKeyManager K P
  unfolding new_key_pair
  new r =
      let (drawn, pair) = new_key_pair crypto r in
      let (after, storage_key) = crypto.fill_bytes 32 drawn in
      (
        after,
        record {
          node_key_pair = pair;
          node_certificate = none;
          ca_certificate = none;
          certificate_validator = none;
          network_keys = [];
          symmetric_keys = [];
          storage_key = storage_key;
          certificate_status = no_certificate_yet;
        },
      )

  unfoldable pub get_node_public_key : NodeKeyManager K P → List ℕ
  unfolding public_key_bytes
  get_node_public_key n = public_key_bytes crypto n.node_key_pair

  unfoldable pub get_node_id : NodeKeyManager K P → String
  unfolding compact_node_id public_key_bytes
  get_node_id n = compact_node_id crypto (public_key_bytes crypto n.node_key_pair)

  abbrev pub ensure_key :
      String → NodeKeyManager K P → Option (List ℕ) → R → R × NodeKeyManager K P × List ℕ
  ensure_key key_name n (some key) r = (r, n, key)
  ensure_key key_name n none r =
      let (after, key) = crypto.fill_bytes 32 r in
      (after, record n { symmetric_keys = Map.insert key_name key n.symmetric_keys }, key)

  unfoldable pub ensure_symmetric_key :
      String → NodeKeyManager K P → R → R × NodeKeyManager K P × List ℕ
  ensure_symmetric_key key_name n r = ensure_key key_name n (Map.get key_name n.symmetric_keys) r

  abbrev pub asked :
      NodeKeyManager K P
      → Result (KeyError E) (List ℕ)
      → NodeKeyManager K P × Result (KeyError E) SetupToken
  asked n (err e) = (n, err e)
  asked n (ok csr_der) = (
    record n { certificate_status = pending },
    ok (record {
      node_public_key = get_node_public_key n;
      csr_der = csr_der;
      node_id = get_node_id n;
    }),
  )

  unfoldable pub generate_csr :
      NodeKeyManager K P → NodeKeyManager K P × Result (KeyError E) SetupToken
  generate_csr n =
      let subject = Str.◌++◌ "CN=" (Str.◌++◌ (get_node_id n) ",O=Runar Node,C=US") in
      let key = n.node_key_pair.signing_key in
      asked n (do
        _ ← map_err invalid_key_format (pki.to_rcgen key)
        map_err certificate_error (pki.create_request key subject))

  abbrev pub installed : NodeCertificateMessage → NodeKeyManager K P → NodeKeyManager K P
  installed message n = record n {
    node_certificate = some message.node_certificate;
    ca_certificate = some message.ca_certificate;
    certificate_validator = some (record { trusted_ca_certificates = message.ca_certificate ∷ [] });
    certificate_status = valid;
  }

  -- The signature of the authority is not checked.
  unfoldable pub install_certificate :
      NodeCertificateMessage
      → NodeKeyManager K P
      → NodeKeyManager K P × Result (KeyError E) (Unit {0})
  install_certificate message n =
      if not (contains message.node_certificate.subject (get_node_id n))
      then (n, err wrong_subject)
      else (installed message n, ok tt)

  unfoldable pub get_quic_certificate_config :
      NodeKeyManager K P → Result (KeyError E) QuicCertificateConfig
  get_quic_certificate_config n = do
    node ← ok_or no_certificate n.node_certificate
    ca ← ok_or no_ca_certificate n.ca_certificate
    validator ← ok_or no_validator n.certificate_validator
    private_key ← private_key_der crypto n.node_key_pair
    ok (record {
      certificate_chain = node.der_bytes ∷ ca.der_bytes ∷ [];
      private_key = private_key;
      certificate_validator = validator;
    })

  unfoldable pub validate_peer_certificate :
      ℕ → NodeKeyManager K P → X509Certificate → Result (KeyError E) (Unit {0})
  validate_peer_certificate now n peer_cert = do
    validator ← ok_or no_validator n.certificate_validator
    validate_certificate pki now validator peer_cert

  abbrev pub with_network_key :
      NodeKeyManager K P
      → Result (KeyError E) (EcdsaKeyPair K P)
      → NodeKeyManager K P × Result (KeyError E) (Unit {0})
  with_network_key n (err e) = (n, err e)
  with_network_key n (ok pair) = (
    record n {
      network_keys =
          Map.insert (compact_network_id crypto (public_key_bytes crypto pair)) pair n.network_keys;
    },
    ok tt,
  )

  -- The key pair that a message brings.
  unfoldable pub key_of_message :
      NetworkKeyMessage → NodeKeyManager K P → Result (KeyError E) (EcdsaKeyPair K P)
  key_of_message message n = do
    decrypted ← decrypt_key_with_ecdsa crypto message.encrypted_network_key n.node_key_pair
    key ← map_err invalid_key_format (crypto.from_pkcs8_der decrypted)
    ok (from_signing_key crypto key)

  unfoldable pub install_network_key :
      NetworkKeyMessage → NodeKeyManager K P → NodeKeyManager K P × Result (KeyError E) (Unit {0})
  unfolding key_of_message
  install_network_key message n = with_network_key n (key_of_message message n)

  abbrev pub status_of : Result (KeyError E) (Unit {0}) → CertificateStatus
  status_of (ok _) = valid
  status_of (err e) = invalid

  abbrev pub checked_status :
      ℕ
      → NodeKeyManager K P
      → Option X509Certificate
      → Option X509Certificate
      → Option CertificateValidator
      → CertificateStatus
  checked_status now n (some certificate) (some ca) (some validator) =
      status_of (validate_certificate pki now validator certificate)
  checked_status now n (some certificate) (some ca) none = invalid
  checked_status now n (some certificate) none validator = invalid
  checked_status now n none ca validator = n.certificate_status

  unfoldable pub get_certificate_status : ℕ → NodeKeyManager K P → CertificateStatus
  get_certificate_status now n =
      checked_status now n n.node_certificate n.ca_certificate n.certificate_validator

  unfoldable pub sign_data : NodeKeyManager K P → List ℕ → List ℕ
  sign_data n plain = pki.sign n.node_key_pair.signing_key plain

  unfoldable pub verify_peer_signature :
      ℕ → NodeKeyManager K P → List ℕ → List ℕ → X509Certificate → Result (KeyError E) (Unit {0})
  unfolding validate_peer_certificate
  verify_peer_signature now n signed signature peer_cert = do
    checked ← validate_peer_certificate now n peer_cert
    peer_public_key ← public_key pki peer_cert
    read ← map_err validation_error (pki.signature_from_der signature)
    map_err validation_error (pki.verify peer_public_key signed read)
