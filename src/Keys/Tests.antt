-- ===== src/Keys/Tests.antt =====
-- runar-keys/src/mobile.rs and runar-keys/src/node.rs: runs of both managers with a cryptography that
-- only keeps the promises of the libraries, and the theorems applied to them.
mod Toy
use rust_mono.Prelude.{
  ℕ, ◌≡◌, ◌⊎◌, ◌↔◌, refl, inl, inr, true, false, String, none, some, List, [], ◌∷◌, ◌≤◌, arith,
}
use rust_mono.Prelude.Result.{Result, ok, err}
use rust_mono.Prelude.HashMap as Map
use rust_mono.Keys.{
  KeyError, EnvelopeEncryptedData, NetworkKeyMessage, new_key_pair, from_signing_key,
  public_key_bytes, private_key_der, compact_network_id, encrypt_with_symmetric_key, encryption_key,
  encrypt_key_with_ecdsa, compact_node_id,
}
use rust_mono.Keys.Certificates.{
  X509Certificate, CertificateValidator, CertificateAuthority, from_der, validate_certificate,
  public_key, parsed, normalize_dn, sort, trim_start, trim_end,
}
use rust_mono.Keys.Certificates.Trust.{IsIssuer, here, IsTrusted, validate_certificate_iff}
use rust_mono.Keys.Mobile.{
  MobileKeyManager, SetupToken, fresh_manager, generate_network_data_key, process_setup_token,
  create_network_key_message,
}
use rust_mono.Keys.Mobile as Mobile
use rust_mono.Keys.Mobile.Sealing.{
  encrypt_with_envelope, encrypt_for_profile, create_envelope_key, for_network, for_profiles,
}
use rust_mono.Keys.Mobile.Sealing as Sealing
use rust_mono.Keys.Mobile.Owned.{IsOwned, Reachable, made, generated, Reachable-IsOwned}
use rust_mono.Keys.Mobile.Envelopes.Opened.{
  decrypt_envelope_data-encrypt_with_envelope, encrypt_for_profile_fails,
}
use rust_mono.Keys.Node.{
  NodeKeyManager, CertificateStatus, pending, no_certificate_yet, export_state, imported_status,
  from_state, get_node_public_key, install_network_key, generate_csr, get_certificate_status,
  ensure_symmetric_key,
}
use rust_mono.Keys.Node.Sealing.{decrypt_envelope_data}
use rust_mono.Keys.Node as Node
use rust_mono.Keys.Node.Networks.{decrypt_envelope_data-install_network_key}
use rust_mono.Keys.Node.State as State
use rust_mono.Keys.Node.State.{from_state-export_state, ensure_symmetric_key_again}
use rust_mono.Keys.Tests.Toy.{toy, toy_pki, toy-IsCrypto, the_certificate}

abbrev fresh : MobileKeyManager ℕ ℕ
fresh = fresh_manager toy toy_pki (record {
  ca_key_pair = record { signing_key = 0; verifying_key = 0 };
  ca_certificate = the_certificate;
})

new-fresh : (Mobile.new toy toy_pki 0).1 ≡ ok fresh
unfolding Mobile.new new_key_pair from_signing_key from_der
new-fresh = refl

-- A manager with one network, the key of which is 5.
abbrev sealer : MobileKeyManager ℕ ℕ
sealer = (generate_network_data_key toy toy_pki fresh 5).1

sealer-IsOwned : IsOwned toy toy_pki sealer
sealer-IsOwned = Reachable-IsOwned toy toy_pki (generated 5 (made 0 new-fresh))

abbrev plain : List ℕ
plain = 3 ∷ 4 ∷ []

abbrev envelope_in : Result (KeyError ℕ) EnvelopeEncryptedData → EnvelopeEncryptedData
envelope_in (ok envelope) = envelope
envelope_in (err e) = record {
  encrypted_data = [];
  network_id = "";
  network_encrypted_key = [];
  profile_encrypted_keys = [];
}

abbrev sealed : EnvelopeEncryptedData
sealed = envelope_in (encrypt_with_envelope toy toy_pki sealer plain "id" [] 9).1

sealed-made : (encrypt_with_envelope toy toy_pki sealer plain "id" [] 9).1 ≡ ok sealed
unfolding encrypt_with_envelope create_envelope_key for_network for_profiles
    encrypt_with_symmetric_key encrypt_key_with_ecdsa encryption_key public_key_bytes
    generate_network_data_key new_key_pair from_signing_key compact_network_id Map.get Map.insert
sealed-made = refl

decrypt_envelope_data-encrypt_with_envelope_example :
    Sealing.decrypt_envelope_data toy toy_pki sealer sealed ≡ ok plain
decrypt_envelope_data-encrypt_with_envelope_example =
    decrypt_envelope_data-encrypt_with_envelope toy toy_pki toy-IsCrypto sealer sealer-IsOwned plain
      "id" [] sealed 9 sealed-made (inl refl)

encrypt_for_profile_fails_example :
    (e : KeyError ℕ) × ((encrypt_for_profile toy toy_pki fresh plain "me" 9).1 ≡ err e)
unfolding Map.get
encrypt_for_profile_fails_example = encrypt_for_profile_fails toy toy_pki fresh plain "me" 9 refl

abbrev joining : NodeKeyManager ℕ ℕ
joining = (Node.new toy toy_pki 7).1

joining-own : joining.node_key_pair.verifying_key ≡ joining.node_key_pair.signing_key
unfolding Node.new new_key_pair from_signing_key
joining-own = refl

abbrev message_in : Result (KeyError ℕ) NetworkKeyMessage → NetworkKeyMessage
message_in (ok message) = message
message_in (err e) = record {
  network_id = "";
  network_public_key = [];
  encrypted_network_key = [];
  key_derivation_info = "";
}

abbrev sent : NetworkKeyMessage
sent =
    message_in
      (create_network_key_message toy toy_pki sealer "id" (get_node_public_key toy toy_pki joining)
        11).1

sent-made :
    (create_network_key_message toy toy_pki sealer "id"
      (get_node_public_key toy toy_pki joining)
      11).1
    ≡ ok sent
unfolding create_network_key_message get_node_public_key private_key_der encrypt_with_symmetric_key
    encrypt_key_with_ecdsa encryption_key public_key_bytes generate_network_data_key new_key_pair
    from_signing_key compact_network_id compact_node_id Map.get Map.insert Node.new
sent-made = refl

decrypt_envelope_data-install_network_key_example :
    ((install_network_key toy toy_pki sent joining).1 ≡ ok tt)
    × (decrypt_envelope_data toy toy_pki (install_network_key toy toy_pki sent joining).0 sealed
        ≡ ok plain)
decrypt_envelope_data-install_network_key_example =
    decrypt_envelope_data-install_network_key toy toy_pki toy-IsCrypto sealer joining "id" sent
      plain [] sealed 11 9 sealer-IsOwned joining-own sent-made sealed-made refl

abbrev requesting : NodeKeyManager ℕ ℕ
requesting = (generate_csr toy toy_pki joining).0

from_state-export_state_example :
    (from_state (export_state requesting)
      ≡ record requesting { certificate_status = imported_status (export_state requesting) })
    × ((get_certificate_status toy toy_pki 0 (from_state (export_state requesting))
          ≡ get_certificate_status toy toy_pki 0 requesting)
        ⊎ ((requesting.certificate_status ≡ pending)
            × (get_certificate_status toy toy_pki 0 (from_state (export_state requesting))
                ≡ no_certificate_yet)))
from_state-export_state_example =
    from_state-export_state toy toy_pki 0 requesting (State.requested (State.made 7))

Reachable-IsOwned_example : IsOwned toy toy_pki sealer
Reachable-IsOwned_example = Reachable-IsOwned toy toy_pki (generated 5 (made 0 new-fresh))

abbrev trusting : CertificateValidator
trusting = record { trusted_ca_certificates = the_certificate ∷ [] }

validate_certificate_iff_example :
    (validate_certificate toy_pki 15 trusting the_certificate ≡ ok tt)
    ↔ IsTrusted toy_pki 15 the_certificate (trusting.trusted_ca_certificates)
validate_certificate_iff_example = validate_certificate_iff toy_pki 15 the_certificate trusting
