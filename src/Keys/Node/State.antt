-- ===== src/Keys/Node/State.antt =====
-- runar-keys/src/node.rs: what holds of every key manager of a node, and what an export keeps.
use rust_mono.Prelude.{
  ℕ, ◌≡◌, ◌⊎◌, refl, sym, ap, ◌∙◌, ◌&&◌, String, eq_refl, Option, none, some, inl, inr, List,
  if_both, if◌then◌else◌,
}
use rust_mono.Prelude.Result.{Result, ok, err}
use rust_mono.Prelude.HashMap as Map
use rust_mono.Prelude.HashMap.{HashMap, get-insert}
use rust_mono.Prelude.Text.{is_some}
use rust_mono.Keys.{KeyError, Crypto, EcdsaKeyPair, NetworkKeyMessage}
use rust_mono.Keys.Certificates.{X509Certificate, Pki, CertificateValidator}
use rust_mono.Keys.Mobile.{NodeCertificateMessage}
use rust_mono.Keys.Node.{
  CertificateStatus, no_certificate_yet, pending, valid, invalid, NodeKeyManager, validator_for,
  export_state, imported_status, from_state, new, ensure_key, ensure_symmetric_key, asked,
  generate_csr, installed, install_certificate, with_network_key, key_of_message,
  install_network_key, checked_status, get_certificate_status,
}

module _ {R K P Z S C E G : Type 0} (crypto : Crypto R K P Z S C E) (pki : Pki R K P G E) where
  -- The two certificates are there together, and what is trusted is the authority's; a status
  -- without a certificate is one of the first two.
  pub record IsConsistent (n : NodeKeyManager K P) : Type 0 where
    pub together : is_some n.node_certificate ≡ is_some n.ca_certificate
    pub validator : n.certificate_validator ≡ validator_for n.ca_certificate
    pub waiting :
        n.node_certificate ≡ none
        → (n.certificate_status ≡ no_certificate_yet) ⊎ (n.certificate_status ≡ pending)

  -- What a manager becomes by the operations that change it.
  pub data Reachable : NodeKeyManager K P → Type 0 where
    made : (r : R) → Reachable (new crypto pki r).1
    named :
        {n : NodeKeyManager K P} (key_name : String) (r : R)
        → Reachable n
        → Reachable (ensure_symmetric_key crypto pki key_name n r).1
    requested : {n : NodeKeyManager K P} → Reachable n → Reachable (generate_csr crypto pki n).0
    certified :
        {n : NodeKeyManager K P} (message : NodeCertificateMessage)
        → Reachable n
        → Reachable (install_certificate crypto pki message n).0
    joined :
        {n : NodeKeyManager K P} (message : NetworkKeyMessage)
        → Reachable n
        → Reachable (install_network_key crypto pki message n).0
    reimported : {n : NodeKeyManager K P} → Reachable n → Reachable (from_state (export_state n))

  ensure_key-IsConsistent :
      (key_name : String) (n : NodeKeyManager K P) (o : Option (List ℕ)) (r : R)
      → IsConsistent n
      → IsConsistent (ensure_key crypto pki key_name n o r).1
  ensure_key-IsConsistent key_name n (some key) r h = h
  ensure_key-IsConsistent key_name n none r h = record {
    together = h.together;
    validator = h.validator;
    waiting = h.waiting;
  }

  asked-IsConsistent :
      (n : NodeKeyManager K P) (o : Result (KeyError E) (List ℕ))
      → IsConsistent n
      → IsConsistent (asked crypto pki n o).0
  asked-IsConsistent n (err e) h = h
  asked-IsConsistent n (ok csr) h = record {
    together = h.together;
    validator = h.validator;
    waiting = λ none_there. inr refl;
  }

  with_network_key-IsConsistent :
      (n : NodeKeyManager K P) (o : Result (KeyError E) (EcdsaKeyPair K P))
      → IsConsistent n
      → IsConsistent (with_network_key crypto pki n o).0
  with_network_key-IsConsistent n (err e) h = h
  with_network_key-IsConsistent n (ok pair) h = record {
    together = h.together;
    validator = h.validator;
    waiting = h.waiting;
  }

  installed-IsConsistent :
      (message : NodeCertificateMessage) (n : NodeKeyManager K P)
      → IsConsistent (installed crypto pki message n)
  installed-IsConsistent message n = record {
    together = refl;
    validator = refl;
    waiting = λ none_there. absurd (cc none_there);
  }

  no_status :
      {A B : Type 0} (a : Option A) (b : Option B)
      → a ≡ none
      → (if is_some a && is_some b
          then valid
          else if is_some a
          then invalid
          else no_certificate_yet)
        ≡ no_certificate_yet
  no_status none b h = refl
  no_status (some a) b h = absurd (cc h)

  from_state-IsConsistent :
      (n : NodeKeyManager K P) → IsConsistent n → IsConsistent (from_state (export_state n))
  unfolding from_state export_state imported_status
  from_state-IsConsistent n h = record {
    together = h.together;
    validator = refl;
    waiting = λ none_there. inl (no_status n.node_certificate n.ca_certificate none_there);
  }

  pub Reachable-IsConsistent : {n : NodeKeyManager K P} → Reachable n → IsConsistent n
  unfolding new ensure_symmetric_key generate_csr install_certificate install_network_key
  Reachable-IsConsistent (made r) = record {
    together = refl;
    validator = refl;
    waiting = λ none_there. inl refl;
  }
  Reachable-IsConsistent (named {n} key_name r reached) =
      ensure_key-IsConsistent key_name n (Map.get key_name n.symmetric_keys) r
        (Reachable-IsConsistent reached)
  Reachable-IsConsistent (requested {n} reached) =
      asked-IsConsistent n _ (Reachable-IsConsistent reached)
  Reachable-IsConsistent (certified {n} message reached) =
      if_both (λ (o : NodeKeyManager K P × Result (KeyError E) (Unit {0})). IsConsistent o.0) _ _
        (installed crypto pki message n, ok tt) (Reachable-IsConsistent reached)
        (installed-IsConsistent message n)
  Reachable-IsConsistent (joined {n} message reached) =
      with_network_key-IsConsistent n (key_of_message crypto pki message n)
        (Reachable-IsConsistent reached)
  Reachable-IsConsistent (reimported {n} reached) =
      from_state-IsConsistent n (Reachable-IsConsistent reached)

  -- What is not exported is made again.
  reimported_lem :
      (n : NodeKeyManager K P)
      → IsConsistent n
      → from_state (export_state n)
        ≡ record n { certificate_status = imported_status (export_state n) }
  unfolding from_state export_state
  reimported_lem n h =
      ap
        (λ (v : Option CertificateValidator). record n {
          certificate_validator = v;
          certificate_status = imported_status (export_state n);
        })
        (sym h.validator)

  status_kept :
      (now : ℕ) (n : NodeKeyManager K P) (status : CertificateStatus)
      (certificate ca : Option X509Certificate)
      → is_some certificate ≡ is_some ca
      → (certificate ≡ none → status ≡ no_certificate_yet)
      → (certificate ≡ none
          → (n.certificate_status ≡ no_certificate_yet) ⊎ (n.certificate_status ≡ pending))
      → (checked_status crypto pki now
            (record n { certificate_status = status })
            certificate
            ca
            (validator_for ca)
          ≡ checked_status crypto pki now n certificate ca (validator_for ca))
        ⊎ ((n.certificate_status ≡ pending)
            × (checked_status crypto pki now
                  (record n { certificate_status = status })
                  certificate
                  ca
                  (validator_for ca)
                ≡ no_certificate_yet))
  status_kept now n status (some certificate) (some ca) together imported waiting = inl refl
  status_kept now n status (some certificate) none together imported waiting = absurd (cc together)
  status_kept now n status none ca together imported waiting = elim (waiting refl) [
    | inl same ↦ inl (imported refl ∙ sym same)
    | inr waits ↦ inr (waits, imported refl)
  ]

  -- For every key manager of a node that its operations lead to, exporting the state and importing
  -- it again gives the same manager but for the status that it stores, and the certificate status
  -- that it answers is the same too, except that a pending request for a certificate is forgotten.
  pub from_state-export_state :
      (now : ℕ) (n : NodeKeyManager K P)
      → Reachable n
      → (from_state (export_state n)
          ≡ record n { certificate_status = imported_status (export_state n) })
        × ((get_certificate_status crypto pki now (from_state (export_state n))
              ≡ get_certificate_status crypto pki now n)
            ⊎ ((n.certificate_status ≡ pending)
                × (get_certificate_status crypto pki now (from_state (export_state n))
                    ≡ no_certificate_yet)))
  unfolding get_certificate_status from_state export_state imported_status
  from_state-export_state now n reached =
      let h = Reachable-IsConsistent reached in
      (
        reimported_lem n h,
        rw h.validator (
            status_kept now n (imported_status (export_state n)) n.node_certificate n.ca_certificate
              h.together (no_status n.node_certificate n.ca_certificate) h.waiting),
      )

  -- `ensure_symmetric_key` makes a key for a name once: a second call, whatever random bytes it
  -- could draw, draws none, gives the key of the first call, and changes nothing.
  pub ensure_symmetric_key_again :
      (key_name : String) (n : NodeKeyManager K P) (r s : R)
      → ensure_symmetric_key crypto pki key_name (ensure_symmetric_key crypto pki key_name n r).1 s
        ≡ (
          s,
          (ensure_symmetric_key crypto pki key_name n r).1,
          (ensure_symmetric_key crypto pki key_name n r).2,
        )
  unfolding ensure_symmetric_key
  ensure_symmetric_key_again key_name n r s = again (Map.get key_name n.symmetric_keys) refl
    where
      again :
          (o : Option (List ℕ))
          → Map.get key_name n.symmetric_keys ≡ o
          → ensure_symmetric_key crypto pki key_name (ensure_key crypto pki key_name n o r).1 s ≡ (
            s,
            (ensure_key crypto pki key_name n o r).1,
            (ensure_key crypto pki key_name n o r).2,
          )
      again (some key) found = simp (found) refl
      again none missing =
          let key = (crypto.fill_bytes 32 r).1 in
          let stored : Map.get key_name (Map.insert key_name key n.symmetric_keys) ≡ some key =
            get-insert key_name key_name key n.symmetric_keys ∙ rw (eq_refl key_name) refl in
          simp (stored) refl
