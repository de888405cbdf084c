-- ===== src/Keys/Certificates/Trust.antt =====
-- runar-keys/src/certificate.rs: when a certificate is valid.
use rust_mono.Prelude.{
  ℕ, ◌≤◌, ◌≡◌, ◌≢◌, ◌↔◌, String, refl, sym, ◌∙◌, true, false, ◌==◌, eq_iff, eq_refl, Bool-cases,
  inl, inr, List, [], ◌∷◌, ltb, arith,
}
use rust_mono.Prelude.Result.{ok, ◌>>=◌, >>=-eq-ok, map_err, map_err-eq-ok, refused-eq-ok}
use rust_mono.Keys.{certificate_error, not_yet_valid, expired, validation_error}
use rust_mono.Keys.Certificates.Names.{SameName, normalize_dn_iff}
use rust_mono.Keys.Certificates.{
  X509Certificate, ParsedCertificate, Pki, CertificateValidator, normalize_dn, parsed, public_key,
  check_signature, validate_parsed, validate, issued_by, validate_with, validate_certificate,
}

module _ {R K P G E : Type 0} (pki : Pki R K P G E) where
  -- The certificate can be read, the time is within its bounds, both included, and the key verifies
  -- its signature.
  pub record IsSigned (now : ℕ) (certificate : X509Certificate) (key : P) : Type 0 where
    pub contents : ParsedCertificate
    pub reads : pki.parse certificate.der_bytes ≡ ok contents
    pub after_start : contents.not_before ≤ now
    pub before_end : now ≤ contents.not_after
    pub signature : G
    pub reads_signature : pki.signature_from_der contents.signature_value ≡ ok signature
    pub verifies : pki.verify key contents.tbs_certificate signature ≡ ok tt

  -- The first authority of a list that is named as the issuer.
  pub data IsIssuer (certificate : X509Certificate)
      : X509Certificate → List X509Certificate → Type 0 where
    here :
        {ca : X509Certificate} {cas : List X509Certificate}
        → SameName certificate.issuer ca.subject
        → IsIssuer certificate ca (ca ∷ cas)
    later :
        {ca other : X509Certificate} {cas : List X509Certificate}
        → ¬ SameName certificate.issuer other.subject
        → IsIssuer certificate ca cas
        → IsIssuer certificate ca (other ∷ cas)

  not_same : (s t : String) → s ≢ t → (s == t) ≡ false
  not_same s t n = elim (Bool-cases (s == t)) [
    | inl same ↦ absurd (n ((eq_iff s t).0 same))
    | inr other ↦ other
  ]

  validate_iff :
      (now : ℕ) (certificate : X509Certificate) (key : P)
      → (validate pki now certificate key ≡ ok tt) ↔ IsSigned now certificate key
  unfolding validate parsed
  validate_iff now certificate key = (forth, back)
    where
      forth : validate pki now certificate key ≡ ok tt → IsSigned now certificate key
      forth h =
          let (contents, read, rest) =
            >>=-eq-ok (map_err certificate_error (pki.parse certificate.der_bytes))
              (validate_parsed pki now key) h in
          let (started, more) = refused-eq-ok (ltb now contents.not_before) not_yet_valid _ rest in
          let (lasts, checked) =
            refused-eq-ok (ltb contents.not_after now) expired (check_signature pki key contents)
              more in
          let (signature, signed, verified) =
            >>=-eq-ok (map_err validation_error (pki.signature_from_der contents.signature_value))
              (λ (g : G). map_err validation_error (pki.verify key contents.tbs_certificate g))
              checked in
          record {
            contents = contents;
            reads = map_err-eq-ok certificate_error _ read;
            after_start = ground (arith, started);
            before_end = ground (arith, lasts);
            signature = signature;
            reads_signature = map_err-eq-ok validation_error _ signed;
            verifies = map_err-eq-ok validation_error _ verified;
          }

      back : IsSigned now certificate key → validate pki now certificate key ≡ ok tt
      back s =
          let started : ltb now s.contents.not_before ≡ false = ground (arith, s.after_start) in
          let lasts : ltb s.contents.not_after now ≡ false = ground (arith, s.before_end) in
          rw (s.reads, started, lasts, s.reads_signature, s.verifies) refl

  issued_by_lem :
      (ca certificate : X509Certificate)
      → issued_by pki ca certificate ≡ (normalize_dn certificate.issuer == normalize_dn ca.subject)
  issued_by_lem ca certificate = elim (Bool-cases (certificate.issuer == ca.subject)) [
    | inl same ↦
        rw ((eq_iff _ _).0 same) (rw (eq_refl ca.subject, eq_refl (normalize_dn ca.subject)) refl)
    | inr other ↦ rw other refl
  ]

  -- The issuer is trusted, has a key that can be read, and has signed.
  pub record IsTrusted (now : ℕ) (certificate : X509Certificate) (cas : List X509Certificate)
      : Type 0 where
    pub ca : X509Certificate
    pub key : P
    pub issuer : IsIssuer certificate ca cas
    pub reads_key : public_key pki ca ≡ ok key
    pub signed : IsSigned now certificate key

  validate_with-IsTrusted :
      (now : ℕ) (certificate : X509Certificate) (cas : List X509Certificate)
      → validate_with pki now certificate cas ≡ ok tt
      → IsTrusted now certificate cas
  validate_with-IsTrusted now certificate [] h = absurd (cc h)
  validate_with-IsTrusted now certificate (ca ∷ cas) h =
      elim (Bool-cases (normalize_dn certificate.issuer == normalize_dn ca.subject)) [
        | inl same ↦
            let issued : issued_by pki ca certificate ≡ true =
              issued_by_lem ca certificate ∙ same in
            let checked : (public_key pki ca >>= validate pki now certificate) ≡ ok tt =
              sym (rw issued refl) ∙ h in
            let (key, read, valid) =
              >>=-eq-ok (public_key pki ca) (validate pki now certificate) checked in
            record {
              ca = ca;
              key = key;
              issuer = here ((normalize_dn_iff _ _).0 ((eq_iff _ _).0 same));
              reads_key = read;
              signed = (validate_iff now certificate key).0 valid;
            }
        | inr other ↦
            let apart : issued_by pki ca certificate ≡ false =
              issued_by_lem ca certificate ∙ other in
            let t = validate_with-IsTrusted now certificate cas (sym (rw apart refl) ∙ h) in
            record {
              ca = t.ca;
              key = t.key;
              issuer =
                  later (λ n. absurd (ground (arith, (eq_iff _ _).1 ((normalize_dn_iff _ _).1 n))))
                    t.issuer;
              reads_key = t.reads_key;
              signed = t.signed;
            }
      ]

  IsTrusted-validate_with :
      (now : ℕ) (certificate ca : X509Certificate) (key : P) (cas : List X509Certificate)
      → IsIssuer certificate ca cas
      → public_key pki ca ≡ ok key
      → validate pki now certificate key ≡ ok tt
      → validate_with pki now certificate cas ≡ ok tt
  IsTrusted-validate_with now certificate ca key [] issuer read valid = elim issuer [ ]
  IsTrusted-validate_with now certificate ca key (_ ∷ cas) (here same) read valid =
      let issued : issued_by pki ca certificate ≡ true =
        issued_by_lem ca certificate ∙ (eq_iff _ _).1 ((normalize_dn_iff _ _).1 same) in
      rw (issued, read, valid) refl
  IsTrusted-validate_with now certificate ca key (_ ∷ cas) (later {other = c} other rest) read
        valid =
      let apart : issued_by pki c certificate ≡ false =
        issued_by_lem c certificate
        ∙ not_same (normalize_dn certificate.issuer) (normalize_dn c.subject)
            (λ e. other ((normalize_dn_iff _ _).0 e)) in
      rw apart (IsTrusted-validate_with now certificate ca key cas rest read valid)

  -- A certificate is valid exactly when the first trusted authority whose subject names its issuer
  -- has a key that can be read, and that key verifies the certificate's signature at a time within
  -- its bounds, both included. A subject names the issuer if the two texts have the same parts
  -- between their commas, without the blanks around them and without empty ones, each equally often
  -- and in whatever order.
  pub validate_certificate_iff :
      (now : ℕ) (certificate : X509Certificate) (validator : CertificateValidator)
      → (validate_certificate pki now validator certificate ≡ ok tt)
        ↔ IsTrusted now certificate validator.trusted_ca_certificates
  unfolding validate_certificate
  validate_certificate_iff now certificate validator = (
    validate_with-IsTrusted now certificate validator.trusted_ca_certificates,
    λ t.
        IsTrusted-validate_with now certificate t.ca t.key validator.trusted_ca_certificates
          t.issuer t.reads_key ((validate_iff now certificate t.key).1 t.signed),
  )
