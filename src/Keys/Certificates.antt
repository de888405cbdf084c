-- ===== src/Keys/Certificates.antt =====
-- runar-keys/src/certificate.rs: certificates, and whose certificates are trusted. The libraries that
-- read, write and sign certificates are a parameter.
pub mod Trust
pub mod Trimming
pub mod Names
pub mod Sorting
use Prim.Native.String as Str
use rust_mono.Prelude.{
  ℕ, ◌+◌, Char, code, Bool, true, false, not, ◌&&◌, ◌||◌, String, ◌==◌, Option, none, some, List,
  [], ◌∷◌, map, length, get_elem?, take, drop, retain, ltb, leb, eqb, if◌then◌else◌,
}
use rust_mono.Prelude.Result.{Result, ok, err, ◌>>=◌, map_err, and_then}
use rust_mono.Prelude.Text.{empty, split, join}
use rust_mono.Prelude.Text.Order.{lt_text}
use rust_mono.Keys.{
  KeyError, invalid_key_format, certificate_error, invalid_public_key, not_yet_valid, expired,
  validation_error, no_trusted_ca, Crypto, EcdsaKeyPair, new_key_pair,
}

pub record X509Certificate : Type 0 where
  pub der_bytes : List ℕ
  pub subject : String
  pub issuer : String

-- The parts that are read of a certificate that x509_parser has parsed. Times are numbers.
pub record ParsedCertificate : Type 0 where
  pub subject : String
  pub issuer : String
  pub public_key_data : List ℕ
  pub not_before : ℕ
  pub not_after : ℕ
  pub signature_value : List ℕ
  pub tbs_certificate : List ℕ

-- What is used of x509_parser, p256, openssl and rcgen: `G` is a signature. `to_rcgen` and
-- `to_openssl` convert a key pair for these libraries; `sign_request` is what OpenSSL makes of a
-- request, once it is read, up to the bytes of the certificate.
pub record Pki (R K P G E : Type 0) : Type 0 where
  pub parse : List ℕ → Result E ParsedCertificate
  pub from_coordinates : List ℕ → List ℕ → Result E P
  pub signature_from_der : List ℕ → Result E G
  pub verify : P → List ℕ → G → Result E (Unit {0})
  pub sign : K → List ℕ → List ℕ
  pub to_rcgen : K → Result E (Unit {0})
  pub to_openssl : K → Result E (Unit {0})
  pub read_request : List ℕ → Result E (Unit {0})
  pub sign_request : K → List ℕ → ℕ → R → R × Result E (List ℕ)
  pub self_sign : K → String → R → R × Result E (List ℕ)
  pub create_request : K → String → Result E (List ℕ)
  pub now : R → ℕ

pub record CertificateAuthority (K P : Type 0) : Type 0 where
  pub ca_key_pair : EcdsaKeyPair K P
  pub ca_certificate : X509Certificate

pub record CertificateValidator : Type 0 where
  pub trusted_ca_certificates : List X509Certificate

-- `char::is_whitespace`
unfoldable pub is_whitespace : Char → Bool
is_whitespace c =
    (leb 9 (code c) && leb (code c) 13)
    || eqb (code c) 32
    || eqb (code c) 133
    || eqb (code c) 160
    || eqb (code c) 5760
    || (leb 8192 (code c) && leb (code c) 8202)
    || eqb (code c) 8232
    || eqb (code c) 8233
    || eqb (code c) 8239
    || eqb (code c) 8287
    || eqb (code c) 12288

unfoldable pub trim_start : String → String
trim_start Str.[] = ""
trim_start (Str.◌∷◌ c s) = if is_whitespace c then trim_start s else Str.◌∷◌ c s

-- A blank is kept only before something that is kept.
unfoldable pub trim_end : String → String
trim_end Str.[] = ""
trim_end (Str.◌∷◌ c s) =
    let rest = trim_end s in if is_whitespace c && empty rest then "" else Str.◌∷◌ c rest

abbrev pub insert_sorted : String → List String → List String
insert_sorted s [] = s ∷ []
insert_sorted s (t ∷ ts) = if lt_text t s then t ∷ insert_sorted s ts else s ∷ t ∷ ts

unfoldable pub sort : List String → List String
sort [] = []
sort (s ∷ ss) = insert_sorted s (sort ss)

unfoldable pub normalize_dn : String → String
normalize_dn dn =
    join ","
      (sort (retain (λ s. not (empty s)) (map (λ s. trim_end (trim_start s)) (split "," dn))))

module _ {R K P G E : Type 0} (pki : Pki R K P G E) where
  unfoldable pub from_der : List ℕ → Result (KeyError E) X509Certificate
  from_der der_bytes = do
    parsed ← map_err certificate_error (pki.parse der_bytes)
    ok (record { der_bytes = der_bytes; subject = parsed.subject; issuer = parsed.issuer })

  unfoldable pub parsed : X509Certificate → Result (KeyError E) ParsedCertificate
  parsed certificate = map_err certificate_error (pki.parse certificate.der_bytes)

  abbrev pub starts_with_byte : ℕ → List ℕ → Bool
  starts_with_byte b [] = false
  starts_with_byte b (c ∷ bytes) = eqb c b

  abbrev pub point_of : List ℕ → Result (KeyError E) P
  point_of bytes =
      if not (eqb (length bytes) 65) || not (starts_with_byte 4 bytes)
      then err invalid_public_key
      else map_err invalid_key_format
          (pki.from_coordinates (take 32 (drop 1 bytes)) (take 32 (drop 33 bytes)))

  unfoldable pub public_key : X509Certificate → Result (KeyError E) P
  unfolding parsed
  public_key certificate = do certificate ← parsed certificate; point_of certificate.public_key_data

  abbrev pub check_signature : P → ParsedCertificate → Result (KeyError E) (Unit {0})
  check_signature ca_public_key certificate = do
    signature ← map_err validation_error (pki.signature_from_der certificate.signature_value)
    map_err validation_error (pki.verify ca_public_key certificate.tbs_certificate signature)

  abbrev pub validate_parsed : ℕ → P → ParsedCertificate → Result (KeyError E) (Unit {0})
  validate_parsed now ca_public_key certificate =
      if ltb now certificate.not_before
      then err not_yet_valid
      else if ltb certificate.not_after now
      then err expired
      else check_signature ca_public_key certificate

  unfoldable pub validate : ℕ → X509Certificate → P → Result (KeyError E) (Unit {0})
  unfolding parsed
  validate now certificate ca_public_key = do
    certificate ← parsed certificate
    validate_parsed now ca_public_key certificate

  abbrev pub issued_by : X509Certificate → X509Certificate → Bool
  issued_by ca certificate =
      certificate.issuer == ca.subject || normalize_dn certificate.issuer == normalize_dn ca.subject

  abbrev pub validate_with :
      ℕ → X509Certificate → List X509Certificate → Result (KeyError E) (Unit {0})
  validate_with now certificate [] = err (no_trusted_ca certificate.issuer)
  validate_with now certificate (ca ∷ cas) =
      if issued_by ca certificate
      then (do ca_public_key ← public_key ca; validate now certificate ca_public_key)
      else validate_with now certificate cas

  unfoldable pub validate_certificate :
      ℕ → CertificateValidator → X509Certificate → Result (KeyError E) (Unit {0})
  unfolding public_key validate normalize_dn
  validate_certificate now validator certificate =
      validate_with now certificate validator.trusted_ca_certificates

  -- What is done with the key of the authority when the request and the key can be read.
  abbrev pub sign_read :
      K → List ℕ → ℕ → R → Result (KeyError E) (Unit {0}) → R × Result (KeyError E) X509Certificate
  unfolding from_der
  sign_read key csr_der validity_days r (err e) = (r, err e)
  sign_read key csr_der validity_days r (ok _) =
      let (after, der) = pki.sign_request key csr_der validity_days r in
      (after, map_err certificate_error der >>= from_der)

  unfoldable pub sign_certificate_request :
      CertificateAuthority K P → List ℕ → ℕ → R → R × Result (KeyError E) X509Certificate
  sign_certificate_request authority csr_der validity_days r =
      let key = authority.ca_key_pair.signing_key in
      sign_read key csr_der validity_days r (do
        _ ← map_err certificate_error (pki.read_request csr_der)
        map_err invalid_key_format (pki.to_openssl key))
