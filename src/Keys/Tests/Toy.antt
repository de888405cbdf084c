-- ===== src/Keys/Tests/Toy.antt =====
-- A cryptography that hides nothing, but keeps the promises of the libraries.
use rust_mono.Prelude.{ℕ, zero, suc, ◌+◌, ◌≡◌, refl, sym, ap, List, [], ◌∷◌, length, arith}
use rust_mono.Prelude.Result.{Result, ok, err, ok-injective}
use rust_mono.Keys.{Crypto}
use rust_mono.Keys.Ecies.{IsCrypto}
use rust_mono.Keys.Certificates.{X509Certificate, Pki}

abbrev pub repeat : ℕ → ℕ → List ℕ
repeat zero a = []
repeat (suc n) a = a ∷ repeat n a

length-repeat : (n a : ℕ) → length (repeat n a) ≡ n
length-repeat zero a = refl
length-repeat (suc n) a = omega (arith, length-repeat n a)

abbrev pub first_of : List ℕ → Result ℕ ℕ
first_of [] = err 0
first_of (a ∷ rest) = ok a

abbrev pub expanded : List ℕ → List ℕ
expanded [] = repeat 32 0
expanded (a ∷ rest) = repeat 32 a

abbrev pub toy : Crypto ℕ ℕ ℕ ℕ ℕ (List ℕ) ℕ
toy = record {
  fill_bytes = λ n r. (r + 1, repeat n r);
  new_cipher = λ key. ok key;
  encrypt = λ cipher nonce text. ok text;
  decrypt = λ cipher nonce text. ok text;
  random_signing_key = λ r. (r + 1, r);
  verifying_key = λ k. k;
  to_encoded_point = λ p. p ∷ repeat 64 0;
  from_sec1_bytes = first_of;
  random_secret = λ r. (r + 1, r);
  ephemeral_public_key = λ z. z;
  ephemeral_diffie_hellman = λ z p. (z + p) ∷ [];
  secret_key = λ k. ok k;
  diffie_hellman = λ s p. (p + s) ∷ [];
  expand = λ shared info. ok (expanded shared);
  signing_key_from_bytes = first_of;
  to_pkcs8_der = λ k. ok (k ∷ []);
  from_pkcs8_der = first_of;
  sha256 = λ bytes. bytes;
  encode_base64 = λ bytes. "id";
  bytes_of = λ s. [];
}

pub toy-IsCrypto : IsCrypto toy
toy-IsCrypto = record {
  fills = length-repeat;
  deciphers = λ cipher nonce text sealed h. sym h;
  point_length = λ p. refl;
  reads_points = λ p. refl;
  secret_keys = λ k. (k, refl);
  agrees = λ z k s h. ap (λ (a : ℕ). (z + a) ∷ []) (sym (ok-injective h));
  reads_keys = λ k der h. ap first_of (sym (ok-injective h));
}

-- A certificate of 65 bytes, which is its own public key.
abbrev pub the_certificate : X509Certificate
the_certificate = record {
  der_bytes = 0 ∷ [];
  subject = "CN=ca, O=Runar";
  issuer = "O=Runar,CN=ca";
}

abbrev pub toy_pki : Pki ℕ ℕ ℕ ℕ ℕ
toy_pki = record {
  parse = λ bytes. ok (record {
    subject = "CN=ca, O=Runar";
    issuer = "O=Runar,CN=ca";
    public_key_data = 4 ∷ repeat 64 0;
    not_before = 10;
    not_after = 20;
    signature_value = 1 ∷ [];
    tbs_certificate = bytes;
  });
  from_coordinates = λ x y. ok 0;
  signature_from_der = first_of;
  verify = λ key bytes signature. ok tt;
  sign = λ k bytes. bytes;
  to_rcgen = λ k. ok tt;
  to_openssl = λ k. ok tt;
  read_request = λ csr. ok tt;
  sign_request = λ k csr days r. (r, ok csr);
  self_sign = λ k subject r. (r, ok (k ∷ []));
  create_request = λ k subject. ok (k ∷ []);
  now = λ r. r;
}
