-- ===== src/Server/MutualTls.antt =====
-- vpn_server/internal/server/tls_config.go: `setupTLSConfig`, the settings with which the server
-- listens.
use Prim.Native.String.{String}
use text.Mathlib.Text.{◌==◌ as str_eq}
use text.Mathlib.TextEquality.{eq_iff}
use masque_vpn.Prelude.{
  ◌≡◌, ◌≢◌, ◌⊎◌, refl, subst, inl, inr, ◌||◌, Option, none, some, Result, ok, err, List, [], ◌∷◌,
  arith, Bool-cases, if◌then◌else◌,
}
use masque_vpn.Server.Certificates.{
  CertificateConfig, LoadError, or_error, load_server_certificate, parse_ca, load_ca_certificate,
}

pub data ClientAuth : Type 0 where
  no_client_cert request_client_cert require_any_client_cert : ClientAuth
  verify_client_cert_if_given require_and_verify_client_cert : ClientAuth

pub data TlsVersion : Type 0 where
  tls_10 tls_11 tls_12 tls_13 : TlsVersion

pub data CipherSuite : Type 0 where
  ecdhe_rsa_aes_256_gcm_sha384 ecdhe_rsa_chacha20_poly1305 : CipherSuite
  ecdhe_ecdsa_aes_256_gcm_sha384 ecdhe_ecdsa_chacha20_poly1305 : CipherSuite

pub record ServerTls (C P : Type 0) : Type 0 where
  pub certificate : C
  pub client_auth : ClientAuth
  pub client_cas : P
  pub next_protos : List String
  pub min_version : TlsVersion
  pub cipher_suites : List CipherSuite

pub data SetupError : Type 0 where
  failed_to_load_server_certificate failed_to_load_ca_certificate : LoadError → SetupError

module _ {C P : Type 0} (x509_key_pair load_x509_key_pair : String → String → Option C)
    (read_file : String → Option String) (certs_from_pem : String → Option P) where
  abbrev pub with_certificates :
      Result LoadError C → Result LoadError P → Result SetupError (ServerTls C P)
  with_certificates (err e) cas = err (failed_to_load_server_certificate e)
  with_certificates (ok certificate) (err e) = err (failed_to_load_ca_certificate e)
  with_certificates (ok certificate) (ok cas) = ok (record {
    certificate = certificate;
    client_auth = require_and_verify_client_cert;
    client_cas = cas;
    next_protos = "h3" ∷ [];
    min_version = tls_12;
    cipher_suites =
        ecdhe_rsa_aes_256_gcm_sha384 ∷ ecdhe_rsa_chacha20_poly1305 ∷ ecdhe_ecdsa_aes_256_gcm_sha384
        ∷ ecdhe_ecdsa_chacha20_poly1305 ∷ [];
  })

  unfoldable pub setup_tls_config : CertificateConfig → Result SetupError (ServerTls C P)
  setup_tls_config c =
      with_certificates (load_server_certificate x509_key_pair load_x509_key_pair c)
        (load_ca_certificate read_file certs_from_pem c)

  -- Where the server's certificate is from: the texts of the configuration, or else the files.
  abbrev pub OwnCertificate : CertificateConfig → C → Type 0
  OwnCertificate c certificate =
      ((c.cert_pem ≢ "")
        × (c.key_pem ≢ "")
        × (x509_key_pair c.cert_pem c.key_pem ≡ some certificate))
      ⊎ (((c.cert_pem ≡ "") ⊎ (c.key_pem ≡ ""))
          × (load_x509_key_pair c.cert_file c.key_file ≡ some certificate))

  -- Where the CAs are from that clients are checked against.
  abbrev pub ClientCas : CertificateConfig → P → Type 0
  ClientCas c cas =
      ((c.ca_cert_pem ≢ "") × (certs_from_pem c.ca_cert_pem ≡ some cas))
      ⊎ ((c.ca_cert_pem ≡ "")
          × ((text : String) × (read_file c.ca_cert_file ≡ some text)
              × (certs_from_pem text ≡ some cas)))

  abbrev Holds : {A E : Type 0} → (A → Type 0) → Result E A → Type 0
  Holds P (err e) = Unit
  Holds P (ok a) = P a

  or_error-Holds :
      {A : Type 0}
      → (P : A → Type 0) (e : LoadError) (o : Option A) → ((a : A) → o ≡ some a → P a)
      → Holds P (or_error e o)
  or_error-Holds P e none gives = tt
  or_error-Holds P e (some a) gives = gives a refl

  files-OwnCertificate :
      (c : CertificateConfig)
      → (c.cert_pem ≡ "") ⊎ (c.key_pem ≡ "")
      → Holds (OwnCertificate c) (
          if str_eq c.cert_file "" || str_eq c.key_file ""
          then err LoadError.no_files
          else or_error LoadError.bad_files (load_x509_key_pair c.cert_file c.key_file))
  files-OwnCertificate c no_text =
      elim (Bool-cases (str_eq c.cert_file "" || str_eq c.key_file "")) [
        | inl missing ↦ rw missing tt
        | inr named ↦ rw named (
            or_error-Holds (OwnCertificate c) LoadError.bad_files
              (load_x509_key_pair c.cert_file c.key_file) (λ a q. inr (no_text, q)))
      ]

  load-OwnCertificate :
      (c : CertificateConfig)
      → Holds (OwnCertificate c) (load_server_certificate x509_key_pair load_x509_key_pair c)
  unfolding load_server_certificate
  load-OwnCertificate c = elim (Bool-cases (str_eq c.cert_pem "")) [
    | inl no_cert ↦ rw no_cert (files-OwnCertificate c (inl ((eq_iff c.cert_pem "").0 no_cert)))
    | inr cert ↦ elim (Bool-cases (str_eq c.key_pem "")) [
      | inl no_key ↦
          rw (cert, no_key) (files-OwnCertificate c (inr ((eq_iff c.key_pem "").0 no_key)))
      | inr key ↦
          let has_cert : c.cert_pem ≢ "" = λ e. ground (arith, eq_iff c.cert_pem "") in
          let has_key : c.key_pem ≢ "" = λ e. ground (arith, eq_iff c.key_pem "") in
          rw (cert, key)
            (or_error-Holds (OwnCertificate c) LoadError.bad_pem
              (x509_key_pair c.cert_pem c.key_pem) (λ a q. inl (has_cert, has_key, q)))
    ]
  ]

  file-ClientCas :
      (c : CertificateConfig) (o : Option String)
      → read_file c.ca_cert_file ≡ o
      → c.ca_cert_pem ≡ ""
      → Holds (ClientCas c) (parse_ca read_file certs_from_pem o)
  file-ClientCas c none e no_text = tt
  file-ClientCas c (some text) e no_text =
      or_error-Holds (ClientCas c) LoadError.unparsable_ca (certs_from_pem text)
        (λ cas q. inr (no_text, (text, e, q)))

  load-ClientCas :
      (c : CertificateConfig) → Holds (ClientCas c) (load_ca_certificate read_file certs_from_pem c)
  unfolding load_ca_certificate
  load-ClientCas c = elim (Bool-cases (str_eq c.ca_cert_pem "")) [
    | inr text ↦
        let has_text : c.ca_cert_pem ≢ "" = λ e. ground (arith, eq_iff c.ca_cert_pem "") in
        rw text (
          or_error-Holds (ClientCas c) LoadError.unparsable_ca (certs_from_pem c.ca_cert_pem)
            (λ cas q. inl (has_text, q)))
    | inl no_text ↦ elim (Bool-cases (str_eq c.ca_cert_file "")) [
      | inl no_file ↦ rw (no_text, no_file) tt
      | inr file ↦
          rw (no_text, file)
            (file-ClientCas c (read_file c.ca_cert_file) refl ((eq_iff c.ca_cert_pem "").0 no_text))
    ]
  ]

  abbrev pub IsMutual : CertificateConfig → ServerTls C P → Type 0
  IsMutual c t =
      (t.client_auth ≡ require_and_verify_client_cert)
      × OwnCertificate c t.certificate
      × ClientCas c t.client_cas

  with_certificates-IsMutual :
      (c : CertificateConfig) (own : Result LoadError C) (cas : Result LoadError P)
      → Holds (OwnCertificate c) own
      → Holds (ClientCas c) cas
      → Holds (IsMutual c) (with_certificates own cas)
  with_certificates-IsMutual c (err e) cas h k = tt
  with_certificates-IsMutual c (ok certificate) (err e) h k = tt
  with_certificates-IsMutual c (ok certificate) (ok cas) h k = (refl, h, k)

-- Whatever the files and the texts hold: a server that gets as far as listening requires a
-- certificate of every client and checks it against the CAs that the configuration gives, as a text
-- or else as a file, and its own certificate is from the texts for it, or where one of them is
-- missing from the files.
pub setup_tls_config_lem :
    {C P : Type 0}
    → (x509_key_pair load_x509_key_pair : String → String → Option C)
      (read_file : String → Option String) (certs_from_pem : String → Option P)
      (c : CertificateConfig) (t : ServerTls C P)
    → setup_tls_config x509_key_pair load_x509_key_pair read_file certs_from_pem c ≡ ok t
    → (t.client_auth ≡ require_and_verify_client_cert)
      × OwnCertificate x509_key_pair load_x509_key_pair read_file certs_from_pem c t.certificate
      × ClientCas x509_key_pair load_x509_key_pair read_file certs_from_pem c t.client_cas
unfolding setup_tls_config
setup_tls_config_lem x509_key_pair load_x509_key_pair read_file certs_from_pem c t e =
    subst
      (Holds x509_key_pair load_x509_key_pair read_file certs_from_pem
        (IsMutual x509_key_pair load_x509_key_pair read_file certs_from_pem c))
      e
      (with_certificates-IsMutual x509_key_pair load_x509_key_pair read_file certs_from_pem c
        (load_server_certificate x509_key_pair load_x509_key_pair c)
        (load_ca_certificate read_file certs_from_pem c)
        (load-OwnCertificate x509_key_pair load_x509_key_pair read_file certs_from_pem c)
        (load-ClientCas x509_key_pair load_x509_key_pair read_file certs_from_pem c))
