-- ===== src/Server/Certificates.antt =====
-- vpn_server/internal/server/tls_config.go: which certificates the server loads, and the check of a
-- client's. What crypto/tls and crypto/x509 do with their contents is a parameter.
use Prim.Native.String.{String}
use text.Mathlib.Text.{◌==◌ as str_eq}
use text.Mathlib.TextEquality.{eq_iff}
use masque_vpn.Prelude.{
  ℕ, ◌≤◌, ◌≡◌, ◌≢◌, ◌↔◌, not, ◌&&◌, ◌||◌, Option, none, some, Result, ok, err, arith, ltb,
  if◌then◌else◌,
}

pub record CertificateConfig : Type 0 where
  pub cert_file : String
  pub key_file : String
  pub ca_cert_file : String
  pub cert_pem : String
  pub key_pem : String
  pub ca_cert_pem : String

pub data LoadError : Type 0 where
  bad_pem no_files bad_files : LoadError
  no_ca unreadable_ca_file unparsable_ca : LoadError

abbrev pub or_error {ℓ} : {A : Type ℓ} → LoadError → Option A → Result LoadError A
or_error e none = err e
or_error e (some a) = ok a

module _ {C : Type 0} (x509_key_pair load_x509_key_pair : String → String → Option C) where
  unfoldable pub load_server_certificate : CertificateConfig → Result LoadError C
  load_server_certificate c =
      if not (str_eq c.cert_pem "") && not (str_eq c.key_pem "")
      then or_error bad_pem (x509_key_pair c.cert_pem c.key_pem)
      else if str_eq c.cert_file "" || str_eq c.key_file ""
      then err no_files
      else or_error bad_files (load_x509_key_pair c.cert_file c.key_file)

module _ {P : Type 0} (read_file : String → Option String)
    (certs_from_pem : String → Option P) where
  abbrev pub parse_ca : Option String → Result LoadError P
  parse_ca none = err unreadable_ca_file
  parse_ca (some text) = or_error unparsable_ca (certs_from_pem text)

  unfoldable pub load_ca_certificate : CertificateConfig → Result LoadError P
  load_ca_certificate c =
      if not (str_eq c.ca_cert_pem "")
      then parse_ca (some c.ca_cert_pem)
      else if str_eq c.ca_cert_file ""
      then err no_ca
      else parse_ca (read_file c.ca_cert_file)

record Certificate : Type 0 where
  common_name : String
  not_before : ℕ
  not_after : ℕ

data CertificateError : Type 0 where
  certificate_required common_name_required expired_or_not_yet_valid : CertificateError

-- `now` is the end of the certificate's own validity.
unfoldable validate_client_certificate : Option Certificate → Option CertificateError
validate_client_certificate none = some certificate_required
validate_client_certificate (some cert) =
    if str_eq cert.common_name ""
    then some common_name_required
    else (let now = cert.not_after in
        if ltb now cert.not_before || ltb cert.not_after now
        then some expired_or_not_yet_valid
        else none)

-- A client's certificate passes exactly when it has a common name and its validity does not end
-- before it starts. The time of the check plays no part: an expired certificate passes.
validate_client_certificate_iff :
    (cert : Certificate)
    → (validate_client_certificate (some cert) ≡ none)
      ↔ ((cert.common_name ≢ "") × (cert.not_before ≤ cert.not_after))
unfolding validate_client_certificate
validate_client_certificate_iff cert = ground (arith, eq_iff cert.common_name "")
