-- ===== src/Client/Tls.antt =====
-- vpn_client/main.go: the TLS settings at the beginning of `establishAndConfigure`. Reading files
-- and parsing certificates are the standard library's, and parameters.
use Prim.Native.String.{String}
use text.Mathlib.Text.{◌==◌ as str_eq}
use masque_vpn.Prelude.{
  Bool, false, not, ◌&&◌, ◌||◌, Option, none, some, Result, ok, err, List, [], ◌∷◌, if◌then◌else◌,
}
use masque_vpn.Configuration.{ClientConfig}

pub record Files : Type 0 where
  -- `os.ReadFile`
  pub read_file : String → Option String
  -- `AppendCertsFromPEM`
  pub has_certificates : String → Bool
  -- `tls.X509KeyPair` and `tls.LoadX509KeyPair`
  pub is_key_pair : String → String → Bool
  pub loads_key_pair : String → String → Bool
  -- `os.OpenFile` of the log of the keys
  pub opens : String → Bool

-- A certificate with its key: the texts, or the names of the files.
pub data KeyPair : Type 0 where
  from_pem from_files : String → String → KeyPair

pub record TlsSettings : Type 0 where
  pub server_name : String
  pub insecure_skip_verify : Bool
  pub next_protos : List String
  pub root_cas : Option String
  pub certificate : Option KeyPair
  pub key_log : Option String

pub data TlsError : Type 0 where
  failed_to_append_ca_from_config : TlsError
  failed_to_read_ca_file failed_to_append_ca_from_file : String → TlsError
  failed_to_load_certificate_from_config failed_to_load_certificate : TlsError
  certificate_and_key_must_be_set : TlsError

abbrev pub base_settings : ClientConfig → TlsSettings
base_settings c = record {
  server_name = c.server_name;
  insecure_skip_verify = c.insecure_skip_verify;
  next_protos = "h3" ∷ [];
  root_cas = none;
  certificate = none;
  key_log = none;
}

abbrev pub with_ca : TlsSettings → String → TlsSettings
with_ca t pem = record t { root_cas = some pem; insecure_skip_verify = false }

abbrev pub ca_from_file : Files → TlsSettings → String → Option String → Result TlsError TlsSettings
ca_from_file f t name none = err (failed_to_read_ca_file name)
ca_from_file f t name (some pem) =
    if f.has_certificates pem then ok (with_ca t pem) else err (failed_to_append_ca_from_file name)

unfoldable pub load_ca : Files → ClientConfig → TlsSettings → Result TlsError TlsSettings
load_ca f c t =
    if not (str_eq c.ca_pem "")
    then (if f.has_certificates c.ca_pem
        then ok (with_ca t c.ca_pem)
        else err failed_to_append_ca_from_config)
    else if not (str_eq c.ca_file "")
    then ca_from_file f t c.ca_file (f.read_file c.ca_file)
    else ok t

abbrev pub with_certificate : TlsSettings → KeyPair → TlsSettings
with_certificate t pair = record t { certificate = some pair }

unfoldable pub load_certificate : Files → ClientConfig → TlsSettings → Result TlsError TlsSettings
load_certificate f c t =
    if not (str_eq c.cert_pem "") && not (str_eq c.key_pem "")
    then (if f.is_key_pair c.cert_pem c.key_pem
        then ok (with_certificate t (from_pem c.cert_pem c.key_pem))
        else err failed_to_load_certificate_from_config)
    else if not (str_eq c.tls_cert "") && not (str_eq c.tls_key "")
    then (if f.loads_key_pair c.tls_cert c.tls_key
        then ok (with_certificate t (from_files c.tls_cert c.tls_key))
        else err failed_to_load_certificate)
    else err certificate_and_key_must_be_set

-- A log that cannot be opened is left out.
unfoldable pub with_key_log : Files → ClientConfig → TlsSettings → TlsSettings
with_key_log f c t =
    if not (str_eq c.key_log_file "") && f.opens c.key_log_file
    then record t { key_log = some c.key_log_file }
    else t

abbrev pub then_key_log :
    Files → ClientConfig → Result TlsError TlsSettings → Result TlsError TlsSettings
then_key_log f c (err e) = err e
then_key_log f c (ok t) = ok (with_key_log f c t)

abbrev pub then_certificate :
    Files → ClientConfig → Result TlsError TlsSettings → Result TlsError TlsSettings
then_certificate f c (err e) = err e
then_certificate f c (ok t) = then_key_log f c (load_certificate f c t)

unfoldable pub tls_settings : Files → ClientConfig → Result TlsError TlsSettings
tls_settings f c = then_certificate f c (load_ca f c (base_settings c))

-- The check of `main` before anything is done.
unfoldable pub missing_configuration : ClientConfig → Bool
missing_configuration c = str_eq c.server_addr "" || str_eq c.server_name ""
