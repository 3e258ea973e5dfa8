-- ===== src/Client/Verification.antt =====
-- vpn_client/main.go: what the TLS settings of a client guarantee.
use Prim.Native.String.{String}
use text.Mathlib.Text.{◌==◌ as str_eq}
use text.Mathlib.TextEquality.{eq_iff}
use masque_vpn.Prelude.{
  ◌≡◌, ◌≢◌, ◌⊎◌, refl, sym, subst, inl, inr, true, false, not, ◌&&◌, Option, none, some, Result, ok,
  err, arith, Bool-cases,
}
use masque_vpn.Configuration.{ClientConfig}
use masque_vpn.Client.Tls.{
  Files, from_pem, from_files, TlsSettings, TlsError, base_settings, ca_from_file, load_ca,
  load_certificate, with_key_log, then_key_log, then_certificate, tls_settings,
}

-- The server's certificate is checked: against the CA that is configured, if one is, and else
-- unless the configuration says otherwise.
abbrev pub ChecksServer : Files → ClientConfig → TlsSettings → Type 0
ChecksServer f c t =
    (t.server_name ≡ c.server_name)
    × (((c.ca_pem ≢ "") × (t.root_cas ≡ some c.ca_pem) × (t.insecure_skip_verify ≡ false))
        ⊎ (((c.ca_pem ≡ "")
              × (c.ca_file ≢ "")
              × (t.root_cas ≡ f.read_file c.ca_file)
              × (t.root_cas ≢ none)
              × (t.insecure_skip_verify ≡ false))
            ⊎ ((c.ca_pem ≡ "")
                × (c.ca_file ≡ "")
                × (t.root_cas ≡ none)
                × (t.insecure_skip_verify ≡ c.insecure_skip_verify))))

-- The client has a certificate and key that could be loaded.
abbrev pub HasCertificate : Files → ClientConfig → TlsSettings → Type 0
HasCertificate f c t =
    ((t.certificate ≡ some (from_pem c.cert_pem c.key_pem))
      × (f.is_key_pair c.cert_pem c.key_pem ≡ true))
    ⊎ ((t.certificate ≡ some (from_files c.tls_cert c.tls_key))
        × (f.loads_key_pair c.tls_cert c.tls_key ≡ true))

abbrev Holds : (TlsSettings → Type 0) → Result TlsError TlsSettings → Type 0
Holds P (err e) = Unit
Holds P (ok t) = P t

load_ca-ChecksServer :
    (f : Files) (c : ClientConfig) → Holds (ChecksServer f c) (load_ca f c (base_settings c))
unfolding load_ca
load_ca-ChecksServer f c = elim (Bool-cases (str_eq c.ca_pem "")) [
  | inr given ↦
      let named : c.ca_pem ≢ "" = λ e. ground (arith, eq_iff c.ca_pem "") in
      elim (Bool-cases (f.has_certificates c.ca_pem)) [
        | inl parsed ↦ rw (given, parsed) (refl, inl (named, refl, refl))
        | inr bad ↦ rw (given, bad) tt
      ]
  | inl no_pem ↦ elim (Bool-cases (str_eq c.ca_file "")) [
    | inl no_file ↦
        rw (no_pem, no_file)
          (
            refl,
            inr (inr ((eq_iff c.ca_pem "").0 no_pem, (eq_iff c.ca_file "").0 no_file, refl, refl)),
          )
    | inr given ↦
        let named : c.ca_file ≢ "" = λ e. ground (arith, eq_iff c.ca_file "") in
        rw (no_pem, given)
          (from_file c.ca_file (f.read_file c.ca_file) refl ((eq_iff c.ca_pem "").0 no_pem) named)
  ]
]
  where
    from_file :
        (name : String) (o : Option String)
        → f.read_file c.ca_file ≡ o
        → c.ca_pem ≡ ""
        → c.ca_file ≢ ""
        → Holds (ChecksServer f c) (ca_from_file f (base_settings c) name o)
    from_file name none e no_pem named = tt
    from_file name (some pem) e no_pem named = elim (Bool-cases (f.has_certificates pem)) [
      | inl parsed ↦ rw parsed (refl, inr (inl (no_pem, named, sym e, (λ h. absurd (cc)), refl)))
      | inr bad ↦ rw bad tt
    ]

load_certificate-HasCertificate :
    (f : Files) (c : ClientConfig) (t : TlsSettings)
    → ChecksServer f c t
    → Holds (λ u. ChecksServer f c u × HasCertificate f c u) (load_certificate f c t)
unfolding load_certificate
load_certificate-HasCertificate f c t checks =
    elim (Bool-cases (not (str_eq c.cert_pem "") && not (str_eq c.key_pem ""))) [
      | inl pem ↦ elim (Bool-cases (f.is_key_pair c.cert_pem c.key_pem)) [
        | inl good ↦ rw (pem, good) (checks, inl (refl, refl))
        | inr bad ↦ rw (pem, bad) tt
      ]
      | inr no_pem ↦ elim (Bool-cases (not (str_eq c.tls_cert "") && not (str_eq c.tls_key ""))) [
        | inl files ↦ elim (Bool-cases (f.loads_key_pair c.tls_cert c.tls_key)) [
          | inl good ↦ rw (no_pem, files, good) (checks, inr (refl, refl))
          | inr bad ↦ rw (no_pem, files, bad) tt
        ]
        | inr no_files ↦ rw (no_pem, no_files) tt
      ]
    ]

-- What is shown of settings that the client gets as far as using.
abbrev pub IsMutual : Files → ClientConfig → TlsSettings → Type 0
IsMutual f c t = ChecksServer f c t × HasCertificate f c t

key_log-IsMutual :
    (f : Files) (c : ClientConfig) (t : TlsSettings)
    → IsMutual f c t
    → IsMutual f c (with_key_log f c t)
unfolding with_key_log
key_log-IsMutual f c t m =
    elim (Bool-cases (not (str_eq c.key_log_file "") && f.opens c.key_log_file)) [
      | inl logs ↦ rw logs m
      | inr none_ ↦ rw none_ m
    ]

then_key_log-IsMutual :
    (f : Files) (c : ClientConfig) (r : Result TlsError TlsSettings)
    → Holds (IsMutual f c) r
    → Holds (IsMutual f c) (then_key_log f c r)
then_key_log-IsMutual f c (err e) m = tt
then_key_log-IsMutual f c (ok t) m = key_log-IsMutual f c t m

then_certificate-IsMutual :
    (f : Files) (c : ClientConfig) (r : Result TlsError TlsSettings)
    → Holds (ChecksServer f c) r
    → Holds (IsMutual f c) (then_certificate f c r)
then_certificate-IsMutual f c (err e) m = tt
then_certificate-IsMutual f c (ok t) m =
    then_key_log-IsMutual f c (load_certificate f c t) (load_certificate-HasCertificate f c t m)

-- The settings with which a client dials, whatever files there are: it has a certificate and key of
-- the configuration that could be loaded. If a CA is configured, the server is checked against it
-- under the configured name, even where the configuration asks to skip that, and the text in the
-- configuration goes before the file; only without a CA is the check skipped, as configured.
pub tls_settings_lem :
    (f : Files) (c : ClientConfig) (t : TlsSettings)
    → tls_settings f c ≡ ok t
    → ChecksServer f c t × HasCertificate f c t
unfolding tls_settings
tls_settings_lem f c t e =
    subst (Holds (IsMutual f c)) e
      (then_certificate-IsMutual f c (load_ca f c (base_settings c)) (load_ca-ChecksServer f c))
