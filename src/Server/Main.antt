-- ===== src/Server/Main.antt =====
-- vpn_server/main.go: `main`, from the command line to its end. The TOML package, the logger, the
-- network and the operating system are what they answer; `none` is a `New` that is still making its
-- pool when the fuel is out.
use Prim.Native.String.{String}
use masque_vpn.Prelude.{
  ℕ, Bool, true, false, Option, none, some, Result, ok, err, List, [], ◌∷◌, ◌++◌, if◌then◌else◌,
}
use masque_vpn.Configuration.{ServerConfig}
use masque_vpn.Logging.{Zap, init_logger}
use masque_vpn.Ip.Addr.{Prefix}
use masque_vpn.Tun.Platform.{Platform, Texts}
use masque_vpn.Tun.Device.{Os, Effect}
use masque_vpn.Server.Certificates.{CertificateConfig}
use masque_vpn.Server.MutualTls.{setup_tls_config}
use masque_vpn.Server.Start.{missing_configuration, NewError, Started, new_server}
use masque_vpn.Server.Listener.{Waited, RunError, run_server}

-- The calls of crypto/tls and crypto/x509 that `setupTLSConfig` makes.
pub record TlsPackage (C P : Type 0) : Type 0 where
  pub x509_key_pair : String → String → Option C
  pub load_x509_key_pair : String → String → Option C
  pub read_file : String → Option String
  pub certs_from_pem : String → Option P

pub record World (L C P : Type 0) : Type 0 where
  -- Whether PERF_PROFILE is set, and whether ENVIRONMENT is "production".
  pub perf_profile : Bool
  pub production : Bool
  pub decodes : Result String ServerConfig
  pub zap : Zap L
  pub parse_prefix : String → Option Prefix
  pub platform : Platform
  pub texts : Texts
  pub os : Os
  pub tls : TlsPackage C P
  pub waited : Waited

pub data Exit : Type 0 where
  panics_on_config panics_on_logger : String → Exit
  -- `logger.Fatal`, which ends the process with status 1 and runs no deferred call.
  fatal_missing_configuration : Exit
  fatal_new : NewError → Exit
  still_starting : Exit
  returns : Option RunError → Exit

pub data Happening : Type 0 where
  profile_starts profile_stops logger_syncs signals_stop : Happening
  -- What is done to TUN devices.
  does : Effect → Happening

abbrev pub all_done : List Effect → List Happening
all_done [] = []
all_done (e ∷ effects) = does e ∷ all_done effects

abbrev pub certificates : ServerConfig → CertificateConfig
certificates c = record {
  cert_file = c.cert_file;
  key_file = c.key_file;
  cert_pem = c.cert_pem;
  key_pem = c.key_pem;
  ca_cert_file = c.ca_cert_file;
  ca_cert_pem = c.ca_cert_pem;
}

-- What the deferred calls of a part of `main` do, in the reverse of their order; on `Fatal`, nothing.
abbrev pub with_deferred : List Happening → Exit × List Happening → Exit × List Happening
with_deferred calls (panics_on_config e, hs) = (panics_on_config e, hs ++ calls)
with_deferred calls (panics_on_logger e, hs) = (panics_on_logger e, hs ++ calls)
with_deferred calls (fatal_missing_configuration, hs) = (fatal_missing_configuration, hs)
with_deferred calls (fatal_new e, hs) = (fatal_new e, hs)
with_deferred calls (still_starting, hs) = (still_starting, hs)
with_deferred calls (returns e, hs) = (returns e, hs ++ calls)

module _ {L C P : Type 0} (w : World L C P) where
  -- `Run`; whatever it returns is logged at most, and `Close` is not called.
  abbrev pub run_new : ServerConfig → Exit
  run_new c =
      returns
        (run_server
          (setup_tls_config w.tls.x509_key_pair w.tls.load_x509_key_pair w.tls.read_file
            w.tls.certs_from_pem (certificates c))
          w.waited).0

  abbrev pub after_new : ServerConfig → Started → Exit × List Happening
  after_new c (none, effects) = (still_starting, all_done effects)
  after_new c (some (err e), effects) = (fatal_new e, all_done effects)
  after_new c (some (ok r), effects) =
      with_deferred (signals_stop ∷ []) (run_new c, all_done effects)

  abbrev pub with_logger : ℕ → ServerConfig → Exit × List Happening
  with_logger fuel c =
      if missing_configuration c
      then (fatal_missing_configuration, [])
      else after_new c (new_server w.parse_prefix fuel w.platform w.texts w.os c)

  abbrev pub after_logger : ℕ → ServerConfig → Option String → Exit × List Happening
  after_logger fuel c (some e) = (panics_on_logger e, [])
  after_logger fuel c none = with_deferred (logger_syncs ∷ []) (with_logger fuel c)

  abbrev pub after_decode : ℕ → Result String ServerConfig → Exit × List Happening
  after_decode fuel (err e) = (panics_on_config e, [])
  after_decode fuel (ok c) = after_logger fuel c (init_logger w.zap w.production c.log_level).1

  abbrev pub profiled : Bool → Exit × List Happening → Exit × List Happening
  profiled false ended = ended
  profiled true (exit, hs) = with_deferred (profile_stops ∷ []) (exit, profile_starts ∷ hs)

  unfoldable pub server_main : ℕ → Exit × List Happening
  server_main fuel = profiled w.perf_profile (after_decode fuel w.decodes)
