-- ===== src/Client/Tests.antt =====
-- common/masque_proxy.go, common/masque_connectip.go and vpn_client/main.go: concrete runs.
use masque_vpn.Prelude.{
  ℕ, ◌≡◌, refl, true, false, Option, none, some, Result, ok, err, List, [], ◌∷◌, map,
}
use masque_vpn.Prelude.Int.{pos}
use masque_vpn.Prelude.Assoc.{string_eq}
use masque_vpn.Configuration.{ClientConfig}
use masque_vpn.Ip.Addr.{Addr}
use masque_vpn.Server.Parse.{ParseError}
use masque_vpn.Server.Proxy.{
  IoError, Proxied, returns, after_read, failed_to_read, failed_to_write, is_network_closed,
}
use masque_vpn.Tun.Platform.{linux}
use masque_vpn.Tun.Tests.{texts, all_goes_well}
use masque_vpn.Client.Stream.{Source, read_packet, Sink, write_packet, plain_error, wrapped}
use masque_vpn.Client.Proxy.{
  FromTun, from_tun, proxy_from_tun_to_masque, FromMasque, from_masque, proxy_from_masque_to_tun,
  relay,
}
use masque_vpn.Client.Passing.{
  lead, first_failure, packets_read, message_of, proxies_relay, read_error_ends,
}
use masque_vpn.Client.Tls.{
  Files, from_pem, TlsSettings, tls_settings, load_ca, load_certificate, with_key_log,
  missing_configuration,
}
use masque_vpn.Client.Verification.{ChecksServer, HasCertificate, tls_settings_lem}
use masque_vpn.Client.Establish.{Network, establish_and_configure}
use masque_vpn.Client.Lifecycle.{ClientMetrics, proxy_message}
use masque_vpn.Client.Releasing.{Leaves, establish_lem}
use masque_vpn.Logging.{init_logger}
use masque_vpn.Client.Main.{World, returns, client_main}
use masque_vpn.Client.Exits.{EndsWell, client_main_lem}

-- 30 seconds without a packet.
abbrev deadline : IoError
deadline = record { op_error = none; text = "deadline exceeded"; timeout = true }

abbrev idle_stream : Source
idle_stream = Source.stream none (err deadline)

abbrev from_device : List FromTun
from_device =
    record { read = ok (69 ∷ 0 ∷ []); closed = false; sink = Sink.stream none none }
    ∷ record { read = ok []; closed = false; sink = Sink.stream none none }
    ∷ record { read = ok (69 ∷ 1 ∷ []); closed = false; sink = Sink.stream none none }
    ∷ record { read = ok (69 ∷ 2 ∷ []); closed = true; sink = Sink.stream none none }
    ∷ []

two_passed : proxy_from_tun_to_masque from_device ≡ (
  (69 ∷ 0 ∷ []) ∷ (69 ∷ 1 ∷ []) ∷ [],
  some (some (failed_to_write (plain_error "connection is closed"))),
)
unfolding proxy_from_tun_to_masque relay write_packet is_network_closed
two_passed = refl

abbrev from_stream : List FromMasque
from_stream = record { closed = false; source = idle_stream; written = none } ∷ []

proxies_relay_example :
    (proxy_from_tun_to_masque from_device ≡ (
      packets_read (lead (map from_tun from_device)),
      message_of (first_failure (map from_tun from_device)),
    ))
    × (proxy_from_masque_to_tun from_stream ≡ (
      packets_read (lead (map from_masque from_stream)),
      message_of (first_failure (map from_masque from_stream)),
    ))
proxies_relay_example = proxies_relay from_device from_stream

read_error_ends_example :
    ((written : Option IoError) (rounds : List FromMasque)
      → proxy_from_masque_to_tun
          (record { closed = false; source = idle_stream; written = written } ∷ rounds)
        ≡ ([], some (some (failed_to_read (wrapped "read timeout: " deadline)))))
    × ((parse : List ℕ → Result ParseError Addr) (client_ip : Addr) (s : Proxied)
          (written : Option IoError)
        → after_read parse client_ip s written (read_packet false idle_stream)
          ≡ returns s (some (failed_to_read (wrapped "read timeout: " deadline))))
unfolding read_packet
read_error_ends_example = read_error_ends idle_stream (wrapped "read timeout: " deadline) refl

abbrev client_config : ClientConfig
client_config = record {
  server_addr = "vpn.example:4433";
  server_name = "vpn.example";
  ca_file = "ca.crt";
  ca_pem = "CA";
  tls_cert = "";
  tls_key = "";
  cert_pem = "CERT";
  key_pem = "KEY";
  insecure_skip_verify = true;
  tun_name = "tun0";
  key_log_file = "";
  log_level = "info";
  mtu = pos 1400;
  prefer_ipv6 = false;
  fec = record { enabled = true; redundancy_percent = pos 10; block_size = pos 10 };
}

client_config_is_complete : missing_configuration client_config ≡ false
unfolding missing_configuration
client_config_is_complete = refl

abbrev files : Files
files = record {
  read_file = λ name. none;
  has_certificates = λ pem. true;
  is_key_pair = λ cert key. true;
  loads_key_pair = λ cert key. false;
  opens = λ name. false;
}

abbrev settings : TlsSettings
settings = record {
  server_name = "vpn.example";
  insecure_skip_verify = false;
  next_protos = "h3" ∷ [];
  root_cas = some "CA";
  certificate = some (from_pem "CERT" "KEY");
  key_log = none;
}

settings_loaded : tls_settings files client_config ≡ ok settings
unfolding tls_settings load_ca load_certificate with_key_log
settings_loaded = refl

tls_settings_lem_example :
    ChecksServer files client_config settings × HasCertificate files client_config settings
tls_settings_lem_example = tls_settings_lem files client_config settings settings_loaded

abbrev network : Network
network = record {
  listens = true;
  resolves = λ name. some "192.0.2.1:4433";
  dials = λ tls addr. true;
  answers = record { opens = true; writes = true; reads = some "HTTP/1.1 200 OK"; closes = true };
}

establish_lem_example :
    Leaves (establish_and_configure files network linux texts all_goes_well client_config)
establish_lem_example = establish_lem files network linux texts all_goes_well client_config

abbrev idle_metrics : ClientMetrics
idle_metrics = record {
  connection_status = 0;
  active_connections = 0;
  tun_interface_status = 0;
  errors_total = [];
  connection_duration = [];
}

abbrev world : World ℕ
world = record {
  perf_profile = true;
  production = true;
  decodes = ok client_config;
  zap = record { parse_level = λ text. none; info_level = 1; build = λ settings. none };
  files = files;
  network = network;
  platform = linux;
  texts = texts;
  os = all_goes_well;
  ends = proxy_message none;
  duration = 60;
}

client_main_lem_example : EndsWell world idle_metrics (client_main world idle_metrics)
client_main_lem_example =
    client_main_lem world idle_metrics (record { status = refl; active = refl; tun = refl })

-- It gets as far as a connection.
main_returns : (client_main world idle_metrics).exit ≡ returns
unfolding client_main init_logger missing_configuration
main_returns = refl
