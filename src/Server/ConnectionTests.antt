-- ===== src/Server/ConnectionTests.antt =====
-- vpn_server/internal/server/masque_handler.go and tls_config.go: a concrete connection, and the
-- settings with which the server listens.
use Prim.Native.String.{String}
use masque_vpn.Prelude.{
  ℕ, ◌+◌, ◌≡◌, refl, inl, true, false, Option, none, some, ok, err, List, [], ◌∷◌, length, All,
}
use masque_vpn.Prelude.Assoc.{string_eq, lookup}
use masque_vpn.Ip.Addr.{addr_eq}
use masque_vpn.Server.Metrics.{dec}
use masque_vpn.Server.Parse.{parse_source_ip, parse_destination_ip}
use masque_vpn.Server.Proxy.{Round, proxy_client_to_tun, proxy_tun_to_client}
use masque_vpn.Server.Filtering.{total_length}
use masque_vpn.Server.Ownership.{HoldersAgree}
use masque_vpn.Server.Connection.{
  client_to_tun, handle_client_connection, handle_client_connection_lem,
}
use masque_vpn.Server.Certificates.{CertificateConfig, load_server_certificate, load_ca_certificate}
use masque_vpn.Server.MutualTls.{
  ServerTls, tls_12, ecdhe_rsa_aes_256_gcm_sha384, ecdhe_rsa_chacha20_poly1305,
  ecdhe_ecdsa_aes_256_gcm_sha384, ecdhe_ecdsa_chacha20_poly1305, require_and_verify_client_cert,
  setup_tls_config, OwnCertificate, ClientCas, setup_tls_config_lem,
}
use masque_vpn.Server.Tests.{host, with_alice, with_alice-HoldersAgree, alice_holds}

-- A packet from 10.0.0.2, and one from another address.
abbrev packet_from : ℕ → List ℕ
packet_from n =
    69 ∷ 0 ∷ 0 ∷ 20 ∷ 0 ∷ 0 ∷ 0 ∷ 0 ∷ 64 ∷ 1 ∷ 0 ∷ 0 ∷ 10 ∷ 0 ∷ 0 ∷ n ∷ 10 ∷ 0 ∷ 0 ∷ 1 ∷ []

abbrev client_reads : List Round
client_reads =
    record { read = ok (packet_from 2); written = none }
    ∷ record { read = ok (packet_from 9); written = none }
    ∷ record {
      read = err (record { op_error = none; text = "EOF"; timeout = false });
      written = none;
    }
    ∷ []

handle_client_connection_lem_example :
    let t =
      handle_client_connection true with_alice "alice" (host 2) [] client_reads client_to_tun 60 in
    let to_client = (proxy_tun_to_client true (host 2) []).0.passed in
    let to_tun = (proxy_client_to_tun true (host 2) client_reads).0.passed in
    HoldersAgree t
    × (lookup (host 2) t.ip_conn_map ≡ none)
    × (t.metrics.active_connections ≡ dec with_alice.metrics.active_connections)
    × (t.metrics.packets_forwarded ≡ with_alice.metrics.packets_forwarded + length to_client)
    × (t.metrics.tun_packets_written ≡ with_alice.metrics.tun_packets_written + length to_tun)
    × (t.metrics.bytes_forwarded
        ≡ with_alice.metrics.bytes_forwarded + total_length to_client + total_length to_tun)
    × All (λ p. parse_source_ip p ≡ ok (host 2)) to_tun
    × All (λ p. parse_destination_ip p ≡ ok (host 2)) to_client
handle_client_connection_lem_example =
    handle_client_connection_lem true with_alice "alice" (host 2) [] client_reads client_to_tun 60
      with_alice-HoldersAgree (inl alice_holds)

abbrev key_pair : String → String → Option ℕ
key_pair certificate key = some 1

abbrev no_file : String → Option String
no_file name = none

abbrev client_pool : String → Option ℕ
client_pool text = some 2

abbrev texts_only : CertificateConfig
texts_only = record {
  cert_file = "";
  key_file = "";
  ca_cert_file = "";
  cert_pem = "CERT";
  key_pem = "KEY";
  ca_cert_pem = "CA";
}

abbrev settings : ServerTls ℕ ℕ
settings = record {
  certificate = 1;
  client_auth = require_and_verify_client_cert;
  client_cas = 2;
  next_protos = "h3" ∷ [];
  min_version = tls_12;
  cipher_suites =
      ecdhe_rsa_aes_256_gcm_sha384 ∷ ecdhe_rsa_chacha20_poly1305 ∷ ecdhe_ecdsa_aes_256_gcm_sha384
      ∷ ecdhe_ecdsa_chacha20_poly1305 ∷ [];
}

settings_set_up : setup_tls_config key_pair key_pair no_file client_pool texts_only ≡ ok settings
unfolding setup_tls_config load_server_certificate load_ca_certificate
settings_set_up = refl

setup_tls_config_lem_example :
    (settings.client_auth ≡ require_and_verify_client_cert)
    × OwnCertificate key_pair key_pair no_file client_pool texts_only settings.certificate
    × ClientCas key_pair key_pair no_file client_pool texts_only settings.client_cas
setup_tls_config_lem_example =
    setup_tls_config_lem key_pair key_pair no_file client_pool texts_only settings settings_set_up
