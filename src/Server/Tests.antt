-- ===== src/Server/Tests.antt =====
-- vpn_server/internal/server: concrete runs.
use Prim.Native.String.{String}
use text.Mathlib.Text.{◌==◌ as str_eq}
use text.Mathlib.TextEquality.{eq_iff}
use masque_vpn.Prelude.{
  ℕ, ◌+◌, ◌-◌, ◌%◌, ◌^◌, ◌≤◌, ◌<◌, ◌≡◌, ◌≢◌, ◌⊎◌, refl, ap, Bool, true, false, Option,
  if◌then◌else◌, none, some, List, [], ◌∷◌, arith, length, take, drop, ◌++◌, ok, ◌==◌,
}
use masque_vpn.Prelude.Int.{pos}
use masque_vpn.Prelude.Assoc.{string_eq, lookup, store}
use masque_vpn.Fec.Config.{calculate_redundancy_packets}
use masque_vpn.Fec.Encoder.{XorEncoder, encode, encode_blocks, max_size, xor_packets}
use masque_vpn.Ip.Addr.{Addr, addr_eq, bytes_eq}
use masque_vpn.Ip.Count.{value}
use masque_vpn.Ip.Hosts.{member}
use masque_vpn.Ip.Leases.{init-IsSound}
use masque_vpn.Ip.Pool.{IpPool, allocate}
use masque_vpn.Server.Metrics.{new_metrics}
use masque_vpn.Server.State.{Server, ClientSession, write_packet}
use masque_vpn.Server.Sessions.{
  assign_ip_to_client, find_client_session, cleanup_client_session, disconnect_client,
  client_disconnected, client_not_found,
}
use masque_vpn.Server.Requests.{Request, accepted, accept_client}
use masque_vpn.Server.Forward.{
  forward_packet_to_client, forward_packet_with_fec, encode_and_send_block, send_packets,
}
use masque_vpn.Server.Ownership.{HoldersAgree, init-OneHolder}
use masque_vpn.Server.Assignment.{Assigned, assign_ip_to_client_lem}
use masque_vpn.Server.Cleanup.{cleanup_stale, disconnect_client_lem}
use masque_vpn.Server.Reconnect.{session_closed, reconnect_lem}
use masque_vpn.Server.Delivery.{
  forward_all, all_none, fec_session, open_conn, forward_without_encoder, forward_with_encoder,
}
use masque_vpn.Server.Admission.{IsAdmitted}
use masque_vpn.Server.Listener.{
  Pattern, root, metrics_path, health_path, from_handler, after_masque, serve_http,
}
use masque_vpn.Server.Serving.{serve_http_cases}
use masque_vpn.Server.Parse.{parse_source_ip, parse_destination_ip}
use masque_vpn.Server.Proxy.{Round, proxy, proxy_client_to_tun, proxy_tun_to_client}
use masque_vpn.Server.Filtering.{IsClean, proxies_no_spoofing}
use masque_vpn.Server.Processor.{DeviceRead, process_packets}
use masque_vpn.Server.Shares.{totals, with_totals, until_closed}
use masque_vpn.Server.Dispatch.{process_packets_lem}
use masque_vpn.Server.Logs.{LogEvent, add_all, events, get_connection_logs, get_connection_logs_lem}

abbrev pub host : ℕ → Addr
host n = 10 ∷ 0 ∷ 0 ∷ n ∷ []

abbrev pub two_free : IpPool
two_free = record {
  prefix = record { addr = host 0; bits = 30 };
  gateway = host 1;
  allocated = [];
  available = host 2 ∷ host 3 ∷ [];
}

abbrev pub fresh : Server
fresh = record {
  assign_cidr = "10.0.0.0/30";
  fec_config_enabled = true;
  ip_pool = two_free;
  client_ip_map = [];
  ip_conn_map = [];
  sessions = [];
  metrics = new_metrics;
}

pub fresh-HoldersAgree : HoldersAgree fresh
fresh-HoldersAgree =
    init-OneHolder two_free
      (init-IsSound two_free refl (((λ e. omega (arith, ap value e)), tt), (tt, tt))) refl

assign_ip_to_client_lem_example : Assigned fresh "alice" (assign_ip_to_client fresh "alice")
assign_ip_to_client_lem_example = assign_ip_to_client_lem fresh "alice" fresh-HoldersAgree

abbrev pub with_alice : Server
with_alice = (assign_ip_to_client fresh "alice").0

pub with_alice-HoldersAgree : HoldersAgree with_alice
with_alice-HoldersAgree = (assign_ip_to_client_lem fresh "alice" fresh-HoldersAgree).0

pub alice_holds : lookup "alice" with_alice.client_ip_map ≡ some (host 2)
unfolding assign_ip_to_client allocate lookup store
alice_holds = refl

abbrev pub carol : String
carol = "carol"

abbrev alice : String
alice = "alice"

carol-ne-alice : carol ≢ alice
carol-ne-alice e = let same : str_eq "carol" "alice" ≡ true = (eq_iff "carol" "alice").1 e in cc

reconnect_lem_example :
    let (opened, answer) = accept_client with_alice "alice" in
    let t = cleanup_client_session opened "alice" (host 2) in
    (answer ≡ accepted "alice" (host 2) (length with_alice.sessions))
    × (session_closed t (length with_alice.sessions) ≡ true)
    × (lookup (host 2) t.ip_conn_map ≡ none)
    × (lookup "alice" t.client_ip_map ≡ none)
    × (lookup (host 2) t.ip_pool.allocated ≡ none)
    × (member (host 2) t.ip_pool.available ≡ true)
reconnect_lem_example =
    reconnect_lem with_alice "alice" (host 2) with_alice-HoldersAgree alice_holds

cleanup_stale_example :
    let t = cleanup_client_session with_alice "carol" (host 2) in
    (lookup "alice" t.client_ip_map ≡ some (host 2))
    × (lookup (host 2) t.ip_pool.allocated ≡ none)
    × (member (host 2) t.ip_pool.available ≡ true)
    × (lookup (host 2) t.ip_conn_map ≡ none)
cleanup_stale_example =
    cleanup_stale with_alice "carol" "alice" (host 2) with_alice-HoldersAgree carol-ne-alice
      alice_holds

disconnect_client_lem_example :
    let (t, answer) = disconnect_client with_alice "alice" in
    HoldersAgree t
    × (((lookup "alice" with_alice.client_ip_map ≡ none)
          × (t ≡ with_alice)
          × (answer ≡ client_not_found))
        ⊎ ((ip : Addr) × (lookup "alice" with_alice.client_ip_map ≡ some ip)
            × (answer ≡ client_disconnected "alice")
            × (lookup "alice" t.client_ip_map ≡ none)
            × (lookup ip t.ip_pool.allocated ≡ none)
            × (lookup ip t.ip_conn_map ≡ none)))
disconnect_client_lem_example = disconnect_client_lem with_alice "alice" with_alice-HoldersAgree

abbrev request_of : String → Request
request_of name = record {
  method = "CONNECT";
  path = "/";
  capsule_protocol = "?masque";
  upgrade = "";
  peer_certificates = some (name ∷ []);
}

abbrev mux : Request → Option Pattern
mux r =
    if str_eq r.path "/metrics"
    then some metrics_path
    else if str_eq r.path "/health"
    then some health_path
    else some root

serve_http_cases_example :
    (((serve_http mux fresh (request_of "alice")).0 ≡ fresh)
      × ((c : String) (ip : Addr) (i : ℕ)
          → (serve_http mux fresh (request_of "alice")).1 ≢ from_handler (accepted c ip i)))
    ⊎ ((c : String) × (mux (request_of "alice") ≡ some root)
        × IsAdmitted (request_of "alice") c
        × (serve_http mux fresh (request_of "alice") ≡ after_masque (accept_client fresh c)))
serve_http_cases_example = serve_http_cases mux fresh (request_of "alice")

abbrev accepts_all : ℕ → Bool
accepts_all i = true

abbrev encoder_2 : XorEncoder
encoder_2 = record {
  config = record { enabled = true; redundancy_percent = pos 50; block_size = pos 2 };
}

forward_with_encoder_example :
    let block : List (List ℕ) = (1 ∷ []) ∷ (2 ∷ []) ∷ [] in
    let result =
      forward_packet_to_client accepts_all
        (fec_session (open_conn []) (some encoder_2) ((1 ∷ []) ∷ []) 7)
        (2 ∷ []) in
    ((1 + 1 < 2) × (result ≡ (fec_session (open_conn []) (some encoder_2) block 7, none)))
    ⊎ ((1 + 1 ≡ 2)
        × (result ≡ (
          fec_session
              (open_conn (encode encoder_2 block))
              (some encoder_2)
              []
              ((7 + length (encode encoder_2 block)) % 2 ^ 32),
          none,
        )))
forward_with_encoder_example =
    forward_with_encoder accepts_all encoder_2 [] ((1 ∷ []) ∷ []) 7 (2 ∷ []) (λ j. refl)
      (omega arith) (omega arith)

fec_sends_nothing :
    let (session, results) =
      forward_all
        (λ i. accepts_all)
        0
        (fec_session (open_conn []) none [] 0)
        ((1 ∷ []) ∷ (2 ∷ []) ∷ []) in
    (session ≡ fec_session (open_conn []) none ((1 ∷ []) ∷ (2 ∷ []) ∷ []) 0)
    × (all_none results ≡ true)
fec_sends_nothing =
    forward_without_encoder (λ i. accepts_all) 0 (open_conn []) [] 0 ((1 ∷ []) ∷ (2 ∷ []) ∷ [])

abbrev connect_event : LogEvent
connect_event = record { client_id = "alice"; event_type = "connect"; timestamp = 1; details = "" }

get_connection_logs_lem_example :
    (length (add_all [] (connect_event ∷ connect_event ∷ [])) ≤ 1000)
    × (events (get_connection_logs (add_all [] (connect_event ∷ connect_event ∷ [])))
        ≡ drop
            (length (connect_event ∷ connect_event ∷ []) - 100)
            (connect_event ∷ connect_event ∷ []))
get_connection_logs_lem_example = get_connection_logs_lem (connect_event ∷ connect_event ∷ [])

abbrev header : (src dst : Addr) → List ℕ
header src dst = (69 ∷ 0 ∷ 0 ∷ 20 ∷ 0 ∷ 0 ∷ 0 ∷ 0 ∷ 64 ∷ 1 ∷ 0 ∷ 0 ∷ []) ++ (src ++ dst)

-- The second packet has a source that is not the client's.
abbrev two_rounds : List Round
two_rounds =
    record { read = ok (header (host 2) (host 1)); written = none }
    ∷ record { read = ok (header (host 3) (host 1)); written = none }
    ∷ []

proxies_no_spoofing_example :
    IsClean parse_source_ip (host 2) (proxy_client_to_tun true (host 2) two_rounds).0
    × IsClean parse_destination_ip (host 2) (proxy_tun_to_client true (host 2) two_rounds).0
proxies_no_spoofing_example = proxies_no_spoofing true (host 2) two_rounds two_rounds

one_is_passed : (proxy_client_to_tun true (host 2) two_rounds).0.packets ≡ 1
unfolding proxy_client_to_tun proxy parse_source_ip bytes_eq
one_is_passed = refl

abbrev one_read : List DeviceRead
one_read = record { packet = ok (header (host 1) (host 2)); accepts = accepts_all } ∷ []

abbrev alice_online : Server
alice_online = record with_alice {
  ip_conn_map = (host 2, 0) ∷ [];
  sessions = record (fec_session (open_conn []) none [] 0) { fec_enabled = false } ∷ [];
}

process_packets_lem_example :
    process_packets one_read alice_online
    ≡ with_totals alice_online
        (totals alice_online.ip_conn_map (until_closed one_read) 0 alice_online.sessions)
process_packets_lem_example = process_packets_lem one_read alice_online

one_is_forwarded : (process_packets one_read alice_online).metrics.packets_forwarded ≡ 1
unfolding process_packets parse_destination_ip find_client_session lookup bytes_eq
    forward_packet_to_client write_packet assign_ip_to_client allocate
one_is_forwarded = refl

abbrev accepts_one : ℕ → Bool
accepts_one i = i == 0

abbrev written_to : ClientSession → List (List ℕ)
written_to session = elim session.conn [ none ↦ [] | some c ↦ c.written ]

-- The second write of a block fails, and the next packet comes.
abbrev after_failure : ClientSession
after_failure =
    let failed =
      forward_packet_to_client accepts_one
        (fec_session (open_conn []) (some encoder_2) ((1 ∷ []) ∷ []) 0) (2 ∷ []) in
    (forward_packet_to_client accepts_all failed.0 (3 ∷ [])).0

-- The packet that was sent before the failure is sent again.
sent_twice : take 2 (written_to after_failure) ≡ (1 ∷ []) ∷ (1 ∷ []) ∷ []
unfolding forward_packet_to_client forward_packet_with_fec encode_and_send_block send_packets
    write_packet encode encode_blocks xor_packets calculate_redundancy_packets max_size
sent_twice = refl
