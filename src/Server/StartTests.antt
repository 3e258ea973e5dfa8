-- ===== src/Server/StartTests.antt =====
-- vpn_server/internal/server/server.go: a concrete start.
use Prim.Native.String.{String}
use masque_vpn.Prelude.{
  ◌≡◌, ◌≢◌, refl, inl, true, false, Option, none, some, ok, [], ◌∷◌, ◌++◌, arith,
}
use masque_vpn.Prelude.Int.{pos}
use masque_vpn.Prelude.Assoc.{string_eq, lookup, store}
use masque_vpn.Configuration.{ServerConfig}
use masque_vpn.Ip.Addr.{
  Addr, addr_eq, Prefix, masked, clear_host_bits, cidr_mask, last_ip, set_host_bits, next_ip,
  increment, addr_from_slice, addr_le, bytes_le, bytes_eq,
}
use masque_vpn.Ip.Network.{new_network_info}
use masque_vpn.Ip.Pool.{IpPool, host_addresses, new_ip_pool, allocate}
use masque_vpn.Tun.Platform.{linux, run_commands, set_ip_commands, set_platform_ip}
use masque_vpn.Tun.Device.{create_tun_device}
use masque_vpn.Tun.Opening.{open_after}
use masque_vpn.Tun.Tests.{texts, all_goes_well}
use masque_vpn.Server.Sessions.{assign_ip_to_client}
use masque_vpn.Server.Steps.{assigns, step, run}
use masque_vpn.Server.Start.{Running, initial, new_server, close_server, missing_configuration}
use masque_vpn.Server.Delivery.{fec_session, open_conn}
use masque_vpn.Server.Shutdown.{session_open, close_server_lem}
use masque_vpn.Server.Clients.{IsHost, clients_have_hosts}
use masque_vpn.Server.Hosting.{IsServable, Serves, new_server_lem}

abbrev pub config : ServerConfig
config = record {
  listen_addr = "0.0.0.0:4433";
  cert_file = "server.crt";
  key_file = "server.key";
  ca_cert_file = "ca.crt";
  ca_key_file = "";
  cert_pem = "";
  key_pem = "";
  ca_key_pem = "";
  ca_cert_pem = "";
  assign_cidr = "10.0.0.1/30";
  assign_cidr_v6 = "";
  advertise_routes = [];
  advertise_routes_v6 = [];
  tun_name = "tun3";
  log_level = "info";
  server_name = "vpn.example";
  mtu = pos 1400;
  enable_ipv6 = false;
  api_server = record { listen_addr = ":8080"; static_dir = ""; database_path = "" };
  metrics = record { enabled = false; listen_addr = "" };
  fec = record { enabled = true; redundancy_percent = pos 10; block_size = pos 10 };
}

config_is_complete : missing_configuration config ≡ false
unfolding missing_configuration
config_is_complete = refl

abbrev pub net_30 : Prefix
net_30 = record { addr = 10 ∷ 0 ∷ 0 ∷ 1 ∷ []; bits = 30 }

abbrev pub parse_net_30 : String → Option Prefix
parse_net_30 text = some net_30

pub net_30-IsServable : IsServable 4 (masked net_30)
unfolding masked clear_host_bits last_ip set_host_bits cidr_mask
net_30-IsServable = record {
  is_addr = ((omega arith, (omega arith, (omega arith, (omega arith, tt)))), inl refl);
  room = omega arith;
  fits = omega arith;
}

new_server_lem_example :
    let s = new_server parse_net_30 4 linux texts all_goes_well config in
    Serves config (masked net_30) s
    × ((r : Running) → s.0 ≡ some (ok r) → open_after [] (s.1 ++ (close_server r).1) ≡ [])
new_server_lem_example =
    new_server_lem parse_net_30 4 linux texts all_goes_well config net_30 refl net_30-IsServable

abbrev pool_30 : IpPool
pool_30 = record {
  prefix = record { addr = 10 ∷ 0 ∷ 0 ∷ 0 ∷ []; bits = 30 };
  gateway = 10 ∷ 0 ∷ 0 ∷ 1 ∷ [];
  allocated = [];
  available = (10 ∷ 0 ∷ 0 ∷ 2 ∷ []) ∷ (10 ∷ 0 ∷ 0 ∷ 3 ∷ []) ∷ [];
}

abbrev running : Running
running = record {
  server = initial config pool_30 1;
  tun_dev = some (record { device = 7; name = "tun3" });
}

it_runs : (new_server parse_net_30 4 linux texts all_goes_well config).0 ≡ some (ok running)
unfolding new_server new_network_info new_ip_pool host_addresses masked clear_host_bits last_ip
    set_host_bits cidr_mask next_ip increment addr_from_slice addr_le bytes_le bytes_eq
    create_tun_device set_platform_ip run_commands set_ip_commands
it_runs = refl

alice_has :
    lookup "alice" (run running.server (assigns "alice" ∷ [])).client_ip_map
    ≡ some (10 ∷ 0 ∷ 0 ∷ 2 ∷ [])
unfolding run step assign_ip_to_client allocate lookup store
alice_has = refl

clients_have_hosts_example : IsHost (masked net_30) (10 ∷ 0 ∷ 0 ∷ 2 ∷ [])
clients_have_hosts_example =
    clients_have_hosts parse_net_30 4 linux texts all_goes_well config net_30 running
      (assigns "alice" ∷ []) refl net_30-IsServable it_runs (tt, tt) "alice" (10 ∷ 0 ∷ 0 ∷ 2 ∷ [])
      alice_has

abbrev alice_address : Addr
alice_address = 10 ∷ 0 ∷ 0 ∷ 2 ∷ []

-- A client that connected again: its older session is under no address.
abbrev reconnected : Running
reconnected = record {
  server = record running.server {
    client_ip_map = ("alice", alice_address) ∷ [];
    ip_conn_map = (alice_address, 1) ∷ [];
    sessions = fec_session (open_conn []) none [] 0 ∷ fec_session (open_conn []) none [] 0 ∷ [];
  };
  tun_dev = running.tun_dev;
}

alice_is_known : lookup "alice" reconnected.server.client_ip_map ≡ some alice_address
unfolding lookup
alice_is_known = refl

alice_is_connected : lookup alice_address reconnected.server.ip_conn_map ≡ some 1
unfolding lookup bytes_eq
alice_is_connected = refl

first_is_alone : (at : Addr) → lookup at reconnected.server.ip_conn_map ≢ some 0
unfolding lookup
first_is_alone at = ground arith

close_server_lem_example :
    let t = (close_server reconnected).0 in
    (session_open t 1 ≡ false)
    × (session_open t 0 ≡ session_open reconnected.server 0)
    × (t.client_ip_map ≡ reconnected.server.client_ip_map)
    × (t.ip_conn_map ≡ reconnected.server.ip_conn_map)
    × (t.ip_pool ≡ reconnected.server.ip_pool)
close_server_lem_example =
    close_server_lem reconnected "alice" alice_address 1 0 alice_is_known alice_is_connected
      first_is_alone
