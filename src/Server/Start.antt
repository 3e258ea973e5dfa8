-- ===== src/Server/Start.antt =====
-- vpn_server/internal/server/server.go, `New` and `Close`; vpn_server/main.go, what it asks of the
-- configuration; api_server.go, `getConfig`. `NewAPIServer` sets up routes and has no error.
use Prim.Native.String.{String}
use text.Mathlib.Text.{◌==◌ as str_eq}
use masque_vpn.Prelude.{
  ℕ, Bool, ◌||◌, Option, none, some, Result, ok, err, List, [], ◌∷◌, if◌then◌else◌,
}
use masque_vpn.Prelude.Int.{ℤ}
use masque_vpn.Configuration.{ServerConfig}
use masque_vpn.Ip.Addr.{Prefix}
use masque_vpn.Ip.Network.{NetworkInfo, NetworkError, new_network_info, get_prefix, get_gateway}
use masque_vpn.Ip.Pool.{IpPool, new_ip_pool}
use masque_vpn.Tun.Platform.{Platform, Texts}
use masque_vpn.Tun.Device.{
  TunDevice, Os, TunError, Effect, closed, Created, ip_net_of, create_tun_device,
}
use masque_vpn.Server.Metrics.{new_metrics}
use masque_vpn.Server.State.{Server}
use masque_vpn.Server.Sessions.{close_clients}

unfoldable pub missing_configuration : ServerConfig → Bool
missing_configuration c =
    str_eq c.listen_addr ""
    || str_eq c.cert_file ""
    || str_eq c.key_file ""
    || str_eq c.assign_cidr ""
    || str_eq c.server_name ""

pub data NewError : Type 0 where
  failed_to_create_network_info : NetworkError → NewError
  failed_to_create_tun_device : TunError → NewError

-- The server that runs, and its device if it has one.
pub record Running : Type 0 where
  pub server : Server
  pub tun_dev : Option TunDevice

-- `none` is a `New` that is still making its pool when the fuel is out.
abbrev pub Started : Type 0
Started = Option (Result NewError Running) × List Effect

abbrev pub initial : ServerConfig → IpPool → ℕ → Server
initial c pool tun_interface_status = record {
  assign_cidr = c.assign_cidr;
  fec_config_enabled = c.fec.enabled;
  ip_pool = pool;
  client_ip_map = [];
  ip_conn_map = [];
  sessions = [];
  metrics = record new_metrics { tun_interface_status = tun_interface_status };
}

abbrev pub with_tun : ServerConfig → IpPool → Created → Started
with_tun c pool (err e, effects) = (some (err (failed_to_create_tun_device e)), effects)
with_tun c pool (ok d, effects) =
    (some (ok (record { server = initial c pool 1; tun_dev = some d })), effects)

abbrev pub with_pool : Platform → Texts → Os → ServerConfig → NetworkInfo → Option IpPool → Started
with_pool platform t os c n none = (none, [])
with_pool platform t os c n (some pool) =
    if str_eq c.tun_name ""
    then (some (ok (record { server = initial c pool 0; tun_dev = none })), [])
    else with_tun c pool
        (create_tun_device platform t os c.tun_name (ip_net_of (get_gateway n)) c.mtu)

abbrev pub with_network :
    ℕ → Platform → Texts → Os → ServerConfig → Result NetworkError NetworkInfo → Started
with_network fuel platform t os c (err e) = (some (err (failed_to_create_network_info e)), [])
with_network fuel platform t os c (ok n) =
    with_pool platform t os c n (new_ip_pool fuel (get_prefix n) (get_gateway n).addr)

unfoldable pub new_server :
    (String → Option Prefix) → ℕ → Platform → Texts → Os → ServerConfig → Started
new_server parse_prefix fuel platform t os c =
    with_network fuel platform t os c (new_network_info parse_prefix c.assign_cidr)

abbrev pub close_tun : Option TunDevice → Server → Server × List Effect
close_tun none s = (s, [])
close_tun (some d) s =
    (record s { metrics = record s.metrics { tun_interface_status = 0 } }, closed d.device ∷ [])

-- `Close`; the API server then forgets its logs.
unfoldable pub close_server : Running → Server × List Effect
close_server r = close_tun r.tun_dev (close_clients r.server.client_ip_map r.server)

-- What `GET /api/v1/config` answers with.
pub record PublicConfig : Type 0 where
  pub listen_addr : String
  pub assign_cidr : String
  pub advertise_routes : List String
  pub server_name : String
  pub mtu : ℤ
  pub log_level : String
  pub enable_ipv6 : Bool
  pub fec_enabled : Bool
  pub metrics_enabled : Bool

unfoldable pub get_config : ServerConfig → PublicConfig
get_config c = record {
  listen_addr = c.listen_addr;
  assign_cidr = c.assign_cidr;
  advertise_routes = c.advertise_routes;
  server_name = c.server_name;
  mtu = c.mtu;
  log_level = c.log_level;
  enable_ipv6 = c.enable_ipv6;
  fec_enabled = c.fec.enabled;
  metrics_enabled = c.metrics.enabled;
}
