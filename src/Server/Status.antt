-- ===== src/Server/Status.antt =====
-- vpn_server/internal/server/api_server.go: the queries about the server and its clients.
use Prim.Native.String.{String}
use text.Mathlib.Text.{◌==◌ as str_eq}
use text.Mathlib.TextEquality.{eq_iff}
use masque_vpn.Prelude.{
  ℕ, ◌≡◌, refl, sym, ap, ◌∙◌, inl, inr, Option, none, some, List, [], ◌∷◌, length, Bool-cases,
  if◌then◌else◌,
}
use masque_vpn.Prelude.Assoc.{string_eq, lookup}
use masque_vpn.Ip.Addr.{Addr}
use masque_vpn.Server.State.{Server}
use masque_vpn.Server.Sessions.{ClientInfo, client_info, client_infos, get_clients, get_client}

-- What the queries take of the configuration and the device; `none` is a server without a device.
pub record Setup : Type 0 where
  pub tun_device : Option String
  pub listen_addr : String
  pub server_name : String

abbrev pub device_name : Setup → String
device_name setup = elim setup.tun_device [ none ↦ "disabled" | some name ↦ name ]

pub record ServerStatus : Type 0 where
  pub active_connections : ℕ
  pub network_cidr : String
  pub tun_device : String
  pub listen_addr : String
  pub server_name : String

unfoldable pub get_server_status : Setup → Server → ServerStatus
get_server_status setup s = record {
  active_connections = length s.ip_conn_map;
  network_cidr = s.assign_cidr;
  tun_device = device_name setup;
  listen_addr = setup.listen_addr;
  server_name = setup.server_name;
}

pub record ServerStats : Type 0 where
  pub active_connections : ℕ
  pub total_connections : ℕ
  pub network_cidr : String
  pub tun_device : String
  pub uptime : ℕ
  pub packets_forwarded : ℕ
  pub bytes_forwarded : ℕ

-- Four of the numbers are not kept yet, and 0.
unfoldable pub get_server_stats : Setup → Server → ServerStats
get_server_stats setup s = record {
  active_connections = length s.ip_conn_map;
  total_connections = 0;
  network_cidr = s.assign_cidr;
  tun_device = device_name setup;
  uptime = 0;
  packets_forwarded = 0;
  bytes_forwarded = 0;
}

-- The first entry of a list of clients under a name.
abbrev pub find_info : String → List ClientInfo → Option ClientInfo
find_info c [] = none
find_info c (info ∷ infos) = if str_eq info.id c then some info else find_info c infos

abbrev info_of : Server → String → Option Addr → Option ClientInfo
info_of s c none = none
info_of s c (some ip) = some (client_info s c ip)

find_info-client_infos :
    (s : Server) (c : String) (m : List (String × Addr))
    → find_info c (client_infos s m) ≡ info_of s c (lookup c m)
unfolding lookup
find_info-client_infos s c [] = refl
find_info-client_infos s c ((j, ip) ∷ m) = elim (Bool-cases (str_eq j c)) [
  | inl same ↦ rw same (ap (λ n. some (client_info s n ip)) ((eq_iff j c).0 same))
  | inr other ↦ rw other (find_info-client_infos s c m)
]

-- The query for one client answers what the list of all clients has under its name, and that it is
-- not found where the list has nothing.
pub get_client-get_clients :
    (s : Server) (c : String) → get_client s c ≡ find_info c (get_clients s)
unfolding get_client get_clients
get_client-get_clients s c =
    by_lookup (lookup c s.client_ip_map) ∙ sym (find_info-client_infos s c s.client_ip_map)
  where
    by_lookup :
        (o : Option Addr)
        → (elim o [ none ↦ none | some ip ↦ some (client_info s c ip) ]) ≡ info_of s c o
    by_lookup none = refl
    by_lookup (some ip) = refl
