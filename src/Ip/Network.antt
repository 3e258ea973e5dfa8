-- ===== src/Ip/Network.antt =====
-- common/ip.go: `NetworkInfo`. Parsing a CIDR is the standard library's, and a parameter here.
use Prim.Native.String.{String}
use masque_vpn.Prelude.{Option, none, some, Result, ok, err}
use masque_vpn.Ip.Addr.{Prefix, masked, next_ip}

pub record NetworkInfo : Type 0 where
  pub prefix : Prefix
  pub gateway : Prefix

pub data NetworkError : Type 0 where
  invalid_cidr : String → NetworkError

unfoldable pub new_network_info :
    (String → Option Prefix) → String → Result NetworkError NetworkInfo
new_network_info parse_prefix cidr = elim (parse_prefix cidr) [
  | none ↦ err (invalid_cidr cidr)
  | some p ↦
      let network = masked p in
      ok (record {
        prefix = network;
        gateway = record { addr = next_ip network.addr; bits = network.bits };
      })
]

abbrev pub get_gateway : NetworkInfo → Prefix
get_gateway n = n.gateway

abbrev pub get_prefix : NetworkInfo → Prefix
get_prefix n = n.prefix
