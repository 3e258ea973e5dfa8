-- ===== src/Configuration.antt =====
-- common/config.go: the configurations of the client and of the server, as the TOML package fills
-- them in.
use Prim.Native.String.{String}
use masque_vpn.Prelude.{Bool, List}
use masque_vpn.Prelude.Int.{ℤ}
use masque_vpn.Fec.Config.{Config}

pub record ClientConfig : Type 0 where
  pub server_addr : String
  pub server_name : String
  pub ca_file : String
  pub ca_pem : String
  pub tls_cert : String
  pub tls_key : String
  pub cert_pem : String
  pub key_pem : String
  pub insecure_skip_verify : Bool
  pub tun_name : String
  pub key_log_file : String
  pub log_level : String
  pub mtu : ℤ
  pub prefer_ipv6 : Bool
  pub fec : Config

pub record ApiServerConfig : Type 0 where
  pub listen_addr : String
  pub static_dir : String
  pub database_path : String

pub record MetricsConfig : Type 0 where
  pub enabled : Bool
  pub listen_addr : String

pub record ServerConfig : Type 0 where
  pub listen_addr : String
  pub cert_file : String
  pub key_file : String
  pub ca_cert_file : String
  pub ca_key_file : String
  pub cert_pem : String
  pub key_pem : String
  pub ca_key_pem : String
  pub ca_cert_pem : String
  pub assign_cidr : String
  pub assign_cidr_v6 : String
  pub advertise_routes : List String
  pub advertise_routes_v6 : List String
  pub tun_name : String
  pub log_level : String
  pub server_name : String
  pub mtu : ℤ
  pub enable_ipv6 : Bool
  pub api_server : ApiServerConfig
  pub metrics : MetricsConfig
  pub fec : Config
