-- ===== src/Server/State.antt =====
-- vpn_server/internal/server/server.go and types.go: the server's maps, and the sessions that they
-- point to. Sessions stand in a list; a pointer to one is its index. The server's end of a
-- connection (common/masque_connectip.go, `NewMASQUEConnForServer`) has no stream: a packet that is
-- written goes to its channel.
use Prim.Native.String.{String}
use masque_vpn.Prelude.{
  ℕ, Bool, true, false, Option, none, some, List, [], ◌∷◌, ◌++◌, get_elem?, set,
}
use masque_vpn.Fec.Encoder.{XorEncoder}
use masque_vpn.Ip.Addr.{Addr}
use masque_vpn.Ip.Pool.{IpPool}
use masque_vpn.Server.Metrics.{Metrics}

pub record Conn : Type 0 where
  pub closed : Bool
  pub written : List (List ℕ)

abbrev pub new_conn_for_server : Conn
new_conn_for_server = record { closed = false; written = [] }

pub data WriteError : Type 0 where
  connection_is_closed write_timeout : WriteError

-- `accepted` says whether the channel takes the packet before the write times out.
unfoldable pub write_packet : Bool → Conn → List ℕ → Conn × Option WriteError
write_packet accepted c packet = elim c.closed [
  | true ↦ (c, some connection_is_closed)
  | false ↦ elim accepted [
    | true ↦ (record c { written = c.written ++ packet ∷ [] }, none)
    | false ↦ (c, some write_timeout)
  ]
]

abbrev pub close_conn : Conn → Conn
close_conn c = record c { closed = true }

pub record ClientSession : Type 0 where
  pub conn : Option Conn
  pub encoder : Option XorEncoder
  pub packet_buffer : List (List ℕ)
  pub seq_num : ℕ
  pub fec_enabled : Bool

pub record Server : Type 0 where
  pub assign_cidr : String
  pub fec_config_enabled : Bool
  pub ip_pool : IpPool
  pub client_ip_map : List (String × Addr)
  pub ip_conn_map : List (Addr × ℕ)
  pub sessions : List ClientSession
  pub metrics : Metrics

-- Nothing is closed where `session.Conn` is nil.
abbrev pub closed_conn : Option Conn → Option Conn
closed_conn none = none
closed_conn (some k) = some (close_conn k)

abbrev pub close_session : ClientSession → ClientSession
close_session c = record c { conn = closed_conn c.conn }

-- `session.Conn.Close()` through a pointer.
unfoldable pub close_at : ℕ → List ClientSession → List ClientSession
close_at i sessions = elim (get_elem? sessions i) [
  | none ↦ sessions
  | some c ↦ set sessions i (close_session c)
]
