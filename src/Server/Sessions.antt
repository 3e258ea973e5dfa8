-- ===== src/Server/Sessions.antt =====
-- vpn_server/internal/server: what the handlers do under `IPPoolMu`, one function for each critical
-- section (masque_handler.go, packet_processor.go, api_server.go, server.go).
use Prim.Native.String.{String}
use masque_vpn.Prelude.{
  ℕ, Bool, true, false, Option, none, some, Result, ok, err, List, [], ◌∷◌, ◌++◌, length,
}
use masque_vpn.Prelude.Assoc.{string_eq, lookup, store, delete}
use masque_vpn.Ip.Addr.{Addr, Prefix, addr_eq}
use masque_vpn.Ip.Pool.{IpPool, PoolError, allocate, release}
use masque_vpn.Server.Metrics.{record_connection}
use masque_vpn.Server.State.{new_conn_for_server, ClientSession, Server, close_at}

pub data AssignError : Type 0 where
  failed_to_allocate_ip : PoolError → AssignError

abbrev pub assign_from :
    Server → String → IpPool × Result PoolError Prefix → Server × Result AssignError Prefix
assign_from s client_id (pool, err e) = (record s { ip_pool = pool }, err (failed_to_allocate_ip e))
assign_from s client_id (pool, ok prefix) = (
  record s { ip_pool = pool; client_ip_map = store client_id prefix.addr s.client_ip_map },
  ok prefix,
)

unfoldable pub assign_ip_to_client : Server → String → Server × Result AssignError Prefix
assign_ip_to_client s client_id = elim (lookup client_id s.client_ip_map) [
  | some ip ↦ (s, ok (record { addr = ip; bits = 32 }))
  | none ↦ assign_from s client_id (allocate s.ip_pool client_id)
]

-- The session of an accepted request: stored under the address, and counted. It has no encoder.
unfoldable pub open_session : Server → Addr → Server × ℕ
open_session s ip =
    let session : ClientSession = record {
      conn = some new_conn_for_server;
      encoder = none;
      packet_buffer = [];
      seq_num = 0;
      fec_enabled = s.fec_config_enabled;
    } in
    (
      record s {
        sessions = s.sessions ++ session ∷ [];
        ip_conn_map = store ip (length s.sessions) s.ip_conn_map;
        metrics = record_connection s.metrics;
      },
      length s.sessions,
    )

unfoldable pub find_client_session : Server → Addr → Option ℕ
find_client_session s ip = lookup ip s.ip_conn_map

-- The part that `cleanupClientSession` and `disconnectClient` share.
unfoldable pub drop_session : Server → Addr → Server
drop_session s ip = elim (lookup ip s.ip_conn_map) [
  | none ↦ s
  | some i ↦ record s { sessions = close_at i s.sessions; ip_conn_map = delete ip s.ip_conn_map }
]

unfoldable pub cleanup_client_session : Server → String → Addr → Server
cleanup_client_session s client_id ip =
    let dropped = drop_session (record s { client_ip_map = delete client_id s.client_ip_map }) ip in
    record dropped { ip_pool = release dropped.ip_pool ip }

pub data ApiResponse : Type 0 where
  client_not_found : ApiResponse
  client_disconnected : String → ApiResponse

-- What `disconnectClient` does under the lock; it gives the address that it has to release.
unfoldable pub remove_client : Server → String → Server × Option Addr
remove_client s client_id = elim (lookup client_id s.client_ip_map) [
  | none ↦ (s, none)
  | some ip ↦
      let dropped = drop_session s ip in
      (record dropped { client_ip_map = delete client_id dropped.client_ip_map }, some ip)
]

-- `api.server.IPPool.Release(assignedIP)`, after the lock was given back.
abbrev pub release_address : Server → Addr → Server
release_address s ip = record s { ip_pool = release s.ip_pool ip }

abbrev pub after_removal : String → Server × Option Addr → Server × ApiResponse
after_removal client_id (s, none) = (s, client_not_found)
after_removal client_id (s, some ip) = (release_address s ip, client_disconnected client_id)

-- `DELETE /api/v1/clients/:id`, where no other handler comes between its two parts.
unfoldable pub disconnect_client : Server → String → Server × ApiResponse
disconnect_client s client_id = after_removal client_id (remove_client s client_id)

-- The loop of `Close` over the clients.
unfoldable pub close_clients : List (String × Addr) → Server → Server
close_clients [] s = s
close_clients ((client_id, ip) ∷ clients) s =
    close_clients clients (elim (lookup ip s.ip_conn_map) [
      | none ↦ s
      | some i ↦ record s { sessions = close_at i s.sessions }
    ])

pub record ClientInfo : Type 0 where
  pub id : String
  pub assigned_ip : Addr
  pub connected : Bool

abbrev pub client_info : Server → String → Addr → ClientInfo
client_info s client_id ip = record {
  id = client_id;
  assigned_ip = ip;
  connected = elim (lookup ip s.ip_conn_map) [ none ↦ false | some _ ↦ true ];
}

abbrev pub client_infos : Server → List (String × Addr) → List ClientInfo
client_infos s [] = []
client_infos s ((client_id, ip) ∷ clients) = client_info s client_id ip ∷ client_infos s clients

-- Go leaves the order of the clients open.
unfoldable pub get_clients : Server → List ClientInfo
get_clients s = client_infos s s.client_ip_map

unfoldable pub get_client : Server → String → Option ClientInfo
get_client s client_id = elim (lookup client_id s.client_ip_map) [
  | none ↦ none
  | some ip ↦ some (client_info s client_id ip)
]
