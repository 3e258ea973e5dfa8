-- ===== src/Server/Requests.antt =====
-- vpn_server/internal/server/masque_handler.go: a request from its arrival to the end of its
-- connection. The proxies between the TUN device and the client are an outcome here: what ended
-- the connection, and how long it was open.
use Prim.Native.String.{String}
use text.Mathlib.Text.{◌==◌ as str_eq, find?}
use masque_vpn.Prelude.{
  ℕ, Bool, true, false, ◌&&◌, ◌||◌, not, Option, none, some, Result, ok, err, List, [], ◌∷◌,
  if◌then◌else◌,
}
use masque_vpn.Ip.Addr.{Addr, Prefix}
use masque_vpn.Server.Metrics.{record_error, record_connection_duration, record_disconnection}
use masque_vpn.Server.State.{Server}
use masque_vpn.Server.Sessions.{
  AssignError, assign_ip_to_client, open_session, cleanup_client_session,
}

pub record Request : Type 0 where
  pub method : String
  pub path : String
  pub capsule_protocol : String
  pub upgrade : String
  -- The common names of the peer's certificates; `none` is a request without TLS.
  pub peer_certificates : Option (List String)

pub data Response : Type 0 where
  server_info : String → Response
  method_not_allowed not_a_masque_request : Response
  certificate_required invalid_certificate : Response
  failed_to_assign_ip : AssignError → Response
  -- 200, and the handler goes on with the client, its address and its session.
  accepted : String → Addr → ℕ → Response

abbrev pub contains_text : String → String → Bool
contains_text text part = elim (find? text part) [ none ↦ false | some _ ↦ true ]

unfoldable pub is_masque_request : Request → Bool
is_masque_request r = str_eq r.capsule_protocol "?masque" || contains_text r.upgrade "masque"

abbrev pub peer_name : Option (List String) → Option String
peer_name none = none
peer_name (some []) = none
peer_name (some (name ∷ names)) = some name

abbrev pub accept_assigned : String → Server × Result AssignError Prefix → Server × Response
accept_assigned client_id (s, err e) = (s, failed_to_assign_ip e)
accept_assigned client_id (s, ok prefix) =
    let (opened, session) = open_session s prefix.addr in
    (opened, accepted client_id prefix.addr session)

unfoldable pub accept_client : Server → String → Server × Response
accept_client s client_id = accept_assigned client_id (assign_ip_to_client s client_id)

-- Up to the call of `handleClientConnection`.
unfoldable pub handle_masque_request : Server → Request → Server × Response
handle_masque_request s r =
    if not (str_eq r.method "CONNECT")
    then (if str_eq r.method "GET" && str_eq r.path "/"
        then (s, server_info s.assign_cidr)
        else (s, method_not_allowed))
    else if not (is_masque_request r)
    then (s, not_a_masque_request)
    else elim (peer_name r.peer_certificates) [
      | none ↦ (s, certificate_required)
      | some client_id ↦
          if str_eq client_id "" then (s, invalid_certificate) else accept_client s client_id
    ]

-- What ends a connection: one proxy returns, with an error or without, or 24 hours pass.
pub data Ending : Type 0 where
  proxy_finished proxy_failed timed_out : Ending

abbrev pub count_ending : Ending → Server → Server
count_ending proxy_finished s = s
count_ending proxy_failed s = record s { metrics = record_error "proxy_error" s.metrics }
count_ending timed_out s = record s { metrics = record_error "timeout" s.metrics }

-- The rest of `handleClientConnection`, and the deferred `RecordDisconnection`.
unfoldable pub finish_connection : Server → String → Addr → Ending → ℕ → Server
finish_connection s client_id ip ending duration =
    let counted = count_ending ending s in
    let timed = record counted { metrics = record_connection_duration duration counted.metrics } in
    let cleaned = cleanup_client_session timed client_id ip in
    record cleaned { metrics = record_disconnection cleaned.metrics }
