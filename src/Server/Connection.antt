-- ===== src/Server/Connection.antt =====
-- vpn_server/internal/server/masque_handler.go: `handleClientConnection` with both of its proxies. The
-- rounds of a proxy are all those until its context is cancelled; what it counts while the handler
-- cleans up is counted before it here, as the two touch different fields.
use Prim.Native.String.{String}
use masque_vpn.Prelude.{
  ℕ, ◌+◌, ◌≡◌, refl, ap, ◌⊎◌, inl, inr, Bool, Option, none, some, ok, List, arith, length, All,
  Option-cases,
}
use masque_vpn.Prelude.Assoc.{string_eq, lookup, delete}
use masque_vpn.Ip.Addr.{Addr, addr_eq}
use masque_vpn.Server.Metrics.{
  Metrics, dec, record_error, record_connection_duration, record_disconnection,
}
use masque_vpn.Server.State.{Server}
use masque_vpn.Server.Sessions.{drop_session, cleanup_client_session}
use masque_vpn.Server.Requests.{
  Ending, proxy_finished, proxy_failed, timed_out, count_ending, finish_connection,
}
use masque_vpn.Server.Proxy.{Round, ProxyError, Proxied, proxy_client_to_tun, proxy_tun_to_client}
use masque_vpn.Server.Parse.{parse_source_ip, parse_destination_ip}
use masque_vpn.Server.Filtering.{total_length, proxies_no_spoofing}
use masque_vpn.Server.Ownership.{HoldersAgree}
use masque_vpn.Server.Cleanup.{cleanup-HoldersAgree}

-- What the `select` takes: the message of one proxy, or the end of the 24 hours.
pub data First : Type 0 where
  tun_to_client client_to_tun expired : First

abbrev pub ending_of : Option ProxyError → Ending
ending_of none = proxy_finished
ending_of (some e) = proxy_failed

abbrev pub first_ending : First → Option ProxyError → Option ProxyError → Ending
first_ending tun_to_client from_tun from_client = ending_of from_tun
first_ending client_to_tun from_tun from_client = ending_of from_client
first_ending expired from_tun from_client = timed_out

-- What `proxyTunToClient` has counted, and what `proxyClientToTun` has.
abbrev pub count_forwarded_to_client : Proxied → Server → Server
count_forwarded_to_client p s = record s {
  metrics = record s.metrics {
    packets_forwarded = s.metrics.packets_forwarded + p.packets;
    bytes_forwarded = s.metrics.bytes_forwarded + p.bytes;
  };
}

abbrev pub count_written_to_tun : Proxied → Server → Server
count_written_to_tun p s = record s {
  metrics = record s.metrics {
    tun_packets_written = s.metrics.tun_packets_written + p.packets;
    bytes_forwarded = s.metrics.bytes_forwarded + p.bytes;
  };
}

unfoldable pub handle_client_connection :
    Bool → Server → String → Addr → List Round → List Round → First → ℕ → Server
handle_client_connection has_tun s client_id ip tun_reads client_reads first duration =
    let (from_tun, tun_error) = proxy_tun_to_client has_tun ip tun_reads in
    let (from_client, client_error) = proxy_client_to_tun has_tun ip client_reads in
    finish_connection (count_written_to_tun from_client (count_forwarded_to_client from_tun s))
      client_id ip (first_ending first tun_error client_error) duration

drop_session-metrics : (s : Server) (ip : Addr) → (drop_session s ip).metrics ≡ s.metrics
unfolding drop_session
drop_session-metrics s ip = elim (Option-cases (lookup ip s.ip_conn_map)) [
  | inl e ↦ rw (e, drop_session) refl
  | inr (i, e) ↦ rw (e, drop_session) refl
]

-- The counters that the end of a connection leaves, and the gauge.
record IsCounted (m n : Metrics) : Type 0 where
  packets : n.packets_forwarded ≡ m.packets_forwarded
  written : n.tun_packets_written ≡ m.tun_packets_written
  bytes : n.bytes_forwarded ≡ m.bytes_forwarded
  active : n.active_connections ≡ dec m.active_connections

-- What the handler does after its proxies, without the count of the ending.
abbrev end_of : Server → String → Addr → ℕ → Server
end_of s c ip duration =
    let cleaned =
      cleanup_client_session (record s { metrics = record_connection_duration duration s.metrics })
        c ip in
    record cleaned { metrics = record_disconnection cleaned.metrics }

end_of-IsCounted :
    (s : Server) (c : String) (ip : Addr) (duration : ℕ)
    → IsCounted s.metrics (end_of s c ip duration).metrics
unfolding cleanup_client_session record_connection_duration record_disconnection
end_of-IsCounted s c ip duration =
    let same =
      drop_session-metrics
        (record s {
          client_ip_map = delete c s.client_ip_map;
          metrics = record_connection_duration duration s.metrics;
        })
        ip in
    record {
      packets = ap (λ m. m.packets_forwarded) same;
      written = ap (λ m. m.tun_packets_written) same;
      bytes = ap (λ m. m.bytes_forwarded) same;
      active = ap (λ m. dec m.active_connections) same;
    }

finish_connection-IsCounted :
    (e : Ending) (s : Server) (c : String) (ip : Addr) (duration : ℕ)
    → IsCounted s.metrics (finish_connection s c ip e duration).metrics
unfolding finish_connection record_error
finish_connection-IsCounted proxy_finished s c ip duration = end_of-IsCounted s c ip duration
finish_connection-IsCounted proxy_failed s c ip duration =
    let counted = end_of-IsCounted (count_ending proxy_failed s) c ip duration in
    record {
      packets = counted.packets;
      written = counted.written;
      bytes = counted.bytes;
      active = counted.active;
    }
finish_connection-IsCounted timed_out s c ip duration =
    let counted = end_of-IsCounted (count_ending timed_out s) c ip duration in
    record {
      packets = counted.packets;
      written = counted.written;
      bytes = counted.bytes;
      active = counted.active;
    }

finish_connection-HoldersAgree :
    (e : Ending) (s : Server) (c : String) (ip : Addr) (duration : ℕ)
    → HoldersAgree s
    → (lookup c s.client_ip_map ≡ some ip)
      ⊎ ((lookup c s.client_ip_map ≡ none) × (lookup ip s.ip_pool.allocated ≡ none))
    → HoldersAgree (finish_connection s c ip e duration)
      × (lookup ip (finish_connection s c ip e duration).ip_conn_map ≡ none)
unfolding finish_connection
finish_connection-HoldersAgree proxy_finished s c ip duration h owner =
    cleanup-HoldersAgree (record s { metrics = record_connection_duration duration s.metrics }) c ip
      h owner
finish_connection-HoldersAgree proxy_failed s c ip duration h owner =
    let t = count_ending proxy_failed s in
    cleanup-HoldersAgree (record t { metrics = record_connection_duration duration t.metrics }) c ip
      h owner
finish_connection-HoldersAgree timed_out s c ip duration h owner =
    let t = count_ending timed_out s in
    cleanup-HoldersAgree (record t { metrics = record_connection_duration duration t.metrics }) c ip
      h owner

-- A whole connection whose client still has the address at its end, or after which nobody has it,
-- whatever its proxies read and write and whichever ends first: the leases stay in step with the
-- client map, no session is left under the address, one connection fewer is active, and the packets
-- of each direction and the bytes of both that are counted are those that were passed on, of which
-- those to the device have the client's address as their source and those to the client are for it.
pub handle_client_connection_lem :
    (has_tun : Bool) (s : Server) (c : String) (ip : Addr) (tun_reads client_reads : List Round)
    (first : First) (duration : ℕ)
    → HoldersAgree s
    → (lookup c s.client_ip_map ≡ some ip)
      ⊎ ((lookup c s.client_ip_map ≡ none) × (lookup ip s.ip_pool.allocated ≡ none))
    → let t = handle_client_connection has_tun s c ip tun_reads client_reads first duration in
      let to_client = (proxy_tun_to_client has_tun ip tun_reads).0.passed in
      let to_tun = (proxy_client_to_tun has_tun ip client_reads).0.passed in
      HoldersAgree t
      × (lookup ip t.ip_conn_map ≡ none)
      × (t.metrics.active_connections ≡ dec s.metrics.active_connections)
      × (t.metrics.packets_forwarded ≡ s.metrics.packets_forwarded + length to_client)
      × (t.metrics.tun_packets_written ≡ s.metrics.tun_packets_written + length to_tun)
      × (t.metrics.bytes_forwarded
          ≡ s.metrics.bytes_forwarded + total_length to_client + total_length to_tun)
      × All (λ p. parse_source_ip p ≡ ok ip) to_tun
      × All (λ p. parse_destination_ip p ≡ ok ip) to_client
unfolding handle_client_connection
handle_client_connection_lem has_tun s c ip tun_reads client_reads first duration h owner =
    let (from_tun, tun_error) = proxy_tun_to_client has_tun ip tun_reads in
    let (from_client, client_error) = proxy_client_to_tun has_tun ip client_reads in
    let ending = first_ending first tun_error client_error in
    let t = count_written_to_tun from_client (count_forwarded_to_client from_tun s) in
    let (agree, gone) = finish_connection-HoldersAgree ending t c ip duration h owner in
    let counted = finish_connection-IsCounted ending t c ip duration in
    let ((sources, client_packets, client_bytes), (destinations, tun_packets, tun_bytes)) =
      proxies_no_spoofing has_tun ip client_reads tun_reads in
    (
      agree,
      gone,
      counted.active,
      omega (arith, counted.packets, tun_packets),
      omega (arith, counted.written, client_packets),
      omega (arith, counted.bytes, client_bytes, tun_bytes),
      sources,
      destinations,
    )
