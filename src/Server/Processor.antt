-- ===== src/Server/Processor.antt =====
-- vpn_server/internal/server/packet_processor.go: `processPackets`, over a list of what the TUN
-- device gives. A list that ends is a run that is looked at in between.
use masque_vpn.Prelude.{
  ℕ, ◌+◌, Bool, Option, none, some, Result, ok, err, List, [], ◌∷◌, length, get_elem?, set, ◌==◌,
  if◌then◌else◌,
}
use masque_vpn.Ip.Addr.{Addr}
use masque_vpn.Server.Metrics.{Metrics}
use masque_vpn.Server.State.{ClientSession, Server}
use masque_vpn.Server.Sessions.{find_client_session}
use masque_vpn.Server.Parse.{ParseError, parse_destination_ip}
use masque_vpn.Server.Forward.{ForwardError, forward_packet_to_client}
use masque_vpn.Server.Proxy.{IoError, is_network_closed}

-- One read of the device, and which of the writes that it leads to are taken in time.
pub record DeviceRead : Type 0 where
  pub packet : Result IoError (List ℕ)
  pub accepts : ℕ → Bool

abbrev pub count_forwarded : ℕ → Metrics → Metrics
count_forwarded n m = record m {
  packets_forwarded = m.packets_forwarded + 1;
  bytes_forwarded = m.bytes_forwarded + n;
}

-- The session is behind a pointer; the packet is counted only if it was forwarded without an error.
abbrev pub after_forward : Server → ℕ → ℕ → ClientSession × Option ForwardError → Server
after_forward s i n (session, some e) = record s { sessions = set s.sessions i session }
after_forward s i n (session, none) = record s {
  sessions = set s.sessions i session;
  metrics = count_forwarded n s.metrics;
}

abbrev pub forward_at : Server → (ℕ → Bool) → List ℕ → ℕ → Option ClientSession → Server
forward_at s accepts packet i none = s
forward_at s accepts packet i (some session) =
    after_forward s i (length packet) (forward_packet_to_client accepts session packet)

abbrev pub forward_to : Server → (ℕ → Bool) → List ℕ → Option ℕ → Server
forward_to s accepts packet none = s
forward_to s accepts packet (some i) = forward_at s accepts packet i (get_elem? s.sessions i)

abbrev pub to_destination : Server → (ℕ → Bool) → List ℕ → Result ParseError Addr → Server
to_destination s accepts packet (err e) = s
to_destination s accepts packet (ok ip) = forward_to s accepts packet (find_client_session s ip)

abbrev pub process_packet : Server → (ℕ → Bool) → List ℕ → Server
process_packet s accepts packet =
    if length packet == 0 then s else to_destination s accepts packet (parse_destination_ip packet)

-- A closed device ends the loop; any other error is only logged.
abbrev pub process_read : Server → DeviceRead → Result IoError (List ℕ) → (Server → Server) → Server
process_read s r (ok packet) rest = rest (process_packet s r.accepts packet)
process_read s r (err e) rest = if is_network_closed e then s else rest s

unfoldable pub process_packets : List DeviceRead → Server → Server
process_packets [] s = s
process_packets (r ∷ reads) s = process_read s r r.packet (λ t. process_packets reads t)
