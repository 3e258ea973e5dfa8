-- ===== src/Server/Processing.antt =====
-- vpn_server/internal/server/packet_processor.go: what `processPackets` leaves as it is.
use masque_vpn.Prelude.{
  ℕ, suc, ◌+◌, ◌≤◌, ◌≡◌, refl, subst, ◌∙◌, inl, inr, Bool, Option, none, some, Result, ok, err,
  List, [], ◌∷◌, arith, length, get_elem?, ◌==◌, Bool-cases,
}
use masque_vpn.Ip.Addr.{Addr}
use masque_vpn.Server.State.{ClientSession, Server}
use masque_vpn.Server.Sessions.{find_client_session}
use masque_vpn.Server.Parse.{ParseError, parse_destination_ip}
use masque_vpn.Server.Forward.{ForwardError, forward_packet_to_client}
use masque_vpn.Server.Proxy.{IoError, is_network_closed}
use masque_vpn.Server.Processor.{
  DeviceRead, after_forward, forward_at, forward_to, to_destination, process_packet, process_read,
  process_packets,
}

-- From `s` to `t` only sessions and metrics change, and at most `n` packets are counted.
pub record Processed (n : ℕ) (s t : Server) : Type 0 where
  pub pool : t.ip_pool ≡ s.ip_pool
  pub clients : t.client_ip_map ≡ s.client_ip_map
  pub conns : t.ip_conn_map ≡ s.ip_conn_map
  some_counted : s.metrics.packets_forwarded ≤ t.metrics.packets_forwarded
  few_counted : t.metrics.packets_forwarded ≤ s.metrics.packets_forwarded + n

Processed-none : (n : ℕ) (s : Server) → Processed n s s
Processed-none n s = record {
  pool = refl;
  clients = refl;
  conns = refl;
  some_counted = omega arith;
  few_counted = omega arith;
}

Processed-trans :
    (n k : ℕ) (s t u : Server) → Processed n s t → Processed k t u → Processed (n + k) s u
Processed-trans n k s t u a b = record {
  pool = b.pool ∙ a.pool;
  clients = b.clients ∙ a.clients;
  conns = b.conns ∙ a.conns;
  some_counted = omega (arith, a.some_counted, b.some_counted);
  few_counted = omega (arith, a.few_counted, b.few_counted);
}

after_forward-Processed :
    (s : Server) (i n : ℕ) (r : ClientSession × Option ForwardError)
    → Processed 1 s (after_forward s i n r)
after_forward-Processed s i n (session, some e) = record {
  pool = refl;
  clients = refl;
  conns = refl;
  some_counted = omega arith;
  few_counted = omega arith;
}
after_forward-Processed s i n (session, none) = record {
  pool = refl;
  clients = refl;
  conns = refl;
  some_counted = omega arith;
  few_counted = omega arith;
}

forward_at-Processed :
    (s : Server) (accepts : ℕ → Bool) (packet : List ℕ) (i : ℕ) (o : Option ClientSession)
    → Processed 1 s (forward_at s accepts packet i o)
forward_at-Processed s accepts packet i none = Processed-none 1 s
forward_at-Processed s accepts packet i (some session) =
    after_forward-Processed s i (length packet) (forward_packet_to_client accepts session packet)

pub forward_to-Processed :
    (s : Server) (accepts : ℕ → Bool) (packet : List ℕ) (o : Option ℕ)
    → Processed 1 s (forward_to s accepts packet o)
forward_to-Processed s accepts packet none = Processed-none 1 s
forward_to-Processed s accepts packet (some i) =
    forward_at-Processed s accepts packet i (get_elem? s.sessions i)

to_destination-Processed :
    (s : Server) (accepts : ℕ → Bool) (packet : List ℕ) (r : Result ParseError Addr)
    → Processed 1 s (to_destination s accepts packet r)
to_destination-Processed s accepts packet (err e) = Processed-none 1 s
to_destination-Processed s accepts packet (ok ip) =
    forward_to-Processed s accepts packet (find_client_session s ip)

process_packet-Processed :
    (s : Server) (accepts : ℕ → Bool) (packet : List ℕ)
    → Processed 1 s (process_packet s accepts packet)
process_packet-Processed s accepts packet = elim (Bool-cases (length packet == 0)) [
  | inl empty ↦ rw empty (Processed-none 1 s)
  | inr full ↦ rw full (to_destination-Processed s accepts packet (parse_destination_ip packet))
]

pub process_packets-Processed :
    (reads : List DeviceRead) (s : Server) → Processed (length reads) s (process_packets reads s)
unfolding process_packets
process_packets-Processed [] s = Processed-none 0 s
process_packets-Processed (r ∷ reads) s = go r.packet (λ t. process_packets-Processed reads t)
  where
    go :
        (p : Result IoError (List ℕ))
        → ((t : Server) → Processed (length reads) t (process_packets reads t))
        → Processed (suc (length reads)) s (process_read s r p (λ t. process_packets reads t))
    go (ok packet) rest =
        let t = process_packet s r.accepts packet in
        subst (λ n. Processed n s (process_packets reads t)) {x = 1 + length reads}
          {y = suc (length reads)} (omega arith)
          (Processed-trans 1 (length reads) s t (process_packets reads t)
            (process_packet-Processed s r.accepts packet) (rest t))
    go (err e) rest = elim (Bool-cases (is_network_closed e)) [
      | inl shut ↦ rw shut (Processed-none (suc (length reads)) s)
      | inr other ↦ rw other (
          subst (λ n. Processed n s (process_packets reads s)) {x = 1 + length reads}
            {y = suc (length reads)} (omega arith)
            (Processed-trans 1 (length reads) s s (process_packets reads s) (Processed-none 1 s)
              (rest s)))
    ]
