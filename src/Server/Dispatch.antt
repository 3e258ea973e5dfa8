-- ===== src/Server/Dispatch.antt =====
-- vpn_server/internal/server/packet_processor.go: that `processPackets` does what Server/Shares
-- describes.
use masque_vpn.Prelude.{
  ℕ, ◌+◌, ◌≡◌, refl, sym, ap, ap₂, subst, ◌∙◌, inl, inr, Bool, Option, none, some, Result, ok, err,
  List, [], ◌∷◌, arith, length, get_elem?, set, ◌==◌, Bool-cases, Option-cases, if◌then◌else◌,
}
use masque_vpn.Ip.Addr.{Addr, addr_eq}
use masque_vpn.Server.State.{ClientSession, Server}
use masque_vpn.Server.Sessions.{find_client_session}
use masque_vpn.Server.Parse.{ParseError, parse_destination_ip}
use masque_vpn.Server.Forward.{ForwardError, forward_packet_to_client}
use masque_vpn.Server.Proxy.{IoError, is_network_closed}
use masque_vpn.Server.Processor.{
  DeviceRead, after_forward, forward_to, to_destination, process_packet, process_read,
  process_packets,
}
use masque_vpn.Server.Processing.{forward_to-Processed}
use masque_vpn.Server.Shares.{
  closes, until_closed, Conns, session_at, session_of, bytes_in, Totals, put, totals, with_totals,
  bump, totals-none, totals-out, totals-at,
}

totals-done : (m : Conns) (k : ℕ) (cs : List ClientSession) → totals m [] k cs ≡ (cs, 0, 0)
totals-done m k [] = refl
totals-done m k (c ∷ cs) = ap (put (c, [])) (totals-done m (k + 1) cs)

with_totals-none : (s : Server) → with_totals s (s.sessions, 0, 0) ≡ s
with_totals-none s =
    ap₂
      (λ n b. record s {
        metrics = record s.metrics { packets_forwarded = n; bytes_forwarded = b };
      })
      {x = s.metrics.packets_forwarded + 0} (omega arith) (omega arith)

with_totals-bump :
    (s : Server) (i : ℕ) (packet : List ℕ) (f : ClientSession × Option ForwardError) (t : Totals)
    → with_totals s (bump f.1 packet t) ≡ with_totals (after_forward s i (length packet) f) t
with_totals-bump s i packet (c, none) (cs, n, b) =
    ap₂
      (λ x y. record s {
        sessions = cs;
        metrics = record s.metrics { packets_forwarded = x; bytes_forwarded = y };
      })
      {x = s.metrics.packets_forwarded + (1 + n)} (omega arith) (omega arith)
with_totals-bump s i packet (c, some e) t = refl

sessions-after_forward :
    (s : Server) (i n : ℕ) (f : ClientSession × Option ForwardError)
    → (after_forward s i n f).sessions ≡ set s.sessions i f.0
sessions-after_forward s i n (c, none) = refl
sessions-after_forward s i n (c, some e) = refl

module _ (m : Conns) (r : DeviceRead) (reads : List DeviceRead) (s : Server) where
  one_read :
      (o : Option ℕ)
      → session_of m r.packet ≡ o
      → let t = forward_to s r.accepts (bytes_in r.packet) o in
        with_totals s (totals m (r ∷ reads) 0 s.sessions)
        ≡ with_totals t (totals m reads 0 t.sessions)
  one_read none q = ap (with_totals s) (totals-none m r reads q 0 s.sessions)
  one_read (some j) q = elim (Option-cases (get_elem? s.sessions j)) [
    | inl out ↦
        rw out (ap (with_totals s) (totals-out m r reads j q j 0 s.sessions (omega arith) out))
    | inr (c, has) ↦
        let packet = bytes_in r.packet in
        let f = forward_packet_to_client r.accepts c packet in
        rw has (
          ap (with_totals s) (totals-at m r reads j q j 0 s.sessions c (omega arith) has)
          ∙ with_totals-bump s j packet f (totals m reads 0 (set s.sessions j f.0))
          ∙ ap (λ cs. with_totals (after_forward s j (length packet) f) (totals m reads 0 cs))
              (sym (sessions-after_forward s j (length packet) f)))
  ]

process_packet-session :
    (s : Server) (accepts : ℕ → Bool) (packet : List ℕ)
    → process_packet s accepts packet
      ≡ forward_to s accepts packet (session_of s.ip_conn_map (ok packet))
unfolding find_client_session
process_packet-session s accepts packet = elim (Bool-cases (length packet == 0)) [
  | inl empty ↦ rw empty refl
  | inr full ↦ rw full (to (parse_destination_ip packet))
]
  where
    to :
        (p : Result ParseError Addr)
        → to_destination s accepts packet p
          ≡ forward_to s accepts packet (session_at s.ip_conn_map p)
    to (err e) = refl
    to (ok ip) = refl

abbrev described : Server → List DeviceRead → Server
described s reads = with_totals s (totals s.ip_conn_map reads 0 s.sessions)

no_reads : (s : Server) → described s [] ≡ s
no_reads s = ap (with_totals s) (totals-done s.ip_conn_map 0 s.sessions) ∙ with_totals-none s

-- What a run of the packet processor makes of the server, whatever the device gives and whichever
-- writes fail. A read that finds the device closed ends it. Of the packets before that, each session
-- gets those whose destination the map of sessions has under it, in order, and is as
-- `forwardPacketToClient` leaves it after them; all others are dropped, and so are empty reads and
-- failed ones. The counters grow by the number and the bytes of the packets that were forwarded
-- without an error, over all sessions, and nothing else changes.
pub process_packets_lem :
    (reads : List DeviceRead) (s : Server)
    → process_packets reads s
      ≡ with_totals s (totals s.ip_conn_map (until_closed reads) 0 s.sessions)
unfolding process_packets
process_packets_lem [] s = sym (no_reads s)
process_packets_lem (r ∷ reads) s = go r.packet refl (λ t. process_packets_lem reads t)
  where
    m : Conns
    m = s.ip_conn_map

    left : List DeviceRead
    left = until_closed reads

    Described : Server → Type 0
    Described t = process_packets reads t ≡ with_totals t (totals t.ip_conn_map left 0 t.sessions)

    go :
        (p : Result IoError (List ℕ))
        → r.packet ≡ p
        → ((t : Server) → Described t)
        → process_read s r p (λ t. process_packets reads t)
          ≡ with_totals s (totals m (until_closed (r ∷ reads)) 0 s.sessions)
    go (err e) q rest = elim (Bool-cases (is_network_closed e)) [
      | inl shut ↦ rw shut (
          sym (
            ap (described s) (ap (λ t. if t then [] else r ∷ left) (ap closes q ∙ shut))
            ∙ no_reads s))
      | inr other ↦ rw other (
          rest s
          ∙ sym (
              ap (described s) (ap (λ t. if t then [] else r ∷ left) (ap closes q ∙ other))
              ∙ ap (with_totals s) (totals-none m r left (ap (session_of m) q) 0 s.sessions)))
    ]
    go (ok packet) q rest =
        let o = session_of m (ok packet) in
        let t = forward_to s r.accepts packet o in
        let same_conns : t.ip_conn_map ≡ m = (forward_to-Processed s r.accepts packet o).conns in
        ap (process_packets reads) (process_packet-session s r.accepts packet)
        ∙ rest t
        ∙ ap (λ c. with_totals t (totals c left 0 t.sessions)) same_conns
        ∙ sym (
            ap (described s) (ap (λ u. if u then [] else r ∷ left) (ap closes q))
            ∙ subst
                (λ bytes.
                  let u = forward_to s r.accepts bytes o in
                  described s (r ∷ left) ≡ with_totals u (totals m left 0 u.sessions))
                (ap bytes_in q) (one_read m r left s o (ap (session_of m) q)))
