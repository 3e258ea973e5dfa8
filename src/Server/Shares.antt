-- ===== src/Server/Shares.antt =====
-- vpn_server/internal/server/packet_processor.go: what `processPackets` has to do, one session at a
-- time: the packets for it, in order, and what becomes of each.
use masque_vpn.Prelude.{
  ℕ, zero, suc, ◌+◌, ◌<◌, ◌≡◌, refl, ap₂, subst, ◌∙◌, Bool, true, false, Option, none, some, Result,
  ok, err, List, [], ◌∷◌, arith, length, get_elem?, set, ◌==◌, if◌then◌else◌,
}
use masque_vpn.Prelude.Assoc.{lookup}
use masque_vpn.Ip.Addr.{Addr, addr_eq}
use masque_vpn.Server.State.{ClientSession, Server}
use masque_vpn.Server.Parse.{ParseError, parse_destination_ip}
use masque_vpn.Server.Forward.{ForwardError, forward_packet_to_client}
use masque_vpn.Server.Proxy.{IoError, is_network_closed}
use masque_vpn.Server.Processor.{DeviceRead}

abbrev pub closes : Result IoError (List ℕ) → Bool
closes (ok packet) = false
closes (err e) = is_network_closed e

-- The reads before the device is found closed.
abbrev pub until_closed : List DeviceRead → List DeviceRead
until_closed [] = []
until_closed (r ∷ reads) = let rest = until_closed reads in if closes r.packet then [] else r ∷ rest

abbrev pub Conns : Type 0
Conns = List (Addr × ℕ)

abbrev pub session_at : Conns → Result ParseError Addr → Option ℕ
session_at m (err e) = none
session_at m (ok ip) = lookup ip m

-- The session that a read is for: the one of the destination of its packet.
abbrev pub session_of : Conns → Result IoError (List ℕ) → Option ℕ
session_of m (err e) = none
session_of m (ok packet) =
    if length packet == 0 then none else session_at m (parse_destination_ip packet)

abbrev pub bytes_in : Result IoError (List ℕ) → List ℕ
bytes_in (err e) = []
bytes_in (ok packet) = packet

-- A packet, and which of the writes that it leads to are taken in time.
abbrev pub Sending : Type 0
Sending = List ℕ × (ℕ → Bool)

abbrev add_for : Option ℕ → ℕ → Sending → List Sending → List Sending
add_for none i sending rest = rest
add_for (some j) i sending rest = if j == i then sending ∷ rest else rest

abbrev pub packets_for : Conns → ℕ → List DeviceRead → List Sending
packets_for m i [] = []
packets_for m i (r ∷ reads) =
    add_for (session_of m r.packet) i (bytes_in r.packet, r.accepts) (packets_for m i reads)

abbrev counted : Option ForwardError → List ℕ → List ℕ → List ℕ
counted none packet lengths = length packet ∷ lengths
counted (some e) packet lengths = lengths

-- A session after its packets, and the lengths of those that were forwarded without an error.
abbrev pub forwards_all : ClientSession → List Sending → ClientSession × List ℕ
forwards_all c [] = (c, [])
forwards_all c ((packet, accepts) ∷ sendings) =
    let r = forward_packet_to_client accepts c packet in
    let rest = forwards_all r.0 sendings in (rest.0, counted r.1 packet rest.1)

abbrev sum : List ℕ → ℕ
sum [] = 0
sum (n ∷ ns) = n + sum ns

abbrev pub Totals : Type 0
Totals = List ClientSession × ℕ × ℕ

abbrev pub put : ClientSession × List ℕ → Totals → Totals
put (c, lengths) (cs, n, b) = (c ∷ cs, length lengths + n, sum lengths + b)

-- The sessions, from the k-th on, each after the packets for it; how many packets were forwarded to
-- them, and how many bytes.
abbrev pub totals : Conns → List DeviceRead → ℕ → List ClientSession → Totals
totals m reads k [] = ([], 0, 0)
totals m reads k (c ∷ cs) = put (forwards_all c (packets_for m k reads)) (totals m reads (k + 1) cs)

abbrev pub with_totals : Server → Totals → Server
with_totals s (cs, n, b) = record s {
  sessions = cs;
  metrics = record s.metrics {
    packets_forwarded = s.metrics.packets_forwarded + n;
    bytes_forwarded = s.metrics.bytes_forwarded + b;
  };
}

abbrev pub bump : Option ForwardError → List ℕ → Totals → Totals
bump none packet (cs, n, b) = (cs, 1 + n, length packet + b)
bump (some e) packet t = t

put-counted :
    (r : Option ForwardError) (packet : List ℕ) (c : ClientSession) (lengths : List ℕ) (t : Totals)
    → put (c, counted r packet lengths) t ≡ bump r packet (put (c, lengths) t)
put-counted none packet c lengths (cs, n, b) =
    ap₂ (λ x y. (c ∷ cs, x, y)) (omega arith) (omega arith)
put-counted (some e) packet c lengths t = refl

put-bump :
    (r : Option ForwardError) (packet : List ℕ) (h : ClientSession × List ℕ) (t : Totals)
    → put h (bump r packet t) ≡ bump r packet (put h t)
put-bump none packet (c, lengths) (cs, n, b) =
    ap₂ (λ x y. (c ∷ cs, x, y)) (omega arith) (omega arith)
put-bump (some e) packet h t = refl

module _ (m : Conns) (r : DeviceRead) (reads : List DeviceRead) where
  pub totals-none :
      session_of m r.packet ≡ none
      → (k : ℕ) (cs : List ClientSession) → totals m (r ∷ reads) k cs ≡ totals m reads k cs
  totals-none q k [] = refl
  totals-none q k (c ∷ cs) =
      ap₂
        (λ o t.
          put (forwards_all c (add_for o k (bytes_in r.packet, r.accepts) (packets_for m k reads)))
            t)
        q (totals-none q (k + 1) cs)

  module _ (j : ℕ) (q : session_of m r.packet ≡ some j) where
    packets_for-other :
        (k : ℕ) → (j == k) ≡ false → packets_for m k (r ∷ reads) ≡ packets_for m k reads
    packets_for-other k apart = rw (q, apart) refl

    packets_for-own :
        (k : ℕ)
        → (j == k) ≡ true
        → packets_for m k (r ∷ reads) ≡ (bytes_in r.packet, r.accepts) ∷ packets_for m k reads
    packets_for-own k same = rw (q, same) refl

    totals-later :
        (k : ℕ) (cs : List ClientSession) → j < k → totals m (r ∷ reads) k cs ≡ totals m reads k cs
    totals-later k [] less = refl
    totals-later k (c ∷ cs) less =
        ap₂ (λ ps t. put (forwards_all c ps) t) (packets_for-other k (ground arith))
          (totals-later (k + 1) cs (omega arith))

    pub totals-out :
        (i k : ℕ) (cs : List ClientSession)
        → j ≡ k + i
        → get_elem? cs i ≡ none
        → totals m (r ∷ reads) k cs ≡ totals m reads k cs
    totals-out i k [] at out = refl
    totals-out zero k (c ∷ cs) at out = absurd (cc)
    totals-out (suc i) k (c ∷ cs) at out =
        ap₂ (λ ps t. put (forwards_all c ps) t) (packets_for-other k (ground arith))
          (totals-out i (k + 1) cs (omega arith) out)

    pub totals-at :
        (i k : ℕ) (cs : List ClientSession) (c : ClientSession)
        → j ≡ k + i
        → get_elem? cs i ≡ some c
        → let f = forward_packet_to_client r.accepts c (bytes_in r.packet) in
          totals m (r ∷ reads) k cs ≡ bump f.1 (bytes_in r.packet) (totals m reads k (set cs i f.0))
    totals-at i k [] c at has = absurd (cc)
    totals-at zero k (d ∷ cs) c at has =
        let same : some d ≡ some c = has in
        subst
          (λ o.
            let f = forward_packet_to_client r.accepts o (bytes_in r.packet) in
            totals m (r ∷ reads) k (d ∷ cs)
            ≡ bump f.1 (bytes_in r.packet) (totals m reads k (f.0 ∷ cs)))
          {x = d} {y = c} (cc)
          (ap₂ (λ ps t. put (forwards_all d ps) t) (packets_for-own k (ground arith))
              (totals-later (k + 1) cs (omega arith))
            ∙ put-counted (forward_packet_to_client r.accepts d (bytes_in r.packet)).1
                (bytes_in r.packet) _ _ (totals m reads (k + 1) cs))
    totals-at (suc i) k (d ∷ cs) c at has =
        ap₂ (λ ps t. put (forwards_all d ps) t) (packets_for-other k (ground arith))
          (totals-at i (k + 1) cs c (omega arith) has)
        ∙ put-bump (forward_packet_to_client r.accepts c (bytes_in r.packet)).1 (bytes_in r.packet)
            _ _
