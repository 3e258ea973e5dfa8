-- ===== src/Tunnel/Flow.antt =====
-- common/masque_connectip.go: the packets on their way through a server's connection.
use mathlib.Core.List.{Sublistᴰ}
use masque_vpn.Prelude.{
  ℕ, ◌+◌, ◌≤◌, ◌≡◌, refl, ap, ◌∙◌, Option, none, some, List, [], ◌∷◌, ◌++◌, length,
}
use masque_vpn.Tunnel.Loopback.{Packet, cut}
use masque_vpn.Tunnel.Order.{cut-append}
use masque_vpn.Tunnel.Calls.{Line}

-- The packets that have bytes: a read that got none cannot be told from one of a closed channel.
abbrev pub nonempty : List Packet → List Packet
nonempty [] = []
nonempty ([] ∷ ps) = nonempty ps
nonempty ((b ∷ bs) ∷ ps) = (b ∷ bs) ∷ nonempty ps

pub nonempty-append : (ps qs : List Packet) → nonempty (ps ++ qs) ≡ nonempty ps ++ nonempty qs
nonempty-append [] qs = refl
nonempty-append ([] ∷ ps) qs = nonempty-append ps qs
nonempty-append ((b ∷ bs) ∷ ps) qs = ap (◌∷◌ (b ∷ bs)) (nonempty-append ps qs)

abbrev pub holding : Option Packet → List Packet
holding none = []
holding (some packet) = packet ∷ []

-- What the channels and the goroutine still have, in the order in which it will be read.
abbrev pub in_flight : Line → List Packet
in_flight l = l.read_chan ++ (holding l.held ++ l.write_chan)

abbrev pub as_read : ℕ → List Packet → List Packet
as_read size ps = nonempty (cut size ps)

-- What readers got, then what they will get.
abbrev pub flow : ℕ → Line → List Packet
flow size l = nonempty l.received ++ as_read size (in_flight l)

pub as_read-append :
    (size : ℕ) (xs ys : List Packet) → as_read size (xs ++ ys) ≡ as_read size xs ++ as_read size ys
as_read-append size xs ys =
    ap nonempty (cut-append size xs ys) ∙ nonempty-append (cut size xs) (cut size ys)

-- What a move does to the packets on their way.
pub data Effect (size : ℕ) (l k : Line) : Type 0 where
  same :
      flow size k ≡ flow size l
      → k.accepted ≡ l.accepted
      → length (in_flight k) ≤ length (in_flight l)
      → Effect size l k
  adds :
      (packet : Packet)
      → flow size k ≡ flow size l ++ as_read size (packet ∷ [])
      → k.accepted ≡ l.accepted ++ packet ∷ []
      → length (in_flight k) ≡ length (in_flight l) + 1
      → Effect size l k
  drops :
      Sublistᴰ (flow size k) (flow size l)
      → k.accepted ≡ l.accepted
      → length (in_flight k) ≤ length (in_flight l)
      → 101 ≤ length (in_flight l)
      → Effect size l k
