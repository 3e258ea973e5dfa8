-- ===== src/Tunnel/Loopback.antt =====
-- common/masque_connectip.go: the server's end of a connection, `NewMASQUEConnForServer`. It has no
-- stream: two channels of 100 packets, and a goroutine that moves packets from the one that is
-- written to the one that is read. Each operation is one step; a step that has to wait is one whose
-- deadline passes.
use masque_vpn.Prelude.{
  ℕ, Bool, true, false, Option, none, some, Result, ok, err, List, [], ◌∷◌, ◌++◌, length, take, ltb,
  if◌then◌else◌,
}

abbrev pub Packet : Type 0
Packet = List ℕ

pub record Loopback : Type 0 where
  pub closed : Bool
  pub read_chan : List Packet
  pub write_chan : List Packet

pub data ChannelError : Type 0 where
  eof read_timeout connection_is_closed write_timeout : ChannelError

abbrev pub new_loopback : Loopback
new_loopback = record { closed = false; read_chan = []; write_chan = [] }

unfoldable pub send : Loopback → Packet → Loopback × Option ChannelError
send m packet =
    if m.closed
    then (m, some connection_is_closed)
    else if ltb (length m.write_chan) 100
    then (record m { write_chan = m.write_chan ++ packet ∷ [] }, none)
    else (m, some write_timeout)

abbrev pub receive_from : Loopback → ℕ → List Packet → Loopback × Result ChannelError Packet
receive_from m size [] = (m, err read_timeout)
receive_from m size (packet ∷ rest) = (record m { read_chan = rest }, ok (take size packet))

-- `size` is the size of the reader's buffer.
unfoldable pub receive : Loopback → ℕ → Loopback × Result ChannelError Packet
receive m size = if m.closed then (m, err eof) else receive_from m size m.read_chan

-- What the goroutine does next.
pub data Pumped : Type 0 where
  moved dropped : Loopback → Pumped
  waits ends_ panics : Pumped

abbrev pub pump_from : Loopback → List Packet → Pumped
pump_from m [] = if m.closed then ends_ else waits
pump_from m (packet ∷ rest) =
    if m.closed
    then panics
    else if ltb (length m.read_chan) 100
    then moved (record m { read_chan = m.read_chan ++ packet ∷ []; write_chan = rest })
    else dropped (record m { write_chan = rest })

unfoldable pub pump : Loopback → Pumped
pump m = pump_from m m.write_chan

-- A closed channel keeps the packets that it holds, and a send to it panics.
unfoldable pub close : Loopback → Loopback
close m = if m.closed then m else record m { closed = true }

-- A server's connection and what passed through it: every packet accepted, and every packet that a
-- reader got.
pub record Trace : Type 0 where
  pub conn : Loopback
  pub sent : List Packet
  pub received : List Packet

pub data Turn : Type 0 where
  sends : Packet → Turn
  receives pumps : Turn

abbrev pub after_send : Trace → Packet → Loopback × Option ChannelError → Trace
after_send t packet (m, none) = record t { conn = m; sent = t.sent ++ packet ∷ [] }
after_send t packet (m, some e) = record t { conn = m }

abbrev pub after_receive : Trace → Loopback × Result ChannelError Packet → Trace
after_receive t (m, ok packet) = record t { conn = m; received = t.received ++ packet ∷ [] }
after_receive t (m, err e) = record t { conn = m }

abbrev pub after_pump : Trace → Pumped → Trace
after_pump t (moved m) = record t { conn = m }
after_pump t (dropped m) = record t { conn = m }
after_pump t waits = t
after_pump t ends_ = t
after_pump t panics = t

-- The turns of a connection that nobody closes; readers have buffers of one size.
unfoldable pub turn : ℕ → Trace → Turn → Trace
turn size t (sends packet) = after_send t packet (send t.conn packet)
turn size t receives = after_receive t (receive t.conn size)
turn size t pumps = after_pump t (pump t.conn)

abbrev pub turns : ℕ → Trace → List Turn → Trace
turns size t [] = t
turns size t (u ∷ us) = turns size (turn size t u) us

abbrev pub new_trace : Trace
new_trace = record { conn = new_loopback; sent = []; received = [] }

-- Packets as a reader gets them, in a buffer that may be too short.
abbrev pub cut : ℕ → List Packet → List Packet
cut size [] = []
cut size (packet ∷ packets) = take size packet ∷ cut size packets
