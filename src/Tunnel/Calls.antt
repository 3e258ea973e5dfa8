-- ===== src/Tunnel/Calls.antt =====
-- common/masque_connectip.go: the calls on the server's end of a connection, cut where others can
-- come between: `ReadPacket` and `WritePacket` look at `closed` under the lock and wait at their
-- channel without it, the goroutine takes a packet and then puts it, and `Close` may come anywhere.
use masque_vpn.Prelude.{
  not, ℕ, zero, suc, Bool, true, false, Option, none, some, List, [], ◌∷◌, ◌++◌, length, take, ltb,
  if◌then◌else◌,
}
use masque_vpn.Tunnel.Loopback.{
  Packet, ChannelError, eof, read_timeout, connection_is_closed, write_timeout,
}

-- `writers` are the packets of the calls that wait to send, `readers` counts those that wait to
-- receive, and `held` is what the goroutine has taken. The last four say what happened: the packets
-- that entered the channel, those that reads returned, the errors of calls, and a panic.
pub record Line : Type 0 where
  pub closed : Bool
  pub read_chan : List Packet
  pub write_chan : List Packet
  pub writers : List Packet
  pub readers : ℕ
  pub pumping : Bool
  pub held : Option Packet
  pub accepted : List Packet
  pub received : List Packet
  pub failures : List ChannelError
  pub panicked : Bool

abbrev pub new_line : Line
new_line = record {
  closed = false;
  read_chan = [];
  write_chan = [];
  writers = [];
  readers = 0;
  pumping = true;
  held = none;
  accepted = [];
  received = [];
  failures = [];
  panicked = false;
}

pub data Move : Type 0 where
  calls_write : Packet → Move
  -- The i-th of the waiting writers goes on, or its timer fires first.
  sends write_times_out : ℕ → Move
  calls_read receives read_times_out takes puts closes : Move

-- The i-th of the waiting writers, and the others.
abbrev pub pick : ℕ → List Packet → Option (Packet × List Packet)
pick i [] = none
pick zero (packet ∷ others) = some (packet, others)
pick (suc i) (packet ∷ others) = elim (pick i others) [
  | none ↦ none
  | some (chosen, rest) ↦ some (chosen, packet ∷ rest)
]

abbrev pub fails : Line → ChannelError → Line
fails l e = record l { failures = l.failures ++ e ∷ [] }

abbrev pub crash : Line → Line
crash l = record l { panicked = true }

unfoldable pub call_write : Line → Packet → Line
call_write l packet =
    if l.closed
    then fails l connection_is_closed
    else record l { writers = l.writers ++ packet ∷ [] }

-- A send to a closed channel panics, which ends the call, and one to a full channel waits.
unfoldable pub go_send : Line → Option (Packet × List Packet) → Line
go_send l none = l
go_send l (some (packet, others)) =
    if l.closed
    then crash (record l { writers = others })
    else if ltb (length l.write_chan) 100
    then record l {
      writers = others;
      write_chan = l.write_chan ++ packet ∷ [];
      accepted = l.accepted ++ packet ∷ [];
    }
    else l

unfoldable pub time_out_write : Line → Option (Packet × List Packet) → Line
time_out_write l none = l
time_out_write l (some (packet, others)) = fails (record l { writers = others }) write_timeout

unfoldable pub call_read : Line → Line
call_read l = if l.closed then fails l eof else record l { readers = suc l.readers }

-- A closed channel gives what it still holds and then no bytes, without an error.
abbrev pub from_chan : ℕ → Line → ℕ → List Packet → Line
from_chan size l others [] =
    if l.closed then record l { readers = others; received = l.received ++ [] ∷ [] } else l
from_chan size l others (packet ∷ rest) = record l {
  readers = others;
  read_chan = rest;
  received = l.received ++ take size packet ∷ [];
}

unfoldable pub go_receive : ℕ → Line → ℕ → Line
go_receive size l zero = l
go_receive size l (suc others) = from_chan size l others l.read_chan

unfoldable pub time_out_read : Line → ℕ → Line
time_out_read l zero = l
time_out_read l (suc others) = fails (record l { readers = others }) read_timeout

-- `range` over the written channel: it ends when that is closed and empty.
abbrev pub take_from : Line → Option Packet → List Packet → Line
take_from l (some packet) packets = l
take_from l none [] = if l.closed then record l { pumping = false } else l
take_from l none (packet ∷ rest) =
    if l.pumping then record l { held = some packet; write_chan = rest } else l

-- The select with a default: a packet that does not fit is dropped. A panic ends the goroutine.
unfoldable pub put_packet : Line → Option Packet → Line
put_packet l none = l
put_packet l (some packet) =
    if not l.pumping
    then l
    else if l.closed
    then crash (record l { pumping = false })
    else if ltb (length l.read_chan) 100
    then record l { held = none; read_chan = l.read_chan ++ packet ∷ [] }
    else record l { held = none }

-- The flag is set and both channels are closed, all under the lock, as one step: an operation of
-- another goroutine on a channel, which does not take the lock, comes before all of it or after.
unfoldable pub close_line : Line → Line
close_line l = if l.closed then l else record l { closed = true }

-- `size` is the size of the readers' buffers.
abbrev pub move : ℕ → Line → Move → Line
move size l (calls_write packet) = call_write l packet
move size l (sends i) = go_send l (pick i l.writers)
move size l (write_times_out i) = time_out_write l (pick i l.writers)
move size l calls_read = call_read l
move size l receives = go_receive size l l.readers
move size l read_times_out = time_out_read l l.readers
move size l takes = take_from l l.held l.write_chan
move size l puts = put_packet l l.held
move size l closes = close_line l

-- A panic is not the end: the proxies recover from one in a write of theirs. One that nothing
-- recovers from, such as the goroutine's, ends the process, and is followed by no move.
unfoldable pub moves : ℕ → Line → List Move → Line
moves size l [] = l
moves size l (m ∷ ms) = moves size (move size l m) ms
