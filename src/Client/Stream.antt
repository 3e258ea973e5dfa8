-- ===== src/Client/Stream.antt =====
-- common/masque_connectip.go: `ReadPacket` and `WritePacket` of a `MASQUEConn`. What its stream, or
-- its channels where it has none, answer is a parameter.
use Prim.Native.String.{String, ◌++◌ as str_append}
use masque_vpn.Prelude.{ℕ, Bool, false, Option, none, some, Result, ok, err, List, if◌then◌else◌}
use masque_vpn.Server.Proxy.{IoError}

-- `fmt.Errorf("...: %w", err)`: a new error, neither a `*net.OpError` nor a `net.Error`, with the
-- text of the other behind its own.
abbrev pub wrapped : String → IoError → IoError
wrapped text e = record { op_error = none; text = str_append text e.text; timeout = false }

abbrev pub plain_error : String → IoError
plain_error text = record { op_error = none; text = text; timeout = false }

-- Where a packet comes from: the stream, with the error of `SetReadDeadline` and the outcome of
-- `Read`; or the channel, where `none` is 30 seconds without a packet, and a channel that is closed
-- gives the empty packet.
pub data Source : Type 0 where
  stream : Option IoError → Result IoError (List ℕ) → Source
  channel : Option (List ℕ) → Source

abbrev pub after_stream_read : Result IoError (List ℕ) → Result IoError (List ℕ)
after_stream_read (ok packet) = ok packet
after_stream_read (err e) =
    if e.timeout
    then err (wrapped "read timeout: " e)
    else err (wrapped "failed to read from MASQUE stream: " e)

abbrev pub read_source : Source → Result IoError (List ℕ)
read_source (stream (some e) read) = err (wrapped "failed to set read deadline: " e)
read_source (stream none read) = after_stream_read read
read_source (channel (some packet)) = ok packet
read_source (channel none) = err (plain_error "read timeout")

unfoldable pub read_packet : Bool → Source → Result IoError (List ℕ)
read_packet closed source = if closed then err (plain_error "EOF") else read_source source

-- Where a packet goes: the stream, with the errors of `SetWriteDeadline` and `Write`, or the
-- channel, which takes the packet within 10 seconds or not.
pub data Sink : Type 0 where
  stream : Option IoError → Option IoError → Sink
  channel : Bool → Sink

abbrev pub write_sink : Sink → Option IoError
write_sink (stream (some e) write) = some (wrapped "failed to set write deadline: " e)
write_sink (stream none (some e)) = some (wrapped "failed to write to MASQUE stream: " e)
write_sink (stream none none) = none
write_sink (channel taken) = if taken then none else some (plain_error "write timeout")

unfoldable pub write_packet : Bool → Sink → Option IoError
write_packet closed sink =
    if closed then some (plain_error "connection is closed") else write_sink sink
