-- ===== src/Tunnel/Tests.antt =====
-- common/masque_connectip.go: concrete runs.
use masque_vpn.Prelude.{
  ◌≡◌, ◌⊎◌, ◌≤◌, refl, true, false, none, some, List, [], ◌∷◌, ◌++◌, arith, length,
}
use masque_vpn.Tunnel.Loopback.{new_loopback, send, pump, panics, close}
use masque_vpn.Tunnel.Client.{MasqueClient, QuicAnswers, connect_ip, succeeds}
use masque_vpn.Tunnel.Order.{close_panics}
use mathlib.Core.List.{Sublistᴰ}
use masque_vpn.Tunnel.Calls.{
  new_line, Move, moves, calls_write, calls_read, takes, puts, closes, call_write, go_send,
  put_packet, call_read, go_receive, close_line,
}
use masque_vpn.Tunnel.Flow.{in_flight, nonempty, as_read}
use masque_vpn.Tunnel.Closing.{moves_in_order}

goroutine_panics :
    ((send new_loopback (1 ∷ [])).1 ≡ none) × (pump (close (send new_loopback (1 ∷ [])).0) ≡ panics)
goroutine_panics = close_panics new_loopback (1 ∷ []) refl (omega arith)

abbrev client : MasqueClient
client = record { closed = false; quic_conn = some "192.0.2.1:4433" }

abbrev refused : QuicAnswers
refused = record { opens = true; writes = true; reads = some "HTTP/1.1 403"; closes = true }

-- A refusal is taken for success where it has 200 anywhere.
abbrev refused_with_length : QuicAnswers
refused_with_length = record refused {
  reads = some "HTTP/1.1 403 Forbidden\r\nContent-Length: 200\r\n\r\n";
}

refusal_accepted : succeeds (connect_ip client refused_with_length).1 ≡ true
unfolding connect_ip
refusal_accepted = refl

-- A writer passes the check of `closed`, the connection is closed, and the writer goes on.
abbrev closed_during_write : List Move
closed_during_write =
    calls_write (1 ∷ [])
    ∷ Move.sends 0
    ∷ takes
    ∷ puts
    ∷ calls_read
    ∷ calls_write (2 ∷ [])
    ∷ closes
    ∷ Move.receives
    ∷ Move.sends 0
    ∷ []

moves_in_order_example :
    let l = moves 1500 new_line closed_during_write in
    Sublistᴰ (nonempty l.received ++ as_read 1500 (in_flight l)) (as_read 1500 l.accepted)
    × ((nonempty l.received ++ as_read 1500 (in_flight l) ≡ as_read 1500 l.accepted)
        ⊎ (101 ≤ length l.accepted))
    × ((l.panicked ≡ false) ⊎ (l.closed ≡ true))
moves_in_order_example = moves_in_order 1500 closed_during_write

close_panics_writer : (moves 1500 new_line closed_during_write).panicked ≡ true
unfolding moves call_write go_send put_packet call_read go_receive close_line
close_panics_writer = refl

-- A reader that waits when the connection is closed gets no bytes and no error.
read_of_closed : (moves 1500 new_line (calls_read ∷ closes ∷ Move.receives ∷ [])).received ≡ [] ∷ []
unfolding moves call_read go_receive close_line
read_of_closed = refl

-- The goroutine has taken a packet when the connection is closed.
close_panics_goroutine :
    (moves 1500 new_line
      (calls_write (1 ∷ []) ∷ Move.sends 0 ∷ takes ∷ closes ∷ puts ∷ [])).panicked
    ≡ true
unfolding moves call_write go_send put_packet close_line
close_panics_goroutine = refl
