-- ===== src/Server/EchoTests.antt =====
-- vpn_server/internal/server/masque_handler.go: a packet that comes back.
use masque_vpn.Prelude.{ℕ, ◌≡◌, refl, true, none, ok, List, [], ◌∷◌, ◌++◌, arith, All}
use masque_vpn.Ip.Addr.{bytes_eq}
use masque_vpn.Tunnel.Calls.{
  new_line, Move, moves, calls_write, sends, calls_read, receives, takes, puts, call_write, go_send,
  put_packet, call_read, go_receive,
}
use masque_vpn.Server.Parse.{parse_source_ip, parse_destination_ip}
use masque_vpn.Server.Proxy.{Round, proxy, proxy_client_to_tun}
use masque_vpn.Server.Echo.{read_in, passed_was_written}
use masque_vpn.Server.Tests.{host}

-- A packet from the client's address to the client's address.
abbrev to_itself : List ℕ
to_itself = (69 ∷ 0 ∷ 0 ∷ 20 ∷ 0 ∷ 0 ∷ 0 ∷ 0 ∷ 64 ∷ 1 ∷ 0 ∷ 0 ∷ []) ++ (host 2 ++ host 2)

abbrev there_and_back : List Move
there_and_back = calls_write to_itself ∷ sends 0 ∷ calls_read ∷ takes ∷ puts ∷ receives ∷ []

abbrev one_round : List Round
one_round = record { read = ok to_itself; written = none } ∷ []

to_client : parse_destination_ip to_itself ≡ ok (host 2)
unfolding parse_destination_ip
to_client = refl

is_read : read_in one_round ≡ (moves 2048 new_line there_and_back).received
unfolding moves call_write go_send put_packet call_read go_receive
is_read = refl

passed_was_written_example :
    All
      (λ p. (parse_destination_ip p ≡ ok (host 2)) × (parse_source_ip p ≡ ok (host 2)))
      (proxy_client_to_tun true (host 2) one_round).0.passed
passed_was_written_example =
    passed_was_written (λ p. parse_destination_ip p ≡ ok (host 2)) true (host 2) there_and_back
      one_round (to_client, tt) (omega arith, tt) is_read

comes_back : (proxy_client_to_tun true (host 2) one_round).0.packets ≡ 1
unfolding proxy_client_to_tun proxy parse_source_ip bytes_eq
comes_back = refl
