-- ===== src/Server/Parse.antt =====
-- vpn_server/internal/server/packet_processor.go: the addresses that the server reads from a packet.
use masque_vpn.Prelude.{ℕ, ◌-◌, Result, ok, err, List, length, take, drop, ltb, ◌==◌, if◌then◌else◌}
use masque_vpn.Ip.Addr.{Addr}
use masque_vpn.Ip.Packet.{version}

pub data ParseError : Type 0 where
  write_to_connected : ParseError
  packet_too_short ipv4_packet_too_short ipv6_packet_too_short : ParseError
  unsupported_ip_version : ℕ → ParseError

unfoldable pub parse_destination_ip : List ℕ → Result ParseError Addr
parse_destination_ip packet =
    if ltb (length packet) 20
    then err write_to_connected
    else if version packet == 4
    then (if ltb (length packet) 20
        then err write_to_connected
        else ok (take (20 - 16) (drop 16 packet)))
    else if version packet == 6
    then (if ltb (length packet) 40
        then err write_to_connected
        else ok (take (40 - 24) (drop 24 packet)))
    else err write_to_connected

unfoldable pub parse_source_ip : List ℕ → Result ParseError Addr
parse_source_ip packet =
    if ltb (length packet) 20
    then err packet_too_short
    else if version packet == 4
    then (if ltb (length packet) 20
        then err ipv4_packet_too_short
        else ok (take (16 - 12) (drop 12 packet)))
    else if version packet == 6
    then (if ltb (length packet) 40
        then err ipv6_packet_too_short
        else ok (take (24 - 8) (drop 8 packet)))
    else err (unsupported_ip_version (version packet))
