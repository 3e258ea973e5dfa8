-- ===== src/Server/Forward.antt =====
-- vpn_server/internal/server/packet_processor.go: a packet on its way to a client, with and without
-- error correction. `accepts i` says whether the channel takes the i-th write in time.
use masque_vpn.Prelude.{
  ℕ, ◌+◌, ◌%◌, ◌^◌, Bool, false, Option, none, some, List, [], ◌∷◌, ◌++◌, length, leb,
  if◌then◌else◌,
}
use masque_vpn.Prelude.Int.{pos_part}
use masque_vpn.Fec.Encoder.{XorEncoder, encode}
use masque_vpn.Server.State.{Conn, WriteError, write_packet, ClientSession}

pub data ForwardError : Type 0 where
  err_closed : ForwardError
  write_failed : WriteError → ForwardError

abbrev pub Sent : Type 0
Sent = Conn × ℕ × Option ForwardError

-- A write that fails ends the loop.
abbrev pub after_write : Conn × Option WriteError → ℕ → (Conn → Sent) → Sent
after_write (c, some e) seq_num rest = (c, seq_num, some (write_failed e))
after_write (c, none) seq_num rest = rest c

-- The loop over a block's packets from the i-th write on, with the connection and `SeqNum`, a
-- uint32.
unfoldable pub send_packets : (ℕ → Bool) → ℕ → List (List ℕ) → Conn → ℕ → Sent
send_packets accepts i [] c seq_num = (c, seq_num, none)
send_packets accepts i (pkt ∷ packets) c seq_num =
    after_write (write_packet (accepts i) c pkt) seq_num
      (λ k. send_packets accepts (i + 1) packets k ((seq_num + 1) % 2 ^ 32))

-- The buffer is emptied only if every write succeeds.
abbrev pub after_block : ClientSession → Sent → ClientSession × Option ForwardError
after_block session (c, seq_num, some e) =
    (record session { conn = some c; seq_num = seq_num }, some e)
after_block session (c, seq_num, none) =
    (record session { conn = some c; seq_num = seq_num; packet_buffer = [] }, none)

unfoldable pub encode_and_send_block :
    (ℕ → Bool) → ClientSession → Conn → ClientSession × Option ForwardError
encode_and_send_block accepts session c = elim session.encoder [
  | none ↦ (session, some err_closed)
  | some e ↦
      after_block session
        (send_packets accepts 0 (encode e session.packet_buffer) c session.seq_num)
]

abbrev pub is_full : Option XorEncoder → List (List ℕ) → Bool
is_full none buffer = false
is_full (some e) buffer = leb (pos_part e.config.block_size) (length buffer)

unfoldable pub forward_packet_with_fec :
    (ℕ → Bool) → ClientSession → Conn → List ℕ → ClientSession × Option ForwardError
forward_packet_with_fec accepts session c packet =
    let buffered = record session { packet_buffer = session.packet_buffer ++ packet ∷ [] } in
    if is_full buffered.encoder buffered.packet_buffer
    then encode_and_send_block accepts buffered c
    else (buffered, none)

abbrev pub after_plain :
    ClientSession → Conn × Option WriteError → ClientSession × Option ForwardError
after_plain session (c, none) = (record session { conn = some c }, none)
after_plain session (c, some e) = (record session { conn = some c }, some (write_failed e))

unfoldable pub forward_packet_to_client :
    (ℕ → Bool) → ClientSession → List ℕ → ClientSession × Option ForwardError
forward_packet_to_client accepts session packet = elim session.conn [
  | none ↦ (session, some err_closed)
  | some c ↦
      if session.fec_enabled
      then forward_packet_with_fec accepts session c packet
      else after_plain session (write_packet (accepts 0) c packet)
]
