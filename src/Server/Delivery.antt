-- ===== src/Server/Delivery.antt =====
-- vpn_server/internal/server/packet_processor.go: which packets reach the client's connection.
use masque_vpn.Prelude.{
  ℕ, ◌+◌, ◌%◌, ◌^◌, ◌<◌, ◌≡◌, refl, sym, ap, ap₂, ◌∙◌, ◌⊎◌, inl, inr, Bool, true, false, Option,
  none, some, List, [], ◌∷◌, ◌++◌, append_assoc, append-nil, arith, length, length-append, leb,
  Bool-cases, if◌then◌else◌,
}
use masque_vpn.Prelude.Int.{pos_part}
use masque_vpn.Fec.Encoder.{XorEncoder, encode}
use masque_vpn.Server.State.{Conn, write_packet, write_timeout, ClientSession}
use masque_vpn.Server.Forward.{
  ForwardError, write_failed, after_write, send_packets, after_block, encode_and_send_block,
  forward_packet_with_fec, forward_packet_to_client,
}

abbrev pub forward_all :
    (ℕ → ℕ → Bool) → ℕ → ClientSession → List (List ℕ) → ClientSession × List (Option ForwardError)
forward_all accepts i session [] = (session, [])
forward_all accepts i session (pkt ∷ packets) =
    let (next, result) = forward_packet_to_client (accepts i) session pkt in
    let (last, results) = forward_all accepts (i + 1) next packets in (last, result ∷ results)

abbrev pub all_none : List (Option ForwardError) → Bool
all_none [] = true
all_none (none ∷ results) = all_none results
all_none (some e ∷ results) = false

-- A session with error correction over the connection `c`.
abbrev pub fec_session : Conn → Option XorEncoder → List (List ℕ) → ℕ → ClientSession
fec_session c encoder buffer seq_num = record {
  conn = some c;
  encoder = encoder;
  packet_buffer = buffer;
  seq_num = seq_num;
  fec_enabled = true;
}

-- A session with error correction and no encoder, which is how `handleMASQUERequest` makes every
-- session where the configuration enables it, delivers nothing: over any packets, each is reported
-- as sent, none is written to the connection, and the buffer grows by all of them.
pub forward_without_encoder :
    (accepts : ℕ → ℕ → Bool) (i : ℕ) (c : Conn) (buffer : List (List ℕ)) (seq_num : ℕ)
    (packets : List (List ℕ))
    → let (session, results) = forward_all accepts i (fec_session c none buffer seq_num) packets in
      (session ≡ fec_session c none (buffer ++ packets) seq_num) × (all_none results ≡ true)
unfolding forward_packet_to_client forward_packet_with_fec
forward_without_encoder accepts i c buffer seq_num [] =
    (ap (λ b. fec_session c none b seq_num) (sym (append-nil buffer)), refl)
forward_without_encoder accepts i c buffer seq_num (pkt ∷ packets) =
    let rest = forward_without_encoder accepts (i + 1) c (buffer ++ pkt ∷ []) seq_num packets in
    (
      rest.0 ∙ ap (λ b. fec_session c none b seq_num) (append_assoc buffer (pkt ∷ []) packets),
      rest.1,
    )

abbrev pub open_conn : List (List ℕ) → Conn
open_conn written = record { closed = false; written = written }

send_packets_all :
    (accepts : ℕ → Bool) (i : ℕ) (packets : List (List ℕ)) (written : List (List ℕ)) (seq_num : ℕ)
    → ((j : ℕ) → accepts j ≡ true)
    → seq_num < 2 ^ 32
    → send_packets accepts i packets (open_conn written) seq_num
      ≡ (open_conn (written ++ packets), (seq_num + length packets) % 2 ^ 32, none)
unfolding send_packets write_packet
send_packets_all accepts i [] written seq_num all fits =
    ap₂ (λ w n. (open_conn w, n, none)) (sym (append-nil written)) (omega arith)
send_packets_all accepts i (pkt ∷ packets) written seq_num all fits =
    let next = (seq_num + 1) % 2 ^ 32 in
    ap
      (λ t.
        after_write (write_packet t (open_conn written) pkt) seq_num
          (λ k. send_packets accepts (i + 1) packets k next))
      (all i)
    ∙ send_packets_all accepts (i + 1) packets (written ++ pkt ∷ []) next all (omega arith)
    ∙ ap₂ (λ w n. (open_conn w, n, none)) (append_assoc written (pkt ∷ []) packets) (omega arith)

-- With an encoder, an open connection that takes every write, and a buffer below the block size:
-- a packet that does not fill the block is only buffered; one that does is sent with the whole
-- block as `Encode` returns it, `SeqNum` counts the packets sent, and the buffer is empty again.
-- So the buffer stays below the block size.
pub forward_with_encoder :
    (accepts : ℕ → Bool) (e : XorEncoder) (written buffer : List (List ℕ)) (seq_num : ℕ)
    (pkt : List ℕ)
    → ((j : ℕ) → accepts j ≡ true)
    → seq_num < 2 ^ 32
    → length buffer < pos_part e.config.block_size
    → let size = pos_part e.config.block_size in
      let block = buffer ++ pkt ∷ [] in
      let result =
        forward_packet_to_client accepts
          (fec_session (open_conn written) (some e) buffer seq_num)
          pkt in
      ((length buffer + 1 < size)
        × (result ≡ (fec_session (open_conn written) (some e) block seq_num, none)))
      ⊎ ((length buffer + 1 ≡ size)
          × (result ≡ (
            fec_session
                (open_conn (written ++ encode e block))
                (some e)
                []
                ((seq_num + length (encode e block)) % 2 ^ 32),
            none,
          )))
unfolding forward_packet_to_client forward_packet_with_fec encode_and_send_block
forward_with_encoder accepts e written buffer seq_num pkt all fits room =
    let size = pos_part e.config.block_size in
    let block = buffer ++ pkt ∷ [] in
    let counted : length block ≡ length buffer + 1 =
      omega (arith, length-append {0} buffer (pkt ∷ [])) in
    elim (Bool-cases (leb size (length block))) [
      | inl full ↦
          let exact : length buffer + 1 ≡ size = ground arith in
          inr (
            exact,
            rw full (
                ap (after_block (fec_session (open_conn written) (some e) block seq_num))
                  (send_packets_all accepts 0 (encode e block) written seq_num all fits)),
          )
      | inr partial ↦ let below : length buffer + 1 < size = ground arith in inl (below, rw partial)
    ]

-- Without error correction and with a connection that is open, a packet is written as it is if the
-- channel takes it in time; else the write times out and the session is as before.
pub forward_plain :
    (accepts : ℕ → Bool) (session : ClientSession) (written : List (List ℕ)) (pkt : List ℕ)
    → session.conn ≡ some (open_conn written)
    → session.fec_enabled ≡ false
    → forward_packet_to_client accepts session pkt ≡ (
        if accepts 0
        then (record session { conn = some (open_conn (written ++ pkt ∷ [])) }, none)
        else (
          record session { conn = some (open_conn written) },
          some (write_failed write_timeout),
        ))
unfolding forward_packet_to_client write_packet
forward_plain accepts session written pkt c f = rw (c, f, forward_packet_to_client) (ground arith)
