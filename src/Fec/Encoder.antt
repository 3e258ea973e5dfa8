-- ===== src/Fec/Encoder.antt =====
-- common/fec/xor_fec.go: the encoder. A packet is a list of bytes. `Encode` returns a nil error on
-- every path, so the model returns the packets alone.
use masque_vpn.Prelude.{
  ℕ, zero, suc, ◌+◌, ◌-◌, ◌*◌, ◌/◌, ◌%◌, ◌^◌, bit_xor, Option, none, some, Result, ok, err, List,
  [], ◌∷◌, ◌++◌, ltb, ◌==◌, if◌then◌else◌, length, get_or, set, take, drop, replicate,
}
use masque_vpn.Prelude.Int.{pos_part, is_zero}
use masque_vpn.Fec.Config.{Config, ConfigError, validate, calculate_redundancy_packets}

pub record XorEncoder : Type 0 where
  pub config : Config

unfoldable pub new_xor_encoder : Config → Result ConfigError XorEncoder
new_xor_encoder c = elim (validate c) [ some e ↦ err e | none ↦ ok (record { config = c }) ]

-- The loop that looks for the longest packet, from the size found so far.
unfoldable pub max_size : ℕ → List (List ℕ) → ℕ
max_size size [] = size
max_size size (pkt ∷ packets) =
    max_size (if ltb size (length pkt) then length pkt else size) packets

-- The header loop from packet `i` on: two bytes for each length, high byte first.
unfoldable pub write_lengths : List ℕ → ℕ → List (List ℕ) → List ℕ
write_lengths redundancy i [] = redundancy
write_lengths redundancy i (pkt ∷ packets) =
    let offset = 1 + i * 2 in
    write_lengths
      (set (set redundancy offset (length pkt / 2 ^ 8 % 256)) (offset + 1) (length pkt % 256))
      (i + 1) packets

-- `redundancy[at + i] ^= pkt[i]` for the bytes of one packet.
unfoldable pub xor_at : List ℕ → ℕ → List ℕ → List ℕ
xor_at redundancy at [] = redundancy
xor_at redundancy at (b ∷ pkt) =
    xor_at (set redundancy at (bit_xor (get_or redundancy at 0) b)) (at + 1) pkt

unfoldable pub xor_each : List ℕ → ℕ → List (List ℕ) → List ℕ
xor_each redundancy at [] = redundancy
xor_each redundancy at (pkt ∷ packets) = xor_each (xor_at redundancy at pkt) at packets

-- `none` is the nil packet.
unfoldable pub xor_packets : List (List ℕ) → Option (List ℕ)
xor_packets packets =
    let size = max_size 0 packets in
    if length packets == 0
    then none
    else if size == 0
    then none
    else let header_size = 1 + length packets * 2 in
      let redundancy = set (replicate (header_size + size) 0) 0 (length packets % 256) in
      some (xor_each (write_lengths redundancy 0 packets) header_size packets)

abbrev pub block_end : ℕ → ℕ → ℕ → ℕ
block_end size total start = if ltb total (start + size) then total else start + size

abbrev pub append_packet : List (List ℕ) → Option (List ℕ) → List (List ℕ)
append_packet result none = result
append_packet result (some pkt) = result ++ pkt ∷ []

-- The block loop, with `left` blocks to go.
unfoldable pub encode_blocks : ℕ → List (List ℕ) → ℕ → ℕ → List (List ℕ) → List (List ℕ)
encode_blocks size packets zero block_idx result = result
encode_blocks size packets (suc left) block_idx result =
    let start = block_idx * size in
    let block = take (block_end size (length packets) start - start) (drop start packets) in
    encode_blocks size packets left (block_idx + 1) (append_packet result (xor_packets block))

unfoldable pub encode : XorEncoder → List (List ℕ) → List (List ℕ)
encode e packets =
    let size = pos_part e.config.block_size in
    if length packets == 0
    then packets
    else if is_zero (calculate_redundancy_packets e.config (length packets))
    then packets
    else encode_blocks size packets ((length packets + size - 1) / size) 0 packets
