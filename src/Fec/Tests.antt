-- ===== src/Fec/Tests.antt =====
-- common/fec: concrete runs, some of them from xor_fec_test.go.
use mathlib.Core.List.{Permᴰ}
use masque_vpn.Prelude.{
  ℕ, ◌≡◌, refl, true, Option, none, some, List, [], ◌∷◌, ◌++◌, arith, get_or, replicate, tabulate,
}
use masque_vpn.Prelude.Int.{pos}
use masque_vpn.Fec.Config.{Config, validate, calculate_redundancy_packets, redundancy_out_of_range}
use masque_vpn.Fec.Encoder.{XorEncoder, encode, max_size, xor_each, xor_at}
use masque_vpn.Fec.Decoder.{
  XorDecoder, Groups, add_lost, group_lost, recover_block, recover_blocks, recover_from,
  available_packets, xor_packets_with_redundancy, recover_lost, decode,
}
use masque_vpn.Fec.Parity.{IsParity}
use masque_vpn.Fec.Blocks.{block, block_count, redundancy, encode_systematic}
use masque_vpn.Fec.Roundtrip.{recover_blocks-perm}
use masque_vpn.Fec.Window.{receive}
use masque_vpn.Fec.Delivery.{decode-encode}
use masque_vpn.Fec.Limits.{decode_short_block}

abbrev blocks_of_3 : Config
blocks_of_3 = record { enabled = true; redundancy_percent = pos 20; block_size = pos 3 }

abbrev encoder_3 : XorEncoder
encoder_3 = record { config = blocks_of_3 }

abbrev decoder_3 : XorDecoder
decoder_3 = record { config = blocks_of_3 }

abbrev six_packets : List (List ℕ)
six_packets = (1 ∷ 2 ∷ []) ∷ (3 ∷ 4 ∷ 5 ∷ []) ∷ (6 ∷ []) ∷ (7 ∷ []) ∷ (8 ∷ 9 ∷ []) ∷ (10 ∷ []) ∷ []

-- One loss in the first block, two in the second.
abbrev three_losses : List ℕ
three_losses = 1 ∷ 3 ∷ 5 ∷ []

decode-encode_example :
    get_or
      (decode decoder_3 (receive 0 three_losses (encode encoder_3 six_packets)) three_losses)
      1
      none
    ≡ some (3 ∷ 4 ∷ 5 ∷ [])
decode-encode_example =
    decode-encode encoder_3 decoder_3 2 six_packets three_losses 1 refl (omega arith) (omega arith)
      refl refl
      (omega arith, (omega arith, (omega arith, (omega arith, (omega arith, (omega arith, tt))))))
      (omega arith, (omega arith, (omega arith, (omega arith, (omega arith, (omega arith, tt))))))
      (omega arith) refl refl

encode_systematic_example :
    (encode encoder_3 six_packets
      ≡ six_packets ++ tabulate (redundancy 3 six_packets) 0 (block_count 3 6))
    × IsParity (block 3 six_packets 1) (redundancy 3 six_packets 1)
encode_systematic_example =
    encode_systematic encoder_3 six_packets 1 (omega arith) refl
      (omega arith, (omega arith, (omega arith, (omega arith, (omega arith, (omega arith, tt))))))
      (omega arith)

abbrev received : List (Option (List ℕ))
received = some (1 ∷ []) ∷ none ∷ some (2 ∷ []) ∷ none ∷ []

decode_short_block_example :
    get_or (decode decoder_3 (some (1 ∷ []) ∷ none ∷ []) (1 ∷ [])) 1 none ≡ none
decode_short_block_example =
    decode_short_block decoder_3 (some (1 ∷ []) ∷ none ∷ []) (1 ∷ []) 1 (omega arith) (omega arith)

validate_too_much :
    validate (record { enabled = true; redundancy_percent = pos 101; block_size = pos 3 })
    ≡ some (redundancy_out_of_range (pos 101))
unfolding validate
validate_too_much = refl

ten_percent_of_5 :
    calculate_redundancy_packets
      (record { enabled = true; redundancy_percent = pos 10; block_size = pos 10 })
      5
    ≡ pos 1
unfolding calculate_redundancy_packets
ten_percent_of_5 = refl

-- A block with its redundancy packet, but for the second of its packets.
abbrev one_lost : List (Option (List ℕ))
one_lost = some (1 ∷ []) ∷ none ∷ some (4 ∷ []) ∷ some (3 ∷ 0 ∷ 1 ∷ 0 ∷ 1 ∷ 0 ∷ 1 ∷ 7 ∷ []) ∷ []

one_lost_found : get_or (decode decoder_3 one_lost (1 ∷ [])) 1 none ≡ some (2 ∷ [])
unfolding decode group_lost add_lost recover_blocks recover_block recover_lost recover_from
    available_packets xor_packets_with_redundancy max_size xor_each xor_at
one_lost_found = refl

-- The losses of the blocks 0 and 1, in the order that the map was not filled in.
abbrev other_order : Groups
other_order = (1, 4 ∷ []) ∷ (0, 1 ∷ []) ∷ []

other_order-Perm : Permᴰ (group_lost 3 (1 ∷ 4 ∷ []) []) other_order
unfolding group_lost add_lost
other_order-Perm = Permᴰ.swap refl refl

recover_blocks-perm_example :
    recover_blocks 3 one_lost other_order (replicate 4 none)
    ≡ recover_blocks 3 one_lost (group_lost 3 (1 ∷ 4 ∷ []) []) (replicate 4 none)
recover_blocks-perm_example =
    recover_blocks-perm 3 one_lost (1 ∷ 4 ∷ []) other_order other_order-Perm
