-- ===== src/Fec/Decoder.antt =====
-- common/fec/xor_fec.go: the decoder. A received packet is `none` where the slice holds nil, and an
-- index of a lost packet is not negative. `Decode` returns a nil error on every path.
use masque_vpn.Prelude.{
  ℕ, zero, suc, ◌+◌, ◌-◌, ◌*◌, ◌/◌, ◌^◌, min, Option, none, some, Result, ok, err, List, [], ◌∷◌,
  ◌++◌, ltb, leb, ◌==◌, if◌then◌else◌, length, get_elem?, get_or, set, take, drop, replicate,
}
use masque_vpn.Prelude.Int.{pos_part}
use masque_vpn.Fec.Config.{Config, ConfigError, validate}
use masque_vpn.Fec.Encoder.{max_size, xor_each, block_end}

pub record XorDecoder : Type 0 where
  pub config : Config

unfoldable pub new_xor_decoder : Config → Result ConfigError XorDecoder
new_xor_decoder c = elim (validate c) [ some e ↦ err e | none ↦ ok (record { config = c }) ]

unfoldable pub xor_packets_with_redundancy : List (List ℕ) → List ℕ → ℕ → ℕ → Option (List ℕ)
xor_packets_with_redundancy available redundancy header_size original_len =
    if ltb (length redundancy) header_size
    then none
    else let size = max_size original_len available in
      let redundancy_bytes = drop header_size redundancy in
      let copied = min (length redundancy_bytes) size in
      let result = take copied redundancy_bytes ++ replicate (size - copied) 0 in
      some (take original_len (xor_each result 0 available))

-- The packets at hand from index `i` on, `left` indices of them, without the lost one.
unfoldable pub available_packets : List (Option (List ℕ)) → ℕ → ℕ → ℕ → List (List ℕ)
available_packets packets lost_idx i zero = []
available_packets packets lost_idx i (suc left) =
    let rest = available_packets packets lost_idx (i + 1) left in
    if i == lost_idx
    then rest
    else elim (get_elem? packets i) [ some (some pkt) ↦ pkt ∷ rest | _ ↦ rest ]

-- From the redundancy packet of the block on.
unfoldable pub recover_from : List (Option (List ℕ)) → ℕ → ℕ → ℕ → List ℕ → Option (List ℕ)
recover_from packets start end_ lost_idx redundancy =
    let in_block = get_or redundancy 0 0 in
    let header_size = 1 + in_block * 2 in
    let position = lost_idx - start in
    let offset = 1 + position * 2 in
    if ltb (length redundancy) 1
    then none
    else if ltb (length redundancy) header_size
    then none
    else if leb in_block position
    then none
    else xor_packets_with_redundancy (available_packets packets lost_idx start (end_ - start))
        redundancy header_size
        (get_or redundancy offset 0 * 2 ^ 8 + get_or redundancy (offset + 1) 0)

-- One block with one loss; `none` where the source goes on to the next block.
unfoldable pub recover_lost : ℕ → List (Option (List ℕ)) → ℕ → ℕ → Option (List ℕ)
recover_lost size packets block_idx lost_idx =
    let total = length packets in
    let start = block_idx * size in
    let data_packets = total - total / (size + 1) in
    elim (get_elem? packets (data_packets + block_idx)) [
      | some (some redundancy) ↦
          recover_from packets start (block_end size total start) lost_idx redundancy
      | _ ↦ none
    ]

abbrev pub Groups : Type 0
Groups = List (ℕ × List ℕ)

abbrev pub Recovered : Type 0
Recovered = List (Option (List ℕ))

-- `lostByBlock[blockIdx] = append(lostByBlock[blockIdx], lostIdx)`
unfoldable pub add_lost : ℕ → ℕ → Groups → Groups
add_lost block_idx lost_idx [] = (block_idx, lost_idx ∷ []) ∷ []
add_lost block_idx lost_idx ((b, idxs) ∷ groups) =
    if b == block_idx
    then (b, idxs ++ lost_idx ∷ []) ∷ groups
    else (b, idxs) ∷ add_lost block_idx lost_idx groups

unfoldable pub group_lost : ℕ → List ℕ → Groups → Groups
group_lost size [] groups = groups
group_lost size (lost_idx ∷ lost) groups =
    group_lost size lost (add_lost (lost_idx / size) lost_idx groups)

-- One round of the loop over the blocks.
unfoldable pub recover_block : ℕ → List (Option (List ℕ)) → ℕ × List ℕ → Recovered → Recovered
recover_block size packets (block_idx, []) recovered = recovered
recover_block size packets (block_idx, lost_idx ∷ []) recovered =
    elim (recover_lost size packets block_idx lost_idx) [
      | none ↦ recovered
      | some pkt ↦ set recovered lost_idx (some pkt)
    ]
recover_block size packets (block_idx, lost_idx ∷ _ ∷ _) recovered = recovered

unfoldable pub recover_blocks : ℕ → List (Option (List ℕ)) → Groups → Recovered → Recovered
recover_blocks size packets [] recovered = recovered
recover_blocks size packets (g ∷ groups) recovered =
    recover_blocks size packets groups (recover_block size packets g recovered)

-- The map is gone through in the order of its first insertions; Go leaves the order open.
unfoldable pub decode : XorDecoder → List (Option (List ℕ)) → List ℕ → Recovered
decode d packets lost =
    let size = pos_part d.config.block_size in
    if length lost == 0
    then []
    else recover_blocks size packets (group_lost size lost []) (replicate (length packets) none)
