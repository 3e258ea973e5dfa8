-- ===== src/Fec/Blocks.antt =====
-- common/fec/xor_fec.go: what `Encode` adds to the packets, block by block.
use mathlib.Core.Option.{get_or as or_default}
use native.Mathlib.Nat.{le-div_iff_mul-le, div-eq_of_lt}
use masque_vpn.Prelude.{
  ℕ, zero, suc, ◌+◌, ◌-◌, ◌*◌, ◌/◌, ◌≤◌, ◌<◌, ◌≡◌, sym, ap, subst, ◌∙◌, some, List, [], ◌∷◌, ◌++◌,
  append-nil, append_assoc, arith, true, false, ◌&&◌, length, get_or, take, drop, All, tabulate,
  take-drop-suc, All-get_or, suc==zero, if◌then◌else◌,
}
use masque_vpn.Prelude.Int.{ℤ, pos, negsuc, pos_part, is_zero, above, scale}
use masque_vpn.Fec.Config.{Config, calculate_redundancy_packets}
use masque_vpn.Fec.Encoder.{
  XorEncoder, max_size, xor_packets, block_end, append_packet, encode_blocks, encode,
}
use masque_vpn.Fec.Columns.{max_size-eq}
use masque_vpn.Fec.Parity.{IsParity, xor_packets-some}

-- The packets of block `b`.
abbrev pub block : ℕ → List (List ℕ) → ℕ → List (List ℕ)
block size packets b =
    take (block_end size (length packets) (b * size) - b * size) (drop (b * size) packets)

abbrev pub IsFilled : List (List ℕ) → Type 0
IsFilled = All (λ pkt. 0 < length pkt)

-- The redundancy packet of block `b`.
abbrev pub redundancy : ℕ → List (List ℕ) → ℕ → List ℕ
redundancy size packets b = or_default (xor_packets (block size packets b)) []

abbrev pub block_count : ℕ → ℕ → ℕ
block_count size total = (total + size - 1) / size

pub block_start-lt : (size total b : ℕ) → 0 < size → b < block_count size total → b * size < total
block_start-lt size total b s h =
    let whole : suc b * size ≤ total + size - 1 = (le-div_iff_mul-le s).0 h in grind arith

max_size-pos :
    (pkt : List ℕ) (packets : List (List ℕ)) → 0 < length pkt → 0 < max_size 0 (pkt ∷ packets)
unfolding max_size
max_size-pos pkt packets h = ground (arith, max_size-eq (length pkt) packets, max_size-eq 0 packets)

pub block-filled :
    (size : ℕ) (packets : List (List ℕ)) (b : ℕ)
    → 0 < size
    → IsFilled packets
    → b * size < length packets
    → 0 < max_size 0 (block size packets b)
block-filled size packets b s filled h =
    let n = block_end size (length packets) (b * size) - b * size in
    let e : n ≡ suc (n - 1) = ground arith in
    subst (λ t. 0 < max_size 0 t)
      (sym (
        ap (λ k. take k (drop (b * size) packets)) e
        ∙ take-drop-suc [] (n - 1) (b * size) packets h))
      (max_size-pos (get_or packets (b * size) []) (take (n - 1) (drop (b * size + 1) packets))
        (All-get_or (λ pkt. 0 < length pkt) [] packets (b * size) filled h))

pub redundancy_lem :
    (size : ℕ) (packets : List (List ℕ)) (b : ℕ)
    → 0 < size
    → IsFilled packets
    → b * size < length packets
    → (xor_packets (block size packets b) ≡ some (redundancy size packets b))
      × IsParity (block size packets b) (redundancy size packets b)
redundancy_lem size packets b s filled h =
    let (r, e, parity) =
      xor_packets-some (block size packets b) (block-filled size packets b s filled h) in
    let same : r ≡ redundancy size packets b = sym (ap (λ o. or_default o []) e) in
    (e ∙ ap some same, subst (IsParity (block size packets b)) same parity)

encode_blocks-tabulate :
    (size : ℕ) (packets : List (List ℕ)) (left b : ℕ) (result : List (List ℕ))
    → 0 < size
    → IsFilled packets
    → ((k : ℕ) → k < b + left → k * size < length packets)
    → encode_blocks size packets left b result ≡ result ++ tabulate (redundancy size packets) b left
unfolding encode_blocks
encode_blocks-tabulate size packets zero b result s filled starts = sym (append-nil result)
encode_blocks-tabulate size packets (suc left) b result s filled starts =
    let r = redundancy size packets b in
    let added : append_packet result (xor_packets (block size packets b)) ≡ result ++ r ∷ [] =
      ap (append_packet result)
        (redundancy_lem size packets b s filled (starts b (omega arith))).0 in
    ap (encode_blocks size packets left (b + 1)) added
    ∙ encode_blocks-tabulate size packets left (b + 1) (result ++ r ∷ []) s filled
        (λ k h. starts k (omega arith))
    ∙ append_assoc result (r ∷ []) (tabulate (redundancy size packets) (b + 1) left)

-- With a percentage above 0, some redundancy is always asked for.
redundancy-pos :
    (c : Config) (n : ℕ)
    → above 0 c.redundancy_percent ≡ true
    → is_zero (calculate_redundancy_packets c n) ≡ false
unfolding calculate_redundancy_packets
redundancy-pos c n h = go c.redundancy_percent h
  where
    go :
        (z : ℤ)
        → above 0 z ≡ true
        → is_zero (
            if is_zero z
            then pos 0
            else let redundancy = scale n z 100 in
              if is_zero redundancy && above 0 z then pos 1 else redundancy)
          ≡ false
    go (pos p) h = ground arith
    go (negsuc p) h = cc

pub encode-tabulate :
    (e : XorEncoder) (packets : List (List ℕ))
    → 0 < pos_part e.config.block_size
    → above 0 e.config.redundancy_percent ≡ true
    → IsFilled packets
    → let size = pos_part e.config.block_size in
      encode e packets
      ≡ packets ++ tabulate (redundancy size packets) 0 (block_count size (length packets))
unfolding encode
encode-tabulate e [] s p filled =
    let size = pos_part e.config.block_size in
    let no_block : block_count size 0 ≡ 0 = div-eq_of_lt (omega arith) in rw no_block
encode-tabulate e (pkt ∷ packets) s p filled =
    let size = pos_part e.config.block_size in
    let all = pkt ∷ packets in
    rw (suc==zero (length packets), redundancy-pos e.config (length all) p)
      (encode_blocks-tabulate size all (block_count size (length all)) 0 all s filled
        (λ k h. block_start-lt size (length all) k s (omega arith)))

-- Let the block size and the percentage be above 0 and no packet empty. Then `Encode` keeps the
-- packets in front and adds one redundancy packet for each block, the last block too where it is
-- not full, whatever the percentage is. The b-th added packet holds the count and the lengths of
-- the packets of block b, and behind them the exclusive or of their bytes at each index.
pub encode_systematic :
    (e : XorEncoder) (packets : List (List ℕ)) (b : ℕ)
    → 0 < pos_part e.config.block_size
    → above 0 e.config.redundancy_percent ≡ true
    → IsFilled packets
    → b < block_count (pos_part e.config.block_size) (length packets)
    → let size = pos_part e.config.block_size in
      (encode e packets
        ≡ packets ++ tabulate (redundancy size packets) 0 (block_count size (length packets)))
      × IsParity (block size packets b) (redundancy size packets b)
encode_systematic e packets b s p filled h =
    let size = pos_part e.config.block_size in
    (
      encode-tabulate e packets s p filled,
      (redundancy_lem size packets b s filled (block_start-lt size (length packets) b s h)).1,
    )
