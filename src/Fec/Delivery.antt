-- ===== src/Fec/Delivery.antt =====
-- common/fec/xor_fec.go: `Decode` on what arrives of what `Encode` sent.
use native.Mathlib.Nat.{
  div-eq_of_lt-le, div-eq_of_eq-mul_left, div-lt_iff_lt-mul, div-mul-le_self, lt-div-mul-add,
  mul-le-mul_right,
}
use masque_vpn.Prelude.{
  ℕ, suc, ◌+◌, ◌-◌, ◌*◌, ◌/◌, ◌^◌, ◌≤◌, ◌<◌, ◌≡◌, sym, ap, subst, ◌∙◌, true, false, none, some,
  List, [], ◌∷◌, ◌++◌, arith, length, get_elem?, get_or, take, drop, All, tabulate, length-append,
  length-tabulate, length-take, length-drop, All-get_or, get_elem?-append_left,
  get_elem?-append_right, get_elem?-eq-get_or, get_elem?-tabulate, ==_refl, if◌then◌else◌,
}
use masque_vpn.Prelude.Int.{pos_part, above}
use masque_vpn.Fec.Encoder.{XorEncoder, encode, block_end}
use masque_vpn.Fec.Decoder.{XorDecoder, available_packets, recover_from, recover_lost, decode}
use masque_vpn.Fec.Parity.{IsParity}
use masque_vpn.Fec.Blocks.{
  block, redundancy, block_count, IsFilled, redundancy_lem, encode-tabulate,
}
use masque_vpn.Fec.Grouping.{losses_in, put_at}
use masque_vpn.Fec.Roundtrip.{decode_at}
use masque_vpn.Fec.Window.{
  contains, receive, length-receive, receive_kept, only_loss, Arrived, available_around,
  window_split,
}
use masque_vpn.Fec.Repair.{recover_from-parity, recover_lost_found}

module _ (size k : ℕ) (sent : List (List ℕ)) (positive : 0 < size) (small : size ≤ 255)
    (full : length sent ≡ k * size) where
  abbrev sent_with_redundancy : List (List ℕ)
  sent_with_redundancy = sent ++ tabulate (redundancy size sent) 0 k

  block_count_full : block_count size (length sent) ≡ k
  block_count_full = ap (block_count size) full ∙ div-eq_of_lt-le size (omega arith) (grind arith)

  block-lt : (l : ℕ) → l < k * size → l / size < k
  block-lt l h = (div-lt_iff_lt-mul positive).1 h

  block_within : (l : ℕ) → l < k * size → l / size * size + size ≤ k * size
  block_within l h =
      let rounds : suc (l / size) * size ≤ k * size = mul-le-mul_right size (block-lt l h) in
      grind arith

  length-sent_with : length sent_with_redundancy ≡ k * size + k
  length-sent_with = omega (
    arith,
    full,
    length-append {0} sent (tabulate (redundancy size sent) 0 k),
    length-tabulate {0} (redundancy size sent) 0 k,
  )

  groups_of_total : (k * size + k) / (size + 1) ≡ k
  groups_of_total = div-eq_of_eq-mul_left (omega arith) (grind arith)

  redundancy_kept :
      (lost : List ℕ) (b : ℕ)
      → b < k
      → contains (k * size + b) lost ≡ false
      → get_elem? (receive 0 lost sent_with_redundancy) (k * size + b)
        ≡ some (some (redundancy size sent b))
  redundancy_kept lost b h c =
      receive_kept lost sent_with_redundancy (k * size + b) (redundancy size sent b)
        (ap (λ j. get_elem? sent_with_redundancy (j + b)) (sym full)
          ∙ get_elem?-append_right sent (tabulate (redundancy size sent) 0 k) b
          ∙ get_elem?-tabulate (redundancy size sent) 0 k b h
          ∙ ap (λ j. some (redundancy size sent j)) {x = 0 + b} {y = b} (omega arith))
        c

  packet_kept :
      (lost : List ℕ) (j : ℕ)
      → j < k * size
      → contains j lost ≡ false
      → get_elem? (receive 0 lost sent_with_redundancy) j ≡ some (some (get_or sent j []))
  packet_kept lost j h c =
      receive_kept lost sent_with_redundancy j (get_or sent j [])
        (get_elem?-append_left sent (tabulate (redundancy size sent) 0 k) j (omega arith)
          ∙ get_elem?-eq-get_or [] sent j (omega arith))
        c

  block_full :
      (b : ℕ) → b * size + size ≤ k * size → block size sent b ≡ take size (drop (b * size) sent)
  block_full b h =
      ap (λ n. take n (drop (b * size) sent))
        {x = block_end size (length sent) (b * size) - b * size} (ground arith)

  recover_lost_full :
      (lost : List ℕ) (l : ℕ)
      → IsFilled sent
      → All (λ pkt. length pkt < 2 ^ 16) sent
      → l < k * size
      → losses_in size (l / size) lost ≡ l ∷ []
      → contains (k * size + l / size) lost ≡ false
      → recover_lost size (receive 0 lost sent_with_redundancy) (l / size) l
        ≡ some (get_or sent l [])
  recover_lost_full lost l filled short h only c =
      let b = l / size in
      let start = b * size in
      let packets = receive 0 lost sent_with_redundancy in
      let total : length packets ≡ k * size + k =
        length-receive 0 lost sent_with_redundancy ∙ length-sent_with in
      let within : start + size ≤ k * size = block_within l h in
      let lo : start ≤ l = div-mul-le_self l size in
      let hi : l < start + size = lt-div-mul-add positive in
      let xs = take (l - start) (drop start sent) in
      let ys = take (start + size - l - 1) (drop (l + 1) sent) in
      let p = get_or sent l [] in
      let r = redundancy size sent b in
      let split : block size sent b ≡ xs ++ p ∷ ys =
        block_full b within ∙ window_split sent l start size (omega arith) lo hi in
      let parity : IsParity (xs ++ p ∷ ys) r =
        subst (λ t. IsParity t r) split
          (redundancy_lem size sent b positive filled (omega arith)).1 in
      let width : length (block size sent b) ≡ size =
        ap length (block_full b within)
        ∙ omega (arith, length-take {0} size (drop start sent), length-drop {0} start sent) in
      let front : length xs ≡ l - start =
        omega (arith, length-take {0} (l - start) (drop start sent), length-drop {0} start sent) in
      let arrived : Arrived packets sent l start size = λ j p q ne.
        packet_kept lost j (omega arith) (
          only_loss size l j lost
            (ap (λ t. losses_in size t lost) (div-eq_of_lt-le size p (grind arith)) ∙ only) ne) in
      let avail : available_packets packets l start size ≡ xs ++ ys =
        available_around packets sent l start size (omega arith) lo hi arrived in
      let index : length packets - length packets / (size + 1) + b ≡ k * size + b =
        ap (λ t. t - t / (size + 1) + b) total
        ∙ ap (λ t. k * size + k - t + b) groups_of_total
        ∙ omega arith in
      let end_ : block_end size (length packets) start ≡ start + size = ground arith in
      let count : start + size - start ≡ size = omega arith in
      recover_lost_found size packets b l r
        (ap (get_elem? packets) index ∙ redundancy_kept lost b (block-lt l h) c)
      ∙ ap (λ t. recover_from packets start t l r) end_
      ∙ recover_from-parity packets start (start + size) l xs p ys r parity
          (omega (arith, ap length split))
          (All-get_or (λ pkt. length pkt < 2 ^ 16) [] sent l short (omega arith)) (omega arith)
          (ap (available_packets packets l start) count ∙ avail)

-- Let the block size be from 1 to 255, the percentage above 0, and the packets k full blocks, none
-- of them empty and each shorter than 2 ^ 16 bytes. When the packet at index l is the only loss in
-- its block and the redundancy packet of that block arrives, `Decode` returns it at index l, bytes
-- and length, whatever is lost of the other blocks.
pub decode-encode :
    (e : XorEncoder) (d : XorDecoder) (k : ℕ) (sent : List (List ℕ)) (lost : List ℕ) (l : ℕ)
    → let size = pos_part e.config.block_size in
      d.config.block_size ≡ e.config.block_size
      → 0 < size
      → size ≤ 255
      → above 0 e.config.redundancy_percent ≡ true
      → length sent ≡ k * size
      → IsFilled sent
      → All (λ pkt. length pkt < 2 ^ 16) sent
      → l < k * size
      → losses_in size (l / size) lost ≡ l ∷ []
      → contains (k * size + l / size) lost ≡ false
      → get_or (decode d (receive 0 lost (encode e sent)) lost) l none ≡ some (get_or sent l [])
decode-encode e d k sent lost l same positive small percent full filled short h only c =
    let size = pos_part e.config.block_size in
    let packets = receive 0 lost (sent ++ tabulate (redundancy size sent) 0 k) in
    let encoded : encode e sent ≡ sent ++ tabulate (redundancy size sent) 0 k =
      encode-tabulate e sent positive percent filled
      ∙ ap (λ n. sent ++ tabulate (redundancy size sent) 0 n)
          (block_count_full size k sent positive small full) in
    let inside : l < length packets = omega (
      arith,
      length-receive 0 lost (sent ++ tabulate (redundancy size sent) 0 k),
      length-sent_with size k sent positive small full,
    ) in
    ap (λ t. get_or (decode d (receive 0 lost t) lost) l none) encoded
    ∙ decode_at d packets lost l inside
    ∙ ap (λ t. put_at (pos_part t) packets (losses_in (pos_part t) (l / pos_part t) lost) l) same
    ∙ ap (λ t. put_at size packets t l) only
    ∙ ap (λ t. if t then recover_lost size packets (l / size) l else none) (==_refl l)
    ∙ recover_lost_full size k sent positive small full lost l filled short h only c
