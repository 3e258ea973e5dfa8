-- ===== src/Fec/Repair.antt =====
-- common/fec/xor_fec.go: `recover_from` and `recover_lost` on a block with its redundancy packet.
use native.Mathlib.Nat.{mod-eq_of_lt}
use masque_vpn.Prelude.{
  ℕ, ◌+◌, ◌-◌, ◌*◌, ◌/◌, ◌^◌, ◌<◌, ◌≡◌, ap, ◌∙◌, false, Option, some, List, [], ◌∷◌, ◌++◌, arith,
  length, get_elem?, get_or, length-append, get_or-append_right, le→ltb_false, ltb, leb,
}
use masque_vpn.Fec.Encoder.{block_end}
use masque_vpn.Fec.Decoder.{available_packets, recover_from, recover_lost}
use masque_vpn.Fec.Columns.{byte_at}
use masque_vpn.Fec.Parity.{IsParity, header_size, high_byte, low_byte}
use masque_vpn.Fec.Recovery.{recovers_lost}

-- A redundancy packet serves its block: from the block's other packets and it, `recover_from`
-- finds the packet at the place that is missing.
pub recover_from-parity :
    (packets : List (Option (List ℕ))) (start end_ l : ℕ) (xs : List (List ℕ)) (p : List ℕ)
    (ys : List (List ℕ)) (r : List ℕ)
    → IsParity (xs ++ p ∷ ys) r
    → length (xs ++ p ∷ ys) < 256
    → length p < 2 ^ 16
    → l ≡ start + length xs
    → available_packets packets l start (end_ - start) ≡ xs ++ ys
    → recover_from packets start end_ l r ≡ some p
unfolding recover_from
recover_from-parity packets start end_ l xs p ys r parity small short e avail =
    let n = length (xs ++ p ∷ ys) in
    let count : byte_at r 0 ≡ n = parity.count_eq ∙ mod-eq_of_lt small in
    let inside : length xs < n = omega (arith, length-append {0} xs (p ∷ ys)) in
    let found : get_or (xs ++ p ∷ ys) (length xs) [] ≡ p =
      get_or-append_right [] xs (p ∷ ys) (length xs) (omega arith)
      ∙ ap (λ k. get_or (p ∷ ys) k []) {x = length xs - length xs} {y = 0} (omega arith) in
    let place : l - start ≡ length xs = omega arith in
    let hi : byte_at r (1 + length xs * 2) ≡ high_byte (length p) =
      parity.high_eq (length xs) inside ∙ ap (λ t. high_byte (length t)) found in
    let lo : byte_at r (2 + length xs * 2) ≡ low_byte (length p) =
      parity.low_eq (length xs) inside ∙ ap (λ t. low_byte (length t)) found in
    let next : 1 + length xs * 2 + 1 ≡ 2 + length xs * 2 = omega arith in
    let len : high_byte (length p) * 2 ^ 8 + low_byte (length p) ≡ length p = omega arith in
    let long : ltb (length r) 1 ≡ false =
      le→ltb_false (length r) 1 (omega (arith, parity.size_eq)) in
    let headed : ltb (length r) (header_size (xs ++ p ∷ ys)) ≡ false =
      le→ltb_false (length r) (header_size (xs ++ p ∷ ys)) (omega (arith, parity.size_eq)) in
    let listed : leb n (length xs) ≡ false = ground arith in
    rw (long, count, headed, place, listed, avail, hi, next, lo, len)
      (recovers_lost xs p ys r parity)

-- The redundancy packet is looked for behind the data packets.
pub recover_lost_found :
    (size : ℕ) (packets : List (Option (List ℕ))) (b l : ℕ) (r : List ℕ)
    → get_elem? packets (length packets - length packets / (size + 1) + b) ≡ some (some r)
    → recover_lost size packets b l
      ≡ recover_from packets (b * size) (block_end size (length packets) (b * size)) l r
unfolding recover_lost
recover_lost_found size packets b l r e = rw (e, recover_lost)
