-- ===== src/Fec/Parity.antt =====
-- common/fec/xor_fec.go: the redundancy packet of a block, field by field.
use masque_vpn.Prelude.{
  ℕ, zero, suc, ◌+◌, ◌*◌, ◌/◌, ◌%◌, ◌^◌, ◌≤◌, ◌<◌, bit_xor, ◌≡◌, refl, ap, subst, ◌∙◌, ◌⊎◌, none,
  some, List, [], ◌∷◌, arith, length, get_or, set, replicate, length-set, length-replicate,
  get_or-set_self, get_or-set_ne, get_or-replicate,
}
use masque_vpn.Prelude.Xor.{zero-bit_xor}
use masque_vpn.Fec.Encoder.{max_size, write_lengths, xor_each, xor_packets}
use masque_vpn.Fec.Columns.{
  byte_at, column, length-xor_each, xor_each_before, xor_each-column, Fits-max_size,
}

abbrev pub high_byte : ℕ → ℕ
high_byte n = n / 2 ^ 8 % 256

abbrev pub low_byte : ℕ → ℕ
low_byte n = n % 256

-- The two stores of one round of the header loop.
abbrev with_length : List ℕ → ℕ → ℕ → List ℕ
with_length buf i n = set (set buf (1 + i * 2) (high_byte n)) (1 + i * 2 + 1) (low_byte n)

length-with_length : (buf : List ℕ) (i n : ℕ) → length (with_length buf i n) ≡ length buf
length-with_length buf i n =
    length-set (set buf (1 + i * 2) (high_byte n)) (1 + i * 2 + 1) (low_byte n)
    ∙ length-set buf (1 + i * 2) (high_byte n)

length-write_lengths :
    (buf : List ℕ) (i : ℕ) (packets : List (List ℕ))
    → length (write_lengths buf i packets) ≡ length buf
unfolding write_lengths
length-write_lengths buf i [] = refl
length-write_lengths buf i (pkt ∷ packets) =
    length-write_lengths (with_length buf i (length pkt)) (i + 1) packets
    ∙ length-with_length buf i (length pkt)

write_lengths_outside :
    (buf : List ℕ) (i : ℕ) (packets : List (List ℕ)) (j : ℕ)
    → (j < 1 + i * 2) ⊎ (1 + (i + length packets) * 2 ≤ j)
    → byte_at (write_lengths buf i packets) j ≡ byte_at buf j
unfolding write_lengths
write_lengths_outside buf i [] j h = refl
write_lengths_outside buf i (pkt ∷ packets) j h =
    write_lengths_outside (with_length buf i (length pkt)) (i + 1) packets j (omega arith)
    ∙ get_or-set_ne 0 (set buf (1 + i * 2) (high_byte (length pkt))) (1 + i * 2 + 1) j
        (low_byte (length pkt)) (omega arith)
    ∙ get_or-set_ne 0 buf (1 + i * 2) j (high_byte (length pkt)) (omega arith)

abbrev HasLength : List ℕ → ℕ → ℕ → Type 0
HasLength buf i n = (byte_at buf (1 + i * 2) ≡ high_byte n) × (byte_at buf (2 + i * 2) ≡ low_byte n)

write_lengths_inside :
    (buf : List ℕ) (i : ℕ) (packets : List (List ℕ)) (k : ℕ)
    → k < length packets
    → (i + length packets) * 2 < length buf
    → HasLength (write_lengths buf i packets) (i + k) (length (get_or packets k []))
unfolding write_lengths
write_lengths_inside buf i [] k h fits = elim h [ ]
write_lengths_inside buf i (pkt ∷ packets) zero h fits =
    let hi = set buf (1 + i * 2) (high_byte (length pkt)) in
    let both = with_length buf i (length pkt) in
    (
      ap (byte_at (write_lengths both (i + 1) packets)) {x = 1 + (i + 0) * 2} {y = 1 + i * 2}
            (omega arith)
          ∙ write_lengths_outside both (i + 1) packets (1 + i * 2) (omega arith)
          ∙ get_or-set_ne 0 hi (1 + i * 2 + 1) (1 + i * 2) (low_byte (length pkt)) (omega arith)
          ∙ get_or-set_self 0 buf (1 + i * 2) (high_byte (length pkt)) (omega arith),
      ap (byte_at (write_lengths both (i + 1) packets)) {x = 2 + (i + 0) * 2} {y = 1 + i * 2 + 1}
            (omega arith)
          ∙ write_lengths_outside both (i + 1) packets (1 + i * 2 + 1) (omega arith)
          ∙ get_or-set_self 0 hi (1 + i * 2 + 1) (low_byte (length pkt))
              (omega (arith, length-set buf (1 + i * 2) (high_byte (length pkt)))),
    )
write_lengths_inside buf i (pkt ∷ packets) (suc k) h fits =
    let both = with_length buf i (length pkt) in
    let rest =
      write_lengths_inside both (i + 1) packets k (omega arith)
        (omega (arith, length-with_length buf i (length pkt))) in
    let out = write_lengths both (i + 1) packets in
    (
      ap (byte_at out) {x = 1 + (i + suc k) * 2} {y = 1 + (i + 1 + k) * 2} (omega arith) ∙ rest.0,
      ap (byte_at out) {x = 2 + (i + suc k) * 2} {y = 2 + (i + 1 + k) * 2} (omega arith) ∙ rest.1,
    )

abbrev pub header_size : List (List ℕ) → ℕ
header_size packets = 1 + length packets * 2

-- What a redundancy packet for `packets` holds: the count, the lengths, and the columns.
pub record IsParity (packets : List (List ℕ)) (redundancy : List ℕ) : Type 0 where
  pub size_eq : length redundancy ≡ header_size packets + max_size 0 packets
  pub count_eq : byte_at redundancy 0 ≡ length packets % 256
  pub high_eq :
      (k : ℕ)
      → k < length packets
      → byte_at redundancy (1 + k * 2) ≡ high_byte (length (get_or packets k []))
  pub low_eq :
      (k : ℕ)
      → k < length packets
      → byte_at redundancy (2 + k * 2) ≡ low_byte (length (get_or packets k []))
  pub column_eq : (i : ℕ) → byte_at redundancy (header_size packets + i) ≡ column packets i

abbrev blank : List (List ℕ) → List ℕ
blank packets =
    set (replicate (header_size packets + max_size 0 packets) 0) 0 (length packets % 256)

abbrev built : List (List ℕ) → List ℕ
built packets = xor_each (write_lengths (blank packets) 0 packets) (header_size packets) packets

length-blank :
    (packets : List (List ℕ)) → length (blank packets) ≡ header_size packets + max_size 0 packets
length-blank packets =
    length-set (replicate (header_size packets + max_size 0 packets) 0) 0 (length packets % 256)
    ∙ length-replicate (header_size packets + max_size 0 packets) 0

length-headed :
    (packets : List (List ℕ))
    → length (write_lengths (blank packets) 0 packets) ≡ header_size packets + max_size 0 packets
length-headed packets = length-write_lengths (blank packets) 0 packets ∙ length-blank packets

blank_zero : (packets : List (List ℕ)) (i : ℕ) → byte_at (blank packets) (suc i) ≡ 0
blank_zero packets i =
    get_or-set_ne 0 (replicate (header_size packets + max_size 0 packets) 0) 0 (suc i)
      (length packets % 256) (omega arith)
    ∙ get_or-replicate 0 (header_size packets + max_size 0 packets) (suc i)

built-IsParity : (packets : List (List ℕ)) → IsParity packets (built packets)
built-IsParity packets = record {
  size_eq =
      length-xor_each (write_lengths (blank packets) 0 packets) (header_size packets) packets
      ∙ length-headed packets;
  count_eq =
      xor_each_before (write_lengths (blank packets) 0 packets) (header_size packets) packets 0
        (omega arith)
      ∙ write_lengths_outside (blank packets) 0 packets 0 (omega arith)
      ∙ get_or-set_self 0 (replicate (header_size packets + max_size 0 packets) 0) 0
          (length packets % 256)
          (omega (arith, length-replicate {A = ℕ} (header_size packets + max_size 0 packets) 0));
  high_eq = λ k h.
      xor_each_before (write_lengths (blank packets) 0 packets) (header_size packets) packets
        (1 + k * 2) (omega arith)
      ∙ (lengths k h).0;
  low_eq = λ k h.
      xor_each_before (write_lengths (blank packets) 0 packets) (header_size packets) packets
        (2 + k * 2) (omega arith)
      ∙ (lengths k h).1;
  column_eq = λ i.
      xor_each-column (write_lengths (blank packets) 0 packets) (header_size packets)
        (max_size 0 packets) packets i (Fits-max_size 0 packets)
        (omega (arith, length-headed packets))
      ∙ ap (λ t. bit_xor t (column packets i))
          (write_lengths_outside (blank packets) 0 packets (header_size packets + i) (omega arith)
            ∙ ap (byte_at (blank packets)) {x = header_size packets + i}
                {y = suc (length packets * 2 + i)} (omega arith)
            ∙ blank_zero packets (length packets * 2 + i))
      ∙ zero-bit_xor (column packets i);
}
  where
    lengths :
        (k : ℕ)
        → k < length packets
        → HasLength (write_lengths (blank packets) 0 packets) k (length (get_or packets k []))
    lengths k h =
        subst
          (λ j.
            HasLength (write_lengths (blank packets) 0 packets) j (length (get_or packets k [])))
          {x = 0 + k} (omega arith)
          (write_lengths_inside (blank packets) 0 packets k h (omega (arith, length-blank packets)))

-- A block yields a redundancy packet exactly when one of its packets is not empty.
pub xor_packets-none :
    (packets : List (List ℕ)) → max_size 0 packets ≡ 0 → xor_packets packets ≡ none
unfolding xor_packets
xor_packets-none packets h = ground arith

pub xor_packets-some :
    (packets : List (List ℕ))
    → 0 < max_size 0 packets
    → (r : List ℕ) × (xor_packets packets ≡ some r) × IsParity packets r
unfolding xor_packets max_size
xor_packets-some [] h = absurd (omega arith)
xor_packets-some (pkt ∷ packets) h =
    (built (pkt ∷ packets), ground arith, built-IsParity (pkt ∷ packets))
