-- ===== src/Fec/Limits.antt =====
-- common/fec: which configurations are let through, and where recovery stops.
use native.Mathlib.Nat.{div-eq_of_lt, div-mul-le_self, lt-div-mul-add, mul-le-mul_right}
use masque_vpn.Prelude.{
  ℕ, suc, ◌+◌, ◌-◌, ◌*◌, ◌/◌, ◌≤◌, ◌<◌, ◌≡◌, ◌↔◌, refl, sym, ap, ◌∙◌, inl, inr, Option, none, some,
  List, [], ◌∷◌, arith, length, get_elem?, get_or, get_elem?_out, Bool-cases, Option-cases, ==_iff,
  ltb-false, ltb→lt, ltb, ◌==◌, if◌then◌else◌,
}
use masque_vpn.Prelude.Int.{ℤ, pos, negsuc, pos_part}
use masque_vpn.Fec.Config.{Config, validate, calculate_redundancy_packets}
use masque_vpn.Fec.Decoder.{XorDecoder, recover_lost, decode}
use masque_vpn.Fec.Grouping.{losses_in, put_at}
use masque_vpn.Fec.Roundtrip.{decode_at}

-- The configurations that the checks are meant to let through.
abbrev pub InRange : Config → Type 0
InRange c =
    (p : ℕ) × (b : ℕ) × (c.redundancy_percent ≡ pos p)
    × (c.block_size ≡ pos b)
    × (p ≤ 100)
    × (1 ≤ b)
    × (b ≤ 255)

validate_sound : (c : Config) → validate c ≡ none → InRange c
unfolding validate
validate_sound c h = go c.redundancy_percent c.block_size refl refl
  where
    go : (p b : ℤ) → c.redundancy_percent ≡ p → c.block_size ≡ b → InRange c
    go (pos p) (pos b) e f = (p, b, e, f, ground arith, ground arith, ground arith)
    go (pos p) (negsuc b) e f = absurd (ground arith)
    go (negsuc p) b e f = absurd (ground arith)

validate_complete : (c : Config) → InRange c → validate c ≡ none
unfolding validate
validate_complete c (p, b, e, f, lo, mid, hi) = rw (e, f) (ground arith)

-- `Validate` accepts a configuration exactly when the percentage is from 0 to 100 and the block
-- size from 1 to 255.
pub validate_iff : (c : Config) → (validate c ≡ none) ↔ InRange c
validate_iff c = (validate_sound c, validate_complete c)

-- For a percentage p from 1 to 100 and n > 0 packets, `CalculateRedundancyPackets` is at least 1
-- and at most n: it is n * p / 100, or 1 where that is 0.
pub calculate_redundancy_packets_bounds :
    (c : Config) (p n : ℕ)
    → c.redundancy_percent ≡ pos p
    → 0 < p
    → p ≤ 100
    → 0 < n
    → (r : ℕ) × (calculate_redundancy_packets c n ≡ pos r)
      × (1 ≤ r)
      × (r ≤ n)
      × (r ≡ (if n * p / 100 == 0 then 1 else n * p / 100))
unfolding calculate_redundancy_packets
calculate_redundancy_packets_bounds c p n e lo hi some_packets =
    let scaled : n * p ≤ n * 100 = grind arith in
    elim (Bool-cases ((n * p / 100) == 0)) [
      | inl z ↦ (1, rw e (ground arith), omega arith, omega arith, ground arith)
      | inr z ↦ (n * p / 100, rw e (ground arith), ground arith, omega arith, ground arith)
    ]

recover_lost-in_range :
    (size : ℕ) (packets : List (Option (List ℕ))) (l : ℕ) (p : List ℕ)
    → 0 < size
    → recover_lost size packets (l / size) l ≡ some p
    → l < length packets
unfolding recover_lost
recover_lost-in_range size packets l p s h =
    elim (Bool-cases (ltb (l / size) (length packets / (size + 1)))) [
      | inl near ↦
          let t = length packets / (size + 1) in
          let b = l / size in
          let rounds : suc b * (size + 1) ≤ t * (size + 1) =
            mul-le-mul_right (size + 1) (ltb→lt b t near) in
          let whole : t * (size + 1) ≤ length packets =
            div-mul-le_self (length packets) (size + 1) in
          let above_l : l < b * size + size = lt-div-mul-add s in grind arith
      | inr far ↦
          let outside : get_elem? packets (length packets - length packets / (size + 1) + l / size)
              ≡ none =
            get_elem?_out packets _
              (omega (arith, ltb-false (l / size) (length packets / (size + 1)) far)) in
          let lost : recover_lost size packets (l / size) l ≡ none = rw (outside, recover_lost) in
          cc
    ]

-- With a block size above 0, whatever slice arrives and whatever losses are named: `Decode` finds a
-- packet for index l only where l is within the slice, so that its store does not panic.
pub recover_lost_in_range :
    (size : ℕ) (packets : List (Option (List ℕ))) (l : ℕ)
    → 0 < size
    → length packets ≤ l
    → recover_lost size packets (l / size) l ≡ none
recover_lost_in_range size packets l s h =
    elim (Option-cases (recover_lost size packets (l / size) l)) [
      | inl e ↦ e
      | inr (p, e) ↦ absurd (omega (arith, recover_lost-in_range size packets l p s e))
    ]

-- `Decode` gives a packet at index j only if j is the one loss that is named for its block.
pub decode_only_single :
    (d : XorDecoder) (packets : List (Option (List ℕ))) (lost : List ℕ) (j : ℕ) (p : List ℕ)
    → j < length packets
    → get_or (decode d packets lost) j none ≡ some p
    → let size = pos_part d.config.block_size in losses_in size (j / size) lost ≡ j ∷ []
decode_only_single d packets lost j p h e =
    let size = pos_part d.config.block_size in
    go (losses_in size (j / size) lost) (sym (decode_at d packets lost j h) ∙ e)
  where
    go :
        (idxs : List ℕ)
        → put_at (pos_part d.config.block_size) packets idxs j ≡ some p
        → idxs ≡ j ∷ []
    go [] q = cc
    go (l ∷ []) q = elim (Bool-cases (l == j)) [
      | inl same ↦ ap (λ k. k ∷ []) ((==_iff l j).0 same)
      | inr other ↦ absurd (cc (rw other at q))
    ]
    go (l ∷ m ∷ idxs) q = cc

-- A short transmission is never repaired: where the slice, redundancy packet included, is no longer
-- than the block size, as after `Encode` of fewer packets than a block, `Decode` returns nothing
-- at any index, whichever packet is lost.
pub decode_short_block :
    (d : XorDecoder) (packets : List (Option (List ℕ))) (lost : List ℕ) (j : ℕ)
    → length packets ≤ pos_part d.config.block_size
    → j < length packets
    → get_or (decode d packets lost) j none ≡ none
decode_short_block d packets lost j h inside =
    let size = pos_part d.config.block_size in
    decode_at d packets lost j inside ∙ go (losses_in size (j / size) lost)
  where
    nothing :
        (l : ℕ)
        → recover_lost (pos_part d.config.block_size) packets (j / pos_part d.config.block_size) l
          ≡ none
    nothing l =
        unfold recover_lost in
        rw (
          get_elem?_out packets
              (length packets
                - length packets / (pos_part d.config.block_size + 1)
                + j / pos_part d.config.block_size)
              (omega (
                arith,
                div-eq_of_lt {n = length packets} {m = pos_part d.config.block_size + 1}
                    (omega arith),
              )),
          recover_lost,
        )

    go : (idxs : List ℕ) → put_at (pos_part d.config.block_size) packets idxs j ≡ none
    go [] = refl
    go (l ∷ []) = ground (arith, nothing l)
    go (l ∷ m ∷ idxs) = refl
