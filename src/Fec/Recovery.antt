-- ===== src/Fec/Recovery.antt =====
-- common/fec/xor_fec.go: `xorPacketsWithRedundancy` on the redundancy packet of a block.
use masque_vpn.Prelude.{
  ℕ, ◌-◌, min, max, bit_xor, ◌≡◌, sym, ap, ◌∙◌, some, List, [], ◌∷◌, ◌++◌, append-nil, arith,
  length, take, drop, replicate, length-take, length-drop, take_of_length-le, get_or-take,
  get_or-drop, get_or_ext, ltb, le→ltb_false, if◌then◌else◌,
}
use masque_vpn.Prelude.Xor.{bit_xor_comm, bit_xor_assoc, bit_xor_self, bit_xor-zero, zero-bit_xor}
use masque_vpn.Fec.Encoder.{max_size, xor_each}
use masque_vpn.Fec.Decoder.{xor_packets_with_redundancy}
use masque_vpn.Fec.Columns.{
  byte_at, column, column-append, length-xor_each, xor_each_zero, Fits-max_size, max_size-eq,
}
use masque_vpn.Fec.Parity.{IsParity, header_size}

-- (a ^ (p ^ b)) ^ (a ^ b) is p.
xor_cancel : (a p b : ℕ) → bit_xor (bit_xor a (bit_xor p b)) (bit_xor a b) ≡ p
xor_cancel a p b =
    ap (λ t. bit_xor t (bit_xor a b)) (bit_xor_comm a (bit_xor p b))
    ∙ bit_xor_assoc (bit_xor p b) a (bit_xor a b)
    ∙ ap (bit_xor (bit_xor p b))
        (sym (bit_xor_assoc a a b) ∙ ap (λ t. bit_xor t b) (bit_xor_self a) ∙ zero-bit_xor b)
    ∙ bit_xor_assoc p b b
    ∙ ap (bit_xor p) (bit_xor_self b)
    ∙ bit_xor-zero p

-- The longest packet is found wherever the missing one is counted.
max_size_middle :
    (n : ℕ) (xs : List (List ℕ)) (p : List ℕ) (ys : List (List ℕ))
    → max_size n (xs ++ p ∷ ys) ≡ max_size (max n (length p)) (xs ++ ys)
unfolding max_size
max_size_middle n [] p ys = ap (λ k. max_size k ys) (ground arith)
max_size_middle n (x ∷ xs) p ys =
    max_size_middle (if ltb n (length x) then length x else n) xs p ys
    ∙ ap (λ k. max_size k (xs ++ ys)) (ground arith)

pub max_size_lost :
    (xs : List (List ℕ)) (p : List ℕ) (ys : List (List ℕ))
    → max_size (length p) (xs ++ ys) ≡ max_size 0 (xs ++ p ∷ ys)
max_size_lost xs p ys =
    ap (λ k. max_size k (xs ++ ys)) {x = length p} {y = max 0 (length p)} (omega arith)
    ∙ sym (max_size_middle 0 xs p ys)

-- A copy into a buffer of the same size.
copy_exact :
    (bytes : List ℕ) (n : ℕ)
    → length bytes ≡ n
    → take (min (length bytes) n) bytes ++ replicate (n - min (length bytes) n) 0 ≡ bytes
copy_exact bytes n h =
    ap (λ k. take (min (length bytes) n) bytes ++ replicate k 0) {x = n - min (length bytes) n}
      {y = 0} (omega arith)
    ∙ append-nil (take (min (length bytes) n) bytes)
    ∙ take_of_length-le (min (length bytes) n) bytes (omega arith)

module _ (xs : List (List ℕ)) (p : List ℕ) (ys : List (List ℕ)) (r : List ℕ)
    (parity : IsParity (xs ++ p ∷ ys) r) where
  abbrev body : List ℕ
  body = drop (header_size (xs ++ p ∷ ys)) r

  length-body : length body ≡ max_size (length p) (xs ++ ys)
  length-body =
      omega
        (arith, length-drop (header_size (xs ++ p ∷ ys)) r, parity.size_eq, max_size_lost xs p ys)

  body-column :
      (i : ℕ) → byte_at body i ≡ bit_xor (column xs i) (bit_xor (byte_at p i) (column ys i))
  body-column i =
      get_or-drop 0 (header_size (xs ++ p ∷ ys)) r i
      ∙ parity.column_eq i
      ∙ column-append xs (p ∷ ys) i

  restored_byte : (i : ℕ) → byte_at (xor_each body 0 (xs ++ ys)) i ≡ byte_at p i
  restored_byte i =
      xor_each_zero body (max_size (length p) (xs ++ ys)) (xs ++ ys) i
        (Fits-max_size (length p) (xs ++ ys)) (omega (arith, length-body))
      ∙ ap (λ t. bit_xor t (column (xs ++ ys) i)) (body-column i)
      ∙ ap (bit_xor (bit_xor (column xs i) (bit_xor (byte_at p i) (column ys i))))
          (column-append xs ys i)
      ∙ xor_cancel (column xs i) (byte_at p i) (column ys i)

  restored : take (length p) (xor_each body 0 (xs ++ ys)) ≡ p
  restored =
      get_or_ext 0 (take (length p) (xor_each body 0 (xs ++ ys))) p
        (omega (
          arith,
          length-take (length p) (xor_each body 0 (xs ++ ys)),
          length-xor_each body 0 (xs ++ ys),
          length-body,
          max_size-eq (length p) (xs ++ ys),
        ))
        (λ i h.
          get_or-take 0 (length p) (xor_each body 0 (xs ++ ys)) i
            (omega (arith, length-take (length p) (xor_each body 0 (xs ++ ys))))
          ∙ restored_byte i)

  -- Any one packet of a block comes back from the other packets and the redundancy packet.
  pub recovers_lost :
      xor_packets_with_redundancy (xs ++ ys) r (header_size (xs ++ p ∷ ys)) (length p) ≡ some p
  unfolding xor_packets_with_redundancy
  recovers_lost =
      let long : ltb (length r) (header_size (xs ++ p ∷ ys)) ≡ _ =
        le→ltb_false (length r) (header_size (xs ++ p ∷ ys)) (omega (arith, parity.size_eq)) in
      rw long (
        ap (λ t. some (take (length p) (xor_each t 0 (xs ++ ys))))
          (copy_exact body (max_size (length p) (xs ++ ys)) length-body)
        ∙ ap some restored)
