-- ===== src/Fec/Columns.antt =====
-- The in-place loops of common/fec/xor_fec.go, byte by byte: what stands at each index afterwards.
use masque_vpn.Prelude.{
  ℕ, zero, suc, ◌+◌, ◌≤◌, ◌<◌, bit_xor, ◌≡◌, refl, sym, ap, subst, ◌∙◌, List, [], ◌∷◌, ◌++◌, arith,
  length, get_or, set, All, length-set, get_or-set_self, get_or-set_ne,
}
use masque_vpn.Prelude.Xor.{bit_xor_assoc, bit_xor-zero, zero-bit_xor}
use masque_vpn.Fec.Encoder.{max_size, xor_at, xor_each}

abbrev pub byte_at : List ℕ → ℕ → ℕ
byte_at buf i = get_or buf i 0

-- The exclusive or of the bytes at index `i` of all packets; a packet that is shorter has 0 there.
abbrev pub column : List (List ℕ) → ℕ → ℕ
column [] i = 0
column (pkt ∷ packets) i = bit_xor (byte_at pkt i) (column packets i)

abbrev pub Fits : ℕ → List (List ℕ) → Type 0
Fits size = All (λ pkt. length pkt ≤ size)

pub column-append :
    (xs ys : List (List ℕ)) (i : ℕ) → column (xs ++ ys) i ≡ bit_xor (column xs i) (column ys i)
column-append [] ys i = sym (zero-bit_xor (column ys i))
column-append (x ∷ xs) ys i =
    ap (bit_xor (byte_at x i)) (column-append xs ys i)
    ∙ sym (bit_xor_assoc (byte_at x i) (column xs i) (column ys i))

pub length-xor_at : (buf : List ℕ) (at : ℕ) (pkt : List ℕ) → length (xor_at buf at pkt) ≡ length buf
unfolding xor_at
length-xor_at buf at [] = refl
length-xor_at buf at (b ∷ pkt) =
    length-xor_at (set buf at (bit_xor (byte_at buf at) b)) (at + 1) pkt
    ∙ length-set buf at (bit_xor (byte_at buf at) b)

pub xor_at_before :
    (buf : List ℕ) (at : ℕ) (pkt : List ℕ) (j : ℕ)
    → j < at
    → byte_at (xor_at buf at pkt) j ≡ byte_at buf j
unfolding xor_at
xor_at_before buf at [] j h = refl
xor_at_before buf at (b ∷ pkt) j h =
    xor_at_before (set buf at (bit_xor (byte_at buf at) b)) (at + 1) pkt j (omega arith)
    ∙ get_or-set_ne 0 buf at j (bit_xor (byte_at buf at) b) (omega arith)

pub xor_at_column :
    (buf : List ℕ) (at : ℕ) (pkt : List ℕ) (i : ℕ)
    → at + length pkt ≤ length buf
    → byte_at (xor_at buf at pkt) (at + i) ≡ bit_xor (byte_at buf (at + i)) (byte_at pkt i)
unfolding xor_at
xor_at_column buf at [] i h = sym (bit_xor-zero (byte_at buf (at + i)))
xor_at_column buf at (b ∷ pkt) zero h =
    ap (byte_at (xor_at (set buf at (bit_xor (byte_at buf at) b)) (at + 1) pkt)) {x = at + 0}
      {y = at} (omega arith)
    ∙ xor_at_before (set buf at (bit_xor (byte_at buf at) b)) (at + 1) pkt at (omega arith)
    ∙ get_or-set_self 0 buf at (bit_xor (byte_at buf at) b) (omega arith)
    ∙ ap (λ k. bit_xor (byte_at buf k) b) {x = at} {y = at + 0} (omega arith)
xor_at_column buf at (b ∷ pkt) (suc i) h =
    let next = set buf at (bit_xor (byte_at buf at) b) in
    ap (byte_at (xor_at next (at + 1) pkt)) {x = at + suc i} {y = at + 1 + i} (omega arith)
    ∙ xor_at_column next (at + 1) pkt i
        (omega (arith, length-set buf at (bit_xor (byte_at buf at) b)))
    ∙ ap (λ t. bit_xor t (byte_at pkt i))
        (get_or-set_ne 0 buf at (at + 1 + i) (bit_xor (byte_at buf at) b) (omega arith)
          ∙ ap (byte_at buf) {x = at + 1 + i} {y = at + suc i} (omega arith))

pub length-xor_each :
    (buf : List ℕ) (at : ℕ) (packets : List (List ℕ))
    → length (xor_each buf at packets) ≡ length buf
unfolding xor_each
length-xor_each buf at [] = refl
length-xor_each buf at (pkt ∷ packets) =
    length-xor_each (xor_at buf at pkt) at packets ∙ length-xor_at buf at pkt

pub xor_each_before :
    (buf : List ℕ) (at : ℕ) (packets : List (List ℕ)) (j : ℕ)
    → j < at
    → byte_at (xor_each buf at packets) j ≡ byte_at buf j
unfolding xor_each
xor_each_before buf at [] j h = refl
xor_each_before buf at (pkt ∷ packets) j h =
    xor_each_before (xor_at buf at pkt) at packets j h ∙ xor_at_before buf at pkt j h

-- The packet loop adds each column to the bytes that stand there.
pub xor_each-column :
    (buf : List ℕ) (at size : ℕ) (packets : List (List ℕ)) (i : ℕ)
    → Fits size packets
    → at + size ≤ length buf
    → byte_at (xor_each buf at packets) (at + i) ≡ bit_xor (byte_at buf (at + i)) (column packets i)
unfolding xor_each
xor_each-column buf at size [] i f h = sym (bit_xor-zero (byte_at buf (at + i)))
xor_each-column buf at size (pkt ∷ packets) i f h =
    xor_each-column (xor_at buf at pkt) at size packets i f.1
      (omega (arith, length-xor_at buf at pkt))
    ∙ ap (λ t. bit_xor t (column packets i)) (xor_at_column buf at pkt i (omega (arith, f.0)))
    ∙ bit_xor_assoc (byte_at buf (at + i)) (byte_at pkt i) (column packets i)

pub xor_each_zero :
    (buf : List ℕ) (size : ℕ) (packets : List (List ℕ)) (i : ℕ)
    → Fits size packets
    → size ≤ length buf
    → byte_at (xor_each buf 0 packets) i ≡ bit_xor (byte_at buf i) (column packets i)
xor_each_zero buf size packets i f h =
    subst (λ j. byte_at (xor_each buf 0 packets) j ≡ bit_xor (byte_at buf j) (column packets i))
      {x = 0 + i} (omega arith) (xor_each-column buf 0 size packets i f (omega arith))

pub max_size-eq : (size : ℕ) (packets : List (List ℕ)) → size ≤ max_size size packets
unfolding max_size
max_size-eq size [] = omega arith
max_size-eq size (pkt ∷ packets) =
    ground (arith, max_size-eq size packets, max_size-eq (length pkt) packets)

max_size_mono :
    (n m : ℕ) (packets : List (List ℕ)) → n ≤ m → max_size n packets ≤ max_size m packets
unfolding max_size
max_size_mono n m [] h = h
max_size_mono n m (pkt ∷ packets) h = ground (
  arith,
  max_size_mono n m packets,
  max_size_mono n (length pkt) packets,
  max_size_mono (length pkt) m packets,
)

pub Fits-max_size : (size : ℕ) (packets : List (List ℕ)) → Fits (max_size size packets) packets
unfolding max_size
Fits-max_size size [] = tt
Fits-max_size size (pkt ∷ packets) = (
  ground (arith, max_size-eq size packets, max_size-eq (length pkt) packets),
  ground (arith, Fits-max_size size packets, Fits-max_size (length pkt) packets),
)
