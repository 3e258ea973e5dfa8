-- ===== src/Ip/Range.antt =====
-- common/ip.go: addresses of one kind in order, and `LastIP`.
use Prim.Native.Nat.{bit_or}
use native.Mathlib.Nat.{mod-eq_of_lt, mul-le-mul_right}
use masque_vpn.Prelude.Or.{le-bit_or, bit_or-lt}
use masque_vpn.Prelude.{
  ℕ, suc, ◌+◌, ◌-◌, ◌*◌, ◌^◌, ◌≤◌, ◌<◌, ◌≡◌, ◌↔◌, ◌⊎◌, refl, sym, ap, ap₂, subst, ◌∙◌, inl, inr,
  true, false, List, [], ◌∷◌, arith, length, ◌==◌, ==_iff, Bool-cases, dec_le,
}
use masque_vpn.Ip.Addr.{
  Addr, Prefix, bytes_le, addr_le, next_ip, last_ip, is4, set_host_bits, cidr_mask,
}
use masque_vpn.Ip.Count.{IsBytes, IsAddr, space, value, value-lt, next_ip-value, bytes_le-value}

-- Two addresses of one kind.
abbrev pub SameKind : Addr → Addr → Type 0
SameKind a b = IsAddr a × IsAddr b × (length a ≡ length b)

pub addr_le-value : (a b : Addr) → SameKind a b → (addr_le a b ≡ true) ↔ (value a ≤ value b)
unfolding addr_le
addr_le-value a b (p, q, e) = rw ((==_iff (length a) (length b)).1 e) (bytes_le-value a b p.0 q.0 e)

pub next_ip-SameKind : (a b : Addr) → SameKind a b → SameKind (next_ip a) b
next_ip-SameKind a b (p, q, e) = ((next_ip-value a p).0, q, (next_ip-value a p).1 ∙ e)

-- Below the highest address, the next one is one above.
pub next_value : (a b : Addr) → SameKind a b → value a < value b → value (next_ip a) ≡ value a + 1
next_value a b (p, q, e) h =
    let top : value b < space a = subst (λ n. value b < 256 ^ n) (sym e) (value-lt b q.0) in
    (next_ip-value a p).2 ∙ mod-eq_of_lt (omega arith)

bytes_le_antisymm :
    (a b : List ℕ) → length a ≡ length b → bytes_le a b ≡ true → bytes_le b a ≡ true → a ≡ b
unfolding bytes_le
bytes_le_antisymm [] [] e p q = refl
bytes_le_antisymm [] (y ∷ b) e p q = absurd (omega arith)
bytes_le_antisymm (x ∷ a) [] e p q = absurd (omega arith)
bytes_le_antisymm (x ∷ a) (y ∷ b) e p q =
    let same : length a ≡ length b = omega arith in
    elim (Bool-cases (x == y)) [
      | inl h ↦
          ap₂ ◌∷◌ ((==_iff x y).0 h) (bytes_le_antisymm a b same (ground arith) (ground arith))
      | inr h ↦ absurd (ground arith)
    ]

pub value-injective : (a b : Addr) → SameKind a b → value a ≡ value b → a ≡ b
value-injective a b (p, q, e) h =
    bytes_le_antisymm a b e ((bytes_le-value a b p.0 q.0 e).1 (omega arith))
      ((bytes_le-value b a q.0 p.0 (sym e)).1 (omega arith))

pub addr_le-false : (a b : Addr) → SameKind a b → addr_le a b ≡ false → value b < value a
addr_le-false a b kind h = elim (dec_le (value a) (value b)) [
  | yes le ↦ let on : addr_le a b ≡ true = (addr_le-value a b kind).1 le in absurd (cc)
  | no gt ↦ omega arith
]

or_mask-IsBytes :
    (bytes mask : List ℕ)
    → IsBytes bytes
    → IsBytes (set_host_bits bytes mask)
      × (length (set_host_bits bytes mask) ≡ length bytes)
      × (value bytes ≤ value (set_host_bits bytes mask))
unfolding set_host_bits
or_mask-IsBytes [] mask h = (tt, refl, omega arith)
or_mask-IsBytes (b ∷ bytes) [] h = (h, refl, omega arith)
or_mask-IsBytes (b ∷ bytes) (m ∷ mask) h =
    let (rest_bytes, rest_len, rest_le) = or_mask-IsBytes bytes mask h.1 in
    let rest = set_host_bits bytes mask in
    let same : space rest ≡ space bytes = ap (λ n. 256 ^ n) rest_len in
    let lead : b * space bytes ≤ bit_or b (255 - m) * space bytes =
      mul-le-mul_right (space bytes) (le-bit_or b (255 - m)) in
    let moved : bit_or b (255 - m) * space rest ≡ bit_or b (255 - m) * space bytes =
      ap (λ t. bit_or b (255 - m) * t) same in
    ((bit_or-lt 8 b (255 - m) h.0 (omega arith), rest_bytes), ap suc rest_len, omega arith)

-- `LastIP` returns an address of the same kind, not below the prefix's own.
pub last_ip-SameKind :
    (p : Prefix) → IsAddr p.addr → SameKind p.addr (last_ip p) × (value p.addr ≤ value (last_ip p))
unfolding last_ip
last_ip-SameKind p (bytes, kind) = elim (Bool-cases (is4 p.addr)) [
  | inl v4 ↦ rw v4 (packed (cidr_mask p.bits 4))
  | inr v6 ↦ rw v6 (packed (cidr_mask p.bits 16))
]
  where
    packed :
        (mask : List ℕ)
        → SameKind p.addr (set_host_bits p.addr mask)
          × (value p.addr ≤ value (set_host_bits p.addr mask))
    packed mask =
        let (all, len, le) = or_mask-IsBytes p.addr mask bytes in
        (((bytes, kind), (all, subst (λ n. (n ≡ 4) ⊎ (n ≡ 16)) (sym len) kind), sym len), le)
