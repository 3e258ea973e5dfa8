-- ===== src/Ip/Addr.antt =====
-- common/ip.go: addresses and prefixes, and what the file takes of net and net/netip. An address is
-- the list of its bytes, 4 or 16 of them; the zero `netip.Addr` has none. Zones are left out.
use Prim.Native.Nat.{bit_and, bit_or}
use masque_vpn.Prelude.{
  ℕ, zero, suc, ◌+◌, ◌-◌, ◌/◌, ◌%◌, ◌^◌, ◌≡◌, ◌↔◌, refl, subst, Bool, true, false, ◌&&◌, ◌||◌, List,
  [], ◌∷◌, arith, length, ltb, leb, ◌==◌, if◌then◌else◌,
}
use masque_vpn.Prelude.Assoc.{Eq}

abbrev pub Addr : Type 0
Addr = List ℕ

pub record Prefix : Type 0 where
  pub addr : Addr
  pub bits : ℕ

abbrev pub is4 : Addr → Bool
is4 a = length a == 4

unfoldable pub bytes_eq : List ℕ → List ℕ → Bool
bytes_eq [] [] = true
bytes_eq [] (y ∷ ys) = false
bytes_eq (x ∷ xs) [] = false
bytes_eq (x ∷ xs) (y ∷ ys) = x == y && bytes_eq xs ys

pub bytes_eq_sound : (xs ys : List ℕ) → bytes_eq xs ys ≡ true → xs ≡ ys
unfolding bytes_eq
bytes_eq_sound [] [] h = refl
bytes_eq_sound [] (y ∷ ys) h = cc
bytes_eq_sound (x ∷ xs) [] h = cc
bytes_eq_sound (x ∷ xs) (y ∷ ys) h = ground (arith, bytes_eq_sound xs ys)

pub bytes_eq_refl : (xs : List ℕ) → bytes_eq xs xs ≡ true
unfolding bytes_eq
bytes_eq_refl [] = refl
bytes_eq_refl (x ∷ xs) = ground (arith, bytes_eq_refl xs)

pub bytes_eq_iff : (xs ys : List ℕ) → (bytes_eq xs ys ≡ true) ↔ (xs ≡ ys)
bytes_eq_iff xs ys =
    (bytes_eq_sound xs ys, λ e. subst (λ t. bytes_eq xs t ≡ true) e (bytes_eq_refl xs))

instance abbrev pub addr_eq : Eq Addr
addr_eq = record { beq = bytes_eq; beq_iff = bytes_eq_iff }

-- The zero address stands for the failure of `netip.AddrFromSlice`.
unfoldable pub addr_from_slice : List ℕ → Addr × Bool
addr_from_slice bytes =
    if length bytes == 4 || length bytes == 16 then (bytes, true) else ([], false)

unfoldable pub bytes_le : List ℕ → List ℕ → Bool
bytes_le [] ys = true
bytes_le (x ∷ xs) [] = false
bytes_le (x ∷ xs) (y ∷ ys) = if x == y then bytes_le xs ys else ltb x y

-- `a.Compare(b) <= 0`: the shorter form first, then byte by byte.
unfoldable pub addr_le : Addr → Addr → Bool
addr_le a b = if length a == length b then bytes_le a b else ltb (length a) (length b)

-- The loop of `nextIP` from the last byte: a byte wraps at 256, and the loop goes on to the byte
-- before it while the second part says so.
unfoldable pub increment : List ℕ → List ℕ × Bool
increment [] = ([], true)
increment (b ∷ bytes) =
    let (rest, carry) = increment bytes in
    if carry then ((b + 1) % 256 ∷ rest, ((b + 1) % 256) == 0) else (b ∷ rest, false)

unfoldable pub next_ip : Addr → Addr
next_ip ip = (addr_from_slice (increment ip).0).0

-- net.CIDRMask for n bytes.
unfoldable pub cidr_mask : ℕ → ℕ → List ℕ
cidr_mask bits zero = []
cidr_mask bits (suc n) =
    let rest = cidr_mask (bits - 8) n in
    if leb 8 bits then 255 ∷ rest else (255 - 255 / 2 ^ bits) ∷ rest

-- `ip[i] |= ^mask[i]`
unfoldable pub set_host_bits : List ℕ → List ℕ → List ℕ
set_host_bits [] mask = []
set_host_bits (b ∷ bytes) [] = b ∷ bytes
set_host_bits (b ∷ bytes) (m ∷ mask) = bit_or b (255 - m) ∷ set_host_bits bytes mask

unfoldable pub clear_host_bits : List ℕ → List ℕ → List ℕ
clear_host_bits [] mask = []
clear_host_bits (b ∷ bytes) [] = b ∷ bytes
clear_host_bits (b ∷ bytes) (m ∷ mask) = bit_and b m ∷ clear_host_bits bytes mask

unfoldable pub last_ip : Prefix → Addr
last_ip prefix =
    if is4 prefix.addr
    then set_host_bits prefix.addr (cidr_mask prefix.bits 4)
    else set_host_bits prefix.addr (cidr_mask prefix.bits 16)

-- netip.Prefix.Masked
unfoldable pub masked : Prefix → Prefix
masked prefix = record prefix {
  addr = clear_host_bits prefix.addr (cidr_mask prefix.bits (length prefix.addr));
}

-- The mask of a `net.IPNet` beside its address.
pub record IpNet : Type 0 where
  pub ip : List ℕ
  pub mask : List ℕ

unfoldable pub prefix_to_ip_net : Prefix → IpNet
prefix_to_ip_net prefix =
    if is4 prefix.addr
    then record { ip = prefix.addr; mask = cidr_mask prefix.bits 4 }
    else record { ip = prefix.addr; mask = cidr_mask prefix.bits 16 }
