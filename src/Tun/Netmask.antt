-- ===== src/Tun/Netmask.antt =====
-- common/tun_windows.go: `cidrToNetmask`. The decimal text of a number is fmt's, and a parameter.
use Prim.Native.String.{String, ◌++◌ as str_append}
use masque_vpn.Prelude.{
  ℕ, zero, suc, ◌-◌, ◌*◌, ◌/◌, ◌%◌, ◌^◌, ◌≤◌, ◌<◌, ◌≡◌, refl, ap, inl, inr, Bool, true, false, ◌&&◌,
  ◌||◌, List, [], ◌∷◌, arith, ltb, ◌==◌, Bool-cases, if◌then◌else◌,
}
use masque_vpn.Prelude.Int.{ℤ, pos, negsuc, is_negative, above, pos_part}
use masque_vpn.Ip.Addr.{cidr_mask, bytes_eq, bytes_eq_iff}

-- Four numbers with dots between them.
abbrev pub dotted : (ℕ → String) → ℕ → ℕ → ℕ → ℕ → String
dotted decimal a b c d = str_append (decimal a) (
    str_append "." (
      str_append (decimal b)
        (str_append "." (str_append (decimal c) (str_append "." (decimal d))))))

-- `uint32((0xFFFFFFFF << (32 - cidr)) & 0xFFFFFFFF)`, where the shift is one of 32-bit words.
unfoldable pub netmask_word : ℕ → ℕ
netmask_word cidr = 4294967295 * 2 ^ (32 - cidr) % 2 ^ 32

unfoldable pub cidr_to_netmask : (ℕ → String) → ℤ → String
cidr_to_netmask decimal cidr =
    if is_negative cidr || above 32 cidr
    then "255.255.255.0"
    else let mask = netmask_word (pos_part cidr) in
      dotted decimal (mask / 2 ^ 24 % 256) (mask / 2 ^ 16 % 256) (mask / 2 ^ 8 % 256) (mask % 256)

abbrev netmask_bytes : ℕ → List ℕ
netmask_bytes cidr =
    let mask = netmask_word cidr in
    mask / 2 ^ 24 % 256 ∷ mask / 2 ^ 16 % 256 ∷ mask / 2 ^ 8 % 256 ∷ mask % 256 ∷ []

abbrev all_below : (ℕ → Bool) → ℕ → Bool
all_below test zero = true
all_below test (suc n) = test n && all_below test n

all_below_lem : (test : ℕ → Bool) (n k : ℕ) → all_below test n ≡ true → k < n → test k ≡ true
all_below_lem test zero k h lt = absurd (omega arith)
all_below_lem test (suc n) k h lt = elim (Bool-cases (k == n)) [
  | inl last ↦ ground (arith, ap test)
  | inr before ↦ all_below_lem test n k (ground arith) (ground arith)
]

masks_agree : all_below (λ n. bytes_eq (netmask_bytes n) (cidr_mask n 4)) 33 ≡ true
unfolding netmask_word bytes_eq cidr_mask
masks_agree = refl

netmask_bytes-cidr_mask : (n : ℕ) → n ≤ 32 → netmask_bytes n ≡ cidr_mask n 4
netmask_bytes-cidr_mask n h =
    (bytes_eq_iff (netmask_bytes n) (cidr_mask n 4)).0 (
      all_below_lem (λ k. bytes_eq (netmask_bytes k) (cidr_mask k 4)) 33 n masks_agree
        (omega arith))

-- A text for each byte of a mask, dots between them.
abbrev pub dotted_bytes : (ℕ → String) → List ℕ → String
dotted_bytes decimal [] = ""
dotted_bytes decimal (b ∷ []) = decimal b
dotted_bytes decimal (b ∷ c ∷ bytes) =
    str_append (decimal b) (str_append "." (dotted_bytes decimal (c ∷ bytes)))

-- For a prefix length from 0 to 32, `cidrToNetmask` writes the bytes of the mask that the rest of
-- the program computes with `net.CIDRMask`, in decimal with dots; for any other it writes
-- 255.255.255.0.
pub cidr_to_netmask_lem :
    (decimal : ℕ → String)
    → ((n : ℕ) → n ≤ 32 → cidr_to_netmask decimal (pos n) ≡ dotted_bytes decimal (cidr_mask n 4))
      × ((n : ℕ) → 32 < n → cidr_to_netmask decimal (pos n) ≡ "255.255.255.0")
      × ((n : ℕ) → cidr_to_netmask decimal (negsuc n) ≡ "255.255.255.0")
unfolding cidr_to_netmask
cidr_to_netmask_lem decimal = (
  λ n h.
      let inside : ltb 32 n ≡ false = ground arith in
      rw inside (ap (dotted_bytes decimal) (netmask_bytes-cidr_mask n h)),
  λ n h. let outside : ltb 32 n ≡ true = ground arith in rw outside,
  λ n. refl,
)
