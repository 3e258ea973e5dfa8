-- ===== src/Ip/Packet.antt =====
-- common/ip.go and vpn_server/internal/server/packet_processor.go: the addresses in the header of an
-- IP packet. A read or a slice beyond the packet panics.
use masque_vpn.Prelude.{
  ℕ, ◌-◌, ◌/◌, ◌^◌, Bool, true, false, Result, ok, err, List, length, get_or, take, drop, ltb, leb,
  ◌==◌, if◌then◌else◌,
}
use masque_vpn.Ip.Addr.{Addr, addr_from_slice}

pub data PacketError : Type 0 where
  too_short : ℕ → PacketError
  ipv4_too_short ipv6_too_short : ℕ → PacketError
  invalid_source_ipv4 invalid_destination_ipv4 : PacketError
  invalid_source_ipv6 invalid_destination_ipv6 : PacketError
  unsupported_version : ℕ → PacketError

-- The result of a function that may panic.
pub data Outcome {ℓ} (A : Type ℓ) : Type ℓ where
  returns : A → Outcome A
  panics : Outcome A

-- `packet[lo:hi]`, for a packet whose capacity is its length.
abbrev pub slice : List ℕ → ℕ → ℕ → Outcome (List ℕ)
slice packet lo hi =
    if leb hi (length packet) then returns (take (hi - lo) (drop lo packet)) else panics

infixl 5 ◌>>=◌
abbrev pub ◌>>=◌ {ℓ κ} : {A : Type ℓ} {B : Type κ} → Outcome A → (A → Outcome B) → Outcome B
returns a >>= f = f a
panics >>= f = panics

abbrev pub Addresses : Type 0
Addresses = Result PacketError (Addr × Addr)

abbrev pub pair_of : Addr × Bool → Addr × Bool → PacketError → PacketError → Addresses
pair_of (src, false) d bad_src bad_dst = err bad_src
pair_of (src, true) (dst, false) bad_src bad_dst = err bad_dst
pair_of (src, true) (dst, true) bad_src bad_dst = ok (src, dst)

unfoldable pub ipv4_addresses : List ℕ → ℕ → Outcome Addresses
ipv4_addresses packet len = if ltb len 20 then returns (err (ipv4_too_short len)) else do
  src ← slice packet 12 16
  dst ← slice packet 16 20
  returns (
      pair_of (addr_from_slice src) (addr_from_slice dst) invalid_source_ipv4
        invalid_destination_ipv4)

unfoldable pub ipv6_addresses : List ℕ → ℕ → Outcome Addresses
ipv6_addresses packet len = if ltb len 40 then returns (err (ipv6_too_short len)) else do
  src ← slice packet 8 24
  dst ← slice packet 24 40
  returns (
      pair_of (addr_from_slice src) (addr_from_slice dst) invalid_source_ipv6
        invalid_destination_ipv6)

abbrev pub version : List ℕ → ℕ
version packet = get_or packet 0 0 / 2 ^ 4

unfoldable pub get_ip_addresses : List ℕ → ℕ → Outcome Addresses
get_ip_addresses packet len =
    if ltb len 20
    then returns (err (too_short len))
    else if length packet == 0
    then panics
    else if version packet == 4
    then ipv4_addresses packet len
    else if version packet == 6
    then ipv6_addresses packet len
    else returns (err (unsupported_version (version packet)))

abbrev pub source_of : Addresses → Result PacketError Addr
source_of (ok (src, dst)) = ok src
source_of (err e) = err e

abbrev pub destination_of : Addresses → Result PacketError Addr
destination_of (ok (src, dst)) = ok dst
destination_of (err e) = err e

unfoldable pub get_source_ip : List ℕ → ℕ → Outcome (Result PacketError Addr)
get_source_ip packet len = do addrs ← get_ip_addresses packet len; returns (source_of addrs)

unfoldable pub get_destination_ip : List ℕ → ℕ → Outcome (Result PacketError Addr)
get_destination_ip packet len = do
  addrs ← get_ip_addresses packet len
  returns (destination_of addrs)
