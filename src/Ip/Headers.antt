-- ===== src/Ip/Headers.antt =====
-- common/ip.go and vpn_server/internal/server/packet_processor.go: the readers of packet headers, one
-- against another.
use masque_vpn.Prelude.{
  ℕ, ◌+◌, ◌≤◌, ◌<◌, ◌≡◌, ◌⊎◌, refl, inl, inr, true, Option, none, some, Result, ok, err, List,
  arith, length, take, drop, length-take, length-drop, leb, le→ltb_false, dec_lt, ℕ_discrete, ◌≢◌,
}
use masque_vpn.Ip.Addr.{Addr, addr_from_slice}
use masque_vpn.Ip.Packet.{
  Outcome, returns, PacketError, Addresses, version, source_of, destination_of, get_ip_addresses,
  ipv4_addresses, ipv6_addresses,
}
use masque_vpn.Server.Parse.{parse_destination_ip, parse_source_ip}

abbrev pub value_of {ℓ} : {E : Type ℓ} → Result E Addr → Option Addr
value_of (ok a) = some a
value_of (err e) = none

-- `AddrFromSlice` takes the slices of both families.
slice_ok :
    (lo n : ℕ) (packet : List ℕ)
    → (n ≡ 4) ⊎ (n ≡ 16)
    → lo + n ≤ length packet
    → addr_from_slice (take n (drop lo packet)) ≡ (take n (drop lo packet), true)
unfolding addr_from_slice
slice_ok lo n packet kind h =
    let len : length (take n (drop lo packet)) ≡ n =
      omega (arith, length-take {0} n (drop lo packet), length-drop {0} lo packet) in
    ground arith

ipv4_addresses_lem :
    (packet : List ℕ) (len : ℕ)
    → 20 ≤ len
    → len ≤ length packet
    → ipv4_addresses packet len ≡ returns (ok (take 4 (drop 12 packet), take 4 (drop 16 packet)))
unfolding ipv4_addresses
ipv4_addresses_lem packet len h k =
    let src : leb 16 (length packet) ≡ true = ground arith in
    let dst : leb 20 (length packet) ≡ true = ground arith in
    rw (
      le→ltb_false len 20 h,
      src,
      dst,
      slice_ok 12 4 packet (inl refl) (omega arith),
      slice_ok 16 4 packet (inl refl) (omega arith),
    )

ipv6_addresses_lem :
    (packet : List ℕ) (len : ℕ)
    → 40 ≤ len
    → len ≤ length packet
    → ipv6_addresses packet len ≡ returns (ok (take 16 (drop 8 packet), take 16 (drop 24 packet)))
unfolding ipv6_addresses
ipv6_addresses_lem packet len h k =
    let src : leb 24 (length packet) ≡ true = ground arith in
    let dst : leb 40 (length packet) ≡ true = ground arith in
    rw (
      le→ltb_false len 40 h,
      src,
      dst,
      slice_ok 8 16 packet (inr refl) (omega arith),
      slice_ok 24 16 packet (inr refl) (omega arith),
    )

ipv6_short :
    (packet : List ℕ) (len : ℕ)
    → len < 40
    → (e : PacketError) × (ipv6_addresses packet len ≡ returns (err e))
unfolding ipv6_addresses
ipv6_short packet len h = (PacketError.ipv6_too_short len, ground arith)

abbrev Agree : List ℕ → Outcome Addresses → Type 0
Agree packet o =
    (r : Addresses) × (o ≡ returns r)
    × (value_of (source_of r) ≡ value_of (parse_source_ip packet))
    × (value_of (destination_of r) ≡ value_of (parse_destination_ip packet))

Agree-v4 :
    (packet : List ℕ)
    → 20 ≤ length packet
    → version packet ≡ 4
    → Agree packet (get_ip_addresses packet (length packet))
unfolding get_ip_addresses parse_source_ip parse_destination_ip
Agree-v4 packet h v = (
  ok (take 4 (drop 12 packet), take 4 (drop 16 packet)),
  ground (arith, ipv4_addresses_lem packet (length packet) h),
  ground arith,
  ground arith,
)

Agree-v6 :
    (packet : List ℕ)
    → 40 ≤ length packet
    → version packet ≡ 6
    → Agree packet (get_ip_addresses packet (length packet))
unfolding get_ip_addresses parse_source_ip parse_destination_ip
Agree-v6 packet h v = (
  ok (take 16 (drop 8 packet), take 16 (drop 24 packet)),
  ground (arith, ipv6_addresses_lem packet (length packet) h),
  ground arith,
  ground arith,
)

Agree-short_v6 :
    (packet : List ℕ)
    → 20 ≤ length packet
    → length packet < 40
    → version packet ≡ 6
    → Agree packet (get_ip_addresses packet (length packet))
unfolding get_ip_addresses parse_source_ip parse_destination_ip
Agree-short_v6 packet h k v =
    let (e, short) = ipv6_short packet (length packet) k in
    (err e, ground arith, ground arith, ground arith)

Agree-other :
    (packet : List ℕ)
    → 20 ≤ length packet
    → version packet ≢ 4
    → version packet ≢ 6
    → Agree packet (get_ip_addresses packet (length packet))
unfolding get_ip_addresses parse_source_ip parse_destination_ip
Agree-other packet h v w = (
  err (PacketError.unsupported_version (version packet)),
  ground arith,
  ground arith,
  ground arith,
)

Agree-short :
    (packet : List ℕ) → length packet < 20 → Agree packet (get_ip_addresses packet (length packet))
unfolding get_ip_addresses parse_source_ip parse_destination_ip
Agree-short packet h =
    (err (PacketError.too_short (length packet)), ground arith, ground arith, ground arith)

-- On the whole of any packet, `GetIPAddresses` does not panic, and it finds a source and a
-- destination exactly where the server's `parseSourceIP` and `parseDestinationIP` do, and the same.
pub get_ip_addresses_agree :
    (packet : List ℕ)
    → (r : Addresses) × (get_ip_addresses packet (length packet) ≡ returns r)
      × (value_of (source_of r) ≡ value_of (parse_source_ip packet))
      × (value_of (destination_of r) ≡ value_of (parse_destination_ip packet))
get_ip_addresses_agree packet = elim (dec_lt (length packet) 20) [
  | yes short ↦ Agree-short packet short
  | no long ↦ elim (ℕ_discrete (version packet) 4) [
    | yes four ↦ Agree-v4 packet (omega arith) four
    | no not_four ↦ elim (ℕ_discrete (version packet) 6) [
      | no other ↦ Agree-other packet (omega arith) not_four other
      | yes six ↦ elim (dec_lt (length packet) 40) [
        | yes short ↦ Agree-short_v6 packet (omega arith) short six
        | no whole ↦ Agree-v6 packet (omega arith) six
      ]
    ]
  ]
]
