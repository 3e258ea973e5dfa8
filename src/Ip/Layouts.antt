-- ===== src/Ip/Layouts.antt =====
-- vpn_server/internal/server/packet_processor.go: where the headers of IPv4 and IPv6 have their
-- addresses.
use masque_vpn.Prelude.{
  ℕ, ◌/◌, ◌^◌, ◌≤◌, ◌<◌, ◌≡◌, sym, ap, ap₂, ◌∙◌, ◌⊎◌, inl, inr, ok, List, ◌++◌, append_assoc, arith,
  length, take, drop, length-append, take-length_append, drop-length_append, get_or-append_left,
}
use masque_vpn.Ip.Packet.{version}
use masque_vpn.Server.Parse.{parse_destination_ip, parse_source_ip}

take_middle :
    {A : Type 0} (xs ys zs : List A) (n k : ℕ)
    → length xs ≡ n
    → length ys ≡ k
    → take k (drop n (xs ++ (ys ++ zs))) ≡ ys
take_middle xs ys zs n k e f =
    ap₂ (λ i j. take j (drop i (xs ++ (ys ++ zs)))) (sym e) (sym f)
    ∙ ap (take (length ys)) (drop-length_append xs (ys ++ zs))
    ∙ take-length_append ys zs

version-append : (xs ys : List ℕ) → 0 < length xs → version (xs ++ ys) ≡ version xs
version-append xs ys h = ap (λ t. t / 2 ^ 4) (get_or-append_left 0 xs ys 0 h)

ipv4_source :
    (packet : List ℕ)
    → 20 ≤ length packet
    → version packet ≡ 4
    → (parse_source_ip packet ≡ ok (take 4 (drop 12 packet)))
      × (parse_destination_ip packet ≡ ok (take 4 (drop 16 packet)))
unfolding parse_source_ip parse_destination_ip
ipv4_source packet h v = (ground arith, ground arith)

ipv6_source :
    (packet : List ℕ)
    → 40 ≤ length packet
    → version packet ≡ 6
    → (parse_source_ip packet ≡ ok (take 16 (drop 8 packet)))
      × (parse_destination_ip packet ≡ ok (take 16 (drop 24 packet)))
unfolding parse_source_ip parse_destination_ip
ipv6_source packet h v = (ground arith, ground arith)

-- A packet that begins with an IPv4 header (12 bytes whose first says version 4, then the source
-- and the destination) is read as just these two addresses, whatever follows them.
parse_ipv4_header :
    (head src dst rest : List ℕ)
    → length head ≡ 12
    → version head ≡ 4
    → length src ≡ 4
    → length dst ≡ 4
    → let packet = head ++ (src ++ (dst ++ rest)) in
      (parse_source_ip packet ≡ ok src) × (parse_destination_ip packet ≡ ok dst)
parse_ipv4_header head src dst rest h v s d =
    let packet = head ++ (src ++ (dst ++ rest)) in
    let len : 20 ≤ length packet = omega (
      arith,
      length-append {0} head (src ++ (dst ++ rest)),
      length-append {0} src (dst ++ rest),
      length-append {0} dst rest,
    ) in
    let (source, destination) =
      ipv4_source packet len (version-append head (src ++ (dst ++ rest)) (omega arith) ∙ v) in
    (
      source ∙ ap ok (take_middle head src (dst ++ rest) 12 4 h s),
      destination
          ∙ ap (λ t. ok (take 4 (drop 16 t))) (sym (append_assoc head src (dst ++ rest)))
          ∙ ap ok (
              take_middle (head ++ src) dst rest 16 4 (omega (arith, length-append {0} head src))
                d),
    )

-- A packet that begins with an IPv6 header (8 bytes whose first says version 6, then the source and
-- the destination) is read as just these two addresses, whatever follows them.
parse_ipv6_header :
    (head src dst rest : List ℕ)
    → length head ≡ 8
    → version head ≡ 6
    → length src ≡ 16
    → length dst ≡ 16
    → let packet = head ++ (src ++ (dst ++ rest)) in
      (parse_source_ip packet ≡ ok src) × (parse_destination_ip packet ≡ ok dst)
parse_ipv6_header head src dst rest h v s d =
    let packet = head ++ (src ++ (dst ++ rest)) in
    let len : 40 ≤ length packet = omega (
      arith,
      length-append {0} head (src ++ (dst ++ rest)),
      length-append {0} src (dst ++ rest),
      length-append {0} dst rest,
    ) in
    let (source, destination) =
      ipv6_source packet len (version-append head (src ++ (dst ++ rest)) (omega arith) ∙ v) in
    (
      source ∙ ap ok (take_middle head src (dst ++ rest) 8 16 h s),
      destination
          ∙ ap (λ t. ok (take 16 (drop 24 t))) (sym (append_assoc head src (dst ++ rest)))
          ∙ ap ok (
              take_middle (head ++ src) dst rest 24 16 (omega (arith, length-append {0} head src))
                d),
    )

-- A packet that begins with the header of IPv4 (12 bytes whose first says version 4, then source and
-- destination in 4 bytes each) or of IPv6 (8 bytes whose first says version 6, then the two in 16
-- bytes each) is read as just these two addresses, whatever follows them.
pub parse_headers :
    (head src dst rest : List ℕ)
    → ((length head ≡ 12) × (version head ≡ 4) × (length src ≡ 4) × (length dst ≡ 4))
      ⊎ ((length head ≡ 8) × (version head ≡ 6) × (length src ≡ 16) × (length dst ≡ 16))
    → let packet = head ++ (src ++ (dst ++ rest)) in
      (parse_source_ip packet ≡ ok src) × (parse_destination_ip packet ≡ ok dst)
parse_headers head src dst rest (inl (h, v, s, d)) = parse_ipv4_header head src dst rest h v s d
parse_headers head src dst rest (inr (h, v, s, d)) = parse_ipv6_header head src dst rest h v s d
