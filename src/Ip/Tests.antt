-- ===== src/Ip/Tests.antt =====
-- common/ip.go: concrete runs, some of them from ip_test.go.
use masque_vpn.Prelude.{
  ℕ, ◌+◌, ◌≡◌, inl, inr, refl, ap, none, some, ok, List, [], ◌∷◌, ◌++◌, arith, length,
}
use masque_vpn.Ip.Addr.{Addr, Prefix, addr_eq, next_ip, cidr_mask, set_host_bits, last_ip}
use masque_vpn.Ip.Packet.{Addresses, returns, get_ip_addresses, source_of, destination_of}
use masque_vpn.Ip.Pool.{IpPool, new_ip_pool, stats}
use masque_vpn.Ip.Count.{IsAddr, value}
use masque_vpn.Ip.Hosts.{ListsHosts}
use masque_vpn.Ip.Listing.{new_ip_pool_lists, new_ip_pool_runs_on}
use masque_vpn.Ip.Leases.{IsSound, owns, init-IsSound}
use masque_vpn.Ip.Histories.{Call, allocates, releases, run, run_keeps}
use masque_vpn.Ip.Headers.{value_of, get_ip_addresses_agree}
use masque_vpn.Ip.Layouts.{parse_headers}
use masque_vpn.Server.Parse.{parse_source_ip, parse_destination_ip}

abbrev base_10 : Addr
base_10 = 10 ∷ 0 ∷ 0 ∷ 0 ∷ []

abbrev net_10 : Prefix
net_10 = record { addr = base_10; bits = 30 }

abbrev gateway_10 : Addr
gateway_10 = 10 ∷ 0 ∷ 0 ∷ 1 ∷ []

net_10-IsAddr : IsAddr base_10
net_10-IsAddr = ((omega arith, (omega arith, (omega arith, (omega arith, tt)))), inl refl)

last_ip_10 : last_ip net_10 ≡ 10 ∷ 0 ∷ 0 ∷ 3 ∷ []
unfolding last_ip set_host_bits cidr_mask
last_ip_10 = refl

new_ip_pool_lists_example :
    (p : IpPool) × (new_ip_pool 4 net_10 gateway_10 ≡ some p)
    × (p.allocated ≡ [])
    × ListsHosts gateway_10 base_10 (last_ip net_10) (next_ip base_10) p.available
    × (value (next_ip base_10) ≡ value base_10 + 1)
unfolding last_ip set_host_bits cidr_mask
new_ip_pool_lists_example =
    new_ip_pool_lists 4 net_10 gateway_10 net_10-IsAddr (omega arith) (omega arith)

abbrev net_255 : Prefix
net_255 = record { addr = 255 ∷ 255 ∷ 255 ∷ 0 ∷ []; bits = 24 }

new_ip_pool_runs_on_example : new_ip_pool 1000 net_255 (255 ∷ 255 ∷ 255 ∷ 1 ∷ []) ≡ none
unfolding last_ip set_host_bits cidr_mask
new_ip_pool_runs_on_example =
    new_ip_pool_runs_on 1000 net_255 (255 ∷ 255 ∷ 255 ∷ 1 ∷ [])
      ((omega arith, (omega arith, (omega arith, (omega arith, tt)))), inl refl) refl

abbrev two_addresses : IpPool
two_addresses = record {
  prefix = net_10;
  gateway = gateway_10;
  allocated = [];
  available = (10 ∷ 0 ∷ 0 ∷ 2 ∷ []) ∷ (10 ∷ 0 ∷ 0 ∷ 3 ∷ []) ∷ [];
}

two_addresses-IsSound : IsSound two_addresses
two_addresses-IsSound =
    init-IsSound two_addresses refl (((λ e. omega (arith, ap value e)), tt), (tt, tt))

abbrev three_calls : List Call
three_calls = allocates "a" ∷ releases (10 ∷ 0 ∷ 0 ∷ 2 ∷ []) ∷ allocates "b" ∷ []

run_keeps_example :
    IsSound (run two_addresses three_calls)
    × ((a : Addr) → owns (run two_addresses three_calls) a ≡ owns two_addresses a)
    × ((stats (run two_addresses three_calls)).total ≡ (stats two_addresses).total)
run_keeps_example = run_keeps two_addresses three_calls two_addresses-IsSound

abbrev ping : List ℕ
ping = 69 ∷ 0 ∷ 0 ∷ 20 ∷ 0 ∷ 0 ∷ 0 ∷ 0 ∷ 64 ∷ 1 ∷ 0 ∷ 0 ∷ 10 ∷ 0 ∷ 0 ∷ 2 ∷ 10 ∷ 0 ∷ 0 ∷ 1 ∷ []

get_ip_addresses_agree_example :
    (r : Addresses) × (get_ip_addresses ping (length ping) ≡ returns r)
    × (value_of (source_of r) ≡ value_of (parse_source_ip ping))
    × (value_of (destination_of r) ≡ value_of (parse_destination_ip ping))
get_ip_addresses_agree_example = get_ip_addresses_agree ping

abbrev host_v6 : ℕ → Addr
host_v6 n = 253 ∷ 0 ∷ 0 ∷ 0 ∷ 0 ∷ 0 ∷ 0 ∷ 0 ∷ 0 ∷ 0 ∷ 0 ∷ 0 ∷ 0 ∷ 0 ∷ 0 ∷ n ∷ []

abbrev head_v6 : List ℕ
head_v6 = 96 ∷ 0 ∷ 0 ∷ 0 ∷ 0 ∷ 0 ∷ 58 ∷ 64 ∷ []

parse_headers_example :
    let packet = head_v6 ++ (host_v6 2 ++ (host_v6 1 ++ [])) in
    (parse_source_ip packet ≡ ok (host_v6 2)) × (parse_destination_ip packet ≡ ok (host_v6 1))
parse_headers_example =
    parse_headers head_v6 (host_v6 2) (host_v6 1) [] (inr (refl, refl, refl, refl))
