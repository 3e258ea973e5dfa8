-- ===== src/Ip/Listing.antt =====
-- common/ip.go: `NewIPPool`, when its loop ends and which addresses the pool has then.
use native.Mathlib.Nat.{mod-eq_of_lt}
use masque_vpn.Prelude.{
  ℕ, zero, suc, ◌+◌, ◌^◌, ◌≤◌, ◌<◌, ◌≡◌, refl, ap, ◌∙◌, inl, inr, none, some, [], arith, Bool-cases,
}
use masque_vpn.Ip.Addr.{Addr, Prefix, addr_le, next_ip, last_ip}
use masque_vpn.Ip.Count.{IsAddr, space, value, next_ip-value}
use masque_vpn.Ip.Range.{SameKind, addr_le-value, next_ip-SameKind, addr_le-false, last_ip-SameKind}
use masque_vpn.Ip.Pool.{IpPool, host_addresses, pool_of, new_ip_pool}
use masque_vpn.Ip.Hosts.{ListsHosts, ListsHosts-done, Lists, round-Lists, host_addresses_runs_on}

host_addresses_from :
    (fuel : ℕ) (gateway network end_ ip : Addr)
    → SameKind ip end_
    → value end_ + 1 < space end_
    → value ip ≤ value end_ + 1
    → value end_ + 2 ≤ fuel + value ip
    → Lists gateway network end_ ip (host_addresses fuel gateway network end_ ip)
unfolding host_addresses
host_addresses_from zero gateway network end_ ip kind room near fits = absurd (omega arith)
host_addresses_from (suc fuel) gateway network end_ ip kind room near fits =
    elim (Bool-cases (addr_le ip end_)) [
      | inr stop ↦
          rw stop
            ([], refl, ListsHosts-done gateway network end_ ip (addr_le-false ip end_ kind stop))
      | inl on ↦
          let inside : value ip ≤ value end_ = (addr_le-value ip end_ kind).0 on in
          let up : value (next_ip ip) ≡ value ip + 1 =
            (next_ip-value ip kind.0).2 ∙ mod-eq_of_lt (omega (arith, ap (λ n. 256 ^ n) kind.2)) in
          let rest : Lists gateway network end_ (next_ip ip)
              (host_addresses fuel gateway network end_ (next_ip ip)) =
            host_addresses_from fuel gateway network end_ (next_ip ip)
              (next_ip-SameKind ip end_ kind) room (omega arith) (omega arith) in
          rw on (
            round-Lists gateway network end_ ip kind inside up
              (host_addresses fuel gateway network end_ (next_ip ip)) rest)
    ]

-- For a prefix with an IPv4 or IPv6 address whose last address is not the highest of its kind, and
-- fuel for the addresses between: `NewIPPool` ends, with nothing allocated and every address above
-- the network address up to the last one available, but the gateway and the network address.
pub new_ip_pool_lists :
    (fuel : ℕ) (prefix : Prefix) (gateway : Addr)
    → IsAddr prefix.addr
    → value (last_ip prefix) + 1 < space (last_ip prefix)
    → value (last_ip prefix) + 1 ≤ fuel + value prefix.addr
    → (p : IpPool) × (new_ip_pool fuel prefix gateway ≡ some p)
      × (p.allocated ≡ [])
      × ListsHosts gateway prefix.addr (last_ip prefix) (next_ip prefix.addr) p.available
      × (value (next_ip prefix.addr) ≡ value prefix.addr + 1)
unfolding new_ip_pool
new_ip_pool_lists fuel prefix gateway a room fits =
    let (kind, le) = last_ip-SameKind prefix a in
    let up : value (next_ip prefix.addr) ≡ value prefix.addr + 1 =
      (next_ip-value prefix.addr a).2 ∙ mod-eq_of_lt (omega (arith, ap (λ n. 256 ^ n) kind.2)) in
    let (ips, e, lists) =
      host_addresses_from fuel gateway prefix.addr (last_ip prefix) (next_ip prefix.addr)
        (next_ip-SameKind prefix.addr (last_ip prefix) kind) room (omega arith) (omega arith) in
    (
      record { prefix = prefix; gateway = gateway; allocated = []; available = ips },
      ap (pool_of prefix gateway) e,
      refl,
      lists,
      up,
    )

-- For a prefix whose last address is the highest of its kind, such as 255.255.255.0/24 or
-- 0.0.0.0/0, `NewIPPool` does not end: its loop wraps to 0 and is still running at every fuel.
pub new_ip_pool_runs_on :
    (fuel : ℕ) (prefix : Prefix) (gateway : Addr)
    → IsAddr prefix.addr
    → value (last_ip prefix) + 1 ≡ space (last_ip prefix)
    → new_ip_pool fuel prefix gateway ≡ none
unfolding new_ip_pool
new_ip_pool_runs_on fuel prefix gateway a top =
    let kind = (last_ip-SameKind prefix a).0 in
    ap (pool_of prefix gateway) (
      host_addresses_runs_on fuel gateway prefix.addr (last_ip prefix) (next_ip prefix.addr)
        (next_ip-SameKind prefix.addr (last_ip prefix) kind) top)
