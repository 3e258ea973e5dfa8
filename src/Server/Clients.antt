-- ===== src/Server/Clients.antt =====
-- vpn_server/internal/server/server.go: from the configuration to the addresses of the clients.
use Prim.Native.String.{String}
use masque_vpn.Prelude.{
  ℕ, ◌+◌, ◌≤◌, ◌<◌, ◌≡◌, ◌≢◌, sym, ap, subst, ◌∙◌, inl, inr, true, Option, none, some, ok, List, [],
  ◌∷◌, arith, All, Bool-cases,
}
use masque_vpn.Prelude.Assoc.{string_eq, lookup}
use masque_vpn.Configuration.{ServerConfig}
use masque_vpn.Ip.Addr.{Addr, Prefix, addr_eq, bytes_eq, bytes_eq_iff, last_ip, masked, next_ip}
use masque_vpn.Ip.Count.{value}
use masque_vpn.Ip.Range.{SameKind}
use masque_vpn.Ip.Pool.{IpPool}
use masque_vpn.Ip.Hosts.{member, ListsHosts}
use masque_vpn.Ip.Listing.{new_ip_pool_lists}
use masque_vpn.Ip.Leases.{owns}
use masque_vpn.Tun.Platform.{Platform, Texts}
use masque_vpn.Tun.Device.{Os}
use masque_vpn.Server.Steps.{Event, run}
use masque_vpn.Server.Tenancy.{AllInTime, run-AllLeased, run-owns}
use masque_vpn.Server.Start.{Running, new_server}
use masque_vpn.Server.Hosting.{IsFresh, IsServable, new_server-Serves}

-- An address of the network that is neither its own nor the gateway's.
abbrev pub IsHost : Prefix → Addr → Type 0
IsHost network a =
    SameKind a (last_ip network)
    × (value network.addr < value a)
    × (value a ≤ value (last_ip network))
    × (a ≢ next_ip network.addr)
    × (a ≢ network.addr)

All-member :
    (P : Addr → Type 0) (ips : List Addr) (a : Addr) → All P ips → member a ips ≡ true → P a
All-member P [] a all listed = absurd (cc)
All-member P (ip ∷ ips) a all listed = elim (Bool-cases (bytes_eq ip a)) [
  | inl same ↦ subst P ((bytes_eq_iff ip a).0 same) all.0
  | inr apart ↦ All-member P ips a all.1 (ground arith)
]

owns-IsHost :
    (network : Prefix) (p : IpPool) (a : Addr)
    → p.allocated ≡ []
    → ListsHosts
        (next_ip network.addr)
        network.addr
        (last_ip network)
        (next_ip network.addr)
        p.available
    → value (next_ip network.addr) ≡ value network.addr + 1
    → owns p a ≡ true
    → IsHost network a
unfolding lookup
owns-IsHost network p a empty lists up owned =
    let unheld : lookup a p.allocated ≡ none = ap (lookup a) empty in
    let listed : member a p.available ≡ true = ground arith in
    let (kind, above, upto, apart, other) = All-member _ p.available a lists.only_hosts listed in
    (kind, omega arith, upto, apart, other)

-- From the configuration to the addresses of the clients: on a server that `New` returned for a
-- network whose pool can be made, after any interleaving of the handlers in which addresses are
-- given back in time, every client's address is a host of that network: of its kind, above the
-- network's own address, at most its last one, and not the gateway.
pub clients_have_hosts :
    (parse_prefix : String → Option Prefix) (fuel : ℕ) (platform : Platform) (t : Texts) (os : Os)
    (c : ServerConfig) (p : Prefix) (r : Running) (es : List Event)
    → parse_prefix c.assign_cidr ≡ some p
    → IsServable fuel (masked p)
    → (new_server parse_prefix fuel platform t os c).0 ≡ some (ok r)
    → AllInTime r.server es
    → (client : String) (a : Addr) → lookup client (run r.server es).client_ip_map ≡ some a
    → IsHost (masked p) a
clients_have_hosts parse_prefix fuel platform t os c p r es parses able starts in_time client a
      has =
    let (started, given, open_, fresh) =
      new_server-Serves parse_prefix fuel platform t os c p parses able in
    let same : ok r ≡ started = ground arith in
    let (all, nobody, empty, lists) = subst (IsFresh c (masked p)) (sym same) fresh in
    let (pool, makes, none_held, listed, up) =
      new_ip_pool_lists fuel (masked p) (next_ip (masked p).addr) able.is_addr able.room
        able.fits in
    let tenancy = run-AllLeased r.server es all in_time in
    let leased : lookup a (run r.server es).ip_pool.allocated ≡ some client =
      tenancy.leased client a has in
    let owned : owns (run r.server es).ip_pool a ≡ true = ground arith in
    owns-IsHost (masked p) r.server.ip_pool a empty lists up
      (sym (run-owns r.server es a all in_time) ∙ owned)
