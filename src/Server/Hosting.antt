-- ===== src/Server/Hosting.antt =====
-- vpn_server/internal/server/server.go: the server that `New` returns, and what `Close` leaves of it.
use Prim.Native.String.{String}
use text.Mathlib.Text.{◌==◌ as str_eq}
use text.Mathlib.TextEquality.{eq_iff}
use masque_vpn.Prelude.{
  ℕ, ◌+◌, ◌≤◌, ◌<◌, ◌≡◌, ◌≢◌, refl, sym, ap, subst, ◌∙◌, inl, inr, Option, none, some, Result, ok,
  err, List, [], ◌∷◌, ◌++◌, arith, Bool-cases,
}
use masque_vpn.Prelude.Assoc.{string_eq}
use masque_vpn.Configuration.{ServerConfig}
use masque_vpn.Ip.Addr.{Prefix, addr_eq, last_ip, masked, next_ip}
use masque_vpn.Ip.Count.{IsAddr, space, value}
use masque_vpn.Ip.Network.{NetworkInfo, new_network_info}
use masque_vpn.Ip.Pool.{IpPool}
use masque_vpn.Ip.Hosts.{ListsHosts}
use masque_vpn.Ip.Listing.{new_ip_pool_lists}
use masque_vpn.Ip.Leases.{init-IsSound}
use masque_vpn.Tun.Platform.{Platform, Texts}
use masque_vpn.Tun.Device.{Os, TunDevice, Created, ip_net_of, create_tun_device}
use masque_vpn.Tun.Opening.{open_after, open_after-append, Opens, create_tun_device_lem}
use masque_vpn.Server.State.{Server}
use masque_vpn.Server.Ownership.{init-OneHolder}
use masque_vpn.Server.Tenancy.{AllLeased, OneHolder-IsTenancy}
use masque_vpn.Server.Sessions.{close_clients}
use masque_vpn.Server.Start.{
  NewError, Running, Started, initial, with_tun, close_tun, with_pool, with_network, new_server,
  close_server,
}

abbrev pub devices : Result NewError Running → List ℕ
devices (err e) = []
devices (ok r) = elim r.tun_dev [ none ↦ [] | some d ↦ d.device ∷ [] ]

-- A server that has started serves nobody, and its pool lists the hosts of the network. Only where
-- a device is asked for can the start fail.
abbrev pub IsFresh : ServerConfig → Prefix → Result NewError Running → Type 0
IsFresh c network (err e) = c.tun_name ≢ ""
IsFresh c network (ok r) =
    AllLeased r.server
    × (r.server.client_ip_map ≡ [])
    × (r.server.ip_pool.allocated ≡ [])
    × ListsHosts (next_ip network.addr) network.addr (last_ip network) (next_ip network.addr)
        r.server.ip_pool.available

-- A prefix for which `NewIPPool` ends, and fuel for it.
pub record IsServable (fuel : ℕ) (network : Prefix) : Type 0 where
  pub is_addr : IsAddr network.addr
  pub room : value (last_ip network) + 1 < space (last_ip network)
  pub fits : value (last_ip network) + 1 ≤ fuel + value network.addr

abbrev pub Serves : ServerConfig → Prefix → Started → Type 0
Serves c network s =
    (r : Result NewError Running) × (s.0 ≡ some r)
    × (open_after [] s.1 ≡ devices r)
    × IsFresh c network r

abbrev network_info : Prefix → NetworkInfo
network_info network = record {
  prefix = network;
  gateway = record { addr = next_ip network.addr; bits = network.bits };
}

ListsPool : Prefix → IpPool → Type 0
ListsPool network p =
    (p.allocated ≡ [])
    × ListsHosts (next_ip network.addr) network.addr (last_ip network) (next_ip network.addr)
        p.available

initial-IsFresh :
    (c : ServerConfig) (network : Prefix) (p : IpPool) (status : ℕ)
    → ListsPool network p
    → AllLeased (initial c p status)
unfolding ListsPool
initial-IsFresh c network p status (empty, lists) =
    OneHolder-IsTenancy p [] (init-OneHolder p (init-IsSound p empty lists.distinct) empty)

with_tun-Serves :
    (platform : Platform) (t : Texts) (os : Os) (c : ServerConfig) (network : Prefix) (p : IpPool)
    → ListsPool network p
    → c.tun_name ≢ ""
    → (created : Created)
    → Opens platform t os
        (ip_net_of (record { addr = next_ip network.addr; bits = network.bits }))
        created
    → Serves c network (with_tun c p created)
unfolding ListsPool
with_tun-Serves platform t os c network p lists named (err e, effects) (open_, configured) =
    (err (NewError.failed_to_create_tun_device e), refl, open_, named)
with_tun-Serves platform t os c network p lists named (ok d, effects) (open_, configured) = (
  ok (record { server = initial c p 1; tun_dev = some d }),
  refl,
  open_,
  (initial-IsFresh c network p 1 lists, refl, lists.0, lists.1),
)

with_pool-Serves :
    (platform : Platform) (t : Texts) (os : Os) (c : ServerConfig) (network : Prefix) (p : IpPool)
    → ListsPool network p
    → Serves c network (with_pool platform t os c (network_info network) (some p))
unfolding ListsPool
with_pool-Serves platform t os c network p lists = elim (Bool-cases (str_eq c.tun_name "")) [
  | inl unnamed ↦ rw unnamed (
    ok (record { server = initial c p 0; tun_dev = none }),
    refl,
    refl,
    (initial-IsFresh c network p 0 lists, refl, lists.0, lists.1),
  )
  | inr named ↦
      let gateway : Prefix = record { addr = next_ip network.addr; bits = network.bits } in
      rw named (
        with_tun-Serves platform t os c network p lists (λ e. ground (arith, eq_iff c.tun_name ""))
          (create_tun_device platform t os c.tun_name (ip_net_of gateway) c.mtu)
          (create_tun_device_lem platform t os c.tun_name (ip_net_of gateway) c.mtu))
]

pub new_server-Serves :
    (parse_prefix : String → Option Prefix) (fuel : ℕ) (platform : Platform) (t : Texts) (os : Os)
    (c : ServerConfig) (p : Prefix)
    → parse_prefix c.assign_cidr ≡ some p
    → IsServable fuel (masked p)
    → Serves c (masked p) (new_server parse_prefix fuel platform t os c)
unfolding new_server new_network_info ListsPool
new_server-Serves parse_prefix fuel platform t os c p parses able =
    let network = masked p in
    let (pool, makes, empty, lists, up) =
      new_ip_pool_lists fuel network (next_ip network.addr) able.is_addr able.room able.fits in
    let parsed : new_network_info parse_prefix c.assign_cidr ≡ ok (network_info network) =
      rw (parses, new_network_info) in
    subst (λ n. Serves c network (with_network fuel platform t os c n)) (sym parsed)
      (subst (λ o. Serves c network (with_pool platform t os c (network_info network) o))
        (sym makes) (with_pool-Serves platform t os c network pool (empty, lists)))

close_tun-closes :
    (o : Option TunDevice) (s : Server)
    → open_after (elim o [ none ↦ [] | some d ↦ d.device ∷ [] ]) (close_tun o s).1 ≡ []
close_tun-closes none s = refl
close_tun-closes (some d) s = ground arith

close_server-closes : (r : Running) → open_after (devices (ok r)) (close_server r).1 ≡ []
unfolding close_server
close_server-closes r = close_tun-closes r.tun_dev (close_clients r.server.client_ip_map r.server)

-- Where the text of the network is that of a prefix for which the pool can be made: `New` ends. It
-- leaves a device open exactly if it returns a server that has it. It fails only where a device is
-- asked for; otherwise the server has no client yet, no address is allocated, and those available
-- are the hosts of the network but the gateway, each once. `Close` then leaves no device open.
pub new_server_lem :
    (parse_prefix : String → Option Prefix) (fuel : ℕ) (platform : Platform) (t : Texts) (os : Os)
    (c : ServerConfig) (p : Prefix)
    → parse_prefix c.assign_cidr ≡ some p
    → IsServable fuel (masked p)
    → let s = new_server parse_prefix fuel platform t os c in
      Serves c (masked p) s
      × ((r : Running) → s.0 ≡ some (ok r) → open_after [] (s.1 ++ (close_server r).1) ≡ [])
new_server_lem parse_prefix fuel platform t os c p parses able =
    let serves = new_server-Serves parse_prefix fuel platform t os c p parses able in
    (
      serves,
      λ r e.
          let (started, given, open_, fresh) = serves in
          let same : some started ≡ some (ok r) = sym given ∙ e in
          let left : open_after [] (new_server parse_prefix fuel platform t os c).1
              ≡ devices (ok r) =
            open_ ∙ ap devices {x = started} {y = ok r} (ground arith) in
          open_after-append [] (new_server parse_prefix fuel platform t os c).1 (close_server r).1
          ∙ ap (λ h. open_after h (close_server r).1) left
          ∙ close_server-closes r,
    )
