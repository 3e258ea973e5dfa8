-- ===== src/Ip/Pool.antt =====
-- common/ip.go: `IPPool`. The mutex makes each call one step. Addresses are handed out first in,
-- first out.
use Prim.Native.String.{String}
use masque_vpn.Prelude.{
  ℕ, zero, suc, ◌+◌, ◌||◌, Option, none, some, Result, ok, err, List, [], ◌∷◌, ◌++◌, length,
  if◌then◌else◌,
}
use masque_vpn.Prelude.Assoc.{lookup, store, delete}
use masque_vpn.Ip.Addr.{Addr, Prefix, addr_eq, bytes_eq, addr_le, next_ip, last_ip}

pub record IpPool : Type 0 where
  pub prefix : Prefix
  pub gateway : Addr
  pub allocated : List (Addr × String)
  pub available : List Addr

abbrev pub with_first : Addr → Option (List Addr) → Option (List Addr)
with_first a none = none
with_first a (some ips) = some (a ∷ ips)

-- The loop of `NewIPPool` from `ip` on; `none` is a loop that is still running when the fuel is out.
unfoldable pub host_addresses : ℕ → Addr → Addr → Addr → Addr → Option (List Addr)
host_addresses zero gateway network end_ ip = none
host_addresses (suc fuel) gateway network end_ ip =
    let rest = host_addresses fuel gateway network end_ (next_ip ip) in
    if addr_le ip end_
    then (if bytes_eq ip gateway || bytes_eq ip network then rest else with_first ip rest)
    else some []

abbrev pub pool_of : Prefix → Addr → Option (List Addr) → Option IpPool
pool_of prefix gateway none = none
pool_of prefix gateway (some ips) =
    some (record { prefix = prefix; gateway = gateway; allocated = []; available = ips })

unfoldable pub new_ip_pool : ℕ → Prefix → Addr → Option IpPool
new_ip_pool fuel prefix gateway =
    pool_of prefix gateway
      (host_addresses fuel gateway prefix.addr (last_ip prefix) (next_ip prefix.addr))

pub data PoolError : Type 0 where
  no_available_addresses : PoolError

-- The new state beside the result; the prefix has 32 bits for every address.
unfoldable pub allocate : IpPool → String → IpPool × Result PoolError Prefix
allocate p client_id = elim p.available [
  | [] ↦ (p, err no_available_addresses)
  | ip ∷ rest ↦ (
    record p { allocated = store ip client_id p.allocated; available = rest },
    ok (record { addr = ip; bits = 32 }),
  )
]

unfoldable pub release : IpPool → Addr → IpPool
release p ip = elim (lookup ip p.allocated) [
  | some _ ↦ record p { allocated = delete ip p.allocated; available = p.available ++ ip ∷ [] }
  | none ↦ p
]

pub record PoolStats : Type 0 where
  pub total : ℕ
  pub allocated : ℕ
  pub available : ℕ

unfoldable pub stats : IpPool → PoolStats
stats p = record {
  total = length p.available + length p.allocated;
  allocated = length p.allocated;
  available = length p.available;
}
