-- ===== src/Tun/Tests.antt =====
-- common/tun.go: concrete runs.
use Prim.Native.String.{String, ◌++◌ as str_append}
use masque_vpn.Prelude.{
  ℕ, ◌≡◌, ◌≤◌, ◌<◌, refl, none, ok, List, [], ◌∷◌, true, ltb, if◌then◌else◌, ◌/◌, ◌%◌, get_or,
}
use masque_vpn.Prelude.Int.{pos, negsuc}
use masque_vpn.Ip.Addr.{IpNet, cidr_mask}
use masque_vpn.Tun.Netmask.{cidr_to_netmask, dotted_bytes, cidr_to_netmask_lem}
use masque_vpn.Tun.Platform.{Texts, linux, windows, run_commands, set_ip_commands, set_platform_ip}
use masque_vpn.Tun.Device.{Os, create_tun_device, opened, ran}
use masque_vpn.Tun.Buffers.{new_pool, PoolEvent, begins_read, begins_write, ends, pool_run}
use masque_vpn.Tun.Reuse.{IsSound, pool_run_lem}
use masque_vpn.Tun.Opening.{Opens, create_tun_device_lem}

abbrev digit : ℕ → String
digit n = get_or ("0" ∷ "1" ∷ "2" ∷ "3" ∷ "4" ∷ "5" ∷ "6" ∷ "7" ∷ "8" ∷ "9" ∷ []) n ""

-- A number below 1000.
abbrev small_decimal : ℕ → String
small_decimal n =
    if ltb n 10
    then digit n
    else if ltb n 100
    then str_append (digit (n / 10)) (digit (n % 10))
    else str_append (digit (n / 100)) (str_append (digit (n / 10 % 10)) (digit (n % 10)))

cidr_to_netmask_lem_example :
    ((n : ℕ)
      → n ≤ 32
      → cidr_to_netmask small_decimal (pos n) ≡ dotted_bytes small_decimal (cidr_mask n 4))
    × ((n : ℕ) → 32 < n → cidr_to_netmask small_decimal (pos n) ≡ "255.255.255.0")
    × ((n : ℕ) → cidr_to_netmask small_decimal (negsuc n) ≡ "255.255.255.0")
cidr_to_netmask_lem_example = cidr_to_netmask_lem small_decimal

mask_of_22 : dotted_bytes small_decimal (cidr_mask 22 4) ≡ "255.255.252.0"
unfolding cidr_mask
mask_of_22 = refl

abbrev pub texts : Texts
texts = record {
  ip_text = dotted_bytes small_decimal;
  net_text = λ n. dotted_bytes small_decimal n.ip;
  decimal = small_decimal;
  mask_size = λ mask. 24;
  has_to4 = λ ip. true;
  split = λ text separator. text ∷ [];
}

abbrev pub all_goes_well : Os
all_goes_well = record {
  create_tun = λ name mtu. ok 7;
  device_name = λ device. ok "tun3";
  exec = λ words. ("", none);
}

abbrev pub gateway_net : IpNet
gateway_net = record { ip = 10 ∷ 0 ∷ 0 ∷ 1 ∷ []; mask = 255 ∷ 255 ∷ 255 ∷ 0 ∷ [] }

device_on_linux : create_tun_device linux texts all_goes_well "" gateway_net (pos 1400) ≡ (
  ok (record { device = 7; name = "tun3" }),
  opened 7
      ∷ ran ("ip" ∷ "addr" ∷ "add" ∷ "10.0.0.1/24" ∷ "dev" ∷ "tun3" ∷ [])
      ∷ ran ("ip" ∷ "link" ∷ "set" ∷ "dev" ∷ "tun3" ∷ "up" ∷ [])
      ∷ [],
)
unfolding create_tun_device set_platform_ip run_commands set_ip_commands
device_on_linux = refl

create_tun_device_lem_example :
    Opens windows texts all_goes_well gateway_net
      (create_tun_device windows texts all_goes_well "vpn" gateway_net (pos 1400))
create_tun_device_lem_example =
    create_tun_device_lem windows texts all_goes_well "vpn" gateway_net (pos 1400)

-- A write takes the struct of a read that is done.
abbrev reused : List PoolEvent
reused =
    begins_read 1 0
    ∷ ends 0 (λ buf size. record { count = 1; size = 60; error = none })
    ∷ begins_write 2 0
    ∷ begins_read 3 0
    ∷ ends 1 (λ buf size. record { count = 1; size = size; error = none })
    ∷ []

pool_run_lem_example : IsSound (pool_run new_pool reused)
pool_run_lem_example = pool_run_lem reused
