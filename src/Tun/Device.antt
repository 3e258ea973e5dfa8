-- ===== src/Tun/Device.antt =====
-- common/tun.go: a TUN device, how it is made, and reading and writing one packet. The driver and
-- the operating system answer through parameters; what the code does to them is a list of effects.
use Prim.Native.String.{String}
use text.Mathlib.Text.{◌==◌ as str_eq}
use masque_vpn.Prelude.{
  ℕ, Option, none, some, Result, ok, err, List, [], ◌∷◌, ◌++◌, map, length, ◌==◌, if◌then◌else◌,
}
use masque_vpn.Prelude.Int.{ℤ}
use masque_vpn.Ip.Addr.{Prefix, IpNet, cidr_mask}
use masque_vpn.Tun.Platform.{
  Platform, Texts, Words, Exec, CommandError, default_platform_tun_name, set_platform_ip,
  add_platform_route,
}

-- `device` is the driver's handle.
pub record TunDevice : Type 0 where
  pub device : ℕ
  pub name : String

-- What `tun.CreateTUN` and `device.Name` of the driver answer, and the commands.
pub record Os : Type 0 where
  pub create_tun : String → ℤ → Result String ℕ
  pub device_name : ℕ → Result String String
  pub exec : Exec

pub data TunError : Type 0 where
  failed_to_create_tun_device failed_to_get_device_name : String → TunError
  failed_to_set_ip : CommandError → TunError

pub data Effect : Type 0 where
  opened closed : ℕ → Effect
  ran : Words → Effect

abbrev pub Created : Type 0
Created = Result TunError TunDevice × List Effect

abbrev pub after_set_ip : TunDevice → Option CommandError × List Words → Created
after_set_ip d (none, words) = (ok d, opened d.device ∷ map ran words)
after_set_ip d (some e, words) =
    (err (failed_to_set_ip e), opened d.device ∷ map ran words ++ closed d.device ∷ [])

abbrev pub after_name : Platform → Texts → Os → IpNet → ℕ → Result String String → Created
after_name platform t os ip_net device (err e) =
    (err (failed_to_get_device_name e), opened device ∷ closed device ∷ [])
after_name platform t os ip_net device (ok name) =
    after_set_ip (record { device = device; name = name })
      (set_platform_ip platform t os.exec name ip_net)

abbrev pub after_create : Platform → Texts → Os → IpNet → Result String ℕ → Created
after_create platform t os ip_net (err e) = (err (failed_to_create_tun_device e), [])
after_create platform t os ip_net (ok device) =
    after_name platform t os ip_net device (os.device_name device)

unfoldable pub create_tun_device : Platform → Texts → Os → String → IpNet → ℤ → Created
create_tun_device platform t os name ip_net mtu =
    let requested = if str_eq name "" then default_platform_tun_name platform else name in
    after_create platform t os ip_net (os.create_tun requested mtu)

abbrev pub ip_net_of : Prefix → IpNet
ip_net_of prefix = record { ip = prefix.addr; mask = cidr_mask prefix.bits (length prefix.addr) }

-- `AddRoute`, for a prefix.
unfoldable pub add_route :
    Platform → Texts → Os → TunDevice → Prefix → Option CommandError × List Words
add_route platform t os d prefix = add_platform_route platform t os.exec d.name (ip_net_of prefix)

-- What the driver's `Read` gives for one buffer: the number of packets, the size of the first, and
-- an error.
pub record DriverRead : Type 0 where
  pub count : ℕ
  pub size : ℕ
  pub error : Option String

unfoldable pub read_packet : DriverRead → Result String ℕ
read_packet r = elim r.error [ some e ↦ err e | none ↦ if r.count == 0 then ok 0 else ok r.size ]

-- The driver's `Write` gives a number of packets, which is left out, and an error.
unfoldable pub write_packet : ℕ × Option String → Option String
write_packet (n, e) = e
