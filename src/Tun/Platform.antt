-- ===== src/Tun/Platform.antt =====
-- common/tun_linux.go, tun_windows.go and tun_darwin.go: the commands that set the address of a TUN
-- device and add a route. How a command turns out, and the texts of addresses and networks, are the
-- operating system's and the standard library's, and parameters.
use Prim.Native.String.{String, ◌++◌ as str_append}
use text.Mathlib.Text.{find?}
use masque_vpn.Prelude.{
  ℕ, ◌+◌, ◌%◌, Bool, true, false, Option, none, some, List, [], ◌∷◌, if◌then◌else◌,
}
use masque_vpn.Prelude.Int.{pos}
use masque_vpn.Ip.Addr.{IpNet}
use masque_vpn.Tun.Netmask.{cidr_to_netmask}

pub data Platform : Type 0 where
  linux windows darwin : Platform

-- What the files take of net, fmt and strings.
pub record Texts : Type 0 where
  pub ip_text : List ℕ → String
  pub net_text : IpNet → String
  pub decimal : ℕ → String
  -- The first result of `Mask.Size`.
  pub mask_size : List ℕ → ℕ
  -- Whether `To4` gives an address.
  pub has_to4 : List ℕ → Bool
  pub split : String → String → List String

abbrev pub Words : Type 0
Words = List String

-- `CombinedOutput` of a command: what it prints, and its error.
abbrev pub Exec : Type 0
Exec = Words → String × Option String

-- The error of a command, and what it printed.
pub data CommandError : Type 0 where
  failed_to_set_ip_address failed_to_bring_interface_up : String → String → CommandError
  failed_to_set_ipv4_address failed_to_set_ipv6_address : String → String → CommandError
  failed_to_add_route : String → String → CommandError
  invalid_network_format : String → CommandError

abbrev pub default_platform_tun_name : Platform → String
default_platform_tun_name linux = "tun0"
default_platform_tun_name windows = "wintun"
default_platform_tun_name darwin = "utun"

abbrev pub tun_packet_offset : Platform → ℕ
tun_packet_offset linux = 0
tun_packet_offset windows = 0
tun_packet_offset darwin = 4

-- A command, and the error that is returned where it fails.
pub record Command : Type 0 where
  pub words : Words
  pub failure : String → String → CommandError

abbrev pub with_command :
    Words → Option CommandError × List Words → Option CommandError × List Words
with_command words (e, ran) = (e, words ∷ ran)

abbrev pub after_command :
    Command
    → String × Option String
    → Option CommandError × List Words
    → Option CommandError × List Words
after_command c (output, some e) rest = (some (c.failure e output), c.words ∷ [])
after_command c (output, none) rest = with_command c.words rest

-- The commands one after another, up to the first that fails; beside the error, the ones that ran.
unfoldable pub run_commands : Exec → List Command → Option CommandError × List Words
run_commands exec [] = (none, [])
run_commands exec (c ∷ commands) = after_command c (exec c.words) (run_commands exec commands)

abbrev pub with_bits : Texts → IpNet → String
with_bits t ip_net =
    str_append (t.ip_text ip_net.ip) (str_append "/" (t.decimal (t.mask_size ip_net.mask)))

-- `destIP[len(destIP)-1]++`
abbrev pub next_in_last_byte : List ℕ → List ℕ
next_in_last_byte [] = []
next_in_last_byte (b ∷ []) = (b + 1) % 256 ∷ []
next_in_last_byte (b ∷ c ∷ bytes) = b ∷ next_in_last_byte (c ∷ bytes)

abbrev pub linux_ip_commands : Texts → String → IpNet → List Command
linux_ip_commands t name ip_net =
    record {
      words = "ip" ∷ "addr" ∷ "add" ∷ with_bits t ip_net ∷ "dev" ∷ name ∷ [];
      failure = failed_to_set_ip_address;
    }
    ∷ record {
      words = "ip" ∷ "link" ∷ "set" ∷ "dev" ∷ name ∷ "up" ∷ [];
      failure = failed_to_bring_interface_up;
    }
    ∷ []

abbrev pub windows_ip_commands : Texts → String → IpNet → List Command
windows_ip_commands t name ip_net =
    record {
      words =
          "netsh"
          ∷ "interface"
          ∷ "ip"
          ∷ "set"
          ∷ "address"
          ∷ str_append "name=" name
          ∷ "static"
          ∷ t.ip_text ip_net.ip
          ∷ cidr_to_netmask t.decimal (pos (t.mask_size ip_net.mask))
          ∷ [];
      failure = failed_to_set_ip_address;
    }
    ∷ []

abbrev pub darwin_ip_commands : Texts → String → IpNet → List Command
darwin_ip_commands t name ip_net =
    (if t.has_to4 ip_net.ip
      then record {
        words =
            "ifconfig"
            ∷ name
            ∷ "inet"
            ∷ t.ip_text ip_net.ip
            ∷ t.ip_text (next_in_last_byte ip_net.ip)
            ∷ "up"
            ∷ [];
        failure = failed_to_set_ipv4_address;
      }
      else record {
        words = "ifconfig" ∷ name ∷ "inet6" ∷ with_bits t ip_net ∷ "up" ∷ [];
        failure = failed_to_set_ipv6_address;
      })
    ∷ []

unfoldable pub set_ip_commands : Platform → Texts → String → IpNet → List Command
set_ip_commands linux t name ip_net = linux_ip_commands t name ip_net
set_ip_commands windows t name ip_net = windows_ip_commands t name ip_net
set_ip_commands darwin t name ip_net = darwin_ip_commands t name ip_net

unfoldable pub set_platform_ip :
    Platform → Texts → Exec → String → IpNet → Option CommandError × List Words
set_platform_ip platform t exec name ip_net =
    run_commands exec (set_ip_commands platform t name ip_net)

abbrev pub contains : String → String → Bool
contains text part = elim (find? text part) [ none ↦ false | some _ ↦ true ]

-- On macOS a route that is there already is no error.
abbrev pub after_route : Words → String × Option String → Option CommandError × List Words
after_route words (output, none) = (none, words ∷ [])
after_route words (output, some e) =
    if contains output "File exists"
    then (none, words ∷ [])
    else (some (failed_to_add_route e output), words ∷ [])

abbrev pub route_to_parts : Exec → String → String → List String → Option CommandError × List Words
route_to_parts exec name network (address ∷ bits ∷ []) =
    let words = "route" ∷ "add" ∷ "-net" ∷ address ∷ "-interface" ∷ name ∷ [] in
    after_route words (exec words)
route_to_parts exec name network parts = (some (invalid_network_format network), [])

abbrev pub Routed : Type 0
Routed = Option CommandError × List Words

abbrev pub add_linux_route : Texts → Exec → String → IpNet → Routed
add_linux_route t exec name ip_net = run_commands exec (
    record {
      words = "ip" ∷ "route" ∷ "add" ∷ t.net_text ip_net ∷ "dev" ∷ name ∷ [];
      failure = failed_to_add_route;
    }
    ∷ [])

abbrev pub add_windows_route : Texts → Exec → String → IpNet → Routed
add_windows_route t exec name ip_net = run_commands exec (
    record {
      words = "route" ∷ "add" ∷ t.net_text ip_net ∷ "0.0.0.0" ∷ "if" ∷ name ∷ [];
      failure = failed_to_add_route;
    }
    ∷ [])

abbrev pub add_darwin_route : Texts → Exec → String → IpNet → Routed
add_darwin_route t exec name ip_net =
    let network = t.net_text ip_net in
    if t.has_to4 ip_net.ip
    then route_to_parts exec name network (t.split network "/")
    else let words = "route" ∷ "add" ∷ "-inet6" ∷ network ∷ "-interface" ∷ name ∷ [] in
      after_route words (exec words)

unfoldable pub add_platform_route : Platform → Texts → Exec → String → IpNet → Routed
add_platform_route linux t exec name ip_net = add_linux_route t exec name ip_net
add_platform_route windows t exec name ip_net = add_windows_route t exec name ip_net
add_platform_route darwin t exec name ip_net = add_darwin_route t exec name ip_net
