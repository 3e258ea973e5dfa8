-- ===== src/Client/Proxy.antt =====
-- common/masque_proxy.go: the two proxies of a client between its TUN device and its connection.
-- Each round says what its read and its write give; a list that ends is a look in between. A panic,
-- which a proxy reports as an error too, is left out.
use masque_vpn.Prelude.{
  ℕ, Bool, Option, none, some, Result, ok, err, List, [], ◌∷◌, map, length, ◌==◌, if◌then◌else◌,
}
use masque_vpn.Server.Proxy.{
  IoError, is_network_closed, Round, ProxyError, failed_to_read, failed_to_write,
}
use masque_vpn.Client.Stream.{Source, read_packet, Sink, write_packet}

-- What the proxy sends on `errChan` when it returns; `none` is nil.
abbrev pub Message : Type 0
Message = Option ProxyError

pub data Outcome : Type 0 where
  skips : Outcome
  passes : List ℕ → Outcome
  ends : Message → Outcome

abbrev pub after_write : List ℕ → Option IoError → Outcome
after_write packet none = passes packet
after_write packet (some e) =
    if is_network_closed e then ends none else ends (some (failed_to_write e))

abbrev pub outcome : Result IoError (List ℕ) → Option IoError → Outcome
outcome (err e) written = if is_network_closed e then ends none else ends (some (failed_to_read e))
outcome (ok packet) written = if length packet == 0 then skips else after_write packet written

-- The packets that were passed on, and the message once there is one.
abbrev pub Relayed : Type 0
Relayed = List (List ℕ) × Option Message

abbrev pub after_outcome : Outcome → Relayed → Relayed
after_outcome skips rest = rest
after_outcome (passes packet) (packets, message) = (packet ∷ packets, message)
after_outcome (ends message) rest = ([], some message)

unfoldable pub relay : List Round → Relayed
relay [] = ([], none)
relay (r ∷ rounds) = after_outcome (outcome r.read r.written) (relay rounds)

-- A round from the device to the connection, and whether the connection was closed by then.
pub record FromTun : Type 0 where
  pub read : Result IoError (List ℕ)
  pub closed : Bool
  pub sink : Sink

abbrev pub from_tun : FromTun → Round
from_tun r = record { read = r.read; written = write_packet r.closed r.sink }

unfoldable pub proxy_from_tun_to_masque : List FromTun → Relayed
proxy_from_tun_to_masque rounds = relay (map from_tun rounds)

-- A round from the connection to the device.
pub record FromMasque : Type 0 where
  pub closed : Bool
  pub source : Source
  pub written : Option IoError

abbrev pub from_masque : FromMasque → Round
from_masque r = record { read = read_packet r.closed r.source; written = r.written }

unfoldable pub proxy_from_masque_to_tun : List FromMasque → Relayed
proxy_from_masque_to_tun rounds = relay (map from_masque rounds)
