-- ===== src/Client/Establish.antt =====
-- vpn_client/main.go: `establishAndConfigure` behind the TLS settings. The socket, the resolver and
-- the dialling are calls of net and quic-go, and what they answer are parameters.
use Prim.Native.String.{String}
use text.Mathlib.Text.{◌==◌ as str_eq}
use masque_vpn.Prelude.{
  Bool, true, false, not, Option, none, some, Result, ok, err, List, [], ◌∷◌, ◌++◌, map,
  if◌then◌else◌,
}
use masque_vpn.Configuration.{ClientConfig}
use masque_vpn.Ip.Addr.{IpNet}
use masque_vpn.Tun.Platform.{Platform, Texts, add_platform_route}
use masque_vpn.Tun.Device.{TunDevice, Os, TunError, Effect, ran, Created, create_tun_device}
use masque_vpn.Tunnel.Client.{
  QuicAnswers, Stream, ConnectError, Connected, closed_stream, connect_ip,
}
use masque_vpn.Client.Tls.{Files, TlsSettings, TlsError, tls_settings}

pub record Network : Type 0 where
  pub listens : Bool
  pub resolves : String → Option String
  pub dials : TlsSettings → String → Bool
  pub answers : QuicAnswers

-- What is left of what was opened: whether the socket and the QUIC connection are open, the stream
-- of the MASQUE connection, and what was done to TUN devices.
pub record Resources : Type 0 where
  pub udp_open : Bool
  pub quic_open : Bool
  pub stream : Option Stream
  pub tun : List Effect

pub data EstablishError : Type 0 where
  failed_tls : TlsError → EstablishError
  failed_to_listen failed_to_resolve failed_to_dial : EstablishError
  failed_to_connect_ip : ConnectError → EstablishError
  failed_to_create_tun : TunError → EstablishError

-- Beside the device, the MASQUE connection is the one over the stream.
abbrev pub Established : Type 0
Established = Result EstablishError (Option TunDevice) × Resources

abbrev pub nothing_open : Resources
nothing_open = record { udp_open = false; quic_open = false; stream = none; tun = [] }

abbrev pub socket_open : Resources
socket_open = record nothing_open { udp_open = true }

abbrev pub dialled : Option Stream → List Effect → Resources
dialled stream effects = record {
  udp_open = true;
  quic_open = true;
  stream = stream;
  tun = effects;
}

-- What `net.ParseCIDR` gives for 10.0.0.2/32 and for 0.0.0.0/0.
abbrev pub assigned_prefix : IpNet
assigned_prefix = record { ip = 10 ∷ 0 ∷ 0 ∷ 2 ∷ []; mask = 255 ∷ 255 ∷ 255 ∷ 255 ∷ [] }

abbrev pub default_net : IpNet
default_net = record { ip = 0 ∷ 0 ∷ 0 ∷ 0 ∷ []; mask = 0 ∷ 0 ∷ 0 ∷ 0 ∷ [] }

-- `masqueConn.Close()`
abbrev pub close_stream : Option Stream → Option Stream
close_stream none = none
close_stream (some s) = some (closed_stream s)

-- A default route that cannot be added is only logged.
abbrev pub after_tun : Platform → Texts → Os → Option Stream → Created → Established
after_tun platform t os stream (err e, effects) =
    (err (failed_to_create_tun e), dialled (close_stream stream) effects)
after_tun platform t os stream (ok d, effects) = (
  ok (some d),
  dialled stream (effects ++ map ran (add_platform_route platform t os.exec d.name default_net).1),
)

abbrev pub configure_tun : Platform → Texts → Os → ClientConfig → Option Stream → Established
configure_tun platform t os c stream =
    if not (str_eq c.tun_name "")
    then after_tun platform t os stream
        (create_tun_device platform t os c.tun_name assigned_prefix c.mtu)
    else (ok none, dialled stream [])

abbrev pub after_connect : Platform → Texts → Os → ClientConfig → Connected → Established
after_connect platform t os c (stream, some e) = (err (failed_to_connect_ip e), dialled stream [])
after_connect platform t os c (stream, none) = configure_tun platform t os c stream

abbrev pub after_resolve :
    Network → Platform → Texts → Os → ClientConfig → TlsSettings → Option String → Established
after_resolve n platform t os c tls none = (err failed_to_resolve, socket_open)
after_resolve n platform t os c tls (some addr) =
    if n.dials tls addr
    then after_connect platform t os c
        (connect_ip (record { closed = false; quic_conn = some addr }) n.answers)
    else (err failed_to_dial, socket_open)

abbrev pub after_tls :
    Network → Platform → Texts → Os → ClientConfig → Result TlsError TlsSettings → Established
after_tls n platform t os c (err e) = (err (failed_tls e), nothing_open)
after_tls n platform t os c (ok tls) =
    if n.listens
    then after_resolve n platform t os c tls (n.resolves c.server_addr)
    else (err failed_to_listen, nothing_open)

unfoldable pub establish_and_configure :
    Files → Network → Platform → Texts → Os → ClientConfig → Established
establish_and_configure f n platform t os c = after_tls n platform t os c (tls_settings f c)
