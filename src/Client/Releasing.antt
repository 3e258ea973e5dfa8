-- ===== src/Client/Releasing.antt =====
-- vpn_client/main.go: what the client has open after `establishAndConfigure`, and at its end.
use Prim.Native.String.{String}
use text.Mathlib.Text.{◌==◌ as str_eq}
use masque_vpn.Prelude.{
  ℕ, ◌≡◌, refl, ◌∙◌, inl, inr, Bool, true, false, Option, none, some, Result, ok, err, List, [],
  ◌∷◌, map, Bool-cases,
}
use masque_vpn.Prelude.Assoc.{string_eq}
use masque_vpn.Configuration.{ClientConfig}
use masque_vpn.Tun.Platform.{Platform, Texts, add_platform_route}
use masque_vpn.Tun.Device.{TunDevice, Os, ran, Created, create_tun_device}
use masque_vpn.Tun.Opening.{
  open_after, open_after-append, open_after-map, Opens, create_tun_device_lem,
}
use masque_vpn.Tunnel.Client.{
  MasqueClient, Stream, Connected, connect_ip, is_open, succeeds, connect_ip_no_leak,
}
use masque_vpn.Client.Tls.{Files, TlsSettings, TlsError, tls_settings}
use masque_vpn.Client.Establish.{
  Network, EstablishError, failed_tls, failed_to_listen, failed_to_resolve, failed_to_dial,
  failed_to_connect_ip, failed_to_create_tun, Established, assigned_prefix, default_net,
  close_stream, after_tun, configure_tun, after_connect, after_resolve, after_tls,
  establish_and_configure,
}

-- Whether the socket was open when the step failed, and whether the QUIC connection was.
abbrev pub has_socket : EstablishError → Bool
has_socket (failed_tls e) = false
has_socket failed_to_listen = false
has_socket failed_to_resolve = true
has_socket failed_to_dial = true
has_socket (failed_to_connect_ip e) = true
has_socket (failed_to_create_tun e) = true

abbrev pub has_quic : EstablishError → Bool
has_quic (failed_tls e) = false
has_quic failed_to_listen = false
has_quic failed_to_resolve = false
has_quic failed_to_dial = false
has_quic (failed_to_connect_ip e) = true
has_quic (failed_to_create_tun e) = true

abbrev pub devices_of : Option TunDevice → List ℕ
devices_of none = []
devices_of (some d) = d.device ∷ []

-- What is open after the attempt.
abbrev pub Leaves : Established → Type 0
Leaves (err e, r) =
    (is_open r.stream ≡ false)
    × (open_after [] r.tun ≡ [])
    × (r.udp_open ≡ has_socket e)
    × (r.quic_open ≡ has_quic e)
Leaves (ok dev, r) =
    (is_open r.stream ≡ true)
    × (open_after [] r.tun ≡ devices_of dev)
    × (r.udp_open ≡ true)
    × (r.quic_open ≡ true)

pub close_stream-closes : (s : Option Stream) → is_open (close_stream s) ≡ false
close_stream-closes none = refl
close_stream-closes (some s) = refl

after_tun-Leaves :
    (platform : Platform) (t : Texts) (os : Os) (stream : Option Stream)
    → is_open stream ≡ true
    → (created : Created) → Opens platform t os assigned_prefix created
    → Leaves (after_tun platform t os stream created)
after_tun-Leaves platform t os stream up (err e, effects) (open_, configured) =
    (close_stream-closes stream, open_, refl, refl)
after_tun-Leaves platform t os stream up (ok d, effects) (open_, configured) =
    let routes = (add_platform_route platform t os.exec d.name default_net).1 in
    (
      up,
      open_after-append [] effects (map ran routes)
          ∙ open_after-map (open_after [] effects) routes
          ∙ open_,
      refl,
      refl,
    )

module _ (n : Network) (platform : Platform) (t : Texts) (os : Os) (c : ClientConfig) where
  configure_tun-Leaves :
      (stream : Option Stream)
      → is_open stream ≡ true
      → Leaves (configure_tun platform t os c stream)
  configure_tun-Leaves stream up = elim (Bool-cases (str_eq c.tun_name "")) [
    | inl unnamed ↦ rw unnamed (up, refl, refl, refl)
    | inr named ↦ rw named (
        after_tun-Leaves platform t os stream up
          (create_tun_device platform t os c.tun_name assigned_prefix c.mtu)
          (create_tun_device_lem platform t os c.tun_name assigned_prefix c.mtu))
  ]

  after_connect-Leaves :
      (r : Connected) → is_open r.0 ≡ succeeds r.1 → Leaves (after_connect platform t os c r)
  after_connect-Leaves (stream, some e) fits = (fits, refl, refl, refl)
  after_connect-Leaves (stream, none) fits = configure_tun-Leaves stream fits

  after_resolve-Leaves :
      (tls : TlsSettings) (o : Option String) → Leaves (after_resolve n platform t os c tls o)
  after_resolve-Leaves tls none = (refl, refl, refl, refl)
  after_resolve-Leaves tls (some addr) = elim (Bool-cases (n.dials tls addr)) [
    | inr failed ↦ rw failed (refl, refl, refl, refl)
    | inl there ↦
        let client : MasqueClient = record { closed = false; quic_conn = some addr } in
        rw there (
          after_connect-Leaves (connect_ip client n.answers)
            (connect_ip_no_leak client n.answers).0)
  ]

  after_tls-Leaves : (r : Result TlsError TlsSettings) → Leaves (after_tls n platform t os c r)
  after_tls-Leaves (err e) = (refl, refl, refl, refl)
  after_tls-Leaves (ok tls) = elim (Bool-cases n.listens) [
    | inr failed ↦ rw failed (refl, refl, refl, refl)
    | inl there ↦ rw there (after_resolve-Leaves tls (n.resolves c.server_addr))
  ]

-- Whatever the network, the files and the operating system answer: on every error of
-- `establishAndConfigure` no stream and no device is left open, but the socket is once it was opened,
-- and the QUIC connection once it was dialled; on success the stream, the device that is returned,
-- if one is, the QUIC connection and the socket are open.
pub establish_lem :
    (f : Files) (n : Network) (platform : Platform) (t : Texts) (os : Os) (c : ClientConfig)
    → Leaves (establish_and_configure f n platform t os c)
unfolding establish_and_configure
establish_lem f n platform t os c = after_tls-Leaves n platform t os c (tls_settings f c)
