-- ===== src/Client/Ending.antt =====
-- vpn_client/main.go: what is left when the client's connection is over.
use Prim.Native.String.{String}
use masque_vpn.Prelude.{
  ℕ, ◌+◌, ◌≡◌, refl, ap, ◌∙◌, false, Option, none, some, ok, err, [], ◌∷◌, ◌++◌, arith,
  if◌then◌else◌,
}
use masque_vpn.Prelude.Assoc.{string_eq, lookup, lookup-store, beq_refl}
use masque_vpn.Configuration.{ClientConfig}
use masque_vpn.Tun.Platform.{Platform, Texts}
use masque_vpn.Tun.Device.{TunDevice, Os}
use masque_vpn.Tun.Opening.{open_after, open_after-append}
use masque_vpn.Tunnel.Client.{is_open}
use masque_vpn.Client.Tls.{Files}
use masque_vpn.Client.Establish.{Network, Resources, Established, establish_and_configure}
use masque_vpn.Client.Lifecycle.{
  ClientMetrics, count_of, error_count, status_of, ConnectionEnd, proxy_message, shut_down,
  count_error, count_end, set_status, observe, close_device, connected, finished, run_client,
}
use masque_vpn.Client.Releasing.{Leaves, devices_of, close_stream-closes, establish_lem}

-- The gauges while nothing is connected.
pub record IsIdle (m : ClientMetrics) : Type 0 where
  pub status : m.connection_status ≡ 0
  pub active : m.active_connections ≡ 0
  pub tun : m.tun_interface_status ≡ 0

-- One more error of the type, and the connections counted as before.
abbrev EndErrors : ConnectionEnd → ClientMetrics → ClientMetrics → Type 0
EndErrors (proxy_message message) m n =
    error_count "proxy_error" n ≡ error_count "proxy_error" m + 1
EndErrors shut_down m n = n.errors_total ≡ m.errors_total

abbrev pub Counted : Established → ConnectionEnd → ℕ → ClientMetrics → ClientMetrics → Type 0
Counted (err e, r) end_ duration m n =
    (error_count "connection_failed" n ≡ error_count "connection_failed" m + 1)
    × (n.connection_duration ≡ m.connection_duration)
Counted (ok dev, r) end_ duration m n =
    EndErrors end_ m n × (n.connection_duration ≡ m.connection_duration ++ duration ∷ [])

error_count-count_error :
    (error_type : String) (m : ClientMetrics)
    → error_count error_type (count_error error_type m) ≡ error_count error_type m + 1
unfolding count_error
error_count-count_error error_type m = ap count_of (
    lookup-store error_type error_type (error_count error_type m + 1) m.errors_total
    ∙ ap (λ b. if b then some (error_count error_type m + 1) else lookup error_type m.errors_total)
        (beq_refl error_type))

end_errors :
    (end_ : ConnectionEnd) (dev : Option TunDevice) (duration : ℕ) (m : ClientMetrics)
    → EndErrors end_ m (set_status 0 dev (observe duration (count_end end_ (set_status 1 dev m))))
unfolding count_error
end_errors (proxy_message message) dev duration m = error_count-count_error "proxy_error" m
end_errors shut_down dev duration m = refl

count_end-durations :
    (end_ : ConnectionEnd) (m : ClientMetrics)
    → ((count_end end_ m).connection_duration ≡ m.connection_duration)
      × ((count_end end_ m).tun_interface_status ≡ m.tun_interface_status)
unfolding count_error
count_end-durations (proxy_message message) m = (refl, refl)
count_end-durations shut_down m = (refl, refl)

tun_status_resets :
    (end_ : ConnectionEnd) (dev : Option TunDevice) (m : ClientMetrics)
    → m.tun_interface_status ≡ 0
    → status_of dev 0 (count_end end_ (set_status 1 dev m)).tun_interface_status ≡ 0
tun_status_resets end_ none m idle = (count_end-durations end_ (set_status 1 none m)).1 ∙ idle
tun_status_resets end_ (some d) m idle = refl

close_device-closes : (dev : Option TunDevice) → open_after (devices_of dev) (close_device dev) ≡ []
close_device-closes none = refl
close_device-closes (some d) = ground arith

-- What is shown of the end of a run that began with the gauges idle.
abbrev pub Released : ClientMetrics × Resources → Type 0
Released (m, r) = IsIdle m × (is_open r.stream ≡ false) × (open_after [] r.tun ≡ [])

finished-Released :
    (end_ : ConnectionEnd) (duration : ℕ) (established : Established) (m : ClientMetrics)
    → IsIdle m
    → Leaves established
    → Released (finished end_ duration established (connected established m))
      × Counted established end_ duration m
          (finished end_ duration established (connected established m)).0
unfolding count_error
finished-Released end_ duration (err e, r) m idle (stream, tun, udp, quic) = (
  (record { status = idle.status; active = idle.active; tun = idle.tun }, stream, tun),
  (error_count-count_error "connection_failed" m, refl),
)
finished-Released end_ duration (ok dev, r) m idle (stream, tun, udp, quic) = (
  (
    record { status = refl; active = refl; tun = tun_status_resets end_ dev m idle.tun },
    close_stream-closes r.stream,
    open_after-append [] r.tun (close_device dev)
        ∙ ap (λ h. open_after h (close_device dev)) tun
        ∙ close_device-closes dev,
  ),
  (
    end_errors end_ dev duration m,
    ap (λ d. d ++ duration ∷ []) (count_end-durations end_ (set_status 1 dev m)).0,
  ),
)

-- A client that starts idle and gets as far as dialling, or not: when its goroutine ends, however the
-- connection ended and whatever the network and the operating system answered, all gauges are 0
-- again, and no stream and no device is open. One error is counted if the connection could not be
-- made, or if a proxy ended it, even without an error, and none if it was shut down; its duration is
-- recorded exactly if it was made.
pub run_client_lem :
    (f : Files) (n : Network) (platform : Platform) (t : Texts) (os : Os) (c : ClientConfig)
    (end_ : ConnectionEnd) (duration : ℕ) (m : ClientMetrics)
    → IsIdle m
    → Released (run_client f n platform t os c end_ duration m)
      × Counted
          (establish_and_configure f n platform t os c)
          end_
          duration
          m
          (run_client f n platform t os c end_ duration m).0
unfolding run_client
run_client_lem f n platform t os c end_ duration m idle =
    finished-Released end_ duration (establish_and_configure f n platform t os c) m idle
      (establish_lem f n platform t os c)
