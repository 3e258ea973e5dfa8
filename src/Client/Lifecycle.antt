-- ===== src/Client/Lifecycle.antt =====
-- vpn_client/main.go: the goroutine of `main` that establishes the connection, waits for its end and
-- cleans up, with its metrics.
use Prim.Native.String.{String}
use masque_vpn.Prelude.{ℕ, ◌+◌, Option, none, some, ok, err, List, [], ◌∷◌, ◌++◌}
use masque_vpn.Prelude.Assoc.{string_eq, lookup, store}
use masque_vpn.Configuration.{ClientConfig}
use masque_vpn.Tun.Platform.{Platform, Texts}
use masque_vpn.Tun.Device.{TunDevice, Os, Effect, closed}
use masque_vpn.Client.Tls.{Files}
use masque_vpn.Client.Proxy.{Message}
use masque_vpn.Client.Establish.{
  Network, Resources, Established, close_stream, establish_and_configure,
}

pub record ClientMetrics : Type 0 where
  pub connection_status : ℕ
  pub active_connections : ℕ
  pub tun_interface_status : ℕ
  pub errors_total : List (String × ℕ)
  pub connection_duration : List ℕ

abbrev pub count_of : Option ℕ → ℕ
count_of none = 0
count_of (some n) = n

-- The counter of one error type.
abbrev pub error_count : String → ClientMetrics → ℕ
error_count error_type m = count_of (lookup error_type m.errors_total)

unfoldable pub count_error : String → ClientMetrics → ClientMetrics
count_error error_type m = record m {
  errors_total = store error_type (error_count error_type m + 1) m.errors_total;
}

-- What the goroutine waits for: the first message of a proxy, or the signal to shut down.
pub data ConnectionEnd : Type 0 where
  proxy_message : Message → ConnectionEnd
  shut_down : ConnectionEnd

abbrev pub status_of : Option TunDevice → ℕ → ℕ → ℕ
status_of none new old = old
status_of (some d) new old = new

abbrev pub set_status : ℕ → Option TunDevice → ClientMetrics → ClientMetrics
set_status n dev m = record m {
  connection_status = n;
  active_connections = n;
  tun_interface_status = status_of dev n m.tun_interface_status;
}

-- The message of a proxy counts as an error, nil too.
abbrev pub count_end : ConnectionEnd → ClientMetrics → ClientMetrics
count_end (proxy_message message) m = count_error "proxy_error" m
count_end shut_down m = m

abbrev pub observe : ℕ → ClientMetrics → ClientMetrics
observe duration m = record m { connection_duration = m.connection_duration ++ duration ∷ [] }

abbrev pub close_device : Option TunDevice → List Effect
close_device none = []
close_device (some d) = closed d.device ∷ []

-- The MASQUE connection and the device; the QUIC connection and the socket are not closed.
abbrev pub clean_up : Option TunDevice → Resources → Resources
clean_up dev r = record r { stream = close_stream r.stream; tun = r.tun ++ close_device dev }

-- While it waits, and when it is done.
abbrev pub connected : Established → ClientMetrics → ClientMetrics
connected (err e, r) m = count_error "connection_failed" m
connected (ok dev, r) m = set_status 1 dev m

abbrev pub finished : ConnectionEnd → ℕ → Established → ClientMetrics → ClientMetrics × Resources
finished end_ duration (err e, r) m = (m, r)
finished end_ duration (ok dev, r) m =
    (set_status 0 dev (observe duration (count_end end_ m)), clean_up dev r)

unfoldable pub run_client :
    Files
    → Network
    → Platform
    → Texts
    → Os
    → ClientConfig
    → ConnectionEnd
    → ℕ
    → ClientMetrics
    → ClientMetrics × Resources
run_client f n platform t os c end_ duration m =
    let established = establish_and_configure f n platform t os c in
    finished end_ duration established (connected established m)
