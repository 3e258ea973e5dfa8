-- ===== src/Client/Main.antt =====
-- vpn_client/main.go: `main`, from the command line to its end. The TOML package, the logger, the
-- network and the operating system are what they answer.
use Prim.Native.String.{String}
use masque_vpn.Prelude.{ℕ, Bool, true, false, Option, none, some, Result, ok, err, if◌then◌else◌}
use masque_vpn.Configuration.{ClientConfig}
use masque_vpn.Logging.{Zap, init_logger}
use masque_vpn.Tun.Platform.{Platform, Texts}
use masque_vpn.Tun.Device.{Os}
use masque_vpn.Client.Tls.{Files, missing_configuration}
use masque_vpn.Client.Establish.{Network, Resources, nothing_open}
use masque_vpn.Client.Lifecycle.{ClientMetrics, ConnectionEnd, run_client}

pub record World (L : Type 0) : Type 0 where
  -- Whether PERF_PROFILE is set, and whether ENVIRONMENT is "production".
  pub perf_profile : Bool
  pub production : Bool
  pub decodes : Result String ClientConfig
  pub zap : Zap L
  pub files : Files
  pub network : Network
  pub platform : Platform
  pub texts : Texts
  pub os : Os
  -- How the connection ends, if it is made, and how long it lasted.
  pub ends : ConnectionEnd
  pub duration : ℕ

-- `fatal_missing_configuration` is a call of `logger.Fatal`, which runs no deferred call.
pub data Exit : Type 0 where
  panics_on_config panics_on_logger : String → Exit
  fatal_missing_configuration returns : Exit

-- The answers of the metrics server on port 9092.
pub data MetricsAnswer : Type 0 where
  prometheus not_found : MetricsAnswer
  ok_text : String → MetricsAnswer

pub data MetricsPath : Type 0 where
  metrics_path health_path other_path : MetricsPath

unfoldable pub serve_metrics : MetricsPath → MetricsAnswer
serve_metrics metrics_path = prometheus
serve_metrics health_path = ok_text "OK"
serve_metrics other_path = not_found

-- How `main` ended, whether the metrics server and the CPU profile were started and the profile
-- stopped, whether the logger was synced, the metrics, and what is still open.
pub record Ended : Type 0 where
  pub exit : Exit
  pub serves_metrics : Bool
  pub profile_started : Bool
  pub profile_stopped : Bool
  pub logger_synced : Bool
  pub metrics : ClientMetrics
  pub resources : Resources

abbrev pub before_logger : Exit → ClientMetrics → Ended
before_logger exit m = record {
  exit = exit;
  serves_metrics = false;
  profile_started = false;
  profile_stopped = false;
  logger_synced = false;
  metrics = m;
  resources = nothing_open;
}

module _ {L : Type 0} (w : World L) where
  abbrev pub after_run : ClientMetrics × Resources → Ended
  after_run (m, r) = record {
    exit = returns;
    serves_metrics = true;
    profile_started = w.perf_profile;
    profile_stopped = w.perf_profile;
    logger_synced = true;
    metrics = m;
    resources = r;
  }

  abbrev pub after_logger : ClientConfig → ClientMetrics → Option String → Ended
  after_logger c m (some e) = before_logger (panics_on_logger e) m
  after_logger c m none =
      if missing_configuration c
      then record (before_logger fatal_missing_configuration m) {
        serves_metrics = true;
        profile_started = w.perf_profile;
      }
      else after_run (run_client w.files w.network w.platform w.texts w.os c w.ends w.duration m)

  abbrev pub after_decode : ClientMetrics → Result String ClientConfig → Ended
  after_decode m (err e) = before_logger (panics_on_config e) m
  after_decode m (ok c) = after_logger c m (init_logger w.zap w.production c.log_level).1

  unfoldable pub client_main : ClientMetrics → Ended
  client_main m = after_decode m w.decodes
