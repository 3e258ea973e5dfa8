-- ===== src/Server/MainTests.antt =====
-- vpn_server/main.go: a run whose shutdown is asked for.
use masque_vpn.Prelude.{ℕ, ◌≡◌, refl, true, false, none, some, Result, ok, []}
use masque_vpn.Logging.{init_logger}
use masque_vpn.Tun.Platform.{linux}
use masque_vpn.Tun.Opening.{open_after}
use masque_vpn.Tun.Tests.{texts, all_goes_well}
use masque_vpn.Server.Start.{NewError, Running, missing_configuration, new_server}
use masque_vpn.Server.Hosting.{devices}
use masque_vpn.Server.Listener.{context_done}
use masque_vpn.Server.Main.{World, server_main}
use masque_vpn.Server.Exits.{effects_in, EndsAs, server_main_lem}
use masque_vpn.Server.StartTests.{config, net_30, parse_net_30, net_30-IsServable}

abbrev world : World ℕ ℕ ℕ
world = record {
  perf_profile = true;
  production = false;
  decodes = ok config;
  zap = record { parse_level = λ text. some 1; info_level = 1; build = λ settings. none };
  parse_prefix = parse_net_30;
  platform = linux;
  texts = texts;
  os = all_goes_well;
  tls = record {
    x509_key_pair = λ cert key. none;
    load_x509_key_pair = λ cert key. some 1;
    read_file = λ name. some "CA";
    certs_from_pem = λ text. some 2;
  };
  waited = context_done none;
}

logger_builds : (init_logger world.zap world.production config.log_level).1 ≡ none
unfolding init_logger
logger_builds = refl

is_complete : missing_configuration config ≡ false
unfolding missing_configuration
is_complete = refl

server_main_lem_example :
    (r : Result NewError Running) × ((new_server parse_net_30 4 linux texts all_goes_well config).0
      ≡ some r)
    × (open_after [] (effects_in (server_main world 4).1) ≡ devices r)
    × EndsAs world config r (server_main world 4).0 (server_main world 4).1
server_main_lem_example =
    server_main_lem world 4 config net_30 refl logger_builds is_complete refl net_30-IsServable
