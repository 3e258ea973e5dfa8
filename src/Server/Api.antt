-- ===== src/Server/Api.antt =====
-- vpn_server/internal/server/api_server.go: the API server, its routes and what each handler does
-- with a request. Gin is a parameter: which of the registrations a request comes to, and the value
-- of `:id` there. Times and the log lines are left out.
use Prim.Native.String.{String}
use text.Mathlib.Text.{◌==◌ as str_eq}
use masque_vpn.Prelude.{ℕ, Option, none, some, List, [], ◌∷◌, ◌++◌, length, if◌then◌else◌}
use masque_vpn.Configuration.{ServerConfig}
use masque_vpn.Server.State.{Server}
use masque_vpn.Server.Sessions.{ApiResponse, disconnect_client, ClientInfo, get_clients, get_client}
use masque_vpn.Server.Start.{PublicConfig, get_config}
use masque_vpn.Server.Status.{Setup, ServerStatus, get_server_status, ServerStats, get_server_stats}
use masque_vpn.Server.Logs.{ConnectionLog, get_connection_logs, close_logs}

-- The server behind the API, its logs, and what the queries show of the configuration and the device.
pub record ApiServer : Type 0 where
  pub server : Server
  pub connection_logs : List ConnectionLog
  pub config : ServerConfig
  pub setup : Setup

abbrev pub new_api_server : Server → ServerConfig → Setup → ApiServer
new_api_server s config setup = record {
  server = s;
  connection_logs = [];
  config = config;
  setup = setup;
}

pub data Handler : Type 0 where
  server_status server_stats clients client disconnect logs configuration : Handler
  health metrics : Handler

pub data Registration : Type 0 where
  static : String → String → Registration
  -- The path, and the directory and the name of its file.
  static_file : String → String → String → Registration
  get delete : String → Handler → Registration

abbrev pub static_routes : String → List Registration
static_routes dir =
    if str_eq dir ""
    then []
    else Registration.static "/static" dir ∷ Registration.static_file "/" dir "index.html" ∷ []

-- `setupRoutes`.
unfoldable pub setup_routes : ServerConfig → List Registration
setup_routes c =
    static_routes c.api_server.static_dir
    ++ (get "/api/v1/status" server_status
        ∷ get "/api/v1/stats" server_stats
        ∷ get "/api/v1/clients" clients
        ∷ get "/api/v1/clients/:id" client
        ∷ delete "/api/v1/clients/:id" disconnect
        ∷ get "/api/v1/logs" logs
        ∷ get "/api/v1/config" configuration
        ∷ get "/health" health
        ∷ get "/metrics" metrics
        ∷ [])

pub data ApiAnswer : Type 0 where
  status_of : ServerStatus → ApiAnswer
  stats_of : ServerStats → ApiAnswer
  clients_of : List ClientInfo → ℕ → ApiAnswer
  client_of : ClientInfo → ApiAnswer
  disconnection : ApiResponse → ApiAnswer
  logs_of : List ConnectionLog → ℕ → ApiAnswer
  configuration_of : PublicConfig → ApiAnswer
  is_healthy metrics_of not_found no_client : ApiAnswer
  file_under : String → ApiAnswer
  file_in : String → String → ApiAnswer

abbrev pub answer_client : Option ClientInfo → ApiAnswer
answer_client none = no_client
answer_client (some info) = client_of info

abbrev pub after_disconnect : ApiServer → Server × ApiResponse → ApiServer × ApiAnswer
after_disconnect api (s, response) = (record api { server = s }, disconnection response)

unfoldable pub handle : ApiServer → Handler → String → ApiServer × ApiAnswer
handle api server_status id = (api, status_of (get_server_status api.setup api.server))
handle api server_stats id = (api, stats_of (get_server_stats api.setup api.server))
handle api clients id = let infos = get_clients api.server in (api, clients_of infos (length infos))
handle api client id = (api, answer_client (get_client api.server id))
handle api disconnect id = after_disconnect api (disconnect_client api.server id)
handle api logs id =
    let shown = get_connection_logs api.connection_logs in (api, logs_of shown (length shown))
handle api configuration id = (api, configuration_of (get_config api.config))
handle api health id = (api, is_healthy)
handle api metrics id = (api, metrics_of)

abbrev pub serve_registration : ApiServer → Registration → String → ApiServer × ApiAnswer
serve_registration api (Registration.static path dir) id = (api, file_under dir)
serve_registration api (Registration.static_file path dir name) id = (api, file_in dir name)
serve_registration api (get path h) id = handle api h id
serve_registration api (delete path h) id = handle api h id

abbrev pub serve_found : ApiServer → Option (Registration × String) → ApiServer × ApiAnswer
serve_found api none = (api, not_found)
serve_found api (some (r, id)) = serve_registration api r id

-- Gin's router: what it finds for a method and a path.
abbrev pub Router : Type 0
Router = List Registration → String → String → Option (Registration × String)

unfoldable pub serve_api : Router → ApiServer → String → String → ApiServer × ApiAnswer
serve_api find api method path = serve_found api (find (setup_routes api.config) method path)

unfoldable pub close_api : ApiServer → ApiServer
close_api api = record api { connection_logs = close_logs api.connection_logs }
