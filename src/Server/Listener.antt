-- ===== src/Server/Listener.antt =====
-- vpn_server/internal/server/server.go: `Run`, with the handlers that it registers, and
-- `handleServerInfo` of masque_handler.go. The mux of net/http, the HTTP/3 server and Gin's `Run` are
-- what they answer.
use Prim.Native.String.{String, ◌++◌ as str_append}
use masque_vpn.Prelude.{Bool, true, false, Option, none, some, Result, ok, err}
use masque_vpn.Server.State.{Server}
use masque_vpn.Server.Requests.{Request, Response, handle_masque_request}
use masque_vpn.Server.MutualTls.{SetupError}

-- The patterns "/", "/metrics" and "/health".
pub data Pattern : Type 0 where
  root metrics_path health_path : Pattern

pub data HttpAnswer : Type 0 where
  from_handler : Response → HttpAnswer
  -- 200 and a text.
  text : String → HttpAnswer
  -- What the mux answers itself, such as a redirect to the clean path.
  from_mux : HttpAnswer

abbrev pub metrics_text : String
metrics_text = "Metrics endpoint"

abbrev pub health_text : String
health_text = "{\"status\":\"healthy\",\"service\":\"masque-vpn-server\"}"

-- The body that goes with the answer `server_info`.
unfoldable pub server_info_body : String → String
server_info_body network =
    str_append
      "{\n\t\t\"service\": \"masque-vpn-server\",\n\t\t\"version\": \"1.0.0\",\n\t\t\"protocol\": \"MASQUE CONNECT-IP\",\n\t\t\"network\": \""
      (str_append network "\"\n\t}")

abbrev pub after_masque : Server × Response → Server × HttpAnswer
after_masque (s, response) = (s, from_handler response)

abbrev pub serve_pattern : Server → Request → Option Pattern → Server × HttpAnswer
serve_pattern s r none = (s, from_mux)
serve_pattern s r (some root) = after_masque (handle_masque_request s r)
serve_pattern s r (some metrics_path) = (s, text metrics_text)
serve_pattern s r (some health_path) = (s, text health_text)

-- Each of the handlers is registered for every method.
unfoldable pub serve_http : (Request → Option Pattern) → Server → Request → Server × HttpAnswer
serve_http mux s r = serve_pattern s r (mux r)

-- What `Run` waits for: the end of `ListenAndServe` with its error, or the end of its context, and
-- then what closing the HTTP/3 server answers.
pub data Waited : Type 0 where
  listener_ended context_done : Option String → Waited

pub data RunError : Type 0 where
  failed_to_setup_tls : SetupError → RunError
  listener_failed failed_to_close : String → RunError

abbrev pub wrap : (String → RunError) → Option String → Option RunError
wrap f none = none
wrap f (some e) = some (f e)

abbrev pub after_wait : Waited → Option RunError
after_wait (listener_ended e) = wrap listener_failed e
after_wait (context_done e) = wrap failed_to_close e

-- The error of `Run`, and whether the API server and the listener were started. An error of the API
-- server is only logged.
unfoldable pub run_server : {T : Type 0} → Result SetupError T → Waited → Option RunError × Bool
run_server (err e) waited = (some (failed_to_setup_tls e), false)
run_server (ok tls) waited = (after_wait waited, true)
