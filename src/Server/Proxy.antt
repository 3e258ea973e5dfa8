-- ===== src/Server/Proxy.antt =====
-- vpn_server/internal/server/masque_handler.go: the two proxies of a session, between the TUN device
-- and the client's connection, and `isNetworkClosed` of packet_processor.go. Each round says what
-- its read and its write give; a list that ends is a context that is cancelled.
use Prim.Native.String.{String}
use text.Mathlib.Text.{◌==◌ as str_eq}
use masque_vpn.Prelude.{
  ℕ, ◌+◌, Bool, ◌||◌, Option, none, some, Result, ok, err, List, [], ◌∷◌, ◌++◌, length, ◌==◌,
  if◌then◌else◌,
}
use masque_vpn.Ip.Addr.{Addr, bytes_eq}
use masque_vpn.Server.Parse.{ParseError, parse_source_ip, parse_destination_ip}

-- What the code looks at in an error: the text inside where it is a `*net.OpError`, its own text,
-- and whether it is a `net.Error` that says it is a timeout.
pub record IoError : Type 0 where
  pub op_error : Option String
  pub text : String
  pub timeout : Bool

unfoldable pub is_network_closed : IoError → Bool
is_network_closed e = elim e.op_error [
  | some inner ↦ str_eq inner "use of closed network connection"
  | none ↦
      str_eq e.text "EOF"
      || str_eq e.text "connection reset by peer"
      || str_eq e.text "use of closed network connection"
]

pub record Round : Type 0 where
  pub read : Result IoError (List ℕ)
  pub written : Option IoError

pub data ProxyError : Type 0 where
  failed_to_read failed_to_write : IoError → ProxyError

-- What a proxy has passed on, and what it has added to its two counters.
pub record Proxied : Type 0 where
  pub passed : List (List ℕ)
  pub packets : ℕ
  pub bytes : ℕ

pub data Progress : Type 0 where
  goes_on : Proxied → Progress
  returns : Proxied → Option ProxyError → Progress

abbrev pub count_packet : Proxied → List ℕ → Proxied
count_packet s packet = record {
  passed = s.passed ++ packet ∷ [];
  packets = s.packets + 1;
  bytes = s.bytes + length packet;
}

abbrev pub after_read_error : Proxied → IoError → Progress
after_read_error s e =
    if is_network_closed e
    then returns s none
    else if e.timeout
    then goes_on s
    else returns s (some (failed_to_read e))

abbrev pub pass_on : Proxied → List ℕ → Option IoError → Progress
pass_on s packet none = goes_on (count_packet s packet)
pass_on s packet (some e) =
    if is_network_closed e then returns s none else returns s (some (failed_to_write e))

abbrev pub if_from : Addr → Proxied → List ℕ → Option IoError → Result ParseError Addr → Progress
if_from client_ip s packet written (err e) = goes_on s
if_from client_ip s packet written (ok ip) =
    if bytes_eq ip client_ip then pass_on s packet written else goes_on s

module _ (parse : List ℕ → Result ParseError Addr) (client_ip : Addr) where
  abbrev pub after_read : Proxied → Option IoError → Result IoError (List ℕ) → Progress
  after_read s written (err e) = after_read_error s e
  after_read s written (ok packet) =
      if length packet == 0 then goes_on s else if_from client_ip s packet written (parse packet)

  abbrev pub after_round :
      Progress → (Proxied → Proxied × Option ProxyError) → Proxied × Option ProxyError
  after_round (goes_on s) rest = rest s
  after_round (returns s e) rest = (s, e)

  unfoldable pub proxy : List Round → Proxied → Proxied × Option ProxyError
  proxy [] s = (s, none)
  proxy (r ∷ rounds) s = after_round (after_read s r.written r.read) (λ t. proxy rounds t)

abbrev pub nothing_passed : Proxied
nothing_passed = record { passed = []; packets = 0; bytes = 0 }

-- Without a TUN device a proxy waits for the end of its context.
unfoldable pub proxy_client_to_tun : Bool → Addr → List Round → Proxied × Option ProxyError
proxy_client_to_tun has_tun client_ip rounds =
    if has_tun
    then proxy parse_source_ip client_ip rounds nothing_passed
    else (nothing_passed, none)

unfoldable pub proxy_tun_to_client : Bool → Addr → List Round → Proxied × Option ProxyError
proxy_tun_to_client has_tun client_ip rounds =
    if has_tun
    then proxy parse_destination_ip client_ip rounds nothing_passed
    else (nothing_passed, none)
