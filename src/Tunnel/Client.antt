-- ===== src/Tunnel/Client.antt =====
-- common/masque_connectip.go: `ConnectIP` and `Close` of the client, with what the QUIC connection
-- and its stream answer as parameters.
use Prim.Native.String.{String, ◌++◌ as str_append}
use text.Mathlib.Text.{find?}
use masque_vpn.Prelude.{
  ◌≡◌, refl, inl, inr, Bool, true, false, not, ◌&&◌, Option, none, some, List, [], ◌∷◌, Bool-cases,
  Option-cases, if◌then◌else◌,
}

pub record MasqueClient : Type 0 where
  pub closed : Bool
  -- The address of the peer; `none` is a client without a connection.
  pub quic_conn : Option String

-- How the calls turn out: whether a stream is opened, whether the request is written, and the
-- response that is read.
pub record QuicAnswers : Type 0 where
  pub opens : Bool
  pub writes : Bool
  pub reads : Option String
  pub closes : Bool

pub record Stream : Type 0 where
  pub closed : Bool
  pub written : List String

pub data ConnectError : Type 0 where
  client_is_closed quic_connection_is_nil failed_to_open_stream : ConnectError
  failed_to_send_request failed_to_read_response : ConnectError
  connect_failed : String → ConnectError

abbrev pub contains : String → String → Bool
contains text part = elim (find? text part) [ none ↦ false | some _ ↦ true ]

unfoldable pub connect_request : String → String
connect_request server_addr = str_append "CONNECT " (
    str_append server_addr
      " HTTP/1.1\r\nCapsule-Protocol: ?masque\r\nUpgrade: masque\r\nConnection: Upgrade\r\n\r\n")

-- What became of the stream, if one was opened, and the error; no error is a connection over the
-- stream.
abbrev pub Connected : Type 0
Connected = Option Stream × Option ConnectError

abbrev pub closed_stream : Stream → Stream
closed_stream s = record s { closed = true }

abbrev pub after_response : Stream → Option String → Connected
after_response s none = (some (closed_stream s), some failed_to_read_response)
after_response s (some response) =
    if not (contains response "200") && not (contains response "OK")
    then (some (closed_stream s), some (connect_failed response))
    else (some s, none)

abbrev pub over_stream : QuicAnswers → String → Connected
over_stream q server_addr =
    if not q.opens
    then (none, some failed_to_open_stream)
    else if not q.writes
    then (some (record { closed = true; written = [] }), some failed_to_send_request)
    else after_response (record { closed = false; written = connect_request server_addr ∷ [] })
        q.reads

unfoldable pub connect_ip : MasqueClient → QuicAnswers → Connected
connect_ip c q = if c.closed then (none, some client_is_closed) else elim c.quic_conn [
  | none ↦ (none, some quic_connection_is_nil)
  | some server_addr ↦ over_stream q server_addr
]

pub data CloseError : Type 0 where
  nothing_to_close failed_to_close : CloseError

unfoldable pub close_client : MasqueClient → QuicAnswers → MasqueClient × Option CloseError
close_client c q = if c.closed then (c, none) else elim c.quic_conn [
  | none ↦ (record c { closed = true }, some nothing_to_close)
  | some _ ↦ (record c { closed = true }, if q.closes then none else some failed_to_close)
]

abbrev pub is_open : Option Stream → Bool
is_open none = false
is_open (some s) = not s.closed

abbrev pub succeeds : Option ConnectError → Bool
succeeds none = true
succeeds (some e) = false

after_response-no_leak :
    (written : List String) (o : Option String)
    → let (stream, e) = after_response (record { closed = false; written = written }) o in
      is_open stream ≡ succeeds e
after_response-no_leak written none = refl
after_response-no_leak written (some response) =
    elim (Bool-cases (not (contains response "200") && not (contains response "OK"))) [
      | inl bad ↦ rw bad refl
      | inr good ↦ rw good refl
    ]

over_stream-no_leak :
    (q : QuicAnswers) (server_addr : String)
    → is_open (over_stream q server_addr).0 ≡ succeeds (over_stream q server_addr).1
over_stream-no_leak q server_addr = elim (Bool-cases q.opens) [
  | inr shut ↦ rw shut refl
  | inl opened ↦ elim (Bool-cases q.writes) [
    | inr failed ↦ rw (opened, failed) refl
    | inl sent ↦
        rw (opened, sent) (after_response-no_leak (connect_request server_addr ∷ []) q.reads)
  ]
]

connect_ip-no_leak :
    (c : MasqueClient) (q : QuicAnswers) → is_open (connect_ip c q).0 ≡ succeeds (connect_ip c q).1
unfolding connect_ip
connect_ip-no_leak c q = elim (Bool-cases c.closed) [
  | inl shut ↦ rw (shut, connect_ip) refl
  | inr open_ ↦ elim (Option-cases c.quic_conn) [
    | inl missing ↦ rw (open_, missing, connect_ip) refl
    | inr (server_addr, there) ↦ rw (open_, there, connect_ip) (over_stream-no_leak q server_addr)
  ]
]

connect_ip-close_client :
    (c : MasqueClient) (q : QuicAnswers)
    → connect_ip (close_client c q).0 q ≡ (none, some client_is_closed)
unfolding connect_ip close_client
connect_ip-close_client c q = elim (Bool-cases c.closed) [
  | inl shut ↦ rw (shut, close_client) refl
  | inr open_ ↦ elim (Option-cases c.quic_conn) [
    | inl missing ↦ rw (open_, missing, close_client) refl
    | inr (server_addr, there) ↦ rw (open_, there, close_client) refl
  ]
]

-- Whatever the connection and the stream answer, `ConnectIP` leaves a stream open exactly when it
-- returns a connection, which then holds it: on every error a stream that was opened is closed. A
-- client that was closed before opens none.
pub connect_ip_no_leak :
    (c : MasqueClient) (q : QuicAnswers)
    → (is_open (connect_ip c q).0 ≡ succeeds (connect_ip c q).1)
      × (connect_ip (close_client c q).0 q ≡ (none, some client_is_closed))
connect_ip_no_leak c q = (connect_ip-no_leak c q, connect_ip-close_client c q)
