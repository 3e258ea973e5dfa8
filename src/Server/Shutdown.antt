-- ===== src/Server/Shutdown.antt =====
-- vpn_server/internal/server/server.go: what `Close` leaves of the clients' connections.
use Prim.Native.String.{String}
use text.Mathlib.Text.{◌==◌ as str_eq}
use masque_vpn.Prelude.{
  ℕ, zero, suc, ◌≡◌, ◌≢◌, refl, ap, ◌∙◌, inl, inr, Bool, true, false, Option, none, some, List, [],
  ◌∷◌, get_elem?, set, if◌then◌else◌, Option-cases, Bool-cases,
}
use masque_vpn.Prelude.Assoc.{string_eq, lookup}
use masque_vpn.Ip.Addr.{Addr, addr_eq}
use masque_vpn.Tun.Device.{TunDevice}
use masque_vpn.Server.State.{Conn, ClientSession, Server, closed_conn, close_session, close_at}
use masque_vpn.Server.Sessions.{close_clients}
use masque_vpn.Server.Start.{Running, close_tun, close_server}

abbrev conn_open : Option Conn → Bool
conn_open none = false
conn_open (some k) = if k.closed then false else true

abbrev of_session : Option ClientSession → Bool
of_session none = false
of_session (some session) = conn_open session.conn

-- Whether session `i` has a connection that is open.
abbrev pub session_open : Server → ℕ → Bool
session_open s i = of_session (get_elem? s.sessions i)

closed_conn-open : (o : Option Conn) → conn_open (closed_conn o) ≡ false
closed_conn-open none = refl
closed_conn-open (some k) = refl

set_shuts :
    (xs : List ClientSession) (i : ℕ) (c : ClientSession)
    → conn_open c.conn ≡ false
    → of_session (get_elem? (set xs i c) i) ≡ false
set_shuts [] i c q = refl
set_shuts (x ∷ xs) zero c q = q
set_shuts (x ∷ xs) (suc i) c q = set_shuts xs i c q

set_keeps_shut :
    (xs : List ClientSession) (i j : ℕ) (c : ClientSession)
    → conn_open c.conn ≡ false
    → of_session (get_elem? xs j) ≡ false
    → of_session (get_elem? (set xs i c) j) ≡ false
set_keeps_shut [] i j c q h = refl
set_keeps_shut (x ∷ xs) zero zero c q h = q
set_keeps_shut (x ∷ xs) zero (suc j) c q h = h
set_keeps_shut (x ∷ xs) (suc i) zero c q h = h
set_keeps_shut (x ∷ xs) (suc i) (suc j) c q h = set_keeps_shut xs i j c q h

get_elem?-set_other :
    (xs : List ClientSession) (i j : ℕ) (c : ClientSession)
    → i ≢ j
    → get_elem? (set xs i c) j ≡ get_elem? xs j
get_elem?-set_other [] i j c n = refl
get_elem?-set_other (x ∷ xs) zero zero c n = absurd (n refl)
get_elem?-set_other (x ∷ xs) zero (suc j) c n = refl
get_elem?-set_other (x ∷ xs) (suc i) zero c n = refl
get_elem?-set_other (x ∷ xs) (suc i) (suc j) c n = get_elem?-set_other xs i j c (λ e. n (ap suc e))

close_at_shuts :
    (i : ℕ) (xs : List ClientSession) → of_session (get_elem? (close_at i xs) i) ≡ false
unfolding close_at
close_at_shuts i xs = elim (Option-cases (get_elem? xs i)) [
  | inl q ↦ rw (q, close_at) (ap of_session q)
  | inr (c, q) ↦ rw (q, close_at) (set_shuts xs i (close_session c) (closed_conn-open c.conn))
]

close_at_keeps_shut :
    (i j : ℕ) (xs : List ClientSession)
    → of_session (get_elem? xs j) ≡ false
    → of_session (get_elem? (close_at i xs) j) ≡ false
unfolding close_at
close_at_keeps_shut i j xs h = elim (Option-cases (get_elem? xs i)) [
  | inl q ↦ rw (q, close_at) h
  | inr (c, q) ↦
      rw (q, close_at) (set_keeps_shut xs i j (close_session c) (closed_conn-open c.conn) h)
]

close_at-other :
    (i j : ℕ) (xs : List ClientSession) → i ≢ j → get_elem? (close_at i xs) j ≡ get_elem? xs j
unfolding close_at
close_at-other i j xs n = elim (Option-cases (get_elem? xs i)) [
  | inl q ↦ rw (q, close_at) refl
  | inr (c, q) ↦ rw (q, close_at) (get_elem?-set_other xs i j (close_session c) n)
]

close_clients_keeps_shut :
    (clients : List (String × Addr)) (s : Server) (j : ℕ)
    → session_open s j ≡ false
    → session_open (close_clients clients s) j ≡ false
unfolding close_clients
close_clients_keeps_shut [] s j h = h
close_clients_keeps_shut ((c, ip) ∷ clients) s j h = elim (Option-cases (lookup ip s.ip_conn_map)) [
  | inl q ↦ rw (q, close_clients) (close_clients_keeps_shut clients s j h)
  | inr (i, q) ↦
      rw (q, close_clients)
        (close_clients_keeps_shut clients _ j (close_at_keeps_shut i j s.sessions h))
]

close_clients_shuts :
    (clients : List (String × Addr)) (s : Server) (c : String) (ip : Addr) (i : ℕ)
    → lookup c clients ≡ some ip
    → lookup ip s.ip_conn_map ≡ some i
    → session_open (close_clients clients s) i ≡ false
unfolding lookup close_clients
close_clients_shuts [] s c ip i has of = absurd (cc)
close_clients_shuts ((d, at) ∷ clients) s c ip i has of =
    let step : (if str_eq d c then some at else lookup c clients) ≡ some ip = has in
    elim (Bool-cases (str_eq d c)) [
      | inl q ↦
          let same : some at ≡ some ip = rw q at step in
          let found : lookup at s.ip_conn_map ≡ some i = cc in
          rw (found, close_clients)
            (close_clients_keeps_shut clients _ i (close_at_shuts i s.sessions))
      | inr q ↦
          let rest : lookup c clients ≡ some ip = rw q at step in
          elim (Option-cases (lookup at s.ip_conn_map)) [
            | inl u ↦ rw (u, close_clients) (close_clients_shuts clients s c ip i rest of)
            | inr (j, u) ↦ rw (u, close_clients) (close_clients_shuts clients _ c ip i rest of)
          ]
    ]

close_clients-other :
    (clients : List (String × Addr)) (s : Server) (j : ℕ)
    → ((ip : Addr) → lookup ip s.ip_conn_map ≢ some j)
    → get_elem? (close_clients clients s).sessions j ≡ get_elem? s.sessions j
unfolding close_clients
close_clients-other [] s j h = refl
close_clients-other ((c, ip) ∷ clients) s j h = elim (Option-cases (lookup ip s.ip_conn_map)) [
  | inl q ↦ rw (q, close_clients) (close_clients-other clients s j h)
  | inr (i, q) ↦
      rw (q, close_clients)
        (close_clients-other clients _ j h
          ∙ close_at-other i j s.sessions (λ e. h ip (q ∙ ap some e)))
]

close_clients-maps :
    (clients : List (String × Addr)) (s : Server)
    → let t = close_clients clients s in
      (t.client_ip_map ≡ s.client_ip_map)
      × (t.ip_conn_map ≡ s.ip_conn_map)
      × (t.ip_pool ≡ s.ip_pool)
unfolding close_clients
close_clients-maps [] s = (refl, refl, refl)
close_clients-maps ((c, ip) ∷ clients) s = elim (Option-cases (lookup ip s.ip_conn_map)) [
  | inl q ↦ rw (q, close_clients) (close_clients-maps clients s)
  | inr (i, q) ↦ rw (q, close_clients) (close_clients-maps clients _)
]

close_tun_keeps :
    (o : Option TunDevice) (s : Server)
    → let t = (close_tun o s).0 in
      (t.sessions ≡ s.sessions)
      × (t.client_ip_map ≡ s.client_ip_map)
      × (t.ip_conn_map ≡ s.ip_conn_map)
      × (t.ip_pool ≡ s.ip_pool)
close_tun_keeps none s = (refl, refl, refl, refl)
close_tun_keeps (some d) s = (refl, refl, refl, refl)

-- `Close` leaves the session of a client that has an address with no open connection. A session
-- `j` that is under no address, which is what the older one of a client becomes that connected
-- again, is left as open as it was. The maps and the pool stay as they were.
pub close_server_lem :
    (r : Running) (client_id : String) (ip : Addr) (i j : ℕ)
    → lookup client_id r.server.client_ip_map ≡ some ip
    → lookup ip r.server.ip_conn_map ≡ some i
    → ((at : Addr) → lookup at r.server.ip_conn_map ≢ some j)
    → let t = (close_server r).0 in
      (session_open t i ≡ false)
      × (session_open t j ≡ session_open r.server j)
      × (t.client_ip_map ≡ r.server.client_ip_map)
      × (t.ip_conn_map ≡ r.server.ip_conn_map)
      × (t.ip_pool ≡ r.server.ip_pool)
unfolding close_server
close_server_lem r client_id ip i j has of alone =
    let clients = r.server.client_ip_map in
    let closed = close_clients clients r.server in
    let kept = close_tun_keeps r.tun_dev closed in
    let maps = close_clients-maps clients r.server in
    (
      ap (λ xs. of_session (get_elem? xs i)) kept.0
          ∙ close_clients_shuts clients r.server client_id ip i has of,
      ap (λ xs. of_session (get_elem? xs j)) kept.0
          ∙ ap of_session (close_clients-other clients r.server j alone),
      kept.1 ∙ maps.0,
      kept.2 ∙ maps.1,
      kept.3 ∙ maps.2,
    )
