-- ===== src/Server/Reconnect.antt =====
-- vpn_server/internal/server/masque_handler.go: a client that connects again before its older
-- connection is over. Both have the same address, and the maps know only the newer session.
use Prim.Native.String.{String}
use masque_vpn.Prelude.{
  ℕ, ◌≡◌, refl, sym, ap, subst, ◌∙◌, Bool, true, false, Option, none, some, List, [], ◌∷◌, ◌++◌,
  length, get_elem?, set, if◌then◌else◌,
}
use masque_vpn.Prelude.Assoc.{string_eq, lookup, store, lookup-store, lookup-delete, beq_refl}
use masque_vpn.Ip.Addr.{Addr, addr_eq}
use masque_vpn.Ip.Hosts.{member}
use masque_vpn.Server.State.{Conn, ClientSession, Server, close_session, close_at}
use masque_vpn.Server.Sessions.{
  assign_ip_to_client, open_session, drop_session, cleanup_client_session,
}
use masque_vpn.Server.Requests.{accepted, accept_client}
use masque_vpn.Server.Ownership.{HoldersAgree, release-lookup, release_lists}
use masque_vpn.Server.Cleanup.{cleanup_keeps}

abbrev conn_closed : Option Conn → Bool
conn_closed none = false
conn_closed (some k) = k.closed

abbrev of_session : Option ClientSession → Bool
of_session none = false
of_session (some session) = conn_closed session.conn

-- Whether the connection of a session is closed.
abbrev pub session_closed : Server → ℕ → Bool
session_closed s i = of_session (get_elem? s.sessions i)

module _ {A : Type 0} (x : A) where
  get_elem?-snoc : (xs : List A) → get_elem? (xs ++ x ∷ []) (length xs) ≡ some x
  get_elem?-snoc [] = refl
  get_elem?-snoc (y ∷ xs) = get_elem?-snoc xs

  get_elem?-set_last :
      (xs : List A) (z : A) → get_elem? (set (xs ++ x ∷ []) (length xs) z) (length xs) ≡ some z
  get_elem?-set_last [] z = refl
  get_elem?-set_last (y ∷ xs) z = get_elem?-set_last xs z

close_at-last :
    (x : ClientSession) (xs : List ClientSession)
    → get_elem? (close_at (length xs) (xs ++ x ∷ [])) (length xs) ≡ some (close_session x)
unfolding close_at
close_at-last x xs = rw (get_elem?-snoc x xs, close_at) (get_elem?-set_last x xs (close_session x))

accept_client-known :
    (s : Server) (c : String) (ip : Addr)
    → lookup c s.client_ip_map ≡ some ip
    → accept_client s c ≡ ((open_session s ip).0, accepted c ip (length s.sessions))
unfolding accept_client assign_ip_to_client open_session
accept_client-known s c ip holds = rw (holds, assign_ip_to_client) refl

cleanup-open_session :
    (s : Server) (c : String) (ip : Addr)
    → session_closed (cleanup_client_session (open_session s ip).0 c ip) (length s.sessions) ≡ true
unfolding cleanup_client_session open_session drop_session
cleanup-open_session s c ip =
    let newest : lookup ip (store ip (length s.sessions) s.ip_conn_map) ≡ some (length s.sessions) =
      lookup-store ip ip (length s.sessions) s.ip_conn_map
      ∙ ap (λ t. if t then some (length s.sessions) else lookup ip s.ip_conn_map) (beq_refl ip) in
    rw (newest, drop_session) (ap of_session (close_at-last _ s.sessions))

-- A client that has an address connects again and is accepted, with the same address and a new
-- session. When the handler of its older connection then ends, the cleanup closes the new session
-- and takes it from the map, and the client is without its address, which is listed for the next
-- client.
pub reconnect_lem :
    (s : Server) (c : String) (ip : Addr)
    → HoldersAgree s
    → lookup c s.client_ip_map ≡ some ip
    → let (opened, answer) = accept_client s c in
      let t = cleanup_client_session opened c ip in
      (answer ≡ accepted c ip (length s.sessions))
      × (session_closed t (length s.sessions) ≡ true)
      × (lookup ip t.ip_conn_map ≡ none)
      × (lookup c t.client_ip_map ≡ none)
      × (lookup ip t.ip_pool.allocated ≡ none)
      × (member ip t.ip_pool.available ≡ true)
unfolding open_session
reconnect_lem s c ip h holds =
    let (pool, clients, gone) = cleanup_keeps (open_session s ip).0 c ip in
    subst
      (λ r.
        let t = cleanup_client_session r.0 c ip in
        (r.1 ≡ accepted c ip (length s.sessions))
        × (session_closed t (length s.sessions) ≡ true)
        × (lookup ip t.ip_conn_map ≡ none)
        × (lookup c t.client_ip_map ≡ none)
        × (lookup ip t.ip_pool.allocated ≡ none)
        × (member ip t.ip_pool.available ≡ true))
      (sym (accept_client-known s c ip holds))
      (
        refl,
        cleanup-open_session s c ip,
        gone,
        ap (lookup c) clients
            ∙ lookup-delete c c s.client_ip_map
            ∙ ap (λ t. if t then none else lookup c s.client_ip_map) (beq_refl c),
        ap (λ p. lookup ip p.allocated) pool
            ∙ release-lookup s.ip_pool ip ip
            ∙ ap (λ t. if t then none else lookup ip s.ip_pool.allocated) (beq_refl ip),
        ap (λ p. member ip p.available) pool ∙ release_lists s.ip_pool ip c (h.leased c ip holds),
      )
