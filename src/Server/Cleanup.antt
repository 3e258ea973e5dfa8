-- ===== src/Server/Cleanup.antt =====
-- vpn_server/internal/server/masque_handler.go and api_server.go: how a client leaves, in order and
-- out of order.
use Prim.Native.String.{String}
use masque_vpn.Prelude.{
  ◌≡◌, ◌≢◌, refl, sym, ap, subst, subst₂, ◌∙◌, ◌⊎◌, inl, inr, true, none, some, Option-cases,
  if◌then◌else◌,
}
use masque_vpn.Prelude.Assoc.{string_eq, lookup, delete, lookup-delete, beq_refl, beq_false}
use masque_vpn.Ip.Addr.{Addr, addr_eq}
use masque_vpn.Ip.Pool.{release}
use masque_vpn.Ip.Hosts.{member}
use masque_vpn.Server.State.{Server}
use masque_vpn.Server.Sessions.{
  drop_session, cleanup_client_session, remove_client, disconnect_client, client_not_found,
  client_disconnected,
}
use masque_vpn.Server.Ownership.{
  OneHolder, HoldersAgree, release-lookup, release_lists, release-OneHolder,
}

pub drop_session-keeps :
    (s : Server) (ip : Addr)
    → ((drop_session s ip).ip_pool ≡ s.ip_pool)
      × ((drop_session s ip).client_ip_map ≡ s.client_ip_map)
      × (lookup ip (drop_session s ip).ip_conn_map ≡ none)
unfolding drop_session
drop_session-keeps s ip = elim (Option-cases (lookup ip s.ip_conn_map)) [
  | inl e ↦ rw (e, drop_session) (refl, refl, e)
  | inr (i, e) ↦
      rw (e, drop_session)
        (
          refl,
          refl,
          lookup-delete ip ip s.ip_conn_map
              ∙ ap (λ t. if t then none else lookup ip s.ip_conn_map) (beq_refl ip),
        )
]

-- What a cleanup leaves, whoever it is for.
pub cleanup_keeps :
    (s : Server) (c : String) (ip : Addr)
    → let t = cleanup_client_session s c ip in
      (t.ip_pool ≡ release s.ip_pool ip)
      × (t.client_ip_map ≡ delete c s.client_ip_map)
      × (lookup ip t.ip_conn_map ≡ none)
unfolding cleanup_client_session
cleanup_keeps s c ip =
    let (pool, clients, gone) =
      drop_session-keeps (record s { client_ip_map = delete c s.client_ip_map }) ip in
    (ap (λ p. release p ip) pool, clients, gone)

-- When the handler of a connection ends while its client still holds the address, or after the
-- client was disconnected and while nobody holds the address, `cleanupClientSession` keeps the
-- leases in step with the client map, and no session is left under the address.
pub cleanup-HoldersAgree :
    (s : Server) (c : String) (ip : Addr)
    → HoldersAgree s
    → (lookup c s.client_ip_map ≡ some ip)
      ⊎ ((lookup c s.client_ip_map ≡ none) × (lookup ip s.ip_pool.allocated ≡ none))
    → HoldersAgree (cleanup_client_session s c ip)
      × (lookup ip (cleanup_client_session s c ip).ip_conn_map ≡ none)
cleanup-HoldersAgree s c ip h owner =
    let (pool, clients, gone) = cleanup_keeps s c ip in
    (
      subst₂ OneHolder (sym pool) (sym clients)
          (release-OneHolder s.ip_pool s.client_ip_map c ip h owner),
      gone,
    )

-- A cleanup that comes late. Let another client b hold the address when the handler of c ends, as
-- it can after c was disconnected through the API. Then `cleanupClientSession` leaves b in the
-- client map with the address, while the pool counts it as nobody's and lists it for the next
-- client, and b's session is dropped.
pub cleanup_stale :
    (s : Server) (c b : String) (ip : Addr)
    → HoldersAgree s
    → c ≢ b
    → lookup b s.client_ip_map ≡ some ip
    → let t = cleanup_client_session s c ip in
      (lookup b t.client_ip_map ≡ some ip)
      × (lookup ip t.ip_pool.allocated ≡ none)
      × (member ip t.ip_pool.available ≡ true)
      × (lookup ip t.ip_conn_map ≡ none)
cleanup_stale s c b ip h other holds =
    let (pool, clients, gone) = cleanup_keeps s c ip in
    (
      ap (lookup b) clients
          ∙ lookup-delete c b s.client_ip_map
          ∙ ap (λ t. if t then none else lookup b s.client_ip_map) (beq_false c b other)
          ∙ holds,
      ap (λ p. lookup ip p.allocated) pool
          ∙ release-lookup s.ip_pool ip ip
          ∙ ap (λ t. if t then none else lookup ip s.ip_pool.allocated) (beq_refl ip),
      ap (λ p. member ip p.available) pool ∙ release_lists s.ip_pool ip b (h.leased b ip holds),
      gone,
    )

disconnect_missing :
    (s : Server) (c : String)
    → lookup c s.client_ip_map ≡ none
    → disconnect_client s c ≡ (s, client_not_found)
unfolding disconnect_client remove_client
disconnect_missing s c e = rw (e, remove_client)

disconnect_found :
    (s : Server) (c : String) (ip : Addr)
    → lookup c s.client_ip_map ≡ some ip
    → let (t, answer) = disconnect_client s c in
      (t.ip_pool ≡ release s.ip_pool ip)
      × (t.client_ip_map ≡ delete c s.client_ip_map)
      × (lookup ip t.ip_conn_map ≡ none)
      × (answer ≡ client_disconnected c)
unfolding disconnect_client remove_client
disconnect_found s c ip e =
    let (pool, clients, gone) = drop_session-keeps s ip in
    rw (e, remove_client) (ap (λ p. release p ip) pool, ap (delete c) clients, gone, refl)

-- `DELETE /clients/:id` keeps the leases in step with the client map. For a client that is not
-- known it answers so and changes nothing; else the client, its lease and the session under its
-- address are gone.
pub disconnect_client_lem :
    (s : Server) (c : String)
    → HoldersAgree s
    → let (t, answer) = disconnect_client s c in
      HoldersAgree t
      × (((lookup c s.client_ip_map ≡ none) × (t ≡ s) × (answer ≡ client_not_found))
          ⊎ ((ip : Addr) × (lookup c s.client_ip_map ≡ some ip)
              × (answer ≡ client_disconnected c)
              × (lookup c t.client_ip_map ≡ none)
              × (lookup ip t.ip_pool.allocated ≡ none)
              × (lookup ip t.ip_conn_map ≡ none)))
disconnect_client_lem s c h = elim (Option-cases (lookup c s.client_ip_map)) [
  | inl e ↦
      subst
        (λ r.
          HoldersAgree r.0
          × (((lookup c s.client_ip_map ≡ none) × (r.0 ≡ s) × (r.1 ≡ client_not_found))
              ⊎ ((ip : Addr) × (lookup c s.client_ip_map ≡ some ip)
                  × (r.1 ≡ client_disconnected c)
                  × (lookup c r.0.client_ip_map ≡ none)
                  × (lookup ip r.0.ip_pool.allocated ≡ none)
                  × (lookup ip r.0.ip_conn_map ≡ none))))
        (sym (disconnect_missing s c e)) (h, inl (e, refl, refl))
  | inr (ip, e) ↦
      let (pool, clients, gone, answer) = disconnect_found s c ip e in
      (
        subst₂ OneHolder (sym pool) (sym clients)
            (release-OneHolder s.ip_pool s.client_ip_map c ip h (inl e)),
        inr (
          ip,
          e,
          answer,
          ap (lookup c) clients
              ∙ lookup-delete c c s.client_ip_map
              ∙ ap (λ t. if t then none else lookup c s.client_ip_map) (beq_refl c),
          ap (λ p. lookup ip p.allocated) pool
              ∙ release-lookup s.ip_pool ip ip
              ∙ ap (λ t. if t then none else lookup ip s.ip_pool.allocated) (beq_refl ip),
          gone,
        ),
      )
]
