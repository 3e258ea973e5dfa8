-- ===== src/Server/ApiTests.antt =====
-- vpn_server/internal/server/api_server.go: a request over a router.
use Prim.Native.String.{String}
use text.Mathlib.Text.{◌==◌ as str_eq}
use text.Mathlib.TextEquality.{eq_iff}
use masque_vpn.Prelude.{
  ◌≡◌, ◌⊎◌, refl, sym, inl, inr, ◌&&◌, Option, none, some, List, [], ◌∷◌, arith, subst,
  if◌then◌else◌,
}
use masque_vpn.Prelude.Assoc.{string_eq, lookup, store, delete as delete_key}
use masque_vpn.Ip.Addr.{addr_eq}
use masque_vpn.Ip.Pool.{allocate}
use masque_vpn.Server.Sessions.{assign_ip_to_client, disconnect_client, remove_client, drop_session}
use masque_vpn.Server.Api.{
  ApiServer, new_api_server, Registration, get, delete, disconnection, setup_routes, handle,
  serve_api,
}
use masque_vpn.Server.Queries.{IsOneOf, Takes, Routes, disconnection_route, serve_api_cases}
use masque_vpn.Server.Tests.{with_alice}
use masque_vpn.Server.StartTests.{config}

-- A router for fixed paths and one client.
abbrev serves : Registration → String → String → Option String
serves (Registration.static path dir) method asked = none
serves (Registration.static_file path dir name) method asked = none
serves (get path h) method asked =
    if str_eq method "GET" && str_eq path asked then some "" else none
serves (delete path h) method asked =
    if str_eq method "DELETE" && str_eq asked "/api/v1/clients/alice" then some "alice" else none

abbrev find : List Registration → String → String → Option (Registration × String)
find [] method asked = none
find (r ∷ rs) method asked =
    let rest = find rs method asked in
    elim (serves r method asked) [ none ↦ rest | some id ↦ some (r, id) ]

serves-Takes :
    (r : Registration) (method asked id : String) → serves r method asked ≡ some id → Takes r method
serves-Takes (Registration.static path dir) method asked id e = cc
serves-Takes (Registration.static_file path dir name) method asked id e = cc
serves-Takes (get path h) method asked id e = ground (arith, eq_iff method "GET")
serves-Takes (delete path h) method asked id e = ground (arith, eq_iff method "DELETE")

find-Routes : Routes find
find-Routes [] method asked r id e = cc
find-Routes (x ∷ rs) method asked r id e =
    go (serves x method asked) refl e (λ f. find-Routes rs method asked r id f)
  where
    go :
        (o : Option String)
        → serves x method asked ≡ o
        → (elim o [ none ↦ find rs method asked | some j ↦ some (x, j) ]) ≡ some (r, id)
        → (find rs method asked ≡ some (r, id) → IsOneOf r rs × Takes r method)
        → ((r ≡ x) ⊎ IsOneOf r rs) × Takes r method
    go none f g rest = let (there, takes) = rest g in (inr there, takes)
    go (some j) f g rest =
        let same : x ≡ r = cc in
        (inl (sym same), subst (λ y. Takes y method) same (serves-Takes x method asked j f))

abbrev method : String
method = "DELETE"

abbrev api : ApiServer
api =
    new_api_server with_alice config (record {
      tun_device = some "tun3";
      listen_addr = "0.0.0.0:4433";
      server_name = "vpn.example";
    })

serve_api_cases_example :
    ((serve_api find api method "/api/v1/clients/alice").0 ≡ api)
    ⊎ ((id : String) × (method ≡ "DELETE")
        × (find (setup_routes api.config) method "/api/v1/clients/alice"
            ≡ some (disconnection_route, id))
        × ((serve_api find api method "/api/v1/clients/alice").0
            ≡ record api { server = (disconnect_client api.server id).0 })
        × ((serve_api find api method "/api/v1/clients/alice").1
            ≡ disconnection (disconnect_client api.server id).1))
serve_api_cases_example = serve_api_cases find api method "/api/v1/clients/alice" find-Routes

-- Nothing was asked of who sent the request.
alice_is_gone :
    lookup "alice" (serve_api find api method "/api/v1/clients/alice").0.server.client_ip_map ≡ none
unfolding serve_api setup_routes handle disconnect_client remove_client drop_session delete_key
    lookup assign_ip_to_client allocate store
alice_is_gone = refl
