-- ===== src/Server/Queries.antt =====
-- vpn_server/internal/server/api_server.go: what requests to the API can change.
use Prim.Native.String.{String}
use text.Mathlib.Text.{◌==◌ as str_eq}
use masque_vpn.Prelude.{
  All-append, Bool, true, false, ◌∙◌, ◌≡◌, refl, sym, subst, ap, ◌⊎◌, inl, inr, Option, none, some,
  List, [], ◌∷◌, All, if◌then◌else◌,
}
use masque_vpn.Server.Sessions.{disconnect_client}
use masque_vpn.Server.Api.{
  ApiServer, disconnect, Registration, get, delete, disconnection, serve_registration, serve_found,
  Router, static_routes, setup_routes, handle, serve_api,
}

abbrev pub IsOneOf : Registration → List Registration → Type 0
IsOneOf r [] = ⊥
IsOneOf r (x ∷ xs) = (r ≡ x) ⊎ IsOneOf r xs

-- Gin's documentation: a handler is called for its own method, one of files for GET and HEAD.
abbrev pub Takes : Registration → String → Type 0
Takes (Registration.static path dir) method = (method ≡ "GET") ⊎ (method ≡ "HEAD")
Takes (Registration.static_file path dir name) method = (method ≡ "GET") ⊎ (method ≡ "HEAD")
Takes (get path h) method = method ≡ "GET"
Takes (delete path h) method = method ≡ "DELETE"

-- A request comes only to what was registered.
abbrev pub Routes : Router → Type 0
Routes find =
    (rs : List Registration) (method path : String) (r : Registration) (id : String)
    → find rs method path ≡ some (r, id)
    → IsOneOf r rs × Takes r method

abbrev pub disconnection_route : Registration
disconnection_route = delete "/api/v1/clients/:id" disconnect

-- Either nothing changes, or the route is the one that disconnects a client, and that is done.
abbrev Does : ApiServer → String → Registration → String → Type 0
Does api method r id =
    ((serve_registration api r id).0 ≡ api)
    ⊎ ((method ≡ "DELETE")
        × (r ≡ disconnection_route)
        × ((serve_registration api r id).0
            ≡ record api { server = (disconnect_client api.server id).0 })
        × ((serve_registration api r id).1 ≡ disconnection (disconnect_client api.server id).1))

All-one :
    (P : Registration → Type 0) (rs : List Registration) (r : Registration)
    → All P rs
    → IsOneOf r rs
    → P r
All-one P [] r a m = elim m [ ]
All-one P (x ∷ xs) r a (inl e) = subst P (sym e) a.0
All-one P (x ∷ xs) r a (inr m) = All-one P xs r a.1 m

setup_routes-Does :
    (api : ApiServer) (method id : String)
    → All (λ r. Takes r method → Does api method r id) (setup_routes api.config)
unfolding setup_routes handle
setup_routes-Does api method id =
    All-append (λ r. Takes r method → Does api method r id)
      (static_routes api.config.api_server.static_dir) _
      (statics (str_eq api.config.api_server.static_dir ""))
      (
        λ _. inl refl,
        (
          λ _. inl refl,
          (
            λ _. inl refl,
            (
              λ _. inl refl,
              (
                λ deletes. inr (deletes, refl, refl, refl),
                (λ _. inl refl, (λ _. inl refl, (λ _. inl refl, (λ _. inl refl, tt)))),
              ),
            ),
          ),
        ),
      )
  where
    statics :
        (b : Bool)
        → All
            (λ r. Takes r method → Does api method r id)
            (if b
              then []
              else Registration.static "/static" api.config.api_server.static_dir
                ∷ Registration.static_file "/" api.config.api_server.static_dir "index.html"
                ∷ [])
    statics true = tt
    statics false = (λ _. inl refl, (λ _. inl refl, tt))

-- Whatever is asked of the API server, with a router that calls registered handlers for their methods:
-- the server, its logs and its configuration stay as they are, unless the request is a DELETE that
-- the router brings to the route of a client; then exactly that client is disconnected, as
-- `disconnectClient` does it, and the answer is its answer.
pub serve_api_cases :
    (find : Router) (api : ApiServer) (method path : String)
    → Routes find
    → ((serve_api find api method path).0 ≡ api)
      ⊎ ((id : String) × (method ≡ "DELETE")
          × (find (setup_routes api.config) method path ≡ some (disconnection_route, id))
          × ((serve_api find api method path).0
              ≡ record api { server = (disconnect_client api.server id).0 })
          × ((serve_api find api method path).1
              ≡ disconnection (disconnect_client api.server id).1))
unfolding serve_api
serve_api_cases find api method path routes = go (find (setup_routes api.config) method path) refl
  where
    go :
        (o : Option (Registration × String))
        → find (setup_routes api.config) method path ≡ o
        → ((serve_found api o).0 ≡ api)
          ⊎ ((id : String) × (method ≡ "DELETE")
              × (find (setup_routes api.config) method path ≡ some (disconnection_route, id))
              × ((serve_found api o).0
                  ≡ record api { server = (disconnect_client api.server id).0 })
              × ((serve_found api o).1 ≡ disconnection (disconnect_client api.server id).1))
    go none e = inl refl
    go (some (r, id)) e =
        let (there, takes) = routes (setup_routes api.config) method path r id e in
        elim (All-one (λ x. Takes x method → Does api method x id) (setup_routes api.config) r
          (setup_routes-Does api method id) there takes) [
            | inl same ↦ inl same
            | inr (deletes, this, changed, answered) ↦
                inr (id, deletes, e ∙ ap (λ x. some (x, id)) this, changed, answered)
          ]
