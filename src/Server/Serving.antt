-- ===== src/Server/Serving.antt =====
-- vpn_server/internal/server/server.go: which requests to the HTTP/3 server get as far as an address.
use Prim.Native.String.{String}
use masque_vpn.Prelude.{ℕ, ◌≡◌, ◌≢◌, refl, ap, ◌⊎◌, inl, inr, Option, none, some}
use masque_vpn.Ip.Addr.{Addr}
use masque_vpn.Server.State.{Server}
use masque_vpn.Server.Requests.{Request, accepted, accept_client}
use masque_vpn.Server.Admission.{IsAdmitted, handle_masque_request_cases}
use masque_vpn.Server.Listener.{
  Pattern, root, metrics_path, health_path, from_handler, after_masque, serve_pattern, serve_http,
}

-- Whatever the mux does with a request: either the state stays as it is and no session comes of it, or
-- the mux brings it to the MASQUE handler, and it is a CONNECT with a MASQUE header from a client
-- whose first certificate has a common name that is not empty, and goes on under that name.
pub serve_http_cases :
    (mux : Request → Option Pattern) (s : Server) (r : Request)
    → (((serve_http mux s r).0 ≡ s)
        × ((c : String) (ip : Addr) (i : ℕ)
            → (serve_http mux s r).1 ≢ from_handler (accepted c ip i)))
      ⊎ ((c : String) × (mux r ≡ some root)
          × IsAdmitted r c
          × (serve_http mux s r ≡ after_masque (accept_client s c)))
unfolding serve_http
serve_http_cases mux s r = go (mux r) refl
  where
    go :
        (o : Option Pattern)
        → mux r ≡ o
        → (((serve_pattern s r o).0 ≡ s)
            × ((c : String) (ip : Addr) (i : ℕ)
                → (serve_pattern s r o).1 ≢ from_handler (accepted c ip i)))
          ⊎ ((c : String) × (mux r ≡ some root)
              × IsAdmitted r c
              × (serve_pattern s r o ≡ after_masque (accept_client s c)))
    go none e = inl (refl, λ c ip i f. cc)
    go (some metrics_path) e = inl (refl, λ c ip i f. cc)
    go (some health_path) e = inl (refl, λ c ip i f. cc)
    go (some root) e = elim (handle_masque_request_cases s r) [
      | inl (same, refused) ↦ inl (same, λ c ip i f. refused c ip i cc)
      | inr (c, admitted, goes_on) ↦ inr (c, e, admitted, ap after_masque goes_on)
    ]
