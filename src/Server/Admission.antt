-- ===== src/Server/Admission.antt =====
-- vpn_server/internal/server/masque_handler.go: which requests get as far as an address.
use Prim.Native.String.{String}
use text.Mathlib.Text.{◌==◌ as str_eq}
use text.Mathlib.TextEquality.{eq_iff}
use masque_vpn.Prelude.{
  ℕ, ◌≡◌, ◌≢◌, refl, ◌⊎◌, inl, inr, true, ◌&&◌, some, arith, Bool-cases, Option-cases,
}
use masque_vpn.Prelude.Assoc.{string_eq}
use masque_vpn.Ip.Addr.{Addr, addr_eq}
use masque_vpn.Server.State.{Server}
use masque_vpn.Server.Requests.{
  Request, accepted, is_masque_request, peer_name, accept_client, handle_masque_request,
}

-- The conditions under which a request gets as far as an address.
abbrev pub IsAdmitted : Request → String → Type 0
IsAdmitted r c =
    (r.method ≡ "CONNECT")
    × (is_masque_request r ≡ true)
    × (peer_name r.peer_certificates ≡ some c)
    × (c ≢ "")

-- Every request either is refused, or answered with the server's description, in an unchanged
-- state, with no session, or is admitted: it is a CONNECT with a MASQUE header from a client whose
-- first certificate has a common name that is not empty, and goes on under that name.
pub handle_masque_request_cases :
    (s : Server) (r : Request)
    → (((handle_masque_request s r).0 ≡ s)
        × ((c : String) (ip : Addr) (i : ℕ) → (handle_masque_request s r).1 ≢ accepted c ip i))
      ⊎ ((c : String) × IsAdmitted r c × (handle_masque_request s r ≡ accept_client s c))
unfolding handle_masque_request
handle_masque_request_cases s r = elim (Bool-cases (str_eq r.method "CONNECT")) [
  | inr other ↦
      rw (other, handle_masque_request)
        (inl (elim (Bool-cases (str_eq r.method "GET" && str_eq r.path "/")) [
          | inl get ↦ rw get (refl, λ c ip i e. cc)
          | inr no_get ↦ rw no_get (refl, λ c ip i e. cc)
        ]))
  | inl connect ↦ elim (Bool-cases (is_masque_request r)) [
    | inr plain ↦ rw (connect, plain, handle_masque_request) (inl (refl, λ c ip i e. cc))
    | inl masque ↦ elim (Option-cases (peer_name r.peer_certificates)) [
      | inl unknown ↦
          rw (connect, masque, unknown, handle_masque_request) (inl (refl, λ c ip i e. cc))
      | inr (c, known) ↦ elim (Bool-cases (str_eq c "")) [
        | inl empty ↦
            rw (connect, masque, known, empty, handle_masque_request) (inl (refl, λ c ip i e. cc))
        | inr named ↦ inr (
          c,
          ((eq_iff r.method "CONNECT").0 connect, masque, known, λ e. ground (arith, eq_iff c "")),
          rw (connect, masque, known, named, handle_masque_request) refl,
        )
      ]
    ]
  ]
]
