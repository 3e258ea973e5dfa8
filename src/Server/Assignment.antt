-- ===== src/Server/Assignment.antt =====
-- vpn_server/internal/server/masque_handler.go: `assignIPToClient`, on every branch.
use Prim.Native.String.{String}
use masque_vpn.Prelude.{
  ◌≡◌, refl, sym, ap, subst, ◌∙◌, ◌⊎◌, inl, inr, none, some, Result, ok, err, [], Option-cases,
  if◌then◌else◌,
}
use masque_vpn.Prelude.Assoc.{string_eq, lookup, lookup-store, beq_refl}
use masque_vpn.Ip.Addr.{Addr, Prefix, addr_eq, bytes_eq}
use masque_vpn.Ip.Pool.{no_available_addresses, allocate}
use masque_vpn.Ip.Leases.{allocate_lem}
use masque_vpn.Server.State.{Server}
use masque_vpn.Server.Sessions.{
  AssignError, failed_to_allocate_ip, assign_from, assign_ip_to_client,
}
use masque_vpn.Server.Ownership.{HoldersAgree, allocate-OneHolder}

pub assign_known :
    (s : Server) (c : String) (ip : Addr)
    → lookup c s.client_ip_map ≡ some ip
    → assign_ip_to_client s c ≡ (s, ok (record { addr = ip; bits = 32 }))
unfolding assign_ip_to_client
assign_known s c ip e = rw (e, assign_ip_to_client)

pub assign_new :
    (s : Server) (c : String)
    → lookup c s.client_ip_map ≡ none
    → assign_ip_to_client s c ≡ assign_from s c (allocate s.ip_pool c)
unfolding assign_ip_to_client
assign_new s c e = rw (e, assign_ip_to_client)

-- The new state and the answer of `assignIPToClient` for the client `c` in the state `s`.
abbrev pub Assigned : Server → String → Server × Result AssignError Prefix → Type 0
Assigned s c (t, answer) =
    HoldersAgree t
    × (((ip : Addr) × (lookup c s.client_ip_map ≡ some ip)
          × (t ≡ s)
          × (answer ≡ ok (record { addr = ip; bits = 32 })))
        ⊎ (((ip : Addr) × (lookup c s.client_ip_map ≡ none)
              × (lookup ip s.ip_pool.allocated ≡ none)
              × (lookup c t.client_ip_map ≡ some ip)
              × (answer ≡ ok (record { addr = ip; bits = 32 })))
            ⊎ ((lookup c s.client_ip_map ≡ none)
                × (s.ip_pool.available ≡ [])
                × (t ≡ s)
                × (answer ≡ err (failed_to_allocate_ip no_available_addresses)))))

Assigned-ok :
    (s : Server) (c : String) (ip : Addr)
    → HoldersAgree s
    → lookup c s.client_ip_map ≡ none
    → lookup ip s.ip_pool.allocated ≡ none
    → (allocate s.ip_pool c).1 ≡ ok (record { addr = ip; bits = 32 })
    → ((a : Addr)
        → lookup a (allocate s.ip_pool c).0.allocated
          ≡ (if bytes_eq ip a then some c else lookup a s.ip_pool.allocated))
    → Assigned s c (assign_from s c (allocate s.ip_pool c))
Assigned-ok s c ip h new unused gives after =
    subst (λ r. Assigned s c (assign_from s c ((allocate s.ip_pool c).0, r))) (sym gives)
      (
        allocate-OneHolder s.ip_pool s.client_ip_map c ip h new unused after,
        inr (
            inl (
              ip,
              new,
              unused,
              lookup-store c c ip s.client_ip_map
                  ∙ ap (λ t. if t then some ip else lookup c s.client_ip_map) (beq_refl c),
              refl,
            )),
      )

-- What `assignIPToClient` does in a state where the leases agree with the client map. A client that
-- has an address gets it again and nothing changes. Another gets, with 32 bits, an address that
-- nobody held, which is its own from then on, or fails, when none is available, and then nothing
-- changes. In each case the leases agree with the client map afterwards.
pub assign_ip_to_client_lem :
    (s : Server) (c : String) → HoldersAgree s → Assigned s c (assign_ip_to_client s c)
assign_ip_to_client_lem s c h = elim (Option-cases (lookup c s.client_ip_map)) [
  | inr (ip, e) ↦ subst (Assigned s c) (sym (assign_known s c ip e)) (h, inl (ip, e, refl, refl))
  | inl e ↦ subst (Assigned s c) (sym (assign_new s c e)) (elim (allocate_lem s.ip_pool c h.sound) [
    | inl (empty, same) ↦
        subst (λ r. Assigned s c (assign_from s c r)) (sym same)
          (h, inr (inr (e, empty, refl, refl)))
    | inr (ip, unused, listed, gives, after, taken) ↦ Assigned-ok s c ip h e unused gives after
  ])
]
