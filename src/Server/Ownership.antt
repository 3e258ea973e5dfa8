-- ===== src/Server/Ownership.antt =====
-- vpn_server/internal/server/masque_handler.go and api_server.go: who holds which address. The
-- client map and the pool's leases are kept in step by `assignIPToClient`, `cleanupClientSession`
-- and `disconnectClient`.
use Prim.Native.String.{String}
use text.Mathlib.TextEquality.{eq_iff}
use masque_vpn.Prelude.{
  ◌≡◌, sym, ap, ◌∙◌, ◌⊎◌, inl, inr, true, none, some, List, [], arith, Bool-cases, if◌then◌else◌,
}
use masque_vpn.Prelude.Assoc.{string_eq, lookup, store, delete, lookup-store, lookup-delete}
use masque_vpn.Ip.Addr.{Addr, addr_eq, bytes_eq, bytes_eq_iff, bytes_eq_refl}
use masque_vpn.Ip.Pool.{IpPool, allocate, release}
use masque_vpn.Ip.Hosts.{member}
use masque_vpn.Ip.Leases.{IsSound, allocate-IsSound, release-IsSound, release_cases, member-snoc}
use masque_vpn.Server.State.{Server}

abbrev pub Clients : Type 0
Clients = List (String × Addr)

-- The pool's leases are exactly the client map, read the other way.
pub record OneHolder (p : IpPool) (m : Clients) : Type 0 where
  pub sound : IsSound p
  pub leased : (c : String) (ip : Addr) → lookup c m ≡ some ip → lookup ip p.allocated ≡ some c
  pub held : (ip : Addr) (c : String) → lookup ip p.allocated ≡ some c → lookup c m ≡ some ip

abbrev pub HoldersAgree : Server → Type 0
HoldersAgree s = OneHolder s.ip_pool s.client_ip_map

-- Whoever holds the address before, nobody does after its release.
pub release-lookup :
    (p : IpPool) (ip a : Addr)
    → lookup a (release p ip).allocated ≡ (if bytes_eq ip a then none else lookup a p.allocated)
release-lookup p ip a =
    release_cases
      (λ q. lookup a q.allocated ≡ (if bytes_eq ip a then none else lookup a p.allocated)) p ip
      (λ e. elim (Bool-cases (bytes_eq ip a)) [
        | inl same ↦ rw same (ap (λ t. lookup t p.allocated) (sym ((bytes_eq_iff ip a).0 same)) ∙ e)
        | inr apart ↦ rw apart
      ])
      (λ c e. lookup-delete ip a p.allocated)

pub release_lists :
    (p : IpPool) (ip : Addr) (c : String)
    → lookup ip p.allocated ≡ some c
    → member ip (release p ip).available ≡ true
release_lists p ip c held =
    release_cases (λ q. member ip q.available ≡ true) p ip (λ e. absurd (cc))
      (λ d e. member-snoc ip ip p.available ∙ ground (arith, bytes_eq_refl ip))

pub allocate-OneHolder :
    (p : IpPool) (m : Clients) (c : String) (ip : Addr)
    → OneHolder p m
    → lookup c m ≡ none
    → lookup ip p.allocated ≡ none
    → ((a : Addr)
        → lookup a (allocate p c).0.allocated
          ≡ (if bytes_eq ip a then some c else lookup a p.allocated))
    → OneHolder (allocate p c).0 (store c ip m)
allocate-OneHolder p m c ip h new unused after = record {
  sound = allocate-IsSound p c h.sound;
  leased = λ d a e.
      ground (arith, lookup-store c d ip m, after a, eq_iff c d, bytes_eq_iff ip a, h.leased d a);
  held = λ a d e.
      ground (arith, lookup-store c d ip m, after a, eq_iff c d, bytes_eq_iff ip a, h.held a d);
}

-- A release by the holder, or of an address that has no holder for a client that has none.
pub release-OneHolder :
    (p : IpPool) (m : Clients) (c : String) (ip : Addr)
    → OneHolder p m
    → (lookup c m ≡ some ip) ⊎ ((lookup c m ≡ none) × (lookup ip p.allocated ≡ none))
    → OneHolder (release p ip) (delete c m)
release-OneHolder p m c ip h (inl mine) = record {
  sound = release-IsSound p ip h.sound;
  leased = λ d a e. ground (
    arith,
    lookup-delete c d m,
    release-lookup p ip a,
    eq_iff c d,
    bytes_eq_iff ip a,
    h.leased d a,
    h.leased c ip mine,
  );
  held = λ a d e. ground (
    arith,
    lookup-delete c d m,
    release-lookup p ip a,
    eq_iff c d,
    bytes_eq_iff ip a,
    h.held a d,
    h.leased c ip mine,
  );
}
release-OneHolder p m c ip h (inr (gone, idle)) = record {
  sound = release-IsSound p ip h.sound;
  leased = λ d a e. ground (
    arith,
    lookup-delete c d m,
    release-lookup p ip a,
    eq_iff c d,
    bytes_eq_iff ip a,
    h.leased d a,
  );
  held = λ a d e. ground (
    arith,
    lookup-delete c d m,
    release-lookup p ip a,
    eq_iff c d,
    bytes_eq_iff ip a,
    h.held a d,
  );
}

-- A server that has just started.
pub init-OneHolder : (p : IpPool) → IsSound p → p.allocated ≡ [] → OneHolder p []
unfolding lookup
init-OneHolder p s e = record {
  sound = s;
  leased = λ c ip h. absurd (cc);
  held = λ ip c h. let gone : lookup ip p.allocated ≡ none = ap (lookup ip) e in absurd (cc);
}
