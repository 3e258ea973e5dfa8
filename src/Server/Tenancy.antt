-- ===== src/Server/Tenancy.antt =====
-- vpn_server/internal/server: the addresses of the clients under all interleavings of the critical
-- sections of their requests, of the endings of their connections, and of API calls.
use Prim.Native.String.{String}
use text.Mathlib.TextEquality.{eq_iff}
use masque_vpn.Prelude.{◌≡◌, refl, ◌∙◌, some, List, [], ◌∷◌, arith}
use masque_vpn.Prelude.Assoc.{string_eq, lookup, lookup-store, lookup-delete}
use masque_vpn.Ip.Addr.{Addr, addr_eq, bytes_eq_iff}
use masque_vpn.Ip.Pool.{IpPool}
use masque_vpn.Ip.Leases.{IsSound, owns, allocate-IsSound, release-IsSound}
use masque_vpn.Ip.Histories.{allocate-owns, release-owns}
use masque_vpn.Server.State.{Server}
use masque_vpn.Server.Ownership.{Clients, OneHolder, release-lookup}
use masque_vpn.Server.Steps.{Event, step, run}
use masque_vpn.Server.Change.{
  Change, unchanged, assigned, freed, removed, released, InTime, step-Changed,
}

-- Every client of the map holds the lease of its address. The pool can count more leases than that:
-- between the two parts of a disconnection it does.
pub record IsTenancy (p : IpPool) (m : Clients) : Type 0 where
  pub sound : IsSound p
  pub leased : (c : String) (ip : Addr) → lookup c m ≡ some ip → lookup ip p.allocated ≡ some c

abbrev pub AllLeased : Server → Type 0
AllLeased s = IsTenancy s.ip_pool s.client_ip_map

pub OneHolder-IsTenancy : (p : IpPool) (m : Clients) → OneHolder p m → IsTenancy p m
OneHolder-IsTenancy p m h = record { sound = h.sound; leased = h.leased }

pub Change-IsTenancy :
    (p q : IpPool) (m n : Clients) → Change p m q n → IsTenancy p m → IsTenancy q n
Change-IsTenancy p q m n unchanged h = h
Change-IsTenancy p q m n (assigned c ip new unused listed after) h = record {
  sound = allocate-IsSound p c h.sound;
  leased = λ d a e.
      ground (arith, lookup-store c d ip m, after a, eq_iff c d, bytes_eq_iff ip a, h.leased d a);
}
Change-IsTenancy p q m n (freed c ip mine) h = record {
  sound = release-IsSound p ip h.sound;
  leased = λ d a e. ground (
    arith,
    lookup-delete c d m,
    release-lookup p ip a,
    eq_iff c d,
    bytes_eq_iff ip a,
    h.leased d a,
    mine d,
  );
}
Change-IsTenancy p q m n (removed c) h = record {
  sound = h.sound;
  leased = λ d a e. ground (arith, lookup-delete c d m, h.leased d a);
}
Change-IsTenancy p q m n (released ip idle) h = record {
  sound = release-IsSound p ip h.sound;
  leased = λ d a e. ground (arith, release-lookup p ip a, bytes_eq_iff ip a, h.leased d a, idle d);
}

-- No change takes an address into the pool, or out of it.
pub Change-owns : (p q : IpPool) (m n : Clients) (a : Addr) → Change p m q n → owns q a ≡ owns p a
Change-owns p q m n a unchanged = refl
Change-owns p q m n a (assigned c ip new unused listed after) = allocate-owns p c a
Change-owns p q m n a (freed c ip mine) = release-owns p ip a
Change-owns p q m n a (removed c) = refl
Change-owns p q m n a (released ip idle) = release-owns p ip a

abbrev pub AllInTime : Server → List Event → Type 0
AllInTime s [] = Unit
AllInTime s (e ∷ es) = InTime s e × AllInTime (step s e) es

pub step-AllLeased : (s : Server) (e : Event) → AllLeased s → InTime s e → AllLeased (step s e)
step-AllLeased s e h o =
    Change-IsTenancy s.ip_pool (step s e).ip_pool s.client_ip_map (step s e).client_ip_map
      (step-Changed s e h.sound o) h

pub run-AllLeased :
    (s : Server) (es : List Event) → AllLeased s → AllInTime s es → AllLeased (run s es)
unfolding run
run-AllLeased s [] h o = h
run-AllLeased s (e ∷ es) h (o, os) = run-AllLeased (step s e) es (step-AllLeased s e h o) os

pub run-owns :
    (s : Server) (es : List Event) (a : Addr)
    → AllLeased s
    → AllInTime s es
    → owns (run s es).ip_pool a ≡ owns s.ip_pool a
unfolding run
run-owns s [] a h o = refl
run-owns s (e ∷ es) a h (o, os) =
    run-owns (step s e) es a (step-AllLeased s e h o) os
    ∙ Change-owns s.ip_pool (step s e).ip_pool s.client_ip_map (step s e).client_ip_map a
        (step-Changed s e h.sound o)

-- From a state where every client of the map holds the lease of its address, the critical sections
-- of requests, of endings of connections, of both parts of API calls and of the packet processor,
-- interleaved in any order, never give one address to two clients, and whoever has an address in
-- the client map holds its lease, as long as every address is given back in time: while no other
-- client was given it.
pub run_no_shared_address :
    (s : Server) (es : List Event)
    → AllLeased s
    → AllInTime s es
    → (c d : String) (ip : Addr) → lookup c (run s es).client_ip_map ≡ some ip
    → lookup d (run s es).client_ip_map ≡ some ip
    → (c ≡ d) × (lookup ip (run s es).ip_pool.allocated ≡ some c)
run_no_shared_address s es h o c d ip mine yours =
    let all = run-AllLeased s es h o in
    let lease_c = all.leased c ip mine in let lease_d = all.leased d ip yours in (cc, lease_c)
