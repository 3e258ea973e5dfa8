-- ===== src/Ip/Histories.antt =====
-- common/ip.go: what `Allocate` and `Release` keep of an address pool, over any history of calls.
use Prim.Native.String.{String}
use masque_vpn.Prelude.{
  ℕ, ◌≡◌, refl, sym, ap, subst, ◌∙◌, inl, inr, none, some, List, [], ◌∷◌, arith, length,
  length-append, All, Bool-cases,
}
use masque_vpn.Prelude.Assoc.{lookup, lookup-store, lookup-delete, length-store_new, length-delete}
use masque_vpn.Ip.Addr.{Addr, addr_eq, bytes_eq, bytes_eq_iff}
use masque_vpn.Ip.Hosts.{member}
use masque_vpn.Ip.Pool.{IpPool, allocate, release, stats}
use masque_vpn.Ip.Leases.{
  IsSound, owns, allocate_cases, allocate-IsSound, release_cases, release-IsSound, member-snoc,
}

pub allocate-owns :
    (p : IpPool) (client : String) (a : Addr) → owns (allocate p client).0 a ≡ owns p a
allocate-owns p client a =
    allocate_cases (λ q _. owns q a ≡ owns p a) p client (λ _. refl)
      (λ ip rest e. rw (lookup-store ip a client p.allocated, ap (member a) e) (ground arith))

pub release-owns : (p : IpPool) (ip a : Addr) → owns (release p ip) a ≡ owns p a
release-owns p ip a =
    release_cases (λ q. owns q a ≡ owns p a) p ip (λ _. refl)
      (λ client e.
        rw (lookup-delete ip a p.allocated, member-snoc a ip p.available)
          (elim (Bool-cases (bytes_eq ip a)) [
            | inl q ↦
                let held : lookup a p.allocated ≡ some client =
                  ap (λ t. lookup t p.allocated) (sym ((bytes_eq_iff ip a).0 q)) ∙ e in
                rw (q, held) (ground arith)
            | inr q ↦ rw q (ground arith)
          ]))

abbrev count : IpPool → ℕ
count p = (stats p).total

allocate-total : (p : IpPool) (client : String) → IsSound p → count (allocate p client).0 ≡ count p
unfolding stats
allocate-total p client s =
    allocate_cases (λ q _. count q ≡ count p) p client (λ _. refl)
      (λ ip rest e.
        let unused : lookup ip p.allocated ≡ none =
          (subst (All (λ a. lookup a p.allocated ≡ none)) e s.free).0 in
        omega (arith, length-store_new ip client p.allocated unused, ap length e))

release-total : (p : IpPool) (ip : Addr) → IsSound p → count (release p ip) ≡ count p
unfolding stats
release-total p ip s =
    release_cases (λ q. count q ≡ count p) p ip (λ _. refl)
      (λ client e. omega (
        arith,
        length-delete ip client p.allocated s.one_lease e,
        length-append {0} p.available (ip ∷ []),
      ))

pub data Call : Type 0 where
  allocates : String → Call
  releases : Addr → Call

abbrev pub step : IpPool → Call → IpPool
step p (allocates client) = (allocate p client).0
step p (releases ip) = release p ip

abbrev pub run : IpPool → List Call → IpPool
run p [] = p
run p (c ∷ cs) = run (step p c) cs

step-IsSound : (p : IpPool) (c : Call) → IsSound p → IsSound (step p c)
step-IsSound p (allocates client) s = allocate-IsSound p client s
step-IsSound p (releases ip) s = release-IsSound p ip s

step-owns : (p : IpPool) (c : Call) (a : Addr) → owns (step p c) a ≡ owns p a
step-owns p (allocates client) a = allocate-owns p client a
step-owns p (releases ip) a = release-owns p ip a

step-total : (p : IpPool) (c : Call) → IsSound p → count (step p c) ≡ count p
step-total p (allocates client) s = allocate-total p client s
step-total p (releases ip) s = release-total p ip s

-- Over any history of `Allocate` and `Release` calls, releases of addresses that nobody holds
-- included, a sound pool stays sound, owns the same addresses, and reports the same total.
pub run_keeps :
    (p : IpPool) (cs : List Call)
    → IsSound p
    → IsSound (run p cs)
      × ((a : Addr) → owns (run p cs) a ≡ owns p a)
      × ((stats (run p cs)).total ≡ (stats p).total)
run_keeps p [] s = (s, (λ a. refl), refl)
run_keeps p (c ∷ cs) s =
    let (sound, same, total) = run_keeps (step p c) cs (step-IsSound p c s) in
    (sound, (λ a. same a ∙ step-owns p c a), total ∙ step-total p c s)
