-- ===== src/Ip/Leases.antt =====
-- common/ip.go: `Allocate` and `Release`, one call at a time.
use Prim.Native.String.{String}
use masque_vpn.Prelude.{
  ◌≡◌, ◌≢◌, refl, sym, ap, subst, ◌∙◌, ◌⊎◌, inl, inr, Bool, true, false, ◌||◌, Option, none, some,
  Result, ok, err, List, [], ◌∷◌, ◌++◌, arith, All, Bool-cases, Option-cases, if◌then◌else◌,
}
use masque_vpn.Prelude.Assoc.{
  lookup, store, delete, lookup-store, lookup-delete, IsMap, store-IsMap, delete-IsMap, beq_refl,
  beq_false,
}
use masque_vpn.Ip.Addr.{Addr, Prefix, addr_eq, bytes_eq, bytes_eq_refl}
use masque_vpn.Ip.Hosts.{member, Distinct}
use masque_vpn.Ip.Pool.{IpPool, PoolError, no_available_addresses, allocate, release}

-- No address is handed out twice, listed twice, or both handed out and available.
pub record IsSound (p : IpPool) : Type 0 where
  pub one_lease : IsMap p.allocated
  pub listed_once : Distinct p.available
  pub free : All (λ a. lookup a p.allocated ≡ none) p.available

abbrev is_some : Option String → Bool
is_some none = false
is_some (some s) = true

-- The addresses of the pool, handed out or not.
abbrev pub owns : IpPool → Addr → Bool
owns p a = is_some (lookup a p.allocated) || member a p.available

pub init-IsSound : (p : IpPool) → p.allocated ≡ [] → Distinct p.available → IsSound p
unfolding lookup
init-IsSound p e d = record {
  one_lease = subst IsMap (sym e) tt;
  listed_once = d;
  free = all_free p.available;
}
  where
    all_free : (ips : List Addr) → All (λ a. lookup a p.allocated ≡ none) ips
    all_free [] = tt
    all_free (a ∷ ips) = (ap (lookup a) e, all_free ips)

-- `Allocate` hands out the first address that is available, which nobody had, and takes it off the
-- list; with none available it fails and changes nothing.
pub allocate_cases :
    (P : IpPool → Result PoolError Prefix → Type 0) (p : IpPool) (client : String)
    → (p.available ≡ [] → P p (err no_available_addresses))
    → ((ip : Addr) (rest : List Addr)
        → p.available ≡ ip ∷ rest
        → P
            (record p { allocated = store ip client p.allocated; available = rest })
            (ok (record { addr = ip; bits = 32 })))
    → P (allocate p client).0 (allocate p client).1
unfolding allocate
allocate_cases P p client empty first = go p.available refl
  where
    go : (ips : List Addr) → p.available ≡ ips → P (allocate p client).0 (allocate p client).1
    go [] e = rw (e, allocate) (empty e)
    go (ip ∷ rest) e = rw (e, allocate) (first ip rest e)

free_after_store :
    (ip : Addr) (client : String) (m : List (Addr × String)) (ips : List Addr)
    → All (λ a. a ≢ ip) ips
    → All (λ a. lookup a m ≡ none) ips
    → All (λ a. lookup a (store ip client m) ≡ none) ips
free_after_store ip client m [] d f = tt
free_after_store ip client m (a ∷ ips) d f = (
  lookup-store ip a client m ∙ rw (beq_false ip a (λ e. d.0 (sym e))) f.0,
  free_after_store ip client m ips d.1 f.1,
)

pub allocate-IsSound : (p : IpPool) (client : String) → IsSound p → IsSound (allocate p client).0
allocate-IsSound p client s =
    allocate_cases (λ q _. IsSound q) p client (λ _. s)
      (λ ip rest e.
        let listed : Distinct (ip ∷ rest) = subst Distinct e s.listed_once in
        let free_rest : All (λ a. lookup a p.allocated ≡ none) (ip ∷ rest) =
          subst (All (λ a. lookup a p.allocated ≡ none)) e s.free in
        record {
          one_lease = store-IsMap ip client p.allocated s.one_lease;
          listed_once = listed.1;
          free = free_after_store ip client p.allocated rest listed.0 free_rest.1;
        })

pub release_cases :
    (P : IpPool → Type 0) (p : IpPool) (ip : Addr)
    → (lookup ip p.allocated ≡ none → P p)
    → ((client : String)
        → lookup ip p.allocated ≡ some client
        → P (record p { allocated = delete ip p.allocated; available = p.available ++ ip ∷ [] }))
    → P (release p ip)
unfolding release
release_cases P p ip missing found = elim (Option-cases (lookup ip p.allocated)) [
  | inl e ↦ rw (e, release) (missing e)
  | inr (client, e) ↦ rw (e, release) (found client e)
]

apart_of_free :
    (m : List (Addr × String)) (ip : Addr) (client : String) (ips : List Addr)
    → lookup ip m ≡ some client
    → All (λ a. lookup a m ≡ none) ips
    → All (λ a. a ≢ ip) ips
apart_of_free m ip client [] e f = tt
apart_of_free m ip client (a ∷ ips) e f = (
  (λ q. let same : lookup a m ≡ lookup ip m = ap (λ t. lookup t m) q in let gone = f.0 in cc),
  apart_of_free m ip client ips e f.1,
)

Distinct-snoc :
    (ips : List Addr) (ip : Addr) → Distinct ips → All (λ a. a ≢ ip) ips → Distinct (ips ++ ip ∷ [])
Distinct-snoc [] ip d a = (tt, tt)
Distinct-snoc (x ∷ ips) ip d a = (snoc ips d.0, Distinct-snoc ips ip d.1 a.1)
  where
    snoc : (ys : List Addr) → All (λ b. b ≢ x) ys → All (λ b. b ≢ x) (ys ++ ip ∷ [])
    snoc [] h = ((λ e. a.0 (sym e)), tt)
    snoc (y ∷ ys) h = (h.0, snoc ys h.1)

free_after_delete :
    (ip : Addr) (m : List (Addr × String)) (ips : List Addr)
    → All (λ a. lookup a m ≡ none) ips
    → All (λ a. lookup a (delete ip m) ≡ none) (ips ++ ip ∷ [])
free_after_delete ip m [] f = (lookup-delete ip ip m ∙ rw (beq_refl ip), tt)
free_after_delete ip m (a ∷ ips) f = (
  lookup-delete ip a m ∙ elim (Bool-cases (bytes_eq ip a)) [ inl q ↦ rw q | inr q ↦ rw q f.0 ],
  free_after_delete ip m ips f.1,
)

pub release-IsSound : (p : IpPool) (ip : Addr) → IsSound p → IsSound (release p ip)
release-IsSound p ip s =
    release_cases IsSound p ip (λ _. s)
      (λ client e. record {
        one_lease = delete-IsMap ip p.allocated s.one_lease;
        listed_once =
            Distinct-snoc p.available ip s.listed_once
              (apart_of_free p.allocated ip client p.available e s.free);
        free = free_after_delete ip p.allocated p.available s.free;
      })

-- With a pool that is sound, `Allocate` fails exactly when nothing is available, and then changes
-- nothing; otherwise it returns, with 32 bits, an address that nobody held, records the client as
-- its holder, and leaves the holder of every other address as it was.
pub allocate_lem :
    (p : IpPool) (client : String)
    → IsSound p
    → ((p.available ≡ []) × (allocate p client ≡ (p, err no_available_addresses)))
      ⊎ ((ip : Addr) × (lookup ip p.allocated ≡ none)
          × (member ip p.available ≡ true)
          × ((allocate p client).1 ≡ ok (record { addr = ip; bits = 32 }))
          × ((a : Addr)
              → lookup a (allocate p client).0.allocated
                ≡ (if bytes_eq ip a then some client else lookup a p.allocated))
          × (member ip (allocate p client).0.available ≡ false))
unfolding allocate
allocate_lem p client s = go p.available refl
  where
    absent : (ip : Addr) (ips : List Addr) → All (λ a. a ≢ ip) ips → member ip ips ≡ false
    absent ip [] d = refl
    absent ip (a ∷ ips) d = rw (beq_false a ip d.0) (absent ip ips d.1)

    go :
        (ips : List Addr)
        → p.available ≡ ips
        → ((p.available ≡ []) × (allocate p client ≡ (p, err no_available_addresses)))
          ⊎ ((ip : Addr) × (lookup ip p.allocated ≡ none)
              × (member ip p.available ≡ true)
              × ((allocate p client).1 ≡ ok (record { addr = ip; bits = 32 }))
              × ((a : Addr)
                  → lookup a (allocate p client).0.allocated
                    ≡ (if bytes_eq ip a then some client else lookup a p.allocated))
              × (member ip (allocate p client).0.available ≡ false))
    go [] e =
        let same : Path (IpPool × Result PoolError Prefix) (p, err no_available_addresses)
            (record p { available = [] }, err no_available_addresses) =
          (λ i. (record p { available = e i }, err no_available_addresses)) in
        inl (e, rw (e, allocate) same)
    go (ip ∷ rest) e =
        let free_all : All (λ a. lookup a p.allocated ≡ none) (ip ∷ rest) =
          subst (All (λ a. lookup a p.allocated ≡ none)) e s.free in
        let listed : Distinct (ip ∷ rest) = subst Distinct e s.listed_once in
        inr (
          ip,
          free_all.0,
          ap (member ip) e ∙ ap (λ t. t || member ip rest) (bytes_eq_refl ip),
          rw (e, allocate),
          λ a. rw (e, allocate) (lookup-store ip a client p.allocated),
          rw (e, allocate) (absent ip rest listed.0),
        )

pub member-snoc :
    (a ip : Addr) (ips : List Addr) → member a (ips ++ ip ∷ []) ≡ (member a ips || bytes_eq ip a)
member-snoc a ip [] = ground arith
member-snoc a ip (x ∷ ips) = ground (arith, member-snoc a ip ips)
