-- ===== src/Ip/Hosts.antt =====
-- common/ip.go: one round of the loop of `NewIPPool`.
use masque_vpn.Prelude.{
  ℕ, zero, suc, ◌+◌, ◌^◌, ◌≤◌, ◌<◌, ◌≡◌, ◌≢◌, ◌⊎◌, refl, sym, ap, subst, ◌∙◌, inl, inr, Bool, true,
  false, ◌||◌, Option, none, some, List, [], ◌∷◌, arith, All, ◌==◌, ==_iff, Bool-cases,
  if◌then◌else◌,
}
use masque_vpn.Ip.Addr.{Addr, bytes_eq, bytes_eq_iff, addr_le, next_ip}
use masque_vpn.Ip.Count.{space, value, value-lt}
use masque_vpn.Ip.Range.{SameKind, addr_le-value, next_ip-SameKind, value-injective}
use masque_vpn.Ip.Pool.{with_first, host_addresses}

abbrev pub member : Addr → List Addr → Bool
member a [] = false
member a (ip ∷ ips) = bytes_eq ip a || member a ips

-- No address stands twice.
abbrev pub Distinct : List Addr → Type 0
Distinct [] = Unit {0}
Distinct (ip ∷ ips) = All (λ a. a ≢ ip) ips × Distinct ips

-- What the loop lists: every address from `ip` to `end_` but the gateway and the network address.
pub record ListsHosts (gateway network end_ : Addr) (ip : Addr) (ips : List Addr) : Type 0 where
  pub all_listed :
      (a : Addr)
      → SameKind a end_
      → value ip ≤ value a
      → value a ≤ value end_
      → a ≢ gateway
      → a ≢ network
      → member a ips ≡ true
  pub only_hosts :
      All
        (λ a.
          SameKind a end_
          × (value ip ≤ value a)
          × (value a ≤ value end_)
          × (a ≢ gateway)
          × (a ≢ network))
        ips
  pub distinct : Distinct ips

-- Where `end_` is all ones the loop does not end: at every fuel it is still running.
pub host_addresses_runs_on :
    (fuel : ℕ) (gateway network end_ ip : Addr)
    → SameKind ip end_
    → value end_ + 1 ≡ space end_
    → host_addresses fuel gateway network end_ ip ≡ none
unfolding host_addresses
host_addresses_runs_on zero gateway network end_ ip kind top = refl
host_addresses_runs_on (suc fuel) gateway network end_ ip kind top =
    let room : value ip < space end_ =
      subst (λ n. value ip < 256 ^ n) kind.2 (value-lt ip kind.0.0) in
    let goes_on : addr_le ip end_ ≡ true = (addr_le-value ip end_ kind).1 (omega arith) in
    let rest =
      host_addresses_runs_on fuel gateway network end_ (next_ip ip) (next_ip-SameKind ip end_ kind)
        top in
    rw (goes_on, rest) (ground arith)

pub ListsHosts-done :
    (gateway network end_ ip : Addr) → value end_ < value ip → ListsHosts gateway network end_ ip []
ListsHosts-done gateway network end_ ip h = record {
  all_listed = λ a kind lo hi g n. absurd (omega arith);
  only_hosts = tt;
  distinct = tt;
}

All-weaken :
    (gateway network end_ ip next : Addr) (ips : List Addr)
    → value ip ≤ value next
    → All
        (λ a.
          SameKind a end_
          × (value next ≤ value a)
          × (value a ≤ value end_)
          × (a ≢ gateway)
          × (a ≢ network))
        ips
    → All
        (λ a.
          SameKind a end_
          × (value ip ≤ value a)
          × (value a ≤ value end_)
          × (a ≢ gateway)
          × (a ≢ network))
        ips
All-weaken gateway network end_ ip next [] h all = tt
All-weaken gateway network end_ ip next (a ∷ ips) h all = (
  (all.0.0, omega arith, all.0.2, all.0.3, all.0.4),
  All-weaken gateway network end_ ip next ips h all.1,
)

module _ (gateway network end_ ip : Addr) (kind : SameKind ip end_) (inside : value ip ≤ value end_)
    (ips : List Addr) (up : value (next_ip ip) ≡ value ip + 1)
    (rest : ListsHosts gateway network end_ (next_ip ip) ips) where
  later : (a : Addr) → SameKind a end_ → value ip ≤ value a → a ≢ ip → value (next_ip ip) ≤ value a
  later a (p, q, e) lo ne = elim (Bool-cases (value a == value ip)) [
    | inl h ↦
        absurd (
          ne (value-injective a ip (p, kind.0, e ∙ sym kind.2) ((==_iff (value a) (value ip)).0 h)))
    | inr h ↦ let apart : value a ≢ value ip = ground arith in omega arith
  ]

  ListsHosts-skip : (ip ≡ gateway) ⊎ (ip ≡ network) → ListsHosts gateway network end_ ip ips
  ListsHosts-skip skipped = record {
    all_listed =
        λ a k lo hi g n. rest.all_listed a k (later a k lo (λ e. not_host skipped a e g n)) hi g n;
    only_hosts = All-weaken gateway network end_ ip (next_ip ip) ips (omega arith) rest.only_hosts;
    distinct = rest.distinct;
  }
    where
      not_host :
          (ip ≡ gateway) ⊎ (ip ≡ network) → (a : Addr) → a ≡ ip → a ≢ gateway → a ≢ network → ⊥
      not_host (inl e) a h g n = g (h ∙ e)
      not_host (inr e) a h g n = n (h ∙ e)

  ListsHosts-add : ip ≢ gateway → ip ≢ network → ListsHosts gateway network end_ ip (ip ∷ ips)
  ListsHosts-add g n = record {
    all_listed = λ a k lo hi ga na. elim (Bool-cases (bytes_eq ip a)) [
      | inl h ↦ rw h
      | inr h ↦ rw h (
          rest.all_listed a k
            (later a k lo
              (λ e. let same : bytes_eq ip a ≡ true = (bytes_eq_iff ip a).1 (sym e) in cc))
            hi ga na)
    ];
    only_hosts = (
      (kind, omega arith, inside, g, n),
      All-weaken gateway network end_ ip (next_ip ip) ips (omega arith) rest.only_hosts,
    );
    distinct = (above_ip ips rest.only_hosts, rest.distinct);
  }
    where
      above_ip :
          (hosts : List Addr)
          → All
              (λ a.
                SameKind a end_
                × (value (next_ip ip) ≤ value a)
                × (value a ≤ value end_)
                × (a ≢ gateway)
                × (a ≢ network))
              hosts
          → All (λ a. a ≢ ip) hosts
      above_ip [] all = tt
      above_ip (a ∷ hosts) all = (
        (λ e. let equal : value a ≡ value ip = ap value e in absurd (omega arith)),
        above_ip hosts all.1,
      )

bytes_ne : (a b : Addr) → bytes_eq a b ≡ false → a ≢ b
bytes_ne a b h e = let same : bytes_eq a b ≡ true = (bytes_eq_iff a b).1 e in cc

-- One round at an address within the range, given what the later rounds list.
abbrev pub Lists : Addr → Addr → Addr → Addr → Option (List Addr) → Type 0
Lists gateway network end_ ip o =
    (ips : List Addr) × (o ≡ some ips) × ListsHosts gateway network end_ ip ips

pub round-Lists :
    (gateway network end_ ip : Addr)
    → SameKind ip end_
    → value ip ≤ value end_
    → value (next_ip ip) ≡ value ip + 1
    → (rest : Option (List Addr)) → Lists gateway network end_ (next_ip ip) rest
    → Lists gateway network end_ ip
        (if bytes_eq ip gateway || bytes_eq ip network then rest else with_first ip rest)
round-Lists gateway network end_ ip kind inside up rest (ips, e, lists) =
    elim (Bool-cases (bytes_eq ip gateway)) [
      | inl g ↦
          let same = inl ((bytes_eq_iff ip gateway).0 g) in
          rw g (ips, e, ListsHosts-skip gateway network end_ ip kind inside ips up lists same)
      | inr g ↦ elim (Bool-cases (bytes_eq ip network)) [
        | inl n ↦
            let same = inr ((bytes_eq_iff ip network).0 n) in
            rw (g, n)
              (ips, e, ListsHosts-skip gateway network end_ ip kind inside ips up lists same)
        | inr n ↦
            rw (g, n)
              (
                ip ∷ ips,
                ap (with_first ip) e,
                ListsHosts-add gateway network end_ ip kind inside ips up lists
                    (bytes_ne ip gateway g) (bytes_ne ip network n),
              )
      ]
    ]
