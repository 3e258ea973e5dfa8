-- ===== src/Server/Refinement.antt =====
-- vpn_server/internal/server: what the server promises of addresses, as a system of its own that
-- knows neither lists nor sessions, and that the server, with its pool, its maps and its locks, does
-- on every event what that system does.
use Prim.Native.String.{String}
use text.Mathlib.Text.{◌==◌ as str_eq}
use text.Mathlib.TextEquality.{eq_iff}
use masque_vpn.Prelude.{
  ℕ, ◌≡◌, ◌≢◌, refl, sym, ap, subst, ◌∙◌, inl, inr, Bool, true, false, Option, none, some, List, [],
  ◌∷◌, Bool-cases, Option-cases, if◌then◌else◌,
}
use masque_vpn.Prelude.Assoc.{string_eq, lookup, lookup-store, lookup-delete}
use masque_vpn.Ip.Addr.{Addr, addr_eq, bytes_eq}
use masque_vpn.Ip.Pool.{IpPool, allocate}
use masque_vpn.Ip.Hosts.{member}
use masque_vpn.Ip.Leases.{owns, allocate_lem}
use masque_vpn.Server.State.{Server}
use masque_vpn.Server.Sessions.{assign_from, assign_ip_to_client, remove_client, open_session}
use masque_vpn.Server.Requests.{Ending}
use masque_vpn.Server.Ownership.{Clients, release-lookup}
use masque_vpn.Server.Assignment.{assign_known, assign_new}
use masque_vpn.Server.Cleanup.{drop_session-keeps}
use masque_vpn.Server.Processor.{DeviceRead}
use masque_vpn.Server.Processing.{process_packets-Processed}
use masque_vpn.Server.Steps.{
  Event, assigns, opens, finishes, removes, releases, forwards, step, run,
}
use masque_vpn.Server.Change.{step-Changed, finish_keeps}
use masque_vpn.Server.Tenancy.{AllLeased, AllInTime, Change-owns, step-AllLeased}

-- The address that each client has, and the client that each address is leased to.
pub record System : Type 0 where
  pub holds : String → Option Addr
  pub lease : Addr → Option String

abbrev pub system : Server → System
system s = record {
  holds = λ c. lookup c s.client_ip_map;
  lease = λ ip. lookup ip s.ip_pool.allocated;
}

abbrev pub HeldAlike : System → System → Type 0
HeldAlike v w = (d : String) → w.holds d ≡ v.holds d

abbrev pub LeasedAlike : System → System → Type 0
LeasedAlike v w = (a : Addr) → w.lease a ≡ v.lease a

-- Only what `c` has changes, to `o`.
abbrev pub HoldsNow : System → String → Option Addr → System → Type 0
HoldsNow v c o w = (d : String) → w.holds d ≡ (if str_eq c d then o else v.holds d)

-- Only whom `ip` is leased to changes, to `o`.
abbrev pub LeasedNow : System → Addr → Option String → System → Type 0
LeasedNow v ip o w = (a : Addr) → w.lease a ≡ (if bytes_eq ip a then o else v.lease a)

-- What each event does, where `owned` tells the addresses of the network that can be given.
pub data Does (owned : Addr → Bool) (v : System) : Event → System → Type 0 where
  known :
      {w : System} (c : String) (ip : Addr)
      → v.holds c ≡ some ip
      → HeldAlike v w
      → LeasedAlike v w
      → Does owned v (assigns c) w
  joins :
      {w : System} (c : String) (ip : Addr)
      → v.holds c ≡ none
      → owned ip ≡ true
      → v.lease ip ≡ none
      → ((d : String) → v.holds d ≢ some ip)
      → HoldsNow v c (some ip) w
      → LeasedNow v ip (some c) w
      → Does owned v (assigns c) w
  refused :
      {w : System} (c : String)
      → v.holds c ≡ none
      → ((a : Addr) → owned a ≡ true → v.lease a ≢ none)
      → HeldAlike v w
      → LeasedAlike v w
      → Does owned v (assigns c) w
  stores : {w : System} (ip : Addr) → HeldAlike v w → LeasedAlike v w → Does owned v (opens ip) w
  leaves :
      {w : System} (c : String) (ip : Addr) (e : Ending) (duration : ℕ)
      → HoldsNow v c none w
      → LeasedNow v ip none w
      → Does owned v (finishes c ip e duration) w
  is_removed :
      {w : System} (c : String) → HoldsNow v c none w → LeasedAlike v w → Does owned v (removes c) w
  gives_back :
      {w : System} (ip : Addr)
      → HeldAlike v w
      → LeasedNow v ip none w
      → Does owned v (releases ip) w
  passes :
      {w : System} (reads : List DeviceRead)
      → HeldAlike v w
      → LeasedAlike v w
      → Does owned v (forwards reads) w

abbrev pub Runs : (Addr → Bool) → System → List Event → System → Type 0
Runs owned v [] w = HeldAlike v w × LeasedAlike v w
Runs owned v (e ∷ es) w = (u : System) × Does owned v e u × Runs owned u es w

owns_listed : (p : IpPool) (ip : Addr) → member ip p.available ≡ true → owns p ip ≡ true
owns_listed p ip listed = elim (Option-cases (lookup ip p.allocated)) [
  | inl e ↦ rw (e, listed) refl
  | inr (c, e) ↦ rw e refl
]

none_free :
    (p : IpPool) (a : Addr) → p.available ≡ [] → owns p a ≡ true → lookup a p.allocated ≢ none
none_free p a empty mine e = let nowhere : owns p a ≡ false = rw (e, empty) refl in absurd (cc)

lookup-absent :
    (m : Clients) (c d : String)
    → lookup c m ≡ none
    → lookup d m ≡ (if str_eq c d then none else lookup d m)
lookup-absent m c d e = elim (Bool-cases (str_eq c d)) [
  | inl same ↦ rw same (ap (λ k. lookup k m) (sym ((eq_iff c d).0 same)) ∙ e)
  | inr apart ↦ rw apart refl
]

module _ (owned : Addr → Bool) (s : Server) where
  assign_does :
      (c : String)
      → AllLeased s
      → ((a : Addr) → owns s.ip_pool a ≡ owned a)
      → Does owned (system s) (assigns c) (system (assign_ip_to_client s c).0)
  assign_does c h same_owned = elim (Option-cases (lookup c s.client_ip_map)) [
    | inr (ip, e) ↦
        subst (λ r. Does owned (system s) (assigns c) (system r.0)) (sym (assign_known s c ip e))
          (known c ip e (λ d. refl) (λ a. refl))
    | inl e ↦
        subst (λ r. Does owned (system s) (assigns c) (system r.0)) (sym (assign_new s c e))
          (elim (allocate_lem s.ip_pool c h.sound) [
            | inl (empty, same) ↦
                subst (λ r. Does owned (system s) (assigns c) (system (assign_from s c r).0))
                  (sym same)
                  (refused c e (λ a mine. none_free s.ip_pool a empty (same_owned a ∙ mine))
                    (λ d. refl) (λ a. refl))
            | inr (ip, unused, listed, gives, after, taken) ↦
                subst
                  (λ r.
                    Does owned (system s) (assigns c)
                      (system (assign_from s c ((allocate s.ip_pool c).0, r)).0))
                  (sym gives)
                  (joins c ip e (sym (same_owned ip) ∙ owns_listed s.ip_pool ip listed) unused
                    (λ d q. let held = h.leased d ip q in absurd (cc))
                    (λ d. lookup-store c d ip s.client_ip_map) after)
          ])
  ]

  remove_does : (c : String) → Does owned (system s) (removes c) (system (remove_client s c).0)
  unfolding remove_client
  remove_does c = elim (Option-cases (lookup c s.client_ip_map)) [
    | inl e ↦
        rw (e, remove_client) (is_removed c (λ d. lookup-absent s.client_ip_map c d e) (λ a. refl))
    | inr (ip, e) ↦
        let (pool, clients, gone) = drop_session-keeps s ip in
        rw (e, remove_client, pool, clients)
          (is_removed c (λ d. lookup-delete c d s.client_ip_map) (λ a. refl))
  ]

  step_does :
      (e : Event)
      → AllLeased s
      → ((a : Addr) → owns s.ip_pool a ≡ owned a)
      → Does owned (system s) e (system (step s e))
  unfolding step open_session
  step_does (assigns c) h o = assign_does c h o
  step_does (opens ip) h o = stores ip (λ d. refl) (λ a. refl)
  step_does (finishes c ip e duration) h o =
      let (pool, clients) = finish_keeps s c ip e duration in
      leaves c ip e duration (λ d. ap (lookup d) clients ∙ lookup-delete c d s.client_ip_map)
        (λ a. ap (λ p. lookup a p.allocated) pool ∙ release-lookup s.ip_pool ip a)
  step_does (removes c) h o = remove_does c
  step_does (releases ip) h o = gives_back ip (λ d. refl) (λ a. release-lookup s.ip_pool ip a)
  step_does (forwards reads) h o =
      let p = process_packets-Processed reads s in
      passes reads (λ d. ap (lookup d) p.clients) (λ a. ap (λ q. lookup a q.allocated) p.pool)

run_does :
    (owned : Addr → Bool) (s : Server) (es : List Event)
    → AllLeased s
    → AllInTime s es
    → ((a : Addr) → owns s.ip_pool a ≡ owned a)
    → Runs owned (system s) es (system (run s es))
unfolding run
run_does owned s [] h o same = ((λ d. refl), (λ a. refl))
run_does owned s (e ∷ es) h (o, os) same = (
  system (step s e),
  step_does owned s e h same,
  run_does owned (step s e) es (step-AllLeased s e h o) os (λ a.
      Change-owns s.ip_pool (step s e).ip_pool s.client_ip_map (step s e).client_ip_map a
        (step-Changed s e h.sound o)
      ∙ same a),
)

-- From a state where every client of the map holds the lease of its address, the critical sections
-- of all handlers, interleaved in any order, with every address given back in time, do one after
-- the other what the abstract system does. An assignment leaves a client its address; a client
-- without one gets an address of the network that is leased to nobody and had by nobody; and it is
-- refused only when every address of the network is leased. The end of a connection takes the
-- address from its client alone and ends that one lease, a removal through the API and the release
-- that follows it do one of the two each, and the rest changes neither.
pub run_refines :
    (s : Server) (es : List Event)
    → AllLeased s
    → AllInTime s es
    → Runs (owns s.ip_pool) (system s) es (system (run s es))
run_refines s es h o = run_does (owns s.ip_pool) s es h o (λ a. refl)
