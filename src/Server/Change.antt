-- ===== src/Server/Change.antt =====
-- vpn_server/internal/server: what a critical section can do to the pool and the client map.
use Prim.Native.String.{String}
use masque_vpn.Prelude.{
  ℕ, ◌≡◌, ◌≢◌, refl, sym, ap, subst, subst₂, ◌∙◌, inl, inr, true, none, some, List, Option-cases,
  if◌then◌else◌,
}
use masque_vpn.Prelude.Assoc.{string_eq, lookup, store, delete}
use masque_vpn.Ip.Addr.{Addr, addr_eq, bytes_eq}
use masque_vpn.Ip.Pool.{IpPool, allocate, release}
use masque_vpn.Ip.Hosts.{member}
use masque_vpn.Ip.Leases.{IsSound, allocate_lem}
use masque_vpn.Server.State.{Server}
use masque_vpn.Server.Sessions.{assign_from, assign_ip_to_client, open_session, remove_client}
use masque_vpn.Server.Requests.{
  Ending, proxy_finished, proxy_failed, timed_out, count_ending, finish_connection,
}
use masque_vpn.Server.Ownership.{Clients}
use masque_vpn.Server.Assignment.{assign_known, assign_new}
use masque_vpn.Server.Cleanup.{drop_session-keeps, cleanup_keeps}
use masque_vpn.Server.Metrics.{record_connection_duration}
use masque_vpn.Server.Processor.{DeviceRead, process_packets}
use masque_vpn.Server.Processing.{process_packets-Processed}
use masque_vpn.Server.Steps.{Event, assigns, opens, finishes, removes, releases, forwards, step}

-- `ip` is no other client's than c's.
abbrev pub NotAnothers : Clients → String → Addr → Type 0
NotAnothers m c ip = (d : String) → lookup d m ≡ some ip → d ≡ c

abbrev pub Nobodys : Clients → Addr → Type 0
Nobodys m ip = (d : String) → lookup d m ≢ some ip

pub data Change (p : IpPool) (m : Clients) : IpPool → Clients → Type 0 where
  unchanged : Change p m p m
  assigned :
      (c : String) (ip : Addr)
      → lookup c m ≡ none
      → lookup ip p.allocated ≡ none
      → member ip p.available ≡ true
      → ((a : Addr)
          → lookup a (allocate p c).0.allocated
            ≡ (if bytes_eq ip a then some c else lookup a p.allocated))
      → Change p m (allocate p c).0 (store c ip m)
  freed : (c : String) (ip : Addr) → NotAnothers m c ip → Change p m (release p ip) (delete c m)
  removed : (c : String) → Change p m p (delete c m)
  released : (ip : Addr) → Nobodys m ip → Change p m (release p ip) m

abbrev pub Changed : Server → Server → Type 0
Changed s t = Change s.ip_pool s.client_ip_map t.ip_pool t.client_ip_map

-- A step is in time when it gives back an address that nobody was given in the meantime: the
-- connection that ends still has its address, or nobody has, and the address that an API call
-- releases after it removed the client is nobody's.
abbrev pub InTime : Server → Event → Type 0
InTime s (assigns c) = Unit
InTime s (opens ip) = Unit
InTime s (finishes c ip e duration) = NotAnothers s.client_ip_map c ip
InTime s (removes c) = Unit
InTime s (releases ip) = Nobodys s.client_ip_map ip
InTime s (forwards reads) = Unit

assign-Changed :
    (s : Server) (c : String) → IsSound s.ip_pool → Changed s (assign_ip_to_client s c).0
assign-Changed s c sound = elim (Option-cases (lookup c s.client_ip_map)) [
  | inr (ip, e) ↦ subst (λ r. Changed s r.0) (sym (assign_known s c ip e)) unchanged
  | inl e ↦
      subst (λ r. Changed s r.0) (sym (assign_new s c e))
        (elim (allocate_lem s.ip_pool c sound) [
          | inl (empty, same) ↦ subst (λ r. Changed s (assign_from s c r).0) (sym same) unchanged
          | inr (ip, unused, listed, gives, after, taken) ↦
              subst (λ r. Changed s (assign_from s c ((allocate s.ip_pool c).0, r)).0) (sym gives)
                (assigned c ip e unused listed after)
        ])
]

remove-Changed : (s : Server) (c : String) → Changed s (remove_client s c).0
unfolding remove_client
remove-Changed s c = elim (Option-cases (lookup c s.client_ip_map)) [
  | inl e ↦ rw (e, remove_client) unchanged
  | inr (ip, e) ↦
      let (pool, clients, gone) = drop_session-keeps s ip in
      rw (e, remove_client, pool, clients) (removed c)
]

count_ending-keeps :
    (e : Ending) (s : Server)
    → ((count_ending e s).ip_pool ≡ s.ip_pool)
      × ((count_ending e s).client_ip_map ≡ s.client_ip_map)
count_ending-keeps proxy_finished s = (refl, refl)
count_ending-keeps proxy_failed s = (refl, refl)
count_ending-keeps timed_out s = (refl, refl)

pub finish_keeps :
    (s : Server) (c : String) (ip : Addr) (e : Ending) (duration : ℕ)
    → let t = finish_connection s c ip e duration in
      (t.ip_pool ≡ release s.ip_pool ip) × (t.client_ip_map ≡ delete c s.client_ip_map)
unfolding finish_connection
finish_keeps s c ip e duration =
    let timed : Server = record (count_ending e s) {
      metrics = record_connection_duration duration (count_ending e s).metrics;
    } in
    let (counted_pool, counted_clients) = count_ending-keeps e s in
    let (pool, clients, gone) = cleanup_keeps timed c ip in
    (pool ∙ ap (λ p. release p ip) counted_pool, clients ∙ ap (delete c) counted_clients)

finish-Changed :
    (s : Server) (c : String) (ip : Addr) (e : Ending) (duration : ℕ)
    → NotAnothers s.client_ip_map c ip
    → Changed s (finish_connection s c ip e duration)
finish-Changed s c ip e duration mine =
    let (pool, clients) = finish_keeps s c ip e duration in
    subst₂ (Change s.ip_pool s.client_ip_map) (sym pool) (sym clients) (freed c ip mine)

forwards-Changed : (s : Server) (reads : List DeviceRead) → Changed s (process_packets reads s)
forwards-Changed s reads =
    let p = process_packets-Processed reads s in
    subst₂ (Change s.ip_pool s.client_ip_map) (sym p.pool) (sym p.clients) unchanged

-- Every step in time is one of the five changes.
pub step-Changed : (s : Server) (e : Event) → IsSound s.ip_pool → InTime s e → Changed s (step s e)
unfolding step open_session
step-Changed s (assigns c) sound in_time = assign-Changed s c sound
step-Changed s (opens ip) sound in_time = unchanged
step-Changed s (finishes c ip e duration) sound in_time = finish-Changed s c ip e duration in_time
step-Changed s (removes c) sound in_time = remove-Changed s c
step-Changed s (releases ip) sound in_time = released ip in_time
step-Changed s (forwards reads) sound in_time = forwards-Changed s reads
