-- ===== src/Server/Steps.antt =====
-- vpn_server/internal/server: the critical sections of all handlers, interleaved in any order. A
-- request takes the lock twice, to assign the address (masque_handler.go, `assignIPToClient`) and to
-- store the session; the end of a connection takes it once (`cleanupClientSession`); an API call
-- takes it once and releases the address after it was given back (api_server.go,
-- `disconnectClient`); the packet processor changes nothing under it.
use Prim.Native.String.{String}
use masque_vpn.Prelude.{
  ℕ, ◌≡◌, refl, ap, ◌∙◌, inl, inr, Option, none, some, Result, ok, err, List, [], ◌∷◌,
}
use masque_vpn.Prelude.Assoc.{string_eq}
use masque_vpn.Ip.Addr.{Addr, Prefix}
use masque_vpn.Server.State.{Server}
use masque_vpn.Server.Sessions.{
  AssignError, assign_ip_to_client, open_session, remove_client, release_address, after_removal,
  disconnect_client,
}
use masque_vpn.Server.Requests.{
  Request, accept_assigned, accept_client, handle_masque_request, Ending, finish_connection,
}
use masque_vpn.Server.Admission.{handle_masque_request_cases}
use masque_vpn.Server.Processor.{DeviceRead, process_packets}

pub data Event : Type 0 where
  assigns : String → Event
  opens : Addr → Event
  finishes : String → Addr → Ending → ℕ → Event
  removes : String → Event
  releases : Addr → Event
  forwards : List DeviceRead → Event

unfoldable pub step : Server → Event → Server
step s (assigns c) = (assign_ip_to_client s c).0
step s (opens ip) = (open_session s ip).0
step s (finishes c ip e duration) = finish_connection s c ip e duration
step s (removes c) = (remove_client s c).0
step s (releases ip) = release_address s ip
step s (forwards reads) = process_packets reads s

unfoldable pub run : Server → List Event → Server
run s [] = s
run s (e ∷ es) = run (step s e) es

-- A request that nothing interrupts is two steps, or none: the assignment, and the session when
-- there is an address.
accept_assigned-run :
    (s : Server) (c : String) (r : Server × Result AssignError Prefix)
    → r ≡ assign_ip_to_client s c
    → (es : List Event) × ((accept_assigned c r).0 ≡ run s es)
unfolding run step
accept_assigned-run s c (t, ok prefix) e =
    (assigns c ∷ opens prefix.addr ∷ [], ap (λ r. (open_session r.0 prefix.addr).0) e)
accept_assigned-run s c (t, err failure) e = (assigns c ∷ [], ap (λ r. r.0) e)

-- Every request that nothing interrupts is a sequence of steps.
pub handle_masque_request-run :
    (s : Server) (r : Request) → (es : List Event) × ((handle_masque_request s r).0 ≡ run s es)
unfolding run accept_client
handle_masque_request-run s r = elim (handle_masque_request_cases s r) [
  | inl (same, refused) ↦ ([], same)
  | inr (c, admitted, goes_on) ↦
      let (es, e) = accept_assigned-run s c (assign_ip_to_client s c) refl in
      (es, ap (λ t. t.0) goes_on ∙ e)
]

after_removal-run :
    (s : Server) (c : String) (r : Server × Option Addr)
    → r ≡ remove_client s c
    → (es : List Event) × ((after_removal c r).0 ≡ run s es)
unfolding run step
after_removal-run s c (t, none) e = (removes c ∷ [], ap (λ r. r.0) e)
after_removal-run s c (t, some ip) e =
    (removes c ∷ releases ip ∷ [], ap (λ r. release_address r.0 ip) e)

-- And so is every API call: the client is removed, and then its address, if it had one, released.
pub disconnect_client-run :
    (s : Server) (c : String) → (es : List Event) × ((disconnect_client s c).0 ≡ run s es)
unfolding disconnect_client
disconnect_client-run s c = after_removal-run s c (remove_client s c) refl
