-- ===== src/Server/RunTests.antt =====
-- vpn_server/internal/server: a concrete interleaving of the handlers.
use Prim.Native.String.{String}
use text.Mathlib.TextEquality.{eq_iff}
use masque_vpn.Prelude.{◌≡◌, ◌≢◌, refl, ap, subst, ◌++◌, sym, some, List, [], ◌∷◌, arith}
use masque_vpn.Prelude.Assoc.{string_eq, lookup, store, delete}
use masque_vpn.Ip.Addr.{addr_eq, bytes_eq}
use masque_vpn.Ip.Count.{value}
use masque_vpn.Ip.Pool.{allocate, release}
use masque_vpn.Server.Sessions.{
  assign_ip_to_client, open_session, remove_client, drop_session, cleanup_client_session,
}
use masque_vpn.Server.Requests.{proxy_finished, finish_connection}
use masque_vpn.Server.Steps.{Event, assigns, opens, finishes, removes, releases, step, run}
use masque_vpn.Server.Tenancy.{AllLeased, AllInTime, OneHolder-IsTenancy, run_no_shared_address}
use masque_vpn.Ip.Leases.{owns}
use masque_vpn.Server.Refinement.{Runs, system, run_refines}
use masque_vpn.Server.Tests.{host, two_free, fresh, fresh-HoldersAgree, carol}

-- alice and bob come, an API call removes alice, and carol finds no address; then alice's is
-- released, and carol is given it.
abbrev all_events : List Event
all_events =
    assigns "alice"
    ∷ opens (host 2)
    ∷ assigns "bob"
    ∷ removes "alice"
    ∷ assigns "carol"
    ∷ releases (host 2)
    ∷ assigns "carol"
    ∷ finishes "bob" (host 3) proxy_finished 60
    ∷ []

fresh-AllLeased : AllLeased fresh
fresh-AllLeased = OneHolder-IsTenancy two_free [] fresh-HoldersAgree

abbrev until_release : List Event
until_release =
    assigns "alice" ∷ opens (host 2) ∷ assigns "bob" ∷ removes "alice" ∷ assigns "carol" ∷ []

bob_left : (run fresh until_release).client_ip_map ≡ ("bob", host 3) ∷ []
unfolding run step open_session remove_client drop_session assign_ip_to_client allocate lookup store
    delete bytes_eq
bob_left = refl

bob_and_carol :
    (run fresh (until_release ++ releases (host 2) ∷ assigns "carol" ∷ [])).client_ip_map
    ≡ ("bob", host 3) ∷ ("carol", host 2) ∷ []
unfolding run step open_session remove_client drop_session assign_ip_to_client allocate lookup store
    delete release bytes_eq
bob_and_carol = refl

host_3-ne-host_2 : host 3 ≢ host 2
host_3-ne-host_2 e = omega (arith, ap value e)

bob_elsewhere : (d : String) → lookup d (("bob", host 3) ∷ []) ≢ some (host 2)
unfolding lookup
bob_elsewhere d e = let apart = host_3-ne-host_2 in ground arith

bob_only :
    (d : String) → lookup d (("bob", host 3) ∷ ("carol", host 2) ∷ []) ≡ some (host 3) → d ≡ "bob"
unfolding lookup
bob_only d e = let apart = host_3-ne-host_2 in ground (arith, eq_iff "bob" d)

all_in_time : AllInTime fresh all_events
unfolding run step open_session remove_client drop_session assign_ip_to_client allocate lookup store
    delete
all_in_time = (
  tt,
  (
    tt,
    (
      tt,
      (
        tt,
        (
          tt,
          (
            λ d. subst (λ m. lookup d m ≢ some (host 2)) (sym bob_left) (bob_elsewhere d),
            (
              tt,
              (
                λ d.
                    subst (λ m. lookup d m ≡ some (host 3) → d ≡ "bob") (sym bob_and_carol)
                      (bob_only d),
                tt,
              ),
            ),
          ),
        ),
      ),
    ),
  ),
)

carol_holds : lookup "carol" (run fresh all_events).client_ip_map ≡ some (host 2)
unfolding run step open_session assign_ip_to_client allocate lookup store finish_connection
    cleanup_client_session remove_client drop_session release delete bytes_eq
carol_holds = refl

run_no_shared_address_example :
    (carol ≡ carol) × (lookup (host 2) (run fresh all_events).ip_pool.allocated ≡ some "carol")
run_no_shared_address_example =
    run_no_shared_address fresh all_events fresh-AllLeased all_in_time "carol" "carol" (host 2)
      carol_holds carol_holds

run_refines_example :
    Runs (owns fresh.ip_pool) (system fresh) all_events (system (run fresh all_events))
run_refines_example = run_refines fresh all_events fresh-AllLeased all_in_time
