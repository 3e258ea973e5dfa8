-- ===== src/Errors/Strategies.antt =====
-- common/errors.go: `GetRecoveryStrategy` against one walk down an error's chain.
use Prim.Native.String.{String}
use masque_vpn.Prelude.{
  ◌≡◌, refl, sym, ap, ◌∙◌, inl, inr, Bool, true, false, ◌||◌, not, Option, none, some, Option-cases,
}
use masque_vpn.Errors.Kinds.{
  connection_failed, connection_timeout, connection_lost, invalid_config, missing_config,
  invalid_certificate, tun_device_creation, route_addition, ip_allocation, network_unreachable,
  masque_protocol, quic_protocol, http3_protocol, permission_denied, resource_exhausted,
  system_call, GoError, nil, sentinel, net_error, plain, wrapped, vpn_error, as_vpn_error,
  as_net_error, is_connection_error, is_configuration_error, is_network_error, is_protocol_error,
  is_system_error, RecoveryStrategy, recovery_retry, recovery_reconnect, get_recovery_strategy,
}
use masque_vpn.Errors.Classes.{
  Class, connection, configuration, network, protocol, system, unclassified, class_of_sentinel,
  class_of_type, is_class, strategy_of, end_of, end_class, is_error-end, end_class-EndsIn,
  type_class,
}

-- What the walk below makes of the end of a chain, after a `net.Error` that tells of a lost
-- connection, or of one that passes, or after none.
abbrev pub at_end : Option Bool → Class → RecoveryStrategy
at_end none c = strategy_of c
at_end (some true) c = recovery_reconnect
at_end (some false) connection = recovery_retry
at_end (some false) configuration = strategy_of configuration
at_end (some false) network = strategy_of network
at_end (some false) protocol = strategy_of protocol
at_end (some false) system = strategy_of system
at_end (some false) unclassified = strategy_of unclassified

-- One walk down the chain: the outermost `VPNError` settles the strategy by its type; else the
-- outermost `net.Error`, if it is a timeout or not temporary; else the error at the end.
abbrev pub expected : Option Bool → GoError → RecoveryStrategy
expected seen nil = at_end seen unclassified
expected seen (sentinel s) = at_end seen (class_of_sentinel s)
expected none (net_error text timeout temporary cause) =
    expected (some (timeout || not temporary)) cause
expected (some lost) (net_error text timeout temporary cause) = expected (some lost) cause
expected seen (plain text) = at_end seen unclassified
expected seen (wrapped text e) = expected seen e
expected seen (vpn_error t m cause context time) = strategy_of (class_of_type t)

abbrev Classified : GoError → Class → Type 0
Classified e c =
    (is_connection_error e ≡ is_class connection c)
    × (is_configuration_error e ≡ is_class configuration c)
    × (is_network_error e ≡ is_class network c)
    × (is_protocol_error e ≡ is_class protocol c)
    × (is_system_error e ≡ is_class system c)

type-Classified :
    (e : GoError) (t : String) → as_vpn_error e ≡ some t → Classified e (class_of_type t)
unfolding is_connection_error is_configuration_error is_network_error is_protocol_error
    is_system_error
type-Classified e t h =
    let types = type_class t in
    (
      rw (h, is_connection_error) types.0,
      rw (h, is_configuration_error) types.1,
      rw (h, is_network_error) types.2,
      rw (h, is_protocol_error) types.3,
      rw (h, is_system_error) types.4,
    )

-- What four of the classification functions say of a chain without a `VPNError`.
abbrev OfEnd : GoError → Class → Type 0
OfEnd e c =
    (is_configuration_error e ≡ is_class configuration c)
    × (is_network_error e ≡ is_class network c)
    × (is_protocol_error e ≡ is_class protocol c)
    × (is_system_error e ≡ is_class system c)

end-OfEnd : (e : GoError) → as_vpn_error e ≡ none → OfEnd e (end_class (end_of e))
unfolding is_configuration_error is_network_error is_protocol_error is_system_error
end-OfEnd e h =
    let ends = end_class-EndsIn (end_of e) in
    (
      rw
          (
            h,
            is_configuration_error,
            is_error-end e invalid_config,
            is_error-end e missing_config,
            is_error-end e invalid_certificate,
          )
          ends.1,
      rw
          (
            h,
            is_network_error,
            is_error-end e tun_device_creation,
            is_error-end e route_addition,
            is_error-end e ip_allocation,
            is_error-end e network_unreachable,
          )
          ends.2,
      rw
          (
            h,
            is_protocol_error,
            is_error-end e masque_protocol,
            is_error-end e quic_protocol,
            is_error-end e http3_protocol,
          )
          ends.3,
      rw
          (
            h,
            is_system_error,
            is_error-end e permission_denied,
            is_error-end e resource_exhausted,
            is_error-end e system_call,
          )
          ends.4,
    )

end-connection :
    (e : GoError)
    → as_vpn_error e ≡ none
    → as_net_error e ≡ none
    → is_connection_error e ≡ is_class connection (end_class (end_of e))
unfolding is_connection_error
end-connection e h n =
    rw
      (
        h,
        is_connection_error,
        n,
        is_error-end e connection_failed,
        is_error-end e connection_timeout,
        is_error-end e connection_lost,
      )
      (end_class-EndsIn (end_of e)).0

net-connection :
    (e : GoError) (timeout temporary : Bool)
    → as_vpn_error e ≡ none
    → as_net_error e ≡ some (timeout, temporary)
    → is_connection_error e ≡ (timeout || not temporary)
unfolding is_connection_error
net-connection e timeout temporary h n = rw (h, is_connection_error, n) refl

strategy_from : (e : GoError) (c : Class) → Classified e c → get_recovery_strategy e ≡ strategy_of c
unfolding get_recovery_strategy
strategy_from e connection (a, b, d, f, g) = rw a refl
strategy_from e configuration (a, b, d, f, g) = rw (a, b, d, f) refl
strategy_from e network (a, b, d, f, g) = rw (a, d) refl
strategy_from e protocol (a, b, d, f, g) = rw (a, d, f) refl
strategy_from e system (a, b, d, f, g) = rw (a, b, d, f, g) refl
strategy_from e unclassified (a, b, d, f, g) = rw (a, b, d, f, g) refl

strategy_lost :
    (e : GoError) → is_connection_error e ≡ true → get_recovery_strategy e ≡ recovery_reconnect
unfolding get_recovery_strategy
strategy_lost e a = rw a refl

strategy_passing :
    (e : GoError) (c : Class)
    → is_connection_error e ≡ false
    → OfEnd e c
    → get_recovery_strategy e ≡ at_end (some false) c
unfolding get_recovery_strategy
strategy_passing e connection a (b, d, f, g) = rw (a, b, d, f, g) refl
strategy_passing e configuration a (b, d, f, g) = rw (a, b, d, f) refl
strategy_passing e network a (b, d, f, g) = rw (a, d) refl
strategy_passing e protocol a (b, d, f, g) = rw (a, d, f) refl
strategy_passing e system a (b, d, f, g) = rw (a, b, d, f, g) refl
strategy_passing e unclassified a (b, d, f, g) = rw (a, b, d, f, g) refl

-- The walk in terms of what it finds first of each kind.
abbrev lost_by : Option (Bool × Bool) → Option Bool
lost_by none = none
lost_by (some (timeout, temporary)) = some (timeout || not temporary)

abbrev first_of : Option Bool → Option Bool → Option Bool
first_of none later = later
first_of (some lost) later = some lost

abbrev settled : Option Bool → Option String → Class → RecoveryStrategy
settled seen none c = at_end seen c
settled seen (some t) c = strategy_of (class_of_type t)

expected-settled :
    (seen : Option Bool) (e : GoError)
    → expected seen e
      ≡ settled (first_of seen (lost_by (as_net_error e))) (as_vpn_error e) (end_class (end_of e))
unfolding as_vpn_error as_net_error
expected-settled none nil = refl
expected-settled (some lost) nil = refl
expected-settled none (sentinel s) = refl
expected-settled (some lost) (sentinel s) = refl
expected-settled none (net_error text timeout temporary cause) =
    expected-settled (some (timeout || not temporary)) cause
expected-settled (some lost) (net_error text timeout temporary cause) =
    expected-settled (some lost) cause
expected-settled none (plain text) = refl
expected-settled (some lost) (plain text) = refl
expected-settled none (wrapped text e) = expected-settled none e
expected-settled (some lost) (wrapped text e) = expected-settled (some lost) e
expected-settled none (vpn_error t m cause context time) = refl
expected-settled (some lost) (vpn_error t m cause context time) = refl

net_settled :
    (e : GoError) (lost : Bool)
    → is_connection_error e ≡ lost
    → OfEnd e (end_class (end_of e))
    → get_recovery_strategy e ≡ at_end (some lost) (end_class (end_of e))
net_settled e true a ends = strategy_lost e a
net_settled e false a ends = strategy_passing e (end_class (end_of e)) a ends

-- The recovery strategy of an error is what one walk down its chain finds. The type of the
-- outermost `VPNError` settles it: reconnect for connection and protocol, none for configuration,
-- restart for system, retry for network and any other. Without one, an outermost `net.Error` that is
-- a timeout or not temporary means reconnect. Else the variable of errors.go at the end of the chain
-- settles it in the same way, but that one for a lost connection under a temporary `net.Error`
-- means retry, as does any other end.
pub get_recovery_strategy_lem : (e : GoError) → get_recovery_strategy e ≡ expected none e
get_recovery_strategy_lem e = elim (Option-cases (as_vpn_error e)) [
  | inr (t, h) ↦
      strategy_from e (class_of_type t) (type-Classified e t h)
      ∙ sym (
          expected-settled none e
          ∙ ap (λ o. settled (lost_by (as_net_error e)) o (end_class (end_of e))) h)
  | inl h ↦
      let ends = end-OfEnd e h in
      let walk : expected none e ≡ at_end (lost_by (as_net_error e)) (end_class (end_of e)) =
        expected-settled none e
        ∙ ap (λ o. settled (lost_by (as_net_error e)) o (end_class (end_of e))) h in
      elim (Option-cases (as_net_error e)) [
        | inl n ↦
            strategy_from e (end_class (end_of e))
              (end-connection e h n, ends.0, ends.1, ends.2, ends.3)
            ∙ sym (walk ∙ ap (λ o. at_end (lost_by o) (end_class (end_of e))) n)
        | inr ((timeout, temporary), n) ↦
            net_settled e (timeout || not temporary) (net-connection e timeout temporary h n) ends
            ∙ sym (walk ∙ ap (λ o. at_end (lost_by o) (end_class (end_of e))) n)
      ]
]
