-- ===== src/Errors/Classes.antt =====
-- common/errors.go: the classes of errors, by the variable at the end of a chain and by the type of
-- a `VPNError`.
use Prim.Native.String.{String}
use text.Mathlib.Text.{◌==◌ as str_eq}
use text.Mathlib.TextEquality.{eq_iff}
use masque_vpn.Prelude.{
  ◌≡◌, refl, ap, ◌∙◌, inl, inr, Bool, true, false, ◌||◌, Option, none, some, Bool-cases,
  if◌then◌else◌,
}
use masque_vpn.Errors.Kinds.{
  Sentinel, connection_failed, connection_timeout, connection_lost, authentication_failed,
  invalid_config, missing_config, invalid_certificate, tun_device_creation, route_addition,
  ip_allocation, network_unreachable, masque_protocol, quic_protocol, http3_protocol,
  permission_denied, resource_exhausted, system_call, same_sentinel, GoError, nil, sentinel,
  net_error, plain, wrapped, vpn_error, is_error, RecoveryStrategy, recovery_none, recovery_retry,
  recovery_reconnect, recovery_restart,
}

pub data Class : Type 0 where
  connection configuration network protocol system unclassified : Class

abbrev pub class_of_sentinel : Sentinel → Class
class_of_sentinel connection_failed = connection
class_of_sentinel connection_timeout = connection
class_of_sentinel connection_lost = connection
class_of_sentinel authentication_failed = unclassified
class_of_sentinel invalid_config = configuration
class_of_sentinel missing_config = configuration
class_of_sentinel invalid_certificate = configuration
class_of_sentinel tun_device_creation = network
class_of_sentinel route_addition = network
class_of_sentinel ip_allocation = network
class_of_sentinel network_unreachable = network
class_of_sentinel masque_protocol = protocol
class_of_sentinel quic_protocol = protocol
class_of_sentinel http3_protocol = protocol
class_of_sentinel permission_denied = system
class_of_sentinel resource_exhausted = system
class_of_sentinel system_call = system

abbrev pub class_of_type : String → Class
class_of_type t =
    if str_eq t "connection"
    then connection
    else if str_eq t "configuration"
    then configuration
    else if str_eq t "network"
    then network
    else if str_eq t "protocol"
    then protocol
    else if str_eq t "system"
    then system
    else unclassified

abbrev pub is_class : Class → Class → Bool
is_class connection connection = true
is_class configuration configuration = true
is_class network network = true
is_class protocol protocol = true
is_class system system = true
is_class c d = false

-- What to do about an error of each class.
abbrev pub strategy_of : Class → RecoveryStrategy
strategy_of connection = recovery_reconnect
strategy_of configuration = recovery_none
strategy_of network = recovery_retry
strategy_of protocol = recovery_reconnect
strategy_of system = recovery_restart
strategy_of unclassified = recovery_retry

abbrev pub end_of : GoError → Option Sentinel
end_of nil = none
end_of (sentinel s) = some s
end_of (net_error text timeout temporary cause) = end_of cause
end_of (plain text) = none
end_of (wrapped text e) = end_of e
end_of (vpn_error t m cause context time) = end_of cause

abbrev pub end_class : Option Sentinel → Class
end_class none = unclassified
end_class (some s) = class_of_sentinel s

abbrev pub is_end : Option Sentinel → Sentinel → Bool
is_end none target = false
is_end (some s) target = same_sentinel s target

pub is_error-end : (e : GoError) (s : Sentinel) → is_error e s ≡ is_end (end_of e) s
unfolding is_error
is_error-end nil s = refl
is_error-end (sentinel t) s = refl
is_error-end (net_error text timeout temporary cause) s = is_error-end cause s
is_error-end (plain text) s = refl
is_error-end (wrapped text e) s = is_error-end e s
is_error-end (vpn_error t m cause context time) s = is_error-end cause s

abbrev pub EndsIn : Option Sentinel → Class → Type 0
EndsIn o c =
    (is_end o connection_failed || is_end o connection_timeout || is_end o connection_lost
      ≡ is_class connection c)
    × (is_end o invalid_config || is_end o missing_config || is_end o invalid_certificate
        ≡ is_class configuration c)
    × (is_end o tun_device_creation
          || is_end o route_addition
          || is_end o ip_allocation
          || is_end o network_unreachable
        ≡ is_class network c)
    × (is_end o masque_protocol || is_end o quic_protocol || is_end o http3_protocol
        ≡ is_class protocol c)
    × (is_end o permission_denied || is_end o resource_exhausted || is_end o system_call
        ≡ is_class system c)

pub end_class-EndsIn : (o : Option Sentinel) → EndsIn o (end_class o)
unfolding same_sentinel
end_class-EndsIn none = (refl, refl, refl, refl, refl)
end_class-EndsIn (some connection_failed) = (refl, refl, refl, refl, refl)
end_class-EndsIn (some connection_timeout) = (refl, refl, refl, refl, refl)
end_class-EndsIn (some connection_lost) = (refl, refl, refl, refl, refl)
end_class-EndsIn (some authentication_failed) = (refl, refl, refl, refl, refl)
end_class-EndsIn (some invalid_config) = (refl, refl, refl, refl, refl)
end_class-EndsIn (some missing_config) = (refl, refl, refl, refl, refl)
end_class-EndsIn (some invalid_certificate) = (refl, refl, refl, refl, refl)
end_class-EndsIn (some tun_device_creation) = (refl, refl, refl, refl, refl)
end_class-EndsIn (some route_addition) = (refl, refl, refl, refl, refl)
end_class-EndsIn (some ip_allocation) = (refl, refl, refl, refl, refl)
end_class-EndsIn (some network_unreachable) = (refl, refl, refl, refl, refl)
end_class-EndsIn (some masque_protocol) = (refl, refl, refl, refl, refl)
end_class-EndsIn (some quic_protocol) = (refl, refl, refl, refl, refl)
end_class-EndsIn (some http3_protocol) = (refl, refl, refl, refl, refl)
end_class-EndsIn (some permission_denied) = (refl, refl, refl, refl, refl)
end_class-EndsIn (some resource_exhausted) = (refl, refl, refl, refl, refl)
end_class-EndsIn (some system_call) = (refl, refl, refl, refl, refl)

two_names : (t a b : String) → str_eq t a ≡ true → str_eq a b ≡ false → str_eq t b ≡ false
two_names t a b e apart = ap (λ x. str_eq x b) ((eq_iff t a).0 e) ∙ apart

pub type_class :
    (t : String)
    → (str_eq t "connection" ≡ is_class connection (class_of_type t))
      × (str_eq t "configuration" ≡ is_class configuration (class_of_type t))
      × (str_eq t "network" ≡ is_class network (class_of_type t))
      × (str_eq t "protocol" ≡ is_class protocol (class_of_type t))
      × (str_eq t "system" ≡ is_class system (class_of_type t))
type_class t = elim (Bool-cases (str_eq t "connection")) [
  | inl k ↦
      rw
        (
          k,
          two_names t "connection" "configuration" k refl,
          two_names t "connection" "network" k refl,
          two_names t "connection" "protocol" k refl,
          two_names t "connection" "system" k refl,
        )
        (refl, refl, refl, refl, refl)
  | inr c ↦ elim (Bool-cases (str_eq t "configuration")) [
    | inl k ↦
        rw
          (
            c,
            k,
            two_names t "configuration" "network" k refl,
            two_names t "configuration" "protocol" k refl,
            two_names t "configuration" "system" k refl,
          )
          (refl, refl, refl, refl, refl)
    | inr f ↦ elim (Bool-cases (str_eq t "network")) [
      | inl k ↦
          rw
            (
              c,
              f,
              k,
              two_names t "network" "protocol" k refl,
              two_names t "network" "system" k refl,
            )
            (refl, refl, refl, refl, refl)
      | inr n ↦ elim (Bool-cases (str_eq t "protocol")) [
        | inl k ↦
            rw (c, f, n, k, two_names t "protocol" "system" k refl) (refl, refl, refl, refl, refl)
        | inr p ↦ elim (Bool-cases (str_eq t "system")) [
          | inl k ↦ rw (c, f, n, p, k) (refl, refl, refl, refl, refl)
          | inr q ↦ rw (c, f, n, p, q) (refl, refl, refl, refl, refl)
        ]
      ]
    ]
  ]
]
