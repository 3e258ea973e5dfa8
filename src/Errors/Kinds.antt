-- ===== src/Errors/Kinds.antt =====
-- common/errors.go. An error is the chain that `errors.As` and `errors.Is` walk: `wrapped` is
-- `fmt.Errorf` with one `%w`, `nil` no error, and `net_error` an error with the methods of
-- `net.Error`: what these return, and the error that it wraps, as a `net.OpError` does, or `nil`.
use Prim.Native.String.{String, ◌++◌ as str_append}
use text.Mathlib.Text.{◌==◌ as str_eq}
use masque_vpn.Prelude.{ℕ, Bool, false, ◌||◌, not, Option, none, some, List, [], if◌then◌else◌}
use masque_vpn.Prelude.Assoc.{string_eq, store}

pub data Sentinel : Type 0 where
  connection_failed connection_timeout connection_lost authentication_failed : Sentinel
  invalid_config missing_config invalid_certificate : Sentinel
  tun_device_creation route_addition ip_allocation network_unreachable : Sentinel
  masque_protocol quic_protocol http3_protocol : Sentinel
  permission_denied resource_exhausted system_call : Sentinel

abbrev pub sentinel_text : Sentinel → String
sentinel_text connection_failed = "connection failed"
sentinel_text connection_timeout = "connection timeout"
sentinel_text connection_lost = "connection lost"
sentinel_text authentication_failed = "authentication failed"
sentinel_text invalid_config = "invalid configuration"
sentinel_text missing_config = "missing required configuration"
sentinel_text invalid_certificate = "invalid certificate"
sentinel_text tun_device_creation = "TUN device creation failed"
sentinel_text route_addition = "route addition failed"
sentinel_text ip_allocation = "IP allocation failed"
sentinel_text network_unreachable = "network unreachable"
sentinel_text masque_protocol = "MASQUE protocol error"
sentinel_text quic_protocol = "QUIC protocol error"
sentinel_text http3_protocol = "HTTP/3 protocol error"
sentinel_text permission_denied = "permission denied"
sentinel_text resource_exhausted = "resource exhausted"
sentinel_text system_call = "system call failed"

pub data GoError : Type 0 where
  nil : GoError
  sentinel : Sentinel → GoError
  net_error : (text : String) (timeout temporary : Bool) (cause : GoError) → GoError
  plain : String → GoError
  wrapped : String → GoError → GoError
  vpn_error :
      (error_type message : String) (cause : GoError) (context : List (String × String))
      (timestamp : ℕ)
      → GoError

-- Two sentinels are the same error when they are the same variable.
unfoldable pub same_sentinel : Sentinel → Sentinel → Bool
same_sentinel s t = str_eq (sentinel_text s) (sentinel_text t)

abbrev pub get_current_timestamp : ℕ
get_current_timestamp = 0

abbrev pub new_vpn_error : String → String → GoError → GoError
new_vpn_error error_type message cause = vpn_error error_type message cause [] get_current_timestamp

-- Nothing but a `VPNError` has this method.
abbrev pub with_context : GoError → String → String → GoError
with_context (vpn_error t m cause context time) key value =
    vpn_error t m cause (store key value context) time
with_context nil key value = nil
with_context (sentinel s) key value = sentinel s
with_context (net_error t a b e) key value = net_error t a b e
with_context (plain t) key value = plain t
with_context (wrapped t e) key value = wrapped t e

abbrev pub caused_by : String → String → String
caused_by text cause_text = str_append text (str_append " (caused by: " (str_append cause_text ")"))

abbrev pub with_cause : String → GoError → String → String
with_cause text nil cause_text = text
with_cause text (sentinel s) cause_text = caused_by text cause_text
with_cause text (net_error t a b e) cause_text = caused_by text cause_text
with_cause text (plain t) cause_text = caused_by text cause_text
with_cause text (wrapped t e) cause_text = caused_by text cause_text
with_cause text (vpn_error t m e c time) cause_text = caused_by text cause_text

-- `Error`; a wrapping error's text is its own followed by that of the error it wraps.
unfoldable pub error_text : GoError → String
error_text nil = "<nil>"
error_text (sentinel s) = sentinel_text s
error_text (net_error text timeout temporary cause) = text
error_text (plain text) = text
error_text (wrapped text e) = str_append text (str_append ": " (error_text e))
error_text (vpn_error t m cause context time) =
    with_cause (str_append t (str_append ": " m)) cause (error_text cause)

abbrev pub unwrap : GoError → GoError
unwrap (wrapped text e) = e
unwrap (vpn_error t m cause context time) = cause
unwrap nil = nil
unwrap (sentinel s) = nil
unwrap (net_error t a b e) = e
unwrap (plain t) = nil

-- `errors.As` for `*VPNError`: the type of the first in the chain.
unfoldable pub as_vpn_error : GoError → Option String
as_vpn_error nil = none
as_vpn_error (sentinel s) = none
as_vpn_error (net_error text timeout temporary cause) = as_vpn_error cause
as_vpn_error (plain text) = none
as_vpn_error (wrapped text e) = as_vpn_error e
as_vpn_error (vpn_error t m cause context time) = some t

-- `errors.As` for `net.Error`: what the first in the chain says of a timeout, and of being
-- temporary.
unfoldable pub as_net_error : GoError → Option (Bool × Bool)
as_net_error nil = none
as_net_error (sentinel s) = none
as_net_error (net_error text timeout temporary cause) = some (timeout, temporary)
as_net_error (plain text) = none
as_net_error (wrapped text e) = as_net_error e
as_net_error (vpn_error t m cause context time) = as_net_error cause

-- `errors.Is` for a sentinel.
unfoldable pub is_error : GoError → Sentinel → Bool
is_error nil target = false
is_error (sentinel s) target = same_sentinel s target
is_error (net_error text timeout temporary cause) target = is_error cause target
is_error (plain text) target = false
is_error (wrapped text e) target = is_error e target
is_error (vpn_error t m cause context time) target = is_error cause target

unfoldable pub is_connection_error : GoError → Bool
is_connection_error e = elim (as_vpn_error e) [
  | some t ↦ str_eq t "connection"
  | none ↦ elim (as_net_error e) [
    | some (timeout, temporary) ↦ timeout || not temporary
    | none ↦
        is_error e connection_failed || is_error e connection_timeout || is_error e connection_lost
  ]
]

unfoldable pub is_configuration_error : GoError → Bool
is_configuration_error e = elim (as_vpn_error e) [
  | some t ↦ str_eq t "configuration"
  | none ↦ is_error e invalid_config || is_error e missing_config || is_error e invalid_certificate
]

unfoldable pub is_network_error : GoError → Bool
is_network_error e = elim (as_vpn_error e) [
  | some t ↦ str_eq t "network"
  | none ↦
      is_error e tun_device_creation
      || is_error e route_addition
      || is_error e ip_allocation
      || is_error e network_unreachable
]

unfoldable pub is_protocol_error : GoError → Bool
is_protocol_error e = elim (as_vpn_error e) [
  | some t ↦ str_eq t "protocol"
  | none ↦ is_error e masque_protocol || is_error e quic_protocol || is_error e http3_protocol
]

unfoldable pub is_system_error : GoError → Bool
is_system_error e = elim (as_vpn_error e) [
  | some t ↦ str_eq t "system"
  | none ↦ is_error e permission_denied || is_error e resource_exhausted || is_error e system_call
]

pub data RecoveryStrategy : Type 0 where
  recovery_none recovery_retry recovery_reconnect recovery_restart recovery_fallback :
      RecoveryStrategy

unfoldable pub get_recovery_strategy : GoError → RecoveryStrategy
get_recovery_strategy e =
    if is_connection_error e
    then recovery_reconnect
    else if is_network_error e
    then recovery_retry
    else if is_protocol_error e
    then recovery_reconnect
    else if is_configuration_error e
    then recovery_none
    else if is_system_error e
    then recovery_restart
    else recovery_retry
