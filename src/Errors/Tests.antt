-- ===== src/Errors/Tests.antt =====
-- common/errors.go: cases of errors_test.go.
use masque_vpn.Prelude.{◌≡◌, refl, true, false, none}
use masque_vpn.Errors.Kinds.{
  GoError, sentinel, net_error, plain, wrapped, tun_device_creation, error_text, new_vpn_error,
  same_sentinel, is_connection_error, is_network_error, is_error, as_vpn_error, as_net_error,
  get_recovery_strategy,
}
use masque_vpn.Errors.Strategies.{expected, get_recovery_strategy_lem}

-- A `net.OpError` that wraps an error of this program.
abbrev failed_open : GoError
failed_open = wrapped "open" (net_error "dial" false false (sentinel tun_device_creation))

get_recovery_strategy_lem_example : get_recovery_strategy failed_open ≡ expected none failed_open
get_recovery_strategy_lem_example = get_recovery_strategy_lem failed_open

-- It is a connection error and a network error.
two_classes : (is_connection_error failed_open ≡ true) × (is_network_error failed_open ≡ true)
unfolding is_connection_error is_network_error is_error same_sentinel as_vpn_error as_net_error
two_classes = (refl, refl)

error_text_with_cause :
    error_text (new_vpn_error "connection" "test message" (plain "cause"))
    ≡ "connection: test message (caused by: cause)"
unfolding error_text
error_text_with_cause = refl
