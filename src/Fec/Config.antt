-- ===== src/Fec/Config.antt =====
-- common/fec/fec.go: the configuration and its checks.
use masque_vpn.Prelude.{ℕ, Bool, Option, none, some, if◌then◌else◌, ◌&&◌, ◌||◌, not}
use masque_vpn.Prelude.Int.{ℤ, pos, is_negative, is_zero, above, scale}

pub record Config : Type 0 where
  pub enabled : Bool
  pub redundancy_percent : ℤ
  pub block_size : ℤ

pub data ConfigError : Type 0 where
  redundancy_out_of_range : ℤ → ConfigError
  block_size_not_positive : ℤ → ConfigError
  block_size_too_large : ℤ → ConfigError

-- `none` is a nil error.
unfoldable pub validate : Config → Option ConfigError
validate c =
    if is_negative c.redundancy_percent || above 100 c.redundancy_percent
    then some (redundancy_out_of_range c.redundancy_percent)
    else if not (above 0 c.block_size)
    then some (block_size_not_positive c.block_size)
    else if above 255 c.block_size
    then some (block_size_too_large c.block_size)
    else none

unfoldable pub calculate_redundancy_packets : Config → ℕ → ℤ
calculate_redundancy_packets c data_packets =
    if is_zero c.redundancy_percent
    then pos 0
    else let redundancy = scale data_packets c.redundancy_percent 100 in
      if is_zero redundancy && above 0 c.redundancy_percent then pos 1 else redundancy
