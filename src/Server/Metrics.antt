-- ===== src/Server/Metrics.antt =====
-- vpn_server/internal/server/metrics.go: the collectors as counts. A gauge may fall below 0; a
-- duration is a number in a unit that the model leaves open. `NewMetrics` starts all at 0; that it
-- registers them with Prometheus is left out.
use Prim.Native.String.{String}
use masque_vpn.Prelude.{ℕ, zero, suc, ◌+◌, none, some, List, [], ◌∷◌, ◌++◌}
use masque_vpn.Prelude.Int.{ℤ, pos, negsuc}
use masque_vpn.Prelude.Assoc.{string_eq, lookup, store}

pub record Metrics : Type 0 where
  pub active_connections : ℤ
  pub total_connections : ℕ
  pub packets_forwarded : ℕ
  pub packets_dropped : ℕ
  pub bytes_forwarded : ℕ
  pub packet_processing_duration : List ℕ
  pub connection_duration : List ℕ
  pub errors_total : List (String × ℕ)
  pub fec_packets_encoded : ℕ
  pub fec_packets_decoded : ℕ
  pub fec_recovered_packets : ℕ
  pub tun_interface_status : ℕ
  pub tun_packets_read : ℕ
  pub tun_packets_written : ℕ

abbrev pub new_metrics : Metrics
new_metrics = record {
  active_connections = pos 0;
  total_connections = 0;
  packets_forwarded = 0;
  packets_dropped = 0;
  bytes_forwarded = 0;
  packet_processing_duration = [];
  connection_duration = [];
  errors_total = [];
  fec_packets_encoded = 0;
  fec_packets_decoded = 0;
  fec_recovered_packets = 0;
  tun_interface_status = 0;
  tun_packets_read = 0;
  tun_packets_written = 0;
}

abbrev pub inc : ℤ → ℤ
inc (pos n) = pos (suc n)
inc (negsuc zero) = pos 0
inc (negsuc (suc n)) = negsuc n

abbrev pub dec : ℤ → ℤ
dec (pos zero) = negsuc 0
dec (pos (suc n)) = pos n
dec (negsuc n) = negsuc (suc n)

unfoldable pub record_connection : Metrics → Metrics
record_connection m = record m {
  total_connections = m.total_connections + 1;
  active_connections = inc m.active_connections;
}

unfoldable pub record_disconnection : Metrics → Metrics
record_disconnection m = record m { active_connections = dec m.active_connections }

abbrev pub errors_of : String → Metrics → ℕ
errors_of kind m = elim (lookup kind m.errors_total) [ none ↦ 0 | some n ↦ n ]

unfoldable pub record_error : String → Metrics → Metrics
record_error kind m = record m { errors_total = store kind (errors_of kind m + 1) m.errors_total }

unfoldable pub record_packet_processing : ℕ → Metrics → Metrics
record_packet_processing duration m = record m {
  packet_processing_duration = m.packet_processing_duration ++ duration ∷ [];
}

unfoldable pub record_connection_duration : ℕ → Metrics → Metrics
record_connection_duration duration m = record m {
  connection_duration = m.connection_duration ++ duration ∷ [];
}
