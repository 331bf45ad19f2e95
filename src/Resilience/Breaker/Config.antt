-- ===== src/Resilience/Breaker/Config.antt =====
-- `CircuitBreakerConfig` of internal/platform/resiliencehttp/circuit_breaker.go.
use go_order_management_syst.Prelude.{◌<◌, arith}
use go_order_management_syst.Prelude.Int64.{Int64, positive_or}

pub record CircuitBreakerConfig : Type 0 where
  pub failure_threshold : Int64
  pub open_interval : Int64
  pub half_open_max_probes : Int64

unfoldable pub normalized : CircuitBreakerConfig → CircuitBreakerConfig
normalized cfg = record {
  failure_threshold = positive_or cfg.failure_threshold 5;
  open_interval = positive_or cfg.open_interval 5000000000;
  half_open_max_probes = positive_or cfg.half_open_max_probes 1;
}

-- A normalised configuration has a threshold, an interval and a probe limit of at least one.
pub record IsNormalized (cfg : CircuitBreakerConfig) : Type 0 where
  pub threshold_pos : 0 < cfg.failure_threshold
  pub interval_pos : 0 < cfg.open_interval
  pub probes_pos : 0 < cfg.half_open_max_probes

-- A normalised configuration has a threshold, an interval and a probe limit of at least one.
pub normalized-IsNormalized : (cfg : CircuitBreakerConfig) → IsNormalized (normalized cfg)
unfolding normalized
normalized-IsNormalized cfg = ground arith
