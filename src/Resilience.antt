-- ===== src/Resilience.antt =====
-- internal/platform/resiliencehttp: outbound HTTP calls with retries and a circuit breaker.
pub mod Breaker
pub mod Retry
mod Tests
