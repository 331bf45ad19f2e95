-- ===== src/Resilience/Retry.antt =====
-- internal/platform/resiliencehttp/client.go: the retry policy, the backoff and the executor's loop.
pub mod Policy
pub mod Executor
pub mod Backoff
pub mod Heard
pub mod Attempts
