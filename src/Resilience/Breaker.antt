-- ===== src/Resilience/Breaker.antt =====
-- internal/platform/resiliencehttp/circuit_breaker.go. Times are nanoseconds; the mutex makes each
-- method one step, and the clock's reading is an argument of the step. `log` holds what the logger
-- is given, newest first.
pub mod Config
pub mod Session
pub mod Invariant
pub mod Behaviour
use Prim.Native.String.{String}
use go_order_management_syst.Prelude.{
  ℕ, suc, ◌+◌, ◌-◌, Bool, true, false, List, [], ◌∷◌, ltb, leb, ◌==◌, if◌then◌else◌,
}
use Config.{CircuitBreakerConfig, normalized}

pub data CircuitState : Type 0 where
  circuit_closed circuit_open circuit_half_open : CircuitState

pub record CircuitBreaker : Type 0 where
  pub key : String
  pub cfg : CircuitBreakerConfig
  pub state : CircuitState
  pub consecutive_failed : ℕ
  pub opened_at : ℕ
  pub half_open_in_flight : ℕ
  pub log : List (CircuitState × CircuitState)

unfoldable pub new_circuit_breaker : String → CircuitBreakerConfig → CircuitBreaker
new_circuit_breaker key cfg = record {
  key = key;
  cfg = normalized cfg;
  state = circuit_closed;
  consecutive_failed = 0;
  opened_at = 0;
  half_open_in_flight = 0;
  log = [];
}

abbrev pub same_state : CircuitState → CircuitState → Bool
same_state circuit_closed circuit_closed = true
same_state circuit_open circuit_open = true
same_state circuit_half_open circuit_half_open = true
same_state _ _ = false

unfoldable pub transition_locked : CircuitState → CircuitBreaker → CircuitBreaker
transition_locked next b =
    if same_state b.state next then b else record b { state = next; log = (b.state, next) ∷ b.log }

unfoldable pub open_locked : ℕ → CircuitBreaker → CircuitBreaker
unfolding transition_locked
open_locked now b =
    transition_locked circuit_open
      (record b { opened_at = now; consecutive_failed = 0; half_open_in_flight = 0 })

-- What `acquire` returns: the completion callback, which remembers whether the call is a probe, or
-- a `CircuitOpenError` with its `RetryAfter`.
pub data Acquired : Type 0 where
  admitted : Bool → Acquired
  rejected : ℕ → Acquired

-- The part of `acquire` behind the test of an open circuit.
unfoldable pub admit : CircuitBreaker → CircuitBreaker × Acquired
admit b =
    if same_state b.state circuit_half_open
    then if leb b.cfg.half_open_max_probes b.half_open_in_flight
      then (b, rejected b.cfg.open_interval)
      else (record b { half_open_in_flight = b.half_open_in_flight + 1 }, admitted true)
    else (b, admitted false)

unfoldable pub acquire : ℕ → CircuitBreaker → CircuitBreaker × Acquired
unfolding transition_locked admit
acquire now b =
    let retry_at = b.opened_at + b.cfg.open_interval in
    if same_state b.state circuit_open
    then if ltb now retry_at
      then (b, rejected (retry_at - now))
      else admit (transition_locked circuit_half_open b)
    else admit b

complete_probe : ℕ → Bool → CircuitBreaker → CircuitBreaker
unfolding transition_locked open_locked
complete_probe now success b =
    let c = record b { half_open_in_flight = b.half_open_in_flight - 1 } in
    if success
    then if c.half_open_in_flight == 0
      then transition_locked circuit_closed (record c { consecutive_failed = 0 })
      else c
    else open_locked now c

complete_call : ℕ → Bool → CircuitBreaker → CircuitBreaker
unfolding open_locked
complete_call now success b =
    let c = record b { consecutive_failed = b.consecutive_failed + 1 } in
    if success
    then record b { consecutive_failed = 0 }
    else if leb c.cfg.failure_threshold c.consecutive_failed
    then open_locked now c
    else c

-- `complete(probe, success)`; truncated subtraction is the guarded decrement.
unfoldable pub complete : ℕ → Bool → Bool → CircuitBreaker → CircuitBreaker
unfolding complete_probe complete_call
complete now true success b =
    if same_state b.state circuit_half_open then complete_probe now success b else b
complete now false success b =
    if same_state b.state circuit_closed then complete_call now success b else b
