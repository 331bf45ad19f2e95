-- ===== src/Resilience/Tests.antt =====
-- Runs of the breaker and of the retries.
use go_order_management_syst.Prelude.{
  ℕ, ◌+◌, ◌≡◌, refl, true, false, List, [], ◌∷◌, none, arith, ◌≤◌, ◌≢◌,
}
use go_order_management_syst.Resilience.Breaker.{
  CircuitBreaker, circuit_closed, circuit_open, circuit_half_open, new_circuit_breaker, acquire,
  complete,
}
use go_order_management_syst.Resilience.Breaker.Config.{CircuitBreakerConfig}
use go_order_management_syst.Resilience.Breaker.Session.{Session, Event, asks, ends, step, run}
use go_order_management_syst.Resilience.Breaker.Invariant.{Inv, start, run-start-Inv}
use go_order_management_syst.Resilience.Breaker.Behaviour.{
  fail_times, opens_at_threshold, ask_all, open_until_interval, stale_probe_closes, recovers,
}
use go_order_management_syst.Resilience.Retry.Policy.{RetryPolicy, Reply, response, backoff}
use go_order_management_syst.Resilience.Retry.Policy as Policy
use go_order_management_syst.Resilience.Retry.Backoff.{capped_double, backoff_doubles}
use go_order_management_syst.Resilience.Retry.Executor.{Attempt, do_request, exhausted}
use go_order_management_syst.Resilience.Retry.Heard.{history, quiet}
use go_order_management_syst.Resilience.Retry.Attempts.{do_request-Ends}

-- A configuration with a threshold that is not set.
abbrev two_seconds : CircuitBreakerConfig
two_seconds = record { failure_threshold = 2; open_interval = 20; half_open_max_probes = 1 }

abbrev unset : CircuitBreakerConfig
unset = record {
  failure_threshold = 0;
  open_interval = 18446744073709551615;
  half_open_max_probes = 3;
}

abbrev calls : List Event
calls = asks 1 ∷ ends 0 2 false ∷ asks 3 ∷ ends 0 4 false ∷ asks 5 ∷ asks 30 ∷ ends 0 31 true ∷ []

run-start-Inv_example : let s = run (start "catalog" two_seconds) calls in Inv s.breaker s.callbacks
run-start-Inv_example = run-start-Inv "catalog" two_seconds calls

abbrev closed : CircuitBreaker
closed = record {
  key = "catalog";
  cfg = two_seconds;
  state = circuit_closed;
  consecutive_failed = 0;
  opened_at = 0;
  half_open_in_flight = 0;
  log = [];
}

abbrev opened : CircuitBreaker
opened = record closed { state = circuit_open; opened_at = 100 }

abbrev ticks : ℕ → ℕ
ticks n = 100 + n

opens_at_threshold_example :
    ((fail_times ticks 1 closed).state ≡ circuit_closed)
    × ((fail_times ticks 2 closed).state ≡ circuit_open)
    × ((fail_times ticks 2 closed).opened_at ≡ ticks 1)
opens_at_threshold_example =
    opens_at_threshold ticks 1 1 closed refl refl (omega arith) (omega arith)

abbrev open_session : Session
open_session = record { breaker = opened; callbacks = true ∷ [] }

open_until_interval_example :
    let probing = step (ask_all open_session (101 ∷ 119 ∷ [])) (asks 120) in
    (ask_all open_session (101 ∷ 119 ∷ []) ≡ open_session)
    × (probing.breaker.state ≡ circuit_half_open)
    × (probing.breaker.half_open_in_flight ≡ 1)
    × (probing.callbacks ≡ true ∷ true ∷ [])
open_until_interval_example =
    open_until_interval open_session (101 ∷ 119 ∷ []) 120 refl refl (omega arith)
      (omega arith, (omega arith, tt)) (omega arith)

stale_probe_closes_example :
    let t = step (step open_session (asks 120)) (ends 1 121 true) in
    (t.breaker.state ≡ circuit_closed) × (t.callbacks ≡ true ∷ [])
stale_probe_closes_example =
    stale_probe_closes open_session [] 120 121 refl refl (omega arith) (omega arith) refl

recovers_example :
    let probing = (acquire 120 opened).0 in
    ((complete 130 true true probing).state ≡ circuit_closed)
    × ((complete 130 true true probing).consecutive_failed ≡ 0)
    × ((complete 130 true false probing).state ≡ circuit_open)
    × ((complete 130 true false probing).opened_at ≡ 130)
recovers_example = recovers 120 130 opened refl refl (omega arith) (omega arith)

abbrev three_attempts : RetryPolicy
three_attempts = record {
  max_attempts = 3;
  base_backoff = 100;
  max_backoff = 250;
  minimum_attempt_gap = 10;
}

backoff_doubles_example :
    let q = Policy.normalized three_attempts in
    (q.base_backoff ≤ backoff q 3)
    × (backoff q 3 ≤ q.max_backoff)
    × (capped_double 2 q.base_backoff q.max_backoff ≤ backoff q 3)
    × (backoff q 3 ≤ capped_double 2 q.base_backoff q.max_backoff + 1)
backoff_doubles_example = backoff_doubles three_attempts 2

-- Every attempt is answered with the status 503.
abbrev unavailable : ℕ → Attempt
unavailable n = record {
  ctx_done = false;
  ctx_done_after = false;
  remaining = none;
  remaining_after = none;
  asked_at = n;
  ended_at = n;
  factory_ok = true;
  sleep_ok = true;
  reply = response 503;
  jitter = λ d. d;
}

do_request-Ends_example :
    let (outcome, p) =
      do_request three_attempts unavailable (new_circuit_breaker "catalog" unset) in
    (p.calls ≤ (Policy.normalized three_attempts).max_attempts)
    × (outcome ≢ exhausted)
    × Inv p.breaker []
    × (k : ℕ) × (p.calls ≤ k)
    × (k ≤ p.calls + 1)
    × (run (quiet (new_circuit_breaker "catalog" unset)) (history unavailable 1 k)
        ≡ quiet p.breaker)
unfolding new_circuit_breaker run
do_request-Ends_example =
    do_request-Ends three_attempts unavailable (new_circuit_breaker "catalog" unset)
      (run-start-Inv "catalog" unset [])
