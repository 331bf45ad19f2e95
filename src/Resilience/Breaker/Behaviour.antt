-- ===== src/Resilience/Breaker/Behaviour.antt =====
-- When the circuit opens, when it lets a probe through, and that it can always close again.
use go_order_management_syst.Prelude.{
  ℕ, zero, suc, ◌+◌, ◌-◌, ◌≤◌, ◌<◌, ◌≡◌, refl, Bool, true, false, List, [], ◌∷◌, arith,
}
use go_order_management_syst.Resilience.Breaker.{
  CircuitBreaker, circuit_closed, circuit_open, circuit_half_open, acquire, complete, rejected,
}
use go_order_management_syst.Resilience.Breaker.Session.{Session, asks, ends, step}

-- `n` ordinary calls fail in a row, at the times given by a clock.
unfoldable pub fail_times : (ℕ → ℕ) → ℕ → CircuitBreaker → CircuitBreaker
fail_times clock zero b = b
fail_times clock (suc n) b = complete (clock n) false false (fail_times clock n b)

fail_times_below :
    (clock : ℕ → ℕ) (n : ℕ) (b : CircuitBreaker)
    → b.state ≡ circuit_closed
    → b.consecutive_failed + n < b.cfg.failure_threshold
    → (fail_times clock n b).state ≡ circuit_closed
      × ((fail_times clock n b).consecutive_failed ≡ b.consecutive_failed + n)
      × ((fail_times clock n b).cfg ≡ b.cfg)
unfolding fail_times complete
fail_times_below clock zero b s h = (s, omega arith, refl)
fail_times_below clock (suc n) b s h = ground (arith, fail_times_below clock n b s (omega arith))

-- A closed circuit that has counted no failure is still closed after fewer consecutive failures than
-- the threshold, and is open, from the last of them on, after exactly the threshold.
pub opens_at_threshold :
    (clock : ℕ → ℕ) (n k : ℕ) (b : CircuitBreaker)
    → b.state ≡ circuit_closed
    → b.consecutive_failed ≡ 0
    → suc n ≡ b.cfg.failure_threshold
    → k ≤ n
    → ((fail_times clock k b).state ≡ circuit_closed)
      × ((fail_times clock (suc n) b).state ≡ circuit_open)
      × ((fail_times clock (suc n) b).opened_at ≡ clock n)
unfolding fail_times complete
opens_at_threshold clock n k b s z t h =
    ground (
      arith,
      fail_times_below clock k b s (omega arith),
      fail_times_below clock n b s (omega arith),
    )

-- Calls at these times, each of them before the open circuit's interval is over.
abbrev pub TooEarly : CircuitBreaker → List ℕ → Type 0
TooEarly b [] = Unit {0}
TooEarly b (now ∷ later) = (now < b.opened_at + b.cfg.open_interval) × TooEarly b later

abbrev pub ask_all : Session → List ℕ → Session
ask_all s [] = s
ask_all s (now ∷ later) = ask_all (step s (asks now)) later

acquire_early :
    (now : ℕ) (b : CircuitBreaker)
    → b.state ≡ circuit_open
    → now < b.opened_at + b.cfg.open_interval
    → acquire now b ≡ (b, rejected (b.opened_at + b.cfg.open_interval - now))
unfolding acquire
acquire_early now b s h = ground arith

ask_all_early :
    (s : Session) (times : List ℕ)
    → s.breaker.state ≡ circuit_open
    → TooEarly s.breaker times
    → ask_all s times ≡ s
unfolding step
ask_all_early s [] o early = refl
ask_all_early s (now ∷ later) o early =
    rw (acquire_early now s.breaker o early.0) (ask_all_early s later o early.1)

-- However many calls ask an open circuit before its interval is over, all are refused: the breaker
-- and the callbacks stay as they are. The first call at or after its end is admitted as the one
-- probe of a half-open circuit.
pub open_until_interval :
    (s : Session) (times : List ℕ) (now : ℕ)
    → s.breaker.state ≡ circuit_open
    → s.breaker.half_open_in_flight ≡ 0
    → 0 < s.breaker.cfg.half_open_max_probes
    → TooEarly s.breaker times
    → s.breaker.opened_at + s.breaker.cfg.open_interval ≤ now
    → let probing = step (ask_all s times) (asks now) in
      (ask_all s times ≡ s)
      × (probing.breaker.state ≡ circuit_half_open)
      × (probing.breaker.half_open_in_flight ≡ 1)
      × (probing.callbacks ≡ true ∷ s.callbacks)
unfolding step acquire
open_until_interval s times now o f p early h =
    rw (ask_all_early s times o early) (refl, ground arith, ground arith, ground arith)

-- A probe callback of an earlier half-open period counts in the present one: if its call succeeds
-- late, the circuit closes although the present probe has not ended.
pub stale_probe_closes :
    (s : Session) (l : List Bool) (now later : ℕ)
    → s.breaker.state ≡ circuit_open
    → s.breaker.half_open_in_flight ≡ 0
    → 0 < s.breaker.cfg.half_open_max_probes
    → s.breaker.opened_at + s.breaker.cfg.open_interval ≤ now
    → s.callbacks ≡ true ∷ l
    → let t = step (step s (asks now)) (ends 1 later true) in
      (t.breaker.state ≡ circuit_closed) × (t.callbacks ≡ true ∷ l)
unfolding step acquire complete
stale_probe_closes s l now later o f p h e = ground arith

-- An open circuit closes again, with no failure counted, once a single call after the interval
-- succeeds; if that call fails it is open again and the interval starts anew.
pub recovers :
    (now later : ℕ) (b : CircuitBreaker)
    → b.state ≡ circuit_open
    → b.half_open_in_flight ≡ 0
    → 0 < b.cfg.half_open_max_probes
    → b.opened_at + b.cfg.open_interval ≤ now
    → let probing = (acquire now b).0 in
      ((complete later true true probing).state ≡ circuit_closed)
      × ((complete later true true probing).consecutive_failed ≡ 0)
      × ((complete later true false probing).state ≡ circuit_open)
      × ((complete later true false probing).opened_at ≡ later)
unfolding acquire complete
recovers now later b s f p h = ground arith
