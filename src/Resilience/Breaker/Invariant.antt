-- ===== src/Resilience/Breaker/Invariant.antt =====
-- What holds of a breaker and its outstanding callbacks after any interleaving of calls.
use Prim.Native.String.{String}
use go_order_management_syst.Prelude.{
  ℕ, zero, suc, ◌≤◌, ◌<◌, ◌≡◌, inl, inr, ◌≢◌, refl, Bool, true, false, List, [], ◌∷◌, some, arith,
  Option-cases,
}
use go_order_management_syst.Resilience.Breaker.Config.{
  CircuitBreakerConfig, normalized-IsNormalized,
}
use go_order_management_syst.Resilience.Breaker.{
  CircuitBreaker, circuit_half_open, acquire, complete, new_circuit_breaker,
}
use go_order_management_syst.Resilience.Breaker.Session.{
  Session, Event, asks, ends, nth, remove_nth, hold, step, run,
}

-- The number of probes among the callbacks.
abbrev pub probes : List Bool → ℕ
probes [] = 0
probes (true ∷ l) = suc (probes l)
probes (false ∷ l) = probes l

probes-remove_nth :
    (i : ℕ) (l : List Bool) → nth i l ≡ some true → suc (probes (remove_nth i l)) ≡ probes l
probes-remove_nth i [] h = ground arith
probes-remove_nth zero (true ∷ l) h = refl
probes-remove_nth zero (false ∷ l) h = ground arith
probes-remove_nth (suc i) (true ∷ l) h = omega (arith, probes-remove_nth i l h)
probes-remove_nth (suc i) (false ∷ l) h = probes-remove_nth i l h

probes-remove_nth_call :
    (i : ℕ) (l : List Bool) → nth i l ≡ some false → probes (remove_nth i l) ≡ probes l
probes-remove_nth_call i [] h = ground arith
probes-remove_nth_call zero (true ∷ l) h = ground arith
probes-remove_nth_call zero (false ∷ l) h = refl
probes-remove_nth_call (suc i) (true ∷ l) h = omega (arith, probes-remove_nth_call i l h)
probes-remove_nth_call (suc i) (false ∷ l) h = probes-remove_nth_call i l h

-- A half-open circuit has between one and the permitted number of probes in flight, each of them an
-- outstanding callback; a closed one has counted fewer failures than the threshold.
pub record Inv (b : CircuitBreaker) (l : List Bool) : Type 0 where
  pub threshold_pos : 0 < b.cfg.failure_threshold
  pub interval_pos : 0 < b.cfg.open_interval
  pub probes_pos : 0 < b.cfg.half_open_max_probes
  pub failures_below : b.consecutive_failed < b.cfg.failure_threshold
  pub in_flight_capped : b.half_open_in_flight ≤ b.cfg.half_open_max_probes
  pub in_flight_held : b.half_open_in_flight ≤ probes l
  pub half_open_busy : b.state ≡ circuit_half_open → 0 < b.half_open_in_flight
  pub idle_otherwise : b.state ≢ circuit_half_open → b.half_open_in_flight ≡ 0

new-Inv : (key : String) (cfg : CircuitBreakerConfig) → Inv (new_circuit_breaker key cfg) []
unfolding new_circuit_breaker
new-Inv key cfg = ground (arith, normalized-IsNormalized cfg)

pub acquire-Inv :
    (now : ℕ) (b : CircuitBreaker) (l : List Bool)
    → Inv b l
    → Inv (acquire now b).0 (hold (acquire now b).1 l)
unfolding acquire
acquire-Inv now b l v = ground arith

pub complete_probe-Inv :
    (now : ℕ) (success : Bool) (b : CircuitBreaker) (l l' : List Bool)
    → suc (probes l') ≡ probes l
    → Inv b l
    → Inv (complete now true success b) l'
unfolding complete
complete_probe-Inv now success b l l' e v = ground arith

pub complete_call-Inv :
    (now : ℕ) (success : Bool) (b : CircuitBreaker) (l l' : List Bool)
    → probes l' ≡ probes l
    → Inv b l
    → Inv (complete now false success b) l'
unfolding complete
complete_call-Inv now success b l l' e v = ground arith

ends-Inv :
    (b : CircuitBreaker) (l : List Bool) (i now : ℕ) (success probe : Bool)
    → nth i l ≡ some probe
    → Inv b l
    → Inv (complete now probe success b) (remove_nth i l)
ends-Inv b l i now success true e v =
    complete_probe-Inv now success b l (remove_nth i l) (probes-remove_nth i l e) v
ends-Inv b l i now success false e v =
    complete_call-Inv now success b l (remove_nth i l) (probes-remove_nth_call i l e) v

step-Inv :
    (s : Session) (e : Event)
    → Inv s.breaker s.callbacks
    → Inv (step s e).breaker (step s e).callbacks
unfolding step
step-Inv s (asks now) v = acquire-Inv now s.breaker s.callbacks v
step-Inv s (ends i now success) v = elim (Option-cases (nth i s.callbacks)) [
  | inl gone ↦ rw (gone, step) v
  | inr (probe, held) ↦ rw (held, step) (ends-Inv s.breaker s.callbacks i now success probe held v)
]

run-Inv :
    (s : Session) (es : List Event)
    → Inv s.breaker s.callbacks
    → Inv (run s es).breaker (run s es).callbacks
unfolding run
run-Inv s [] v = v
run-Inv s (e ∷ es) v = run-Inv (step s e) es (step-Inv s e v)

abbrev pub start : String → CircuitBreakerConfig → Session
start key cfg = record { breaker = new_circuit_breaker key cfg; callbacks = [] }

-- After any interleaving of calls on a new breaker, whatever its configuration: the probes in flight
-- never exceed the configured limit nor the outstanding probe callbacks, a half-open circuit has at
-- least one of them, any other has none, and the failures counted stay below the threshold.
pub run-start-Inv :
    (key : String) (cfg : CircuitBreakerConfig) (es : List Event)
    → let s = run (start key cfg) es in Inv s.breaker s.callbacks
run-start-Inv key cfg es = run-Inv (start key cfg) es (new-Inv key cfg)
