-- ===== src/Resilience/Retry/Heard.antt =====
-- What the circuit breaker hears of a request of internal/platform/resiliencehttp/client.go: its calls
-- one after the other, each with its end.
use go_order_management_syst.Prelude.{
  ℕ, zero, suc, ◌+◌, ◌≤◌, ◌≡◌, ◌≢◌, refl, ap, sym, ◌∙◌, ◌⊎◌, inl, inr, Bool, Bool-cases, true,
  false, not, List, [], ◌∷◌, arith, ◌==◌, if◌then◌else◌, ◌&&◌, leb,
}
use go_order_management_syst.Resilience.Breaker.{
  acquire, Acquired, CircuitBreaker, admitted, rejected,
}
use go_order_management_syst.Resilience.Breaker.Session.{
  Session, Event, asks, ends, hold, step, run,
}
use go_order_management_syst.Resilience.Retry.Policy.{RetryPolicy, should_retry}
use go_order_management_syst.Resilience.Retry.Executor.{
  Attempt, within, Outcome, ctx_error, insufficient_budget, Progress, Verdict, again, stop, follow,
  after_acquire, round, on_acquired, do_loop,
}

-- A call ended well unless its reply is to be retried; one without a request says nothing against
-- the upstream.
abbrev pub ended_well : Attempt → Bool
ended_well a = if a.factory_ok then not (should_retry a.ctx_done_after a.reply) else true

-- The first attempts, from this number on: each asks, and ends before the next one asks.
abbrev pub history : (ℕ → Attempt) → ℕ → ℕ → List Event
history env attempt zero = []
history env attempt (suc k) =
    asks (env attempt).asked_at
    ∷ ends 0 (env attempt).ended_at (ended_well (env attempt))
    ∷ history env (suc attempt) k

-- A breaker whose callbacks have all run.
abbrev pub quiet : CircuitBreaker → Session
quiet b = record { breaker = b; callbacks = [] }

on_acquired_heard :
    (policy : RetryPolicy) (attempt : ℕ) (a : Attempt) (last : Bool) (calls : ℕ)
    (b : CircuitBreaker) (r : Acquired)
    → step (record { breaker = b; callbacks = hold r [] }) (ends 0 a.ended_at (ended_well a))
      ≡ quiet (on_acquired policy attempt a last calls (b, r)).1.breaker
unfolding step on_acquired after_acquire
on_acquired_heard policy attempt a last calls b (rejected retry_after) = refl
on_acquired_heard policy attempt a last calls b (admitted probe) = elim (Bool-cases a.factory_ok) [
  | inl made ↦ rw made refl
  | inr failed ↦ rw failed refl
]

-- What a loop lets the breaker hear.
abbrev pub Heard : (ℕ → Attempt) → ℕ → ℕ → Progress → Outcome × Progress → Type 0
Heard env left attempt p r =
    (k : ℕ) × (k ≤ left)
    × (r.1.calls ≤ p.calls + k)
    × (p.calls + k ≤ r.1.calls + 1)
    × (run (quiet p.breaker) (history env attempt k) ≡ quiet r.1.breaker)

-- A round stops as it started, or the breaker has heard its call.
abbrev Rings : Attempt → Progress → Verdict × Progress → Type 0
Rings a p r =
    ((r.1 ≡ p) × (r.0 ≢ again))
    ⊎ ((step (step (quiet p.breaker) (asks a.asked_at)) (ends 0 a.ended_at (ended_well a))
          ≡ quiet r.1.breaker)
        × (r.1.calls ≤ p.calls + 1)
        × (p.calls ≤ r.1.calls)
        × (r.0 ≡ again → r.1.calls ≡ p.calls + 1))

on_acquired_calls :
    (policy : RetryPolicy) (attempt : ℕ) (a : Attempt) (last : Bool) (calls : ℕ)
    (x : CircuitBreaker × Acquired)
    → let r = on_acquired policy attempt a last calls x in
      (r.1.calls ≤ calls + 1) × (calls ≤ r.1.calls) × (r.0 ≡ again → r.1.calls ≡ calls + 1)
unfolding on_acquired after_acquire
on_acquired_calls policy attempt a last calls x = (ground arith, ground arith, λ e. ground arith)

acquired-Rings :
    (policy : RetryPolicy) (attempt : ℕ) (a : Attempt) (last : Bool) (p : Progress)
    → Rings a p (on_acquired policy attempt a last p.calls (acquire a.asked_at p.breaker))
unfolding step
acquired-Rings policy attempt a last p =
    let (most, least, counts) =
      on_acquired_calls policy attempt a last p.calls (acquire a.asked_at p.breaker) in
    inr (
      on_acquired_heard policy attempt a last p.calls (acquire a.asked_at p.breaker).0
          (acquire a.asked_at p.breaker).1,
      most,
      least,
      counts,
    )

tested-Rings :
    (a : Attempt) (p : Progress) (done short : Bool) (r : Verdict × Progress)
    → Rings a p r
    → Rings a p
        (if done then (stop ctx_error, p) else if short then (stop insufficient_budget, p) else r)
tested-Rings a p true short r h = inl (refl, λ e. ground arith)
tested-Rings a p false true r h = inl (refl, λ e. ground arith)
tested-Rings a p false false r h = h

round-Rings :
    (policy : RetryPolicy) (attempt : ℕ) (a : Attempt) (last : Bool) (p : Progress)
    → Rings a p (round policy attempt a last p)
unfolding round
round-Rings policy attempt a last p =
    tested-Rings a p a.ctx_done (leb 2 attempt && within a.remaining policy.minimum_attempt_gap) _
      (acquired-Rings policy attempt a last p)

follow-Heard :
    (env : ℕ → Attempt) (left attempt : ℕ) (p : Progress) (r : Verdict × Progress)
    (next : Progress → Outcome × Progress)
    → Rings (env attempt) p r
    → Heard env left (suc attempt) r.1 (next r.1)
    → Heard env (suc left) attempt p (follow r next)
unfolding run
follow-Heard env left attempt p (stop o, q) next (inl (same, stops)) later = (
  0,
  omega arith,
  ground (arith, same),
  ground (arith, same),
  ap (λ x. quiet x.breaker) (sym same),
)
follow-Heard env left attempt p (again, q) next (inl (same, stops)) later = absurd (stops refl)
follow-Heard env left attempt p (stop o, q) next (inr (rings, most, least, counts)) later =
    (1, omega arith, most, omega arith, rings)
follow-Heard env left attempt p (again, q) next (inr (rings, most, least, counts)) later =
    let (k, bound, upper, lower, heard) = later in
    let one : q.calls ≡ p.calls + 1 = counts refl in
    (
      suc k,
      omega arith,
      omega arith,
      omega arith,
      ap (λ s. run s (history env (suc attempt) k)) rings ∙ heard,
    )

pub do_loop-Heard :
    (policy : RetryPolicy) (env : ℕ → Attempt) (left attempt : ℕ) (p : Progress)
    → Heard env left attempt p (do_loop policy env left attempt p)
unfolding do_loop run
do_loop-Heard policy env zero attempt p = (0, omega arith, omega arith, omega arith, refl)
do_loop-Heard policy env (suc left) attempt p =
    let r = round policy attempt (env attempt) (left == 0) p in
    follow-Heard env left attempt p r (λ q. do_loop policy env left (suc attempt) q)
      (round-Rings policy attempt (env attempt) (left == 0) p)
      (do_loop-Heard policy env left (suc attempt) r.1)
