-- ===== src/Resilience/Retry/Attempts.antt =====
-- The executor's loop: how many calls it sends, when it stops, and that every admitted call is
-- completed.
use go_order_management_syst.Prelude.{
  ℕ, zero, suc, ◌+◌, ◌≤◌, ◌<◌, ◌-◌, ap, subst, sym, ◌≡◌, ◌≢◌, refl, Bool, true, false, not, [], ◌∷◌,
  arith, ◌==◌,
}
use go_order_management_syst.Resilience.Breaker.{
  acquire, Acquired, CircuitBreaker, admitted, rejected,
}
use go_order_management_syst.Resilience.Breaker.Session.{hold, run}
use go_order_management_syst.Resilience.Breaker.Invariant.{
  Inv, acquire-Inv, complete_probe-Inv, complete_call-Inv,
}
use go_order_management_syst.Resilience.Retry.Policy.{RetryPolicy, normalized, should_retry}
use go_order_management_syst.Resilience.Retry.Heard.{history, quiet, do_loop-Heard}
use go_order_management_syst.Resilience.Retry.Executor.{
  Attempt, Outcome, exhausted, Progress, Verdict, again, stop, follow, do_request, after_call,
  after_acquire, round, on_acquired, do_loop,
}

normalized_attempts : (p : RetryPolicy) → 0 < (normalized p).max_attempts
unfolding normalized
normalized_attempts p = ground arith

-- One round sends at most one call, and goes on only after a retryable reply that was not the last.
round_calls :
    (policy : RetryPolicy) (attempt : ℕ) (a : Attempt) (last : Bool) (p : Progress)
    → ((round policy attempt a last p).1.calls ≤ p.calls + 1)
      × (p.calls ≤ (round policy attempt a last p).1.calls)
unfolding round on_acquired after_acquire
round_calls policy attempt a last p = ground arith

round-again :
    (policy : RetryPolicy) (attempt : ℕ) (a : Attempt) (last : Bool) (p : Progress)
    → (round policy attempt a last p).0 ≡ again
    → (last ≡ false)
      × (should_retry a.ctx_done_after a.reply ≡ true)
      × ((round policy attempt a last p).1.calls ≡ p.calls + 1)
unfolding round on_acquired after_acquire after_call
round-again policy attempt a last p h = ground arith

on_acquired-Inv :
    (policy : RetryPolicy) (attempt : ℕ) (a : Attempt) (last : Bool) (calls : ℕ)
    (b : CircuitBreaker) (r : Acquired)
    → Inv b (hold r [])
    → Inv (on_acquired policy attempt a last calls (b, r)).1.breaker []
unfolding on_acquired after_acquire
on_acquired-Inv policy attempt a last calls b (rejected retry_after) v = v
on_acquired-Inv policy attempt a last calls b (admitted true) v = ground (
  arith,
  complete_probe-Inv a.ended_at true b (true ∷ []) [] refl v,
  complete_probe-Inv a.ended_at (not (should_retry a.ctx_done_after a.reply)) b (true ∷ []) [] refl
      v,
)
on_acquired-Inv policy attempt a last calls b (admitted false) v = ground (
  arith,
  complete_call-Inv a.ended_at true b (false ∷ []) [] refl v,
  complete_call-Inv a.ended_at (not (should_retry a.ctx_done_after a.reply)) b (false ∷ []) [] refl
      v,
)

round-Inv :
    (policy : RetryPolicy) (attempt : ℕ) (a : Attempt) (last : Bool) (p : Progress)
    → Inv p.breaker []
    → Inv (round policy attempt a last p).1.breaker []
unfolding round
round-Inv policy attempt a last p v = ground (
  arith,
  on_acquired-Inv policy attempt a last p.calls (acquire a.asked_at p.breaker).0
      (acquire a.asked_at p.breaker).1 (acquire-Inv a.asked_at p.breaker [] v),
)

-- What holds of a finished request: how many calls it sent, and its breaker.
pub record Ends (left : ℕ) (p : Progress) (r : Outcome × Progress) : Type 0 where
  pub calls_capped : r.1.calls ≤ p.calls + left
  pub calls_grow : p.calls ≤ r.1.calls
  pub breaker_kept : Inv r.1.breaker []

follow-Ends :
    (left : ℕ) (p : Progress) (r : Verdict × Progress) (next : Progress → Outcome × Progress)
    → Inv r.1.breaker []
    → p.calls ≤ r.1.calls
    → r.1.calls ≤ p.calls + 1
    → Ends left r.1 (next r.1)
    → Ends (suc left) p (follow r next)
follow-Ends left p (stop o, q) next v g c e = record {
  calls_capped = omega arith;
  calls_grow = g;
  breaker_kept = v;
}
follow-Ends left p (again, q) next v g c e = record {
  calls_capped = omega arith;
  calls_grow = omega arith;
  breaker_kept = e.breaker_kept;
}

do_loop-Ends :
    (policy : RetryPolicy) (env : ℕ → Attempt) (left attempt : ℕ) (p : Progress)
    → Inv p.breaker []
    → Ends left p (do_loop policy env left attempt p)
unfolding do_loop
do_loop-Ends policy env zero attempt p v = record {
  calls_capped = omega arith;
  calls_grow = omega arith;
  breaker_kept = v;
}
do_loop-Ends policy env (suc left) attempt p v =
    let last = left == 0 in
    let c = round_calls policy attempt (env attempt) last p in
    let w = round-Inv policy attempt (env attempt) last p v in
    follow-Ends left p (round policy attempt (env attempt) last p)
      (λ q. do_loop policy env left (suc attempt) q) w c.1 c.0
      (do_loop-Ends policy env left (suc attempt) (round policy attempt (env attempt) last p).1 w)

follow-ne-exhausted :
    (r : Verdict × Progress) (next : Progress → Outcome × Progress)
    → r.0 ≢ stop exhausted
    → (r.0 ≡ again → (next r.1).0 ≢ exhausted)
    → (follow r next).0 ≢ exhausted
follow-ne-exhausted (stop o, q) next h k = λ e. h (ap stop e)
follow-ne-exhausted (again, q) next h k = k refl

round-ne-exhausted :
    (policy : RetryPolicy) (attempt : ℕ) (a : Attempt) (last : Bool) (p : Progress)
    → (round policy attempt a last p).0 ≢ stop exhausted
unfolding round on_acquired after_acquire after_call
round-ne-exhausted policy attempt a last p h = ground arith

do_loop-ne-exhausted :
    (policy : RetryPolicy) (env : ℕ → Attempt) (left attempt : ℕ) (p : Progress)
    → (do_loop policy env (suc left) attempt p).0 ≢ exhausted
unfolding do_loop
do_loop-ne-exhausted policy env zero attempt p =
    follow-ne-exhausted (round policy attempt (env attempt) true p)
      (λ q. do_loop policy env zero (suc attempt) q)
      (round-ne-exhausted policy attempt (env attempt) true p)
      (λ e. cc ((round-again policy attempt (env attempt) true p e).0))
do_loop-ne-exhausted policy env (suc left) attempt p =
    follow-ne-exhausted (round policy attempt (env attempt) (suc left == 0) p)
      (λ q. do_loop policy env (suc left) (suc attempt) q)
      (round-ne-exhausted policy attempt (env attempt) (suc left == 0) p)
      (λ e.
        do_loop-ne-exhausted policy env left (suc attempt)
          (round policy attempt (env attempt) (suc left == 0) p).1)

-- A request to a breaker with no call outstanding sends at most the policy's number of calls
-- whatever happens in between, and ends with a reply or a definite error before the attempts run out.
-- What the breaker hears of it are the first attempts, one after the other, at least as many as calls
-- were sent and at most one more: each asks, and its callback, if it was admitted, is run once before
-- the next one asks, with a success unless its reply is to be retried, or if it had no request. After
-- that no callback is outstanding, and the breaker satisfies its invariant.
pub do_request-Ends :
    (policy : RetryPolicy) (env : ℕ → Attempt) (b : CircuitBreaker)
    → Inv b []
    → let (outcome, p) = do_request policy env b in
      (p.calls ≤ (normalized policy).max_attempts)
      × (outcome ≢ exhausted)
      × Inv p.breaker []
      × (k : ℕ) × (p.calls ≤ k)
      × (k ≤ p.calls + 1)
      × (run (quiet b) (history env 1 k) ≡ quiet p.breaker)
unfolding do_request
do_request-Ends policy env b v =
    let q = normalized policy in
    let start : Progress = record { breaker = b; calls = 0 } in
    let e = do_loop-Ends q env q.max_attempts 1 start v in
    let some_left : q.max_attempts ≡ suc (q.max_attempts - 1) =
      omega (arith, normalized_attempts policy) in
    let (k, bound, upper, lower, heard) = do_loop-Heard q env q.max_attempts 1 start in
    (
      omega (arith, e.calls_capped),
      subst (λ (k : ℕ). (do_loop q env k 1 start).0 ≢ exhausted) (sym some_left)
          (do_loop-ne-exhausted q env (q.max_attempts - 1) 1 start),
      e.breaker_kept,
      k,
      omega (arith, upper),
      omega (arith, lower),
      heard,
    )
