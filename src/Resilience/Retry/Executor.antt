-- ===== src/Resilience/Retry/Executor.antt =====
-- `Executor.Do` of internal/platform/resiliencehttp/client.go. The HTTP client, the request factory,
-- the context, the clock, the jitter and the sleep are not this code: `Attempt` holds what they
-- answer in one round of the loop, and the rounds' answers are a function of the attempt's number.
use Prim.Native.String.{String, ◌++◌}
use text.Mathlib.Text.{◌==◌ as str_eq}
use go_order_management_syst.Prelude.{
  ℕ, zero, suc, ◌+◌, Bool, true, false, not, ◌&&◌, List, [], ◌∷◌, Option, none, some, leb, ◌==◌,
  if◌then◌else◌,
}
use go_order_management_syst.Prelude.Int64.{Int64, is_positive, signed_leb, wrapping_add}
use go_order_management_syst.Resilience.Breaker.{
  CircuitBreaker, Acquired, admitted, rejected, new_circuit_breaker, acquire, complete,
}
use go_order_management_syst.Resilience.Breaker.Config.{CircuitBreakerConfig}
use go_order_management_syst.Resilience.Retry.Policy.{
  RetryPolicy, Reply, normalized, backoff, should_retry,
}

pub record Attempt : Type 0 where
  -- `ctx.Err() != nil` at the head of the loop, and when the reply is judged
  pub ctx_done : Bool
  pub ctx_done_after : Bool
  -- `Remaining(ctx)` before the call and after it
  pub remaining : Option Int64
  pub remaining_after : Option Int64
  -- the clock, when the breaker is asked and when the callback runs
  pub asked_at : ℕ
  pub ended_at : ℕ
  -- whether the factory returns a request, and the sleep ends by its timer
  pub factory_ok : Bool
  pub sleep_ok : Bool
  pub reply : Reply
  pub jitter : Int64 → Int64

pub data Outcome : Type 0 where
  replied : Reply → Outcome
  ctx_error factory_error sleep_error insufficient_budget : Outcome
  circuit_open_error : ℕ → Outcome
  -- the `return nil, lastErr` behind the loop
  exhausted : Outcome

-- The breaker, and the number of calls sent.
pub record Progress : Type 0 where
  pub breaker : CircuitBreaker
  pub calls : ℕ

-- How a round ends: with an outcome, or with another round.
pub data Verdict : Type 0 where
  stop : Outcome → Verdict
  again : Verdict

abbrev pub within : Option Int64 → Int64 → Bool
within none limit = false
within (some left) limit = signed_leb left limit

-- The round behind the call: the reply is returned, or the loop sleeps.
unfoldable pub after_call : RetryPolicy → ℕ → Attempt → Bool → Verdict
after_call policy attempt a last =
    let delay = a.jitter (backoff policy attempt) in
    if not (should_retry a.ctx_done_after a.reply)
    then stop (replied a.reply)
    else if last
    then stop (replied a.reply)
    else if within a.remaining_after (wrapping_add delay policy.minimum_attempt_gap)
    then stop (replied a.reply)
    else if a.sleep_ok
    then again
    else stop sleep_error

unfoldable pub after_acquire :
    RetryPolicy → ℕ → Attempt → Bool → Bool → Progress → Verdict × Progress
after_acquire policy attempt a last probe p =
    if a.factory_ok
    then (
      after_call policy attempt a last,
      record {
        breaker = complete a.ended_at probe (not (should_retry a.ctx_done_after a.reply)) p.breaker;
        calls = p.calls + 1;
      },
    )
    else (stop factory_error, record p { breaker = complete a.ended_at probe true p.breaker })

unfoldable pub on_acquired :
    RetryPolicy → ℕ → Attempt → Bool → ℕ → CircuitBreaker × Acquired → Verdict × Progress
on_acquired policy attempt a last calls (b, rejected retry_after) =
    (stop (circuit_open_error retry_after), record { breaker = b; calls = calls })
on_acquired policy attempt a last calls (b, admitted probe) =
    after_acquire policy attempt a last probe (record { breaker = b; calls = calls })

unfoldable pub round : RetryPolicy → ℕ → Attempt → Bool → Progress → Verdict × Progress
round policy attempt a last p =
    if a.ctx_done
    then (stop ctx_error, p)
    else if leb 2 attempt && within a.remaining policy.minimum_attempt_gap
    then (stop insufficient_budget, p)
    else on_acquired policy attempt a last p.calls (acquire a.asked_at p.breaker)

-- A round that does not stop is followed by the next one.
abbrev pub follow : Verdict × Progress → (Progress → Outcome × Progress) → Outcome × Progress
follow (stop outcome, q) next = (outcome, q)
follow (again, q) next = next q

-- The loop, on the attempts that are left.
unfoldable pub do_loop : RetryPolicy → (ℕ → Attempt) → ℕ → ℕ → Progress → Outcome × Progress
do_loop policy env zero attempt p = (exhausted, p)
do_loop policy env (suc left) attempt p =
    follow (round policy attempt (env attempt) (left == 0) p)
      λ q. do_loop policy env left (suc attempt) q

unfoldable pub do_request : RetryPolicy → (ℕ → Attempt) → CircuitBreaker → Outcome × Progress
do_request policy env breaker =
    let q = normalized policy in
    do_loop q env q.max_attempts 1 (record { breaker = breaker; calls = 0 })

pub record Executor : Type 0 where
  pub breaker_config : CircuitBreakerConfig
  pub breakers : List (String × CircuitBreaker)

abbrev pub find_breaker : String → List (String × CircuitBreaker) → Option CircuitBreaker
find_breaker key [] = none
find_breaker key ((k, b) ∷ rest) = if str_eq key k then some b else find_breaker key rest

abbrev pub set_breaker :
    String → CircuitBreaker → List (String × CircuitBreaker) → List (String × CircuitBreaker)
set_breaker key b [] = (key, b) ∷ []
set_breaker key b ((k, c) ∷ rest) =
    if str_eq key k then (k, b) ∷ rest else (k, c) ∷ set_breaker key b rest

-- `breakerFor`; the first argument is `CircuitBreakerConfigFromEnvironment()`.
unfoldable pub breaker_for :
    CircuitBreakerConfig → String → String → Executor → CircuitBreaker × Executor
breaker_for from_environment upstream operation ex =
    let key = upstream ++ "/" ++ operation in
    let cfg =
      if is_positive ex.breaker_config.failure_threshold
      then ex.breaker_config
      else from_environment in
    elim (find_breaker key ex.breakers) [
      | some b ↦ (b, record ex { breaker_config = cfg })
      | none ↦
          let b = new_circuit_breaker key cfg in
          (b, record { breaker_config = cfg; breakers = set_breaker key b ex.breakers })
    ]
