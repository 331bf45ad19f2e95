-- ===== src/Resilience/Retry/Policy.antt =====
-- `RetryPolicy`, `backoff` and `shouldRetry` of internal/platform/resiliencehttp/client.go.
use go_order_management_syst.Prelude.{
  ℕ, zero, suc, ◌-◌, ◌*◌, ◌/◌, ◌%◌, Bool, false, not, ◌||◌, ltb, leb, ◌==◌, if◌then◌else◌,
}
use go_order_management_syst.Prelude.Int64.{Int64, positive_or, signed_ltb}

pub record RetryPolicy : Type 0 where
  pub max_attempts : Int64
  pub base_backoff : Int64
  pub max_backoff : Int64
  pub minimum_attempt_gap : Int64

unfoldable pub normalized : RetryPolicy → RetryPolicy
normalized policy =
    let base = positive_or policy.base_backoff 50000000 in
    let top = positive_or policy.max_backoff 500000000 in
    record {
      max_attempts = positive_or policy.max_attempts 1;
      base_backoff = if signed_ltb top base then top else base;
      max_backoff = top;
      minimum_attempt_gap = positive_or policy.minimum_attempt_gap 100000000;
    }

-- The loop of `backoff`, with the rounds that are left. The delay is positive.
unfoldable pub backoff_loop : ℕ → ℕ → ℕ → ℕ
backoff_loop zero delay top = if ltb top delay then top else delay
backoff_loop (suc rounds) delay top =
    let rest = backoff_loop rounds (delay * 2 % 18446744073709551616) top in
    if leb (top / 2) delay then top else rest

unfoldable pub backoff : RetryPolicy → ℕ → Int64
unfolding backoff_loop
backoff policy attempt = backoff_loop (attempt - 1) policy.base_backoff policy.max_backoff

-- What the HTTP client returns: a response, an error that is a `net.Error`, or another error.
pub data Reply : Type 0 where
  response : ℕ → Reply
  net_error : Reply
  other_error : Reply
  no_response : Reply

unfoldable pub should_retry : Bool → Reply → Bool
should_retry ctx_done (response status) = status == 502 || status == 503 || status == 504
should_retry ctx_done net_error = not ctx_done
should_retry ctx_done other_error = false
should_retry ctx_done no_response = false
