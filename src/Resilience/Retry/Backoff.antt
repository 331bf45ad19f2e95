-- ===== src/Resilience/Retry/Backoff.antt =====
-- The backoff doubles up to its cap, and never wraps around.
use native.Mathlib.Nat.{pow-suc}
use go_order_management_syst.Prelude.{ℕ, zero, suc, ◌+◌, ◌*◌, ◌-◌, ◌^◌, ◌≤◌, ◌<◌, ◌≡◌, min, arith}
use go_order_management_syst.Resilience.Retry.Policy.{
  RetryPolicy, normalized, backoff, backoff_loop,
}

-- What the loop should compute.
abbrev pub capped_double : ℕ → ℕ → ℕ → ℕ
capped_double rounds delay top = min (delay * 2 ^ rounds) top

double_pow : (delay rounds : ℕ) → delay * 2 ^ suc rounds ≡ delay * 2 * 2 ^ rounds
double_pow delay rounds = rw pow-suc (grind arith)

grows : (delay rounds : ℕ) → delay ≤ delay * 2 ^ rounds
grows delay zero = grind arith
grows delay (suc rounds) = omega (arith, double_pow delay rounds, grows (delay * 2) rounds)

backoff_loop_bounds :
    (rounds delay top : ℕ)
    → delay ≤ top
    → top < 9223372036854775808
    → (capped_double rounds delay top ≤ backoff_loop rounds delay top)
      × (backoff_loop rounds delay top ≤ capped_double rounds delay top + 1)
      × (backoff_loop rounds delay top ≤ top)
      × (delay ≤ backoff_loop rounds delay top)
unfolding backoff_loop
backoff_loop_bounds zero delay top h t = ground arith
backoff_loop_bounds (suc rounds) delay top h t = ground (
  arith,
  double_pow delay rounds,
  grows (delay * 2) rounds,
  backoff_loop_bounds rounds (delay * 2) top,
)

normalized_range :
    (p : RetryPolicy)
    → let q = normalized p in
      (0 < q.base_backoff)
      × (q.base_backoff ≤ q.max_backoff)
      × (q.max_backoff < 9223372036854775808)
      × (0 < q.max_attempts)
      × (q.max_attempts < 9223372036854775808)
unfolding normalized
normalized_range p = ground arith

-- Whatever the policy, the delay before the retry that follows attempt `n + 1` lies between the base
-- and the maximal backoff, and is the base doubled `n` times and cut at the maximum, or one
-- nanosecond more; so no doubling wraps around.
pub backoff_doubles :
    (p : RetryPolicy) (n : ℕ)
    → let q = normalized p in
      (q.base_backoff ≤ backoff q (suc n))
      × (backoff q (suc n) ≤ q.max_backoff)
      × (capped_double n q.base_backoff q.max_backoff ≤ backoff q (suc n))
      × (backoff q (suc n) ≤ capped_double n q.base_backoff q.max_backoff + 1)
unfolding backoff
backoff_doubles p n =
    let q = normalized p in
    let r = normalized_range p in
    let b = backoff_loop_bounds n q.base_backoff q.max_backoff r.1 r.2 in
    let e : suc n - 1 ≡ n = omega arith in rw e (b.3, b.2, b.0, b.1)
