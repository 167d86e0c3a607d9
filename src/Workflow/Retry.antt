-- ===== src/Workflow/Retry.antt =====
-- `workflowRetryDelayMs` of packages/database/src/workflow.ts. Delays are milliseconds; a draw of
-- `random()` is a whole number of billionths, so that 0.999999999 is 999999999.
use page2web_mcp.Common.{
  ℕ, zero, suc, ◌-◌, ◌*◌, ◌/◌, ◌^◌, ◌≤◌, ◌<◌, min, max, Option, none, some, arith,
}

abbrev pub workflow_lease_ms : ℕ
workflow_lease_ms = 60000

abbrev pub workflow_max_attempts : ℕ
workflow_max_attempts = 3

abbrev pub workflow_max_retry_after_ms : ℕ
workflow_max_retry_after_ms = 5 * 60000

abbrev pub workflow_default_active_task_quota : ℕ
workflow_default_active_task_quota = 2

abbrev pub exponential_cap : ℕ → ℕ
exponential_cap attempt = min 60000 (1000 * 2 ^ (max 1 (min attempt workflow_max_attempts) - 1))

abbrev jitter : ℕ → ℕ → ℕ
jitter attempt draw = exponential_cap attempt * min draw 999999999 / 1000000000

-- `none` for a `retryAfterMs` that is undefined or not finite.
unfoldable pub retry_delay_ms : ℕ → Option ℕ → ℕ → ℕ
retry_delay_ms attempt none draw = jitter attempt draw
retry_delay_ms attempt (some ms) draw =
    min workflow_max_retry_after_ms (max (jitter attempt draw) ms)

doubled-le : (e : ℕ) → e ≤ 2 → (1000 ≤ min 60000 (1000 * 2 ^ e)) × (min 60000 (1000 * 2 ^ e) ≤ 4000)
doubled-le zero h = omega arith
doubled-le (suc zero) h = omega arith
doubled-le (suc (suc zero)) h = omega arith
doubled-le (suc (suc (suc e))) h = absurd (omega arith)

pub exponential_cap_bounds :
    (attempt : ℕ) → (1000 ≤ exponential_cap attempt) × (exponential_cap attempt ≤ 4000)
exponential_cap_bounds attempt =
    doubled-le (max 1 (min attempt workflow_max_attempts) - 1) (omega arith)

jitter-lt : (cap m : ℕ) → 1000 ≤ cap → m ≤ 999999999 → cap * m / 1000000000 < cap
jitter-lt cap m h k = let bound : cap * m ≤ cap * 999999999 = grind arith in omega arith

-- Without a wish of the server the delay is below the attempt's cap, which is 4 seconds at most;
-- with one it is at least the smaller of the wish and 5 minutes, and 5 minutes at most.
pub retry_delay_ms_bounds :
    (attempt draw ms : ℕ)
    → (retry_delay_ms attempt none draw < exponential_cap attempt)
      × (exponential_cap attempt ≤ 4000)
      × (retry_delay_ms attempt (some ms) draw ≤ workflow_max_retry_after_ms)
      × (min ms workflow_max_retry_after_ms ≤ retry_delay_ms attempt (some ms) draw)
unfolding retry_delay_ms
retry_delay_ms_bounds attempt draw ms =
    let cap = exponential_cap_bounds attempt in
    (
      jitter-lt (exponential_cap attempt) (min draw 999999999) cap.0 (omega arith),
      cap.1,
      omega arith,
      omega arith,
    )
