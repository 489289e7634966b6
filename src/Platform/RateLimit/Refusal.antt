-- ===== src/Platform/RateLimit/Refusal.antt =====
-- src/platform/http/rate-limit.ts: what a refused caller is told.
use Prim.Native.Nat.{max}
use native.Mathlib.Nat.{
  lt-div-mul-add, div-mul-le_self, add-mul, one-mul, add-div_right, mul-div_cancel,
}
use wasla_core.Base.Int.{pos}
use wasla_core.Base.Values.{num}
use wasla_core.Base.{[], ◌∷◌, ap, ◌∙◌, ℕ, ◌+◌, ◌*◌, ◌/◌, ◌≤◌, some, true, ◌≡◌, refl, List, arith}
use wasla_core.Platform.Errors.{
  CoreError, ok, new_core_error, is_retryable, retryable_code, rate_limited_request,
}
use wasla_core.Platform.RateLimit.{
  RateLimitPolicy, RateLimitKey, refused, Counter, check, hit, window_start_of, retry_after_seconds,
  rate_limited,
}

pub record ToldToWait (limit retry_after_ms : ℕ) : Type 0 where
  pub error : CoreError
  pub built : rate_limited limit retry_after_ms ≡ ok error
  pub retryable : is_retryable error ≡ true
  pub stated : error.retry_after_seconds ≡ some (retry_after_seconds retry_after_ms)
  pub long_enough : retry_after_ms ≤ 1000 * retry_after_seconds retry_after_ms

-- The answer to a refusal can always be built, is retryable, and its header's time is not shorter than
-- the wait.
pub rate_limited-ToldToWait : (limit retry_after_ms : ℕ) → ToldToWait limit retry_after_ms
unfolding rate_limited new_core_error is_retryable retryable_code retry_after_seconds
rate_limited-ToldToWait limit retry_after_ms = record {
  error = record {
    code = rate_limited_request;
    message = "rate limit exceeded for this credential and route class";
    details = ("retry_after_ms", num (pos retry_after_ms)) ∷ ("limit", num (pos limit)) ∷ [];
    retry_after_seconds = some (max 1 ((retry_after_ms + 999) / 1000));
  };
  built = ground arith;
  retryable = refl;
  stated = refl;
  long_enough = omega arith;
}

-- A refused request that waits as long as it is told is counted in a later window.
pub refused_until_reset :
    (policy : RateLimitPolicy) (k : RateLimitKey) (now : ℕ) (windows : List Counter)
    (limit wait reset_at : ℕ)
    → 1 ≤ policy.window_ms
    → (check policy k now windows).0 ≡ refused limit wait reset_at
    → (1 ≤ wait)
      × (window_start_of policy (now + wait) ≡ window_start_of policy now + policy.window_ms)
unfolding check hit window_start_of
refused_until_reset policy k now windows limit wait reset_at positive h =
    let w = policy.window_ms in
    let begin = now / w * w in
    let inside = lt-div-mul-add {a = now} positive in
    let started = div-mul-le_self now w in
    let next : now + wait ≡ begin + w = ground (arith, inside, started) in
    (
      ground (arith, inside, started),
      ap (λ x. x / w * w) next
          ∙ ap (λ x. x * w)
              (add-div_right begin positive ∙ ap (λ x. x + 1) (mul-div_cancel (now / w) positive))
          ∙ add-mul (now / w) 1 w
          ∙ ap (λ x. begin + x) (one-mul w),
    )
