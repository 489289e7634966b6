-- ===== src/Platform/RateLimit.antt =====
-- src/platform/http/rate-limit.ts: the fixed-window limiter over its in-memory windows. A subject's hash
-- is taken as it comes, and an instant is a number of milliseconds since the epoch.
pub mod Budget
pub mod Refusal
use package.text.Mathlib.Text.{◌==◌ as str_eq}
use Prim.Native.Nat.{max}
use wasla_core.Base.{
  ℕ, zero, suc, ◌+◌, ◌-◌, ◌*◌, ◌/◌, String, Option, none, some, Bool, true, false, not, ◌&&◌, List,
  [], ◌∷◌, ltb, leb, ◌==◌, if◌then◌else◌,
}
use wasla_core.Base.Int.{pos}
use wasla_core.Base.Values.{num}
use wasla_core.Platform.Errors.{rate_limited_request, CoreError, Result, new_core_error}

pub data RateClass : Type 0 where
  ingress_events write_class read_class unmatched : RateClass

pub data SubjectKind : Type 0 where
  credential network : SubjectKind

pub record RateLimitKey : Type 0 where
  pub subject_kind : SubjectKind
  pub subject_hash : String
  pub rate_class : RateClass

pub record RateLimitPolicy : Type 0 where
  pub window_ms : ℕ
  pub limits : RateClass → ℕ

default_rate_limit_policy : RateLimitPolicy
default_rate_limit_policy = record {
  window_ms = 60000;
  limits =
      λ c. elim c [ ingress_events ↦ 600 | write_class ↦ 120 | read_class ↦ 300 | unmatched ↦ 60 ];
}

abbrev is_unlimited : String → Bool
is_unlimited route =
    if str_eq route "/health"
    then true
    else if str_eq route "/ready"
    then true
    else str_eq route "/metrics"

-- `rateClassFor`
rate_class_for : String → Option String → Option RateClass
rate_class_for method none = some unmatched
rate_class_for method (some template) =
    if is_unlimited template
    then none
    else if str_eq template "/v1/events" && str_eq method "POST"
    then some ingress_events
    else if str_eq method "GET"
    then some read_class
    else some write_class

-- A row of `rate_limit_counter`.
pub record Counter : Type 0 where
  pub key : RateLimitKey
  pub window_start : ℕ
  pub hits : ℕ
  pub updated_at : ℕ

abbrev pub same_kind : SubjectKind → SubjectKind → Bool
same_kind credential credential = true
same_kind network network = true
same_kind _ _ = false

abbrev pub same_class : RateClass → RateClass → Bool
same_class ingress_events ingress_events = true
same_class write_class write_class = true
same_class read_class read_class = true
same_class unmatched unmatched = true
same_class _ _ = false

-- Whether two rows have the same text as their key.
unfoldable pub same_window : RateLimitKey → ℕ → RateLimitKey → ℕ → Bool
same_window k start k' start' =
    same_kind k.subject_kind k'.subject_kind
    && str_eq k.subject_hash k'.subject_hash
    && same_class k.rate_class k'.rate_class
    && start == start'

unfoldable pub hits_of : RateLimitKey → ℕ → List Counter → ℕ
unfolding same_window
hits_of k start [] = 0
hits_of k start (c ∷ cs) =
    if same_window c.key c.window_start k start then c.hits else hits_of k start cs

unfoldable pub set_hits : RateLimitKey → ℕ → ℕ → ℕ → List Counter → List Counter
unfolding same_window
set_hits k start hits now [] =
    record { key = k; window_start = start; hits = hits; updated_at = now } ∷ []
set_hits k start hits now (c ∷ cs) =
    if same_window c.key c.window_start k start
    then record { key = k; window_start = start; hits = hits; updated_at = now } ∷ cs
    else c ∷ set_hits k start hits now cs

-- `hit`: the count after this request, and the windows that record it.
unfoldable pub hit : RateLimitKey → ℕ → ℕ → List Counter → ℕ × List Counter
unfolding hits_of set_hits
hit k start now windows =
    let hits = hits_of k start windows + 1 in (hits, set_hits k start hits now windows)

-- `prune`: how many windows began before the instant, and those that did not.
unfoldable pub prune : ℕ → List Counter → ℕ × List Counter
prune before [] = (0, [])
prune before (c ∷ cs) =
    let (removed, kept) = prune before cs in
    if ltb c.window_start before then (removed + 1, kept) else (removed, c ∷ kept)

pub data RateLimitDecision : Type 0 where
  -- The limit, what remains and when the window ends.
  allowed : ℕ → ℕ → ℕ → RateLimitDecision
  -- The limit, the wait in milliseconds and when the window ends.
  refused : ℕ → ℕ → ℕ → RateLimitDecision

unfoldable pub window_start_of : RateLimitPolicy → ℕ → ℕ
window_start_of policy now = now / policy.window_ms * policy.window_ms

-- `check`
unfoldable pub check :
    RateLimitPolicy → RateLimitKey → ℕ → List Counter → RateLimitDecision × List Counter
unfolding window_start_of hit
check policy k now windows =
    let limit = policy.limits k.rate_class in
    let start = window_start_of policy now in
    let reset_at = start + policy.window_ms in
    let (count, windows') = hit k start now windows in
    (
      if ltb limit count
          then refused limit (reset_at - now) reset_at
          else allowed limit (limit - count) reset_at,
      windows',
    )

-- `retryAfterSeconds`
unfoldable pub retry_after_seconds : ℕ → ℕ
retry_after_seconds ms = max 1 ((ms + 999) / 1000)

-- `rateLimited`, of a refusal's limit and wait.
unfoldable pub rate_limited : ℕ → ℕ → Result CoreError
unfolding retry_after_seconds new_core_error
rate_limited limit retry_after_ms =
    new_core_error rate_limited_request "rate limit exceeded for this credential and route class"
      (("retry_after_ms", num (pos retry_after_ms)) ∷ ("limit", num (pos limit)) ∷ [])
      (some (retry_after_seconds retry_after_ms))

abbrev pub is_allowed : RateLimitDecision → Bool
is_allowed (allowed limit remaining reset_at) = true
is_allowed (refused limit retry_after_ms reset_at) = false
