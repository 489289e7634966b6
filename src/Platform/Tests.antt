-- ===== src/Platform/Tests.antt =====
-- Runs of the models of src/platform at concrete inputs.
use wasla_core.Base.{ℕ, ◌+◌, ◌-◌, ◌≤◌, ◌≡◌, refl, List, [], ◌∷◌, arith}
use wasla_core.Platform.Journal.{Journal, restore, write_all, rollback, rollback-write_all}
use wasla_core.Platform.RateLimit.{
  RateLimitPolicy, RateLimitKey, credential, network, read_class, write_class, Counter, hits_of,
  check, refused, window_start_of,
}
use wasla_core.Platform.RateLimit.Budget.{Request, allowed_in, allowed_in_le}
use wasla_core.Platform.RateLimit.Refusal.{ToldToWait, rate_limited-ToldToWait, refused_until_reset}

abbrev some_writes : Journal ℕ
some_writes = record { undo = restore 1 10 ∷ []; map = (1, 11) ∷ (2, 20) ∷ [] }

rollback-write_all_example :
    rollback (write_all some_writes ((3, 30) ∷ (1, 12) ∷ (3, 31) ∷ [])) ≡ rollback some_writes
rollback-write_all_example = rollback-write_all some_writes ((3, 30) ∷ (1, 12) ∷ (3, 31) ∷ [])

abbrev two_reads : RateLimitPolicy
two_reads = record { window_ms = 100; limits = λ c. elim c [ read_class ↦ 2 | _ ↦ 1 ] }

abbrev reader : RateLimitKey
reader = record { subject_kind = credential; subject_hash = "ab"; rate_class = read_class }

abbrev stranger : RateLimitKey
stranger = record { subject_kind = network; subject_hash = "cd"; rate_class = write_class }

abbrev counted_once : List Counter
counted_once = record { key = reader; window_start = 300; hits = 1; updated_at = 310 } ∷ []

abbrev counted_twice : List Counter
counted_twice = record { key = reader; window_start = 300; hits = 2; updated_at = 320 } ∷ []

abbrev request : RateLimitKey → ℕ → Request
request key now = record { key = key; now = now }

allowed_in_le_example :
    allowed_in two_reads reader 300
      (request reader 320 ∷ request stranger 330 ∷ request reader 340 ∷ request reader 410 ∷ [])
      counted_once
    ≤ 2 - hits_of reader 300 counted_once
allowed_in_le_example =
    allowed_in_le two_reads reader 300
      (request reader 320 ∷ request stranger 330 ∷ request reader 340 ∷ request reader 410 ∷ [])
      counted_once

third_refused : (check two_reads reader 330 counted_twice).0 ≡ refused 2 70 400
unfolding check
third_refused = refl

refused_until_reset_example :
    (1 ≤ 70) × (window_start_of two_reads (330 + 70) ≡ window_start_of two_reads 330 + 100)
refused_until_reset_example =
    refused_until_reset two_reads reader 330 counted_twice 2 70 400 (omega arith) third_refused

rate_limited-ToldToWait_example : ToldToWait 2 1500
rate_limited-ToldToWait_example = rate_limited-ToldToWait 2 1500
