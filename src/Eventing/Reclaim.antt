-- ===== src/Eventing/Reclaim.antt =====
-- src/platform/eventing/reclaim.ts.
use wasla_core.Base.{ℕ, ◌+◌, Bool, String, ltb}

pub record ReclaimOutcome : Type 0 where
  pub reclaimed : ℕ
  pub dead : ℕ

abbrev pub default_max_reclaims : ℕ
default_max_reclaims = 3

-- Whether this abandonment exceeds the budget, given the count before it.
abbrev pub reclaim_exhausted : ℕ → ℕ → Bool
reclaim_exhausted reclaims_before max_reclaims = ltb max_reclaims (reclaims_before + 1)

-- The texts of `last_error`: a message that a failing publish gave, and the two that a reclaim pass
-- writes, with the numbers that their templates hold.
pub data LastError : Type 0 where
  message : String → LastError
  reclaimed_error : ℕ → ℕ → LastError
  reclaim_exhausted_error : ℕ → ℕ → LastError
