-- ===== src/Base/Values.antt =====
-- The values that event payloads, audit metadata and error details hold.
use wasla_core.Base.{ℕ, String, Bool}
use wasla_core.Base.Int.{ℤ}

pub data Value : Type 0 where
  num : ℤ → Value
  text : String → Value
  id : ℕ → Value
  -- A timestamp, and what JSON writes for an absent value.
  instant : ℕ → Value
  flag : Bool → Value
  null : Value
