-- ===== src/Eventing/Fencing.antt =====
-- src/platform/eventing/fencing.ts. A claim token is a number; `none` is a row that nobody holds, and
-- for a caller it is `UNFENCED`.
use wasla_core.Base.{ℕ, Option, none, some, Bool, true, false, not, ◌==◌}

abbrev pub Fence : Type 0
Fence = Option ℕ

abbrev pub unfenced : Fence
unfenced = none

-- True when an acknowledgement must be refused.
abbrev pub is_fenced : Option ℕ → Fence → Bool
is_fenced row_token none = false
is_fenced none (some fence) = true
is_fenced (some token) (some fence) = not (token == fence)
