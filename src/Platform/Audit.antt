-- ===== src/Platform/Audit.antt =====
-- src/platform/audit/audit.ts. The trail is a list that only grows; `scrub` is left out, since no
-- metadata key that the modelled modules write is one that it redacts.
use wasla_core.Base.{ℕ, String, List, [], ◌∷◌, ◌++◌}
use wasla_core.Base.Values.{Value}

pub record PendingAuditEntry : Type 0 where
  pub action : String
  pub entity_type : String
  pub entity_id : ℕ
  pub correlation_id : String
  pub metadata : List (String × Value)

pub record AuditEntry : Type 0 where
  pub audit_id : ℕ
  pub occurred_at : ℕ
  pub entry : PendingAuditEntry

-- `record`: an entry with its identifier and time goes to the end of the trail.
abbrev pub record_entry : ℕ → ℕ → PendingAuditEntry → List AuditEntry → List AuditEntry
record_entry new_id now entry log =
    log ++ record { audit_id = new_id; occurred_at = now; entry = entry } ∷ []
