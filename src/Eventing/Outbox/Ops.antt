-- ===== src/Eventing/Outbox/Ops.antt =====
-- The calls of the outbox by writers, relays and operators, and schedules of them.
use wasla_core.Base.{ℕ, List, [], ◌∷◌}
use wasla_core.Eventing.Envelope.{EventEnvelope}
use wasla_core.Eventing.Fencing.{Fence}
use wasla_core.Eventing.Reclaim.{LastError}
use wasla_core.Eventing.Outbox.{
  Rows, append, claim_due, reclaim_expired, mark_published, mark_failed, mark_dead, revive,
}

-- A call of the store by a writer, a worker or an operator.
pub data Op : Type 0 where
  append_op : EventEnvelope → ℕ → Op
  claim_op : ℕ → ℕ → ℕ → ℕ → Op
  reclaim_op : ℕ → ℕ → ℕ → Op
  published_op : ℕ → Fence → Op
  failed_op : ℕ → Fence → LastError → ℕ → Op
  dead_op : ℕ → Fence → LastError → Op
  revive_op : ℕ → ℕ → Op

unfoldable pub apply : Op → Rows → Rows
unfolding mark_published mark_failed mark_dead
apply (append_op event now) rows = append event now rows
apply (claim_op now limit lease_ms token) rows = (claim_due now limit lease_ms token rows).rows
apply (reclaim_op now max_reclaims limit) rows = (reclaim_expired now max_reclaims limit rows).rows
apply (published_op event_id fence) rows = (mark_published event_id fence rows).1
apply (failed_op event_id fence error at) rows = (mark_failed event_id fence error at rows).1
apply (dead_op event_id fence error) rows = (mark_dead event_id fence error rows).1
apply (revive_op event_id now) rows = (revive event_id now rows).1

unfoldable pub run : List Op → Rows → Rows
run [] rows = rows
run (op ∷ ops) rows = run ops (apply op rows)
