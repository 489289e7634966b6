-- ===== src/Fulfillment/History.antt =====
-- src/modules/fulfillment/service.ts among other work: histories of commands, each of which reads a state that
-- the system has had and commits on the present one.
use wasla_core.Base.{ℕ, ◌≤◌, Option, Bool, ◌≡◌, List, [], ◌∷◌}
use wasla_core.Base.Table.{values}
use wasla_core.Eventing.Envelope.{EventEnvelope}
use wasla_core.Fulfillment.Moves.{rows}
use wasla_core.Fulfillment.Payments.{Coordination, FulfillmentPaymentPort}
use wasla_core.Fulfillment.Service.Intake.{MarketOrderCreatedPayload, consume_market_order}
use wasla_core.Fulfillment.Service.Jobs.{
  Answer, MoveJobAcceptedPayload, MoveJobRejectedPayload, MoveJobCompletedPayload, CancelInput,
  consume_job_accepted, consume_job_rejected, consume_move_completion, cancel,
}
use wasla_core.Fulfillment.Turn.{closures}
use wasla_core.Fulfillment.Turn.Counts.{Sent}
pub mod Closures
pub mod Reconciled

-- The commands of `FulfillmentService`.
pub data Command : Type 0 where
  order_created : EventEnvelope → MarketOrderCreatedPayload → Command
  job_accepted : EventEnvelope → MoveJobAcceptedPayload → Command
  job_rejected : EventEnvelope → MoveJobRejectedPayload → Command
  job_reported : EventEnvelope → MoveJobCompletedPayload → Command
  cancels : CancelInput → Command

-- The answer of a command that read `seen`, and the state that it leaves of the present one.
unfoldable pub perform :
    Option FulfillmentPaymentPort → Command → Coordination → Coordination → Answer
unfolding consume_market_order consume_job_accepted consume_job_rejected consume_move_completion
    cancel
perform payments (order_created event payload) seen sys =
    consume_market_order payments event payload seen sys
perform payments (job_accepted event payload) seen sys = consume_job_accepted event payload seen sys
perform payments (job_rejected event payload) seen sys =
    consume_job_rejected payments event payload seen sys
perform payments (job_reported event payload) seen sys =
    consume_move_completion payments event payload seen sys
perform payments (cancels input) seen sys = cancel payments input seen sys

-- What the other modules do between two commands, the relay and the clock among them: no fulfillment
-- changes, and no closure of one is appended to the outbox or lost from it.
pub record Elsewhere (sys sys' : Coordination) : Type 0 where
  pub rows : rows sys' ≡ rows sys
  pub later : sys.next_id ≤ sys'.next_id
  pub sent : Sent sys.next_id sys.outbox → Sent sys'.next_id sys'.outbox
  pub closures : (k : ℕ) → closures k (values sys'.outbox) ≡ closures k (values sys.outbox)

-- One of the states of a run, the present one included.
pub data Past (seen : Coordination) : List Coordination → Type 0 where
  now : (past : List Coordination) → Past seen (seen ∷ past)
  before : (sys : Coordination) (past : List Coordination) → Past seen past → Past seen (sys ∷ past)

-- The states of a run, the present one first.
pub data History (payments : Option FulfillmentPaymentPort) : List Coordination → Type 0 where
  starts : (sys : Coordination) → rows sys ≡ [] → sys.outbox ≡ [] → History payments (sys ∷ [])
  commands :
      (c : Command) (seen sys : Coordination) (past : List Coordination)
      → Past seen (sys ∷ past)
      → History payments (sys ∷ past)
      → History payments ((perform payments c seen sys).1 ∷ sys ∷ past)
  others :
      (sys sys' : Coordination) (past : List Coordination)
      → Elsewhere sys sys'
      → History payments (sys ∷ past)
      → History payments (sys' ∷ sys ∷ past)
