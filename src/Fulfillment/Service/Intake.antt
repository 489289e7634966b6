-- ===== src/Fulfillment/Service/Intake.antt =====
-- src/modules/fulfillment/service.ts: `consumeMarketOrder`, from the canonical payload of its event on.
use wasla_core.Base.{ℕ, String, Option, none, some, Bool, true, false, List, [], ◌∷◌, if◌then◌else◌}
use wasla_core.Base.Values.{Value, text, id}
use wasla_core.Eventing.Envelope.{EventEnvelope}
use wasla_core.Fulfillment.Domain.{Fulfillment, SettlementState, held, coordinating, failed}
use wasla_core.Fulfillment.Payments.{
  Coordination, CoreWork, FulfillmentPaymentPort, HoldInspection, inspect_hold, SettlementOutcome,
  release,
}
use wasla_core.Fulfillment.Service.{
  Body, emit_event, emit_closure, audit_entry, intake_mutation, intake, closed_row, or_text,
  or_null,
}
use wasla_core.Fulfillment.Store.{find_by_order_reference}
use wasla_core.Platform.Errors.{Result, ok, err, plain}
use wasla_core.Platform.Ids.{IdText, uuid, malformed}
use wasla_core.Platform.UnitOfWork.{pure, lift, reads, ◌>>=◌, ◌>>◌, new_id, stage, audit}
use Prim.Native.String.{◌++◌ as concat}

pub record MarketOrderCreatedPayload : Type 0 where
  pub order_id : String
  pub organization_id : ℕ
  pub requested_service : String
  pub payment_authorization_id : Option IdText

-- The column of the hold: a reference that is not known is not stored, and no text that is not a UUID's
-- fits the column.
abbrev pub row_reference : Bool → Option IdText → Result (Option ℕ)
row_reference false reference = ok none
row_reference true none = ok none
row_reference true (some (uuid authorization_id)) = ok (some authorization_id)
row_reference true (some (malformed reference)) = err (plain "invalid input syntax for type uuid")

abbrev pub new_fulfillment :
    ℕ → ℕ → MarketOrderCreatedPayload → Option ℕ → SettlementState → Fulfillment
new_fulfillment new_id now payload hold settlement = record {
  fulfillment_id = new_id;
  organization_id = payload.organization_id;
  market_order_reference = payload.order_id;
  move_job_reference = none;
  payment_authorization_id = hold;
  status = coordinating;
  settlement_state = settlement;
  created_at = now;
  completed_at = none;
  closure_reason = none;
  executed_after_cancellation_at = none;
  executed_after_cancellation_job_reference = none;
}

-- The declared reference survives in the audit trail, where the row cannot hold it.
abbrev pub unresolved : Bool → Option IdText → List (String × Value)
unresolved true reference = []
unresolved false none = []
unresolved false (some (uuid authorization_id)) =
    ("unresolved_hold_reference", id authorization_id) ∷ []
unresolved false (some (malformed reference)) = ("unresolved_hold_reference", text reference) ∷ []

abbrev pub as_inspected : HoldInspection → SettlementOutcome
as_inspected hold = record {
  settlement = hold.settlement;
  captured_minor = hold.captured_minor;
  refusal = none;
  recorded = [];
}

-- A refused order must not leave money parked.
abbrev pub release_if_held :
    SettlementState
    → Option FulfillmentPaymentPort
    → Fulfillment
    → HoldInspection
    → String
    → CoreWork SettlementOutcome
release_if_held held payments f hold correlation_id =
    release payments f (concat "refused:" (or_text hold.reason "null")) correlation_id
release_if_held _ payments f hold correlation_id = pure (as_inspected hold)

-- The refusal of an order, once its hold is settled.
unfoldable pub refuse_settled :
    EventEnvelope
    → MarketOrderCreatedPayload
    → HoldInspection
    → Fulfillment
    → SettlementOutcome
    → Body
unfolding intake_mutation emit_event
refuse_settled event payload hold f outcome = do
  now ← reads (λ sys. sys.now)
  let refused = closed_row now failed hold.reason outcome.settlement f
  stage (intake_mutation refused)
  emit_closure refused event.correlation_id (some event.event_id) outcome.captured_minor
  audit (
      audit_entry "fulfillment.refused" refused event.correlation_id (
        ("refusal_reason", or_null text hold.reason)
        ∷ unresolved hold.known payload.payment_authorization_id))
  pure (refused, outcome.recorded)

-- The intake of an order whose hold cannot be used.
unfoldable pub refuse_order :
    Option FulfillmentPaymentPort
    → EventEnvelope
    → MarketOrderCreatedPayload
    → HoldInspection
    → Fulfillment
    → Body
unfolding refuse_settled release
refuse_order payments event payload hold f = do
  outcome ← release_if_held hold.settlement payments f hold event.correlation_id
  refuse_settled event payload hold f outcome

-- The intake of an order that is coordinated.
unfoldable pub accept_order : EventEnvelope → MarketOrderCreatedPayload → Fulfillment → Body
unfolding intake_mutation emit_event
accept_order event payload f = do
  stage (intake_mutation f)
  emit_event "core.fulfillment.created" event.correlation_id (some event.event_id) f.fulfillment_id
      (("fulfillment_id", id f.fulfillment_id)
        ∷ ("organization_id", id f.organization_id)
        ∷ ("order_reference", text f.market_order_reference)
        ∷ ("requested_service", text payload.requested_service)
        ∷ [])
  audit (audit_entry "fulfillment.created" f event.correlation_id [])
  pure (f, [])

unfoldable pub take_order :
    Option FulfillmentPaymentPort
    → EventEnvelope
    → MarketOrderCreatedPayload
    → HoldInspection
    → Body
unfolding refuse_order accept_order
take_order payments event payload hold = do
  fulfillment_id ← new_id
  now ← reads (λ sys. sys.now)
  reference ← lift (row_reference hold.known payload.payment_authorization_id)
  let f = new_fulfillment fulfillment_id now payload reference hold.settlement
  if hold.usable then accept_order event payload f else refuse_order payments event payload hold f

-- `consumeMarketOrder`
unfoldable pub consume_market_order :
    Option FulfillmentPaymentPort
    → EventEnvelope
    → MarketOrderCreatedPayload
    → Coordination
    → Coordination
    → Result Fulfillment × Coordination
unfolding take_order inspect_hold find_by_order_reference
consume_market_order payments event payload seen sys =
    elim (find_by_order_reference payload.order_id seen.store) [
      | some existing ↦ (ok existing, sys)
      | none ↦
          intake
            (take_order payments event payload
              (inspect_hold payments payload.payment_authorization_id seen))
            seen sys
    ]
