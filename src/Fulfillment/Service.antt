-- ===== src/Fulfillment/Service.antt =====
-- src/modules/fulfillment/service.ts (`FulfillmentService`): the events and audit entries of a
-- fulfillment, and how a transition or an intake runs. A command reads one state, `seen`, and its
-- transaction commits on the present one, which other transactions may have changed in between.
pub mod Intake
pub mod Jobs
pub mod Reads
use wasla_core.Base.{ℕ, ◌+◌, String, Option, none, some, List, [], ◌∷◌, ◌++◌, length, if◌then◌else◌}
use wasla_core.Base.Int.{ℤ}
use wasla_core.Base.Table.{get}
use wasla_core.Base.Values.{Value, num, text, id, instant, flag, null}
use wasla_core.Eventing.Envelope.{EventEnvelope, make_event}
use wasla_core.Fulfillment.Domain.{
  Fulfillment, FulfillmentStatus, coordinating, dispatched, completed, failed, cancelled,
  SettlementState, unfunded, held, captured, partially_captured, released, unsettled, open_statuses,
  requires_financial_decision,
}
use wasla_core.Fulfillment.Payments.{Coordination, CoreWork, SettlementOutcome}
use wasla_core.Fulfillment.Store.{
  Core, CoreScope, WriteOutcome, applied, refused, is_cancelled, insert_if_absent,
  update_if_status_in, find_by_order_reference,
}
use wasla_core.Platform.Audit.{PendingAuditEntry}
use wasla_core.Platform.Errors.{
  Failure, core, plain, transition_lost, intake_lost, Result, ok, err, not_found, conflict,
}
use wasla_core.Platform.Ids.{uuid_text}
use wasla_core.Platform.UnitOfWork.{
  Staged, nothing_staged, commit, record_all, pure, reads, ◌>>=◌, ◌>>◌, new_id, stage, emit, audit,
  Unit₀,
}

abbrev pub status_text : FulfillmentStatus → String
status_text coordinating = "coordinating"
status_text dispatched = "dispatched"
status_text completed = "completed"
status_text failed = "failed"
status_text cancelled = "cancelled"

abbrev pub settlement_text : SettlementState → String
settlement_text unfunded = "none"
settlement_text held = "held"
settlement_text captured = "captured"
settlement_text partially_captured = "partially_captured"
settlement_text released = "released"
settlement_text unsettled = "unsettled"

abbrev pub or_null {ℓ} : {A : Type ℓ} → (A → Value) → Option A → Value
or_null f none = null
or_null f (some a) = f a

abbrev pub or_text : Option String → String → String
or_text none default = default
or_text (some s) default = s

-- An event about a fulfillment.
unfoldable pub emit_event : String → String → Option ℕ → ℕ → List (String × Value) → CoreWork Unit₀
unfolding make_event
emit_event event_type correlation_id causation_id fulfillment_id payload = do
  event_id ← new_id
  now ← reads (λ sys. sys.now)
  emit (
      make_event event_id (record {
        event_type = event_type;
        version = 1;
        producer = "wasla-core";
        occurred_at = now;
        correlation_id = correlation_id;
        causation_id = elim causation_id [ none ↦ none | some cause ↦ some (uuid_text cause) ];
        entity_type = "fulfillment";
        entity_id = fulfillment_id;
        payload = payload;
      }))

-- `auditEntry`
abbrev pub audit_entry : String → Fulfillment → String → List (String × Value) → PendingAuditEntry
audit_entry action f correlation_id extra = record {
  action = action;
  entity_type = "fulfillment";
  entity_id = f.fulfillment_id;
  correlation_id = correlation_id;
  metadata =
      ("status", text (status_text f.status))
      ∷ ("settlement_state", text (settlement_text f.settlement_state))
      ∷ extra;
}

-- The amount is there only where it was observed.
abbrev pub amount_observed : Option ℤ → List (String × Value)
amount_observed none = []
amount_observed (some amount) = ("captured_minor", num amount) ∷ []

abbrev pub money_facts : Fulfillment → Option ℤ → List (String × Value)
money_facts f captured_minor =
    ("settlement_state", text (settlement_text f.settlement_state))
    ∷ ("financial_decision_required", flag (requires_financial_decision f))
    ∷ amount_observed captured_minor

abbrev pub cancelled_payload : Fulfillment → Option ℤ → List (String × Value)
cancelled_payload f captured_minor =
    ("fulfillment_id", id f.fulfillment_id)
    ∷ ("organization_id", id f.organization_id)
    ∷ ("order_reference", text f.market_order_reference)
    ∷ ("reason", text (or_text f.closure_reason "cancelled"))
    ∷ ("cancelled_at", or_null instant f.completed_at)
    ∷ money_facts f captured_minor

abbrev pub completed_payload : Fulfillment → Option ℤ → List (String × Value)
completed_payload f captured_minor =
    ("fulfillment_id", id f.fulfillment_id)
    ∷ ("organization_id", id f.organization_id)
    ∷ ("order_reference", text f.market_order_reference)
    ∷ ("outcome", text (status_text f.status))
    ∷ ("completed_at", or_null instant f.completed_at)
    ∷ ("reason", or_null text f.closure_reason)
    ∷ money_facts f captured_minor

-- `closureEvent`, emitted
abbrev pub emit_closure : Fulfillment → String → Option ℕ → Option ℤ → CoreWork Unit₀
emit_closure f correlation_id causation_id captured_minor =
    if is_cancelled f.status
    then emit_event "core.fulfillment.cancelled" correlation_id causation_id f.fulfillment_id
        (cancelled_payload f captured_minor)
    else emit_event "core.fulfillment.completed" correlation_id causation_id f.fulfillment_id
        (completed_payload f captured_minor)

-- The staged mutations of `stageTransition` and `stageIntake`: a write that was refused aborts.
abbrev pub applied_or : Failure → Result (WriteOutcome × CoreScope) → Result CoreScope
applied_or lost (ok (applied, sc)) = ok sc
applied_or lost (ok (refused, sc)) = err lost
applied_or lost (err e) = err e

unfoldable pub transition_mutation :
    Fulfillment → List FulfillmentStatus → CoreScope → Result CoreScope
unfolding update_if_status_in
transition_mutation next expected sc =
    applied_or (transition_lost next.fulfillment_id) (update_if_status_in next expected sc)

unfoldable pub intake_mutation : Fulfillment → CoreScope → Result CoreScope
unfolding insert_if_absent
intake_mutation f sc = applied_or (intake_lost f.market_order_reference) (insert_if_absent f sc)

-- `require`
unfoldable pub require : ℕ → Coordination → Result Fulfillment
require fulfillment_id sys = elim (get fulfillment_id sys.store.fulfillments) [
  | none ↦ err (not_found "fulfillment not found")
  | some f ↦ ok f
]

-- A body of work on a fulfillment, with the entries that it has recorded at once.
abbrev pub Body : Type 0
Body = CoreWork (Fulfillment × List PendingAuditEntry)

-- `audit.record`, outside the transaction: it stays whatever becomes of the transaction.
abbrev pub record_now : List PendingAuditEntry → ℕ → Coordination → Coordination
record_now entries next_id sys = record sys {
  audit_log = record_all next_id sys.now entries sys.audit_log;
  next_id = next_id + length entries;
}

abbrev pub commit_body :
    Result ((Fulfillment × List PendingAuditEntry) × Staged Core)
    → Coordination
    → Result Fulfillment × Coordination
commit_body (err e) sys = (err e, sys)
commit_body (ok ((f, recorded), staged)) sys =
    commit f (record staged { next_id = staged.next_id + length recorded })
      (record_now recorded staged.next_id sys)

-- `withTransaction`, for a body that read `seen`.
unfoldable pub run_body : Body → Coordination → Coordination → Result Fulfillment × Coordination
unfolding commit
run_body body seen sys = commit_body (body seen (nothing_staged sys)) sys

-- What follows a body: where its transition was lost, the answer is made from the present row.
abbrev pub when_lost :
    (Fulfillment → Coordination → Result Fulfillment × Coordination)
    → Result Fulfillment × Coordination
    → Result Fulfillment × Coordination
when_lost f (ok answer, sys) = (ok answer, sys)
when_lost f (err (transition_lost fulfillment_id), sys) = elim (require fulfillment_id sys) [
  | ok winner ↦ f winner sys
  | err e ↦ (err e, sys)
]
when_lost f (err (intake_lost reference), sys) = (err (intake_lost reference), sys)
when_lost f (err (core e), sys) = (err (core e), sys)
when_lost f (err (plain message), sys) = (err (plain message), sys)

-- `transition`
abbrev pub transition :
    Body
    → (Fulfillment → Coordination → Result Fulfillment × Coordination)
    → Coordination
    → Coordination
    → Result Fulfillment × Coordination
transition body on_lost seen sys = when_lost on_lost (run_body body seen sys)

abbrev pub when_taken : Result Fulfillment × Coordination → Result Fulfillment × Coordination
when_taken (ok answer, sys) = (ok answer, sys)
when_taken (err (intake_lost reference), sys) = elim (find_by_order_reference reference sys.store) [
  | some winner ↦ (ok winner, sys)
  | none ↦ (err (conflict "fulfillment for this order is not readable yet"), sys)
]
when_taken (err (transition_lost fulfillment_id), sys) = (err (transition_lost fulfillment_id), sys)
when_taken (err (core e), sys) = (err (core e), sys)
when_taken (err (plain message), sys) = (err (plain message), sys)

-- `intake`
abbrev pub intake : Body → Coordination → Coordination → Result Fulfillment × Coordination
intake body seen sys = when_taken (run_body body seen sys)

abbrev pub closed_row :
    ℕ → FulfillmentStatus → Option String → SettlementState → Fulfillment → Fulfillment
closed_row now status reason settlement f = record f {
  status = status;
  settlement_state = settlement;
  completed_at = some now;
  closure_reason = reason;
}

abbrev pub closure_action : FulfillmentStatus → String
closure_action cancelled = "fulfillment.cancelled"
closure_action _ = "fulfillment.closed"

-- What every closure stages: the conditional write, the event and the audit entry.
unfoldable pub stage_closure : Fulfillment → SettlementOutcome → String → Option ℕ → String → Body
unfolding transition_mutation emit_event requires_financial_decision
stage_closure closed outcome correlation_id causation_id action = do
  stage (transition_mutation closed open_statuses)
  emit_closure closed correlation_id causation_id outcome.captured_minor
  audit (audit_entry action closed correlation_id [])
  pure (closed, outcome.recorded)

-- `closeWithin`
unfoldable pub close_within :
    Fulfillment → FulfillmentStatus → Option String → SettlementOutcome → String → Option ℕ → Body
unfolding stage_closure
close_within current status reason outcome correlation_id causation_id = do
  now ← reads (λ sys. sys.now)
  stage_closure (closed_row now status reason outcome.settlement current) outcome correlation_id
      causation_id (closure_action status)
