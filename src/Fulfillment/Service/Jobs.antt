-- ===== src/Fulfillment/Service/Jobs.antt =====
-- src/modules/fulfillment/service.ts: what MOVE reports of a job, from the canonical payloads of its
-- events on, and the cancellation of a fulfillment.
use Prim.Native.String.{◌++◌ as concat}
use wasla_core.Base.{
  ℕ, String, Option, none, some, Bool, true, false, not, ◌||◌, [], ◌∷◌, is_some, if◌then◌else◌,
}
use wasla_core.Base.Values.{text, id, instant, flag}
use wasla_core.Eventing.Envelope.{EventEnvelope}
use wasla_core.Fulfillment.Domain.{
  Fulfillment, FulfillmentStatus, coordinating, dispatched, completed, failed, cancelled, is_closed,
}
use wasla_core.Fulfillment.Payments.{
  Coordination, CoreWork, FulfillmentPaymentPort, SettlementOutcome, settle, release,
}
use wasla_core.Fulfillment.Service.{
  Body, emit_event, audit_entry, transition_mutation, transition, run_body, require, stage_closure,
  close_within, settlement_text, or_null, applied_or,
}
use wasla_core.Fulfillment.Store.{
  same_job, executed_row, mark_executed_after_cancellation, update, CoreScope,
}
use wasla_core.Platform.Errors.{Result, ok, err, invalid, conflict, transition_lost}
use wasla_core.Platform.Texts.{trim, is_empty_text}
use wasla_core.Platform.UnitOfWork.{pure, ◌>>=◌, ◌>>◌, stage, audit}

pub record MoveJobAcceptedPayload : Type 0 where
  pub fulfillment_id : ℕ
  pub job_id : String
  pub accepted_at : ℕ

pub record MoveJobRejectedPayload : Type 0 where
  pub fulfillment_id : ℕ
  pub reason : String
  pub rejected_at : ℕ

-- The outcome of a job: completed, or failed.
pub record MoveJobCompletedPayload : Type 0 where
  pub fulfillment_id : ℕ
  pub job_id : String
  pub delivered : Bool
  pub completed_at : ℕ

abbrev pub Answer : Type 0
Answer = Result Fulfillment × Coordination

abbrev pub answer_to :
    Result Fulfillment → (Fulfillment → Coordination → Answer) → Coordination → Answer
answer_to (err e) f sys = (err e, sys)
answer_to (ok current) f sys = f current sys

abbrev pub traced_row : String → Fulfillment → Fulfillment
traced_row job f = record f { move_job_reference = some job }

unfoldable pub trace_job : Fulfillment → String → Body
unfolding update
trace_job traced correlation_id = do
  stage (update traced)
  audit (audit_entry "fulfillment.acceptance_after_cancellation" traced correlation_id [])
  pure (traced, [])

abbrev pub accept_cancelled : String → String → Fulfillment → Coordination → Answer
accept_cancelled job correlation_id current sys =
    if same_job job current.move_job_reference
    then (ok current, sys)
    else run_body (trace_job (traced_row job current) correlation_id) sys sys

abbrev pub accept_by_status :
    FulfillmentStatus → String → String → Fulfillment → Coordination → Answer
accept_by_status dispatched job correlation_id current sys =
    if same_job job current.move_job_reference
    then (ok current, sys)
    else (err (conflict "fulfillment already dispatched to another job"), sys)
accept_by_status cancelled job correlation_id current sys =
    accept_cancelled job correlation_id current sys
accept_by_status _ job correlation_id current sys =
    (err (conflict "fulfillment is already closed"), sys)

-- `acceptanceOn`
unfoldable pub acceptance_on : String → String → Fulfillment → Coordination → Answer
unfolding trace_job run_body
acceptance_on job correlation_id current sys =
    accept_by_status current.status job correlation_id current sys

abbrev pub dispatched_row : String → Fulfillment → Fulfillment
dispatched_row job f = record f { move_job_reference = some job; status = dispatched }

unfoldable pub dispatch : EventEnvelope → MoveJobAcceptedPayload → Fulfillment → Body
unfolding transition_mutation emit_event
dispatch event payload current = do
  let updated = dispatched_row payload.job_id current
  stage (transition_mutation updated (coordinating ∷ []))
  emit_event "core.fulfillment.dispatched" event.correlation_id (some event.event_id)
      updated.fulfillment_id
      (("fulfillment_id", id updated.fulfillment_id)
        ∷ ("organization_id", id updated.organization_id)
        ∷ ("order_reference", text updated.market_order_reference)
        ∷ ("job_reference", text payload.job_id)
        ∷ ("dispatched_at", instant payload.accepted_at)
        ∷ [])
  audit (audit_entry "fulfillment.dispatched" updated event.correlation_id [])
  pure (updated, [])

abbrev pub is_dispatched : FulfillmentStatus → Bool
is_dispatched dispatched = true
is_dispatched _ = false

-- `consumeJobAccepted`
unfoldable pub consume_job_accepted :
    EventEnvelope → MoveJobAcceptedPayload → Coordination → Coordination → Answer
unfolding acceptance_on dispatch run_body require
consume_job_accepted event payload seen sys =
    answer_to (require payload.fulfillment_id seen)
      (λ current sys.
        if is_closed current.status || is_dispatched current.status
        then acceptance_on payload.job_id event.correlation_id current sys
        else transition (dispatch event payload current)
            (acceptance_on payload.job_id event.correlation_id) seen sys)
      sys

-- `rejectionOn` and `cancellationOn`
abbrev pub rejection_on : Fulfillment → Coordination → Answer
rejection_on f sys = elim f.status [
  | failed ↦ (ok f, sys)
  | _ ↦ (err (conflict "fulfillment is already closed"), sys)
]

abbrev pub cancellation_on : Fulfillment → Coordination → Answer
cancellation_on f sys = elim f.status [
  | cancelled ↦ (ok f, sys)
  | _ ↦ (err (conflict "fulfillment is already closed"), sys)
]

unfoldable pub reject :
    Option FulfillmentPaymentPort → EventEnvelope → MoveJobRejectedPayload → Fulfillment → Body
unfolding release close_within
reject payments event payload current = do
  outcome ← release payments current (concat "move_rejected:" payload.reason) event.correlation_id
  close_within current failed (some payload.reason) outcome event.correlation_id
      (some event.event_id)

-- `consumeJobRejected`
unfoldable pub consume_job_rejected :
    Option FulfillmentPaymentPort
    → EventEnvelope
    → MoveJobRejectedPayload
    → Coordination
    → Coordination
    → Answer
unfolding reject run_body require
consume_job_rejected payments event payload seen sys =
    answer_to (require payload.fulfillment_id seen)
      (λ current sys.
        if is_closed current.status
        then rejection_on current sys
        else transition (reject payments event payload current) rejection_on seen sys)
      sys

-- The staged mutation of `recordExecutionAfterCancellation`.
unfoldable pub marking_mutation : ℕ → MoveJobCompletedPayload → CoreScope → Result CoreScope
unfolding mark_executed_after_cancellation
marking_mutation fulfillment_id payload sc =
    applied_or (transition_lost fulfillment_id)
      (mark_executed_after_cancellation fulfillment_id payload.completed_at payload.job_id sc)

unfoldable pub mark_execution : EventEnvelope → MoveJobCompletedPayload → Fulfillment → Body
unfolding marking_mutation emit_event
mark_execution event payload current = do
  let marked = executed_row payload.completed_at payload.job_id current
  stage (marking_mutation current.fulfillment_id payload)
  emit_event "core.fulfillment.executed_after_cancellation" event.correlation_id
      (some event.event_id) marked.fulfillment_id
      (("fulfillment_id", id marked.fulfillment_id)
        ∷ ("organization_id", id marked.organization_id)
        ∷ ("order_reference", text marked.market_order_reference)
        ∷ ("job_id", text payload.job_id)
        ∷ ("executed_at", instant payload.completed_at)
        ∷ ("cancelled_at", or_null instant marked.completed_at)
        ∷ ("cancellation_reason", or_null text marked.closure_reason)
        ∷ ("settlement_state", text (settlement_text marked.settlement_state))
        ∷ ("financial_decision_required", flag true)
        ∷ [])
  audit (
      audit_entry "fulfillment.executed_after_cancellation" marked event.correlation_id (
        ("job_id", text payload.job_id)
        ∷ ("executed_at", instant payload.completed_at)
        ∷ ("cancelled_at", or_null instant current.completed_at)
        ∷ ("cancellation_reason", or_null text current.closure_reason)
        ∷ ("financial_decision_required", flag true)
        ∷ []))
  pure (marked, [])

abbrev pub keep_row : Fulfillment → Coordination → Answer
keep_row f sys = (ok f, sys)

-- `recordExecutionAfterCancellation`
unfoldable pub record_execution :
    EventEnvelope → MoveJobCompletedPayload → Fulfillment → Coordination → Answer
unfolding mark_execution run_body require
record_execution event payload current sys =
    if not payload.delivered || is_some current.executed_after_cancellation_at
    then (ok current, sys)
    else transition (mark_execution event payload current) keep_row sys sys

-- `completionOn`
unfoldable pub completion_on :
    EventEnvelope → MoveJobCompletedPayload → Fulfillment → Coordination → Answer
unfolding record_execution
completion_on event payload current sys = elim current.status [
  | cancelled ↦ record_execution event payload current sys
  | _ ↦
      if same_job payload.job_id current.move_job_reference
      then (ok current, sys)
      else (err (conflict "fulfillment already closed by another job"), sys)
]

-- How a report of a job settles the money, and the closure that it makes.
unfoldable pub settle_report :
    Option FulfillmentPaymentPort → Bool → Fulfillment → String → CoreWork SettlementOutcome
unfolding settle release
settle_report payments true current correlation_id = settle payments current correlation_id
settle_report payments false current correlation_id =
    release payments current "move_execution_failed" correlation_id

abbrev pub report_status : Bool → Option String → FulfillmentStatus
report_status true none = completed
report_status _ _ = failed

abbrev pub report_reason : Bool → Option String → Option String
report_reason true refusal = refusal
report_reason false refusal = some "move_execution_failed"

abbrev pub reported_row : MoveJobCompletedPayload → SettlementOutcome → Fulfillment → Fulfillment
reported_row payload outcome f = record f {
  move_job_reference = some payload.job_id;
  status = report_status payload.delivered outcome.refusal;
  settlement_state = outcome.settlement;
  completed_at = some payload.completed_at;
  closure_reason = report_reason payload.delivered outcome.refusal;
}

unfoldable pub complete :
    Option FulfillmentPaymentPort → EventEnvelope → MoveJobCompletedPayload → Fulfillment → Body
unfolding settle_report stage_closure
complete payments event payload current = do
  outcome ← settle_report payments payload.delivered current event.correlation_id
  stage_closure (reported_row payload outcome current) outcome event.correlation_id
      (some event.event_id) "fulfillment.closed"

-- `consumeMoveCompletion`
unfoldable pub consume_move_completion :
    Option FulfillmentPaymentPort
    → EventEnvelope
    → MoveJobCompletedPayload
    → Coordination
    → Coordination
    → Answer
unfolding completion_on complete run_body require
consume_move_completion payments event payload seen sys =
    answer_to (require payload.fulfillment_id seen)
      (λ current sys.
        if is_closed current.status
        then completion_on event payload current sys
        else transition (complete payments event payload current) (completion_on event payload) seen
            sys)
      sys

pub record CancelInput : Type 0 where
  pub fulfillment_id : ℕ
  pub reason : String
  pub correlation_id : String

unfoldable pub cancel_open : Option FulfillmentPaymentPort → CancelInput → Fulfillment → Body
unfolding release close_within
cancel_open payments input current = do
  outcome ← release payments current (concat "cancelled:" (trim input.reason)) input.correlation_id
  close_within current cancelled (some (trim input.reason)) outcome input.correlation_id none

-- `cancel`
unfoldable pub cancel :
    Option FulfillmentPaymentPort → CancelInput → Coordination → Coordination → Answer
unfolding cancel_open run_body require
cancel payments input seen sys =
    answer_to (require input.fulfillment_id seen)
      (λ current sys.
        if is_empty_text input.reason
        then (err (invalid "reason is required"), sys)
        else if is_closed current.status
        then cancellation_on current sys
        else transition (cancel_open payments input current) cancellation_on seen sys)
      sys
