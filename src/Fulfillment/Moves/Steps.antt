-- ===== src/Fulfillment/Moves/Steps.antt =====
-- src/modules/fulfillment/service.ts: every command keeps what a move keeps, whatever it answers.
use wasla_core.Base.{
  ℕ, String, Option, none, some, Bool, true, false, ◌||◌, ◌≡◌, refl, sym, ap, subst, if◌then◌else◌,
  is_some, not, arith,
}
use wasla_core.Base.Table.{get}
use wasla_core.Eventing.Envelope.{EventEnvelope}
use wasla_core.Fulfillment.Domain.{
  Fulfillment, FulfillmentStatus, coordinating, dispatched, completed, failed, cancelled, is_closed,
}
use wasla_core.Fulfillment.Moves.{rows, IsTidy}
use wasla_core.Fulfillment.Moves.Commands.{reject-Moves, complete-Moves, cancel-Moves}
use wasla_core.Fulfillment.Moves.Intakes.{take_order-Moves}
use wasla_core.Fulfillment.Moves.Kept.{
  Kept, Kept-refl, IsRead, present, Moves-Kept, answer_to-Kept, transition-Kept, intake-Kept,
}
use wasla_core.Fulfillment.Moves.Notes.{dispatch-Moves, trace-Moves, mark-Moves}
use wasla_core.Fulfillment.Moves.Settling.{AreDiscreet}
use wasla_core.Fulfillment.Payments.{Coordination, FulfillmentPaymentPort, inspect_hold}
use wasla_core.Fulfillment.Service.{Body, run_body, intake}
use wasla_core.Fulfillment.Service.Intake.{
  MarketOrderCreatedPayload, consume_market_order, take_order,
}
use wasla_core.Fulfillment.Service.Jobs.{
  Answer, MoveJobAcceptedPayload, MoveJobRejectedPayload, MoveJobCompletedPayload, CancelInput,
  acceptance_on, accept_by_status, consume_job_accepted, is_dispatched, dispatch, rejection_on,
  cancellation_on, consume_job_rejected, reject, completion_on, record_execution,
  consume_move_completion, complete, cancel, cancel_open, trace_job, traced_row, mark_execution,
  keep_row,
}
use wasla_core.Fulfillment.Store.{same_job, find_by_order_reference}
use wasla_core.Platform.Errors.{ok, err, conflict}
use wasla_core.Platform.UnitOfWork.{◌>>=◌}
use wasla_core.Platform.Texts.{is_empty_text}

if-Kept :
    (b : Bool) (x y : Answer) (sys : Coordination)
    → (b ≡ true → Kept sys x.1)
    → (b ≡ false → Kept sys y.1)
    → Kept sys (if b then x else y).1
if-Kept true x y sys f g = f refl
if-Kept false x y sys f g = g refl

acceptance_on-Kept :
    (job correlation_id : String) (current : Fulfillment) (k : ℕ) (seen sys : Coordination)
    → IsRead seen sys
    → get k (rows seen) ≡ some current
    → Kept sys (acceptance_on job correlation_id current sys).1
unfolding acceptance_on trace_job run_body ◌>>=◌
acceptance_on-Kept job correlation_id current k seen sys read here = by_status current.status refl
  where
    by_status :
        (s : FulfillmentStatus)
        → current.status ≡ s
        → Kept sys (accept_by_status s job correlation_id current sys).1
    by_status dispatched e =
        if-Kept (same_job job current.move_job_reference) _ _ sys (λ _. Kept-refl sys read.tidy)
          (λ _. Kept-refl sys read.tidy)
    by_status cancelled e =
        if-Kept (same_job job current.move_job_reference) _ _ sys (λ _. Kept-refl sys read.tidy)
          (λ _. Moves-Kept seen sys _ read (
            trace-Moves seen sys k current (traced_row job current) correlation_id here
              (ap is_closed e)
              (record {
                status = refl;
                settlement_state = refl;
                completed_at = refl;
                closure_reason = refl;
                fulfillment_id = refl;
              })))
    by_status coordinating e = Kept-refl sys read.tidy
    by_status completed e = Kept-refl sys read.tidy
    by_status failed e = Kept-refl sys read.tidy

record_execution-Kept :
    (event : EventEnvelope) (payload : MoveJobCompletedPayload) (current : Fulfillment)
    (sys : Coordination)
    → IsTidy sys
    → Kept sys (record_execution event payload current sys).1
unfolding record_execution
record_execution-Kept event payload current sys tidy =
    if-Kept (not payload.delivered || is_some current.executed_after_cancellation_at) _ _ sys
      (λ _. Kept-refl sys tidy)
      (λ _.
        transition-Kept (mark_execution event payload current) keep_row sys sys (present sys tidy)
          (mark-Moves sys sys event payload current tidy.keyed)
          (λ k winner sys' tidy' here. Kept-refl sys' tidy'))

completion_on-Kept :
    (event : EventEnvelope) (payload : MoveJobCompletedPayload) (current : Fulfillment)
    (sys : Coordination)
    → IsTidy sys
    → Kept sys (completion_on event payload current sys).1
unfolding completion_on
completion_on-Kept event payload current sys tidy = by_status current.status
  where
    by_job :
        Kept sys
          (if◌then◌else◌ {A = Answer}
            (same_job payload.job_id current.move_job_reference)
            (ok current, sys)
            (err (conflict "fulfillment already closed by another job"), sys)).1
    by_job =
        if-Kept (same_job payload.job_id current.move_job_reference) _ _ sys
          (λ _. Kept-refl sys tidy) (λ _. Kept-refl sys tidy)

    by_status :
        (s : FulfillmentStatus)
        → Kept sys
            (elim s as (λ _. Answer) [
              | cancelled ↦ record_execution event payload current sys
              | _ ↦
                  if same_job payload.job_id current.move_job_reference
                  then (ok current, sys)
                  else (err (conflict "fulfillment already closed by another job"), sys)
            ]).1
    by_status cancelled = record_execution-Kept event payload current sys tidy
    by_status dispatched = by_job
    by_status coordinating = by_job
    by_status completed = by_job
    by_status failed = by_job

rejection_on-same : (f : Fulfillment) (sys : Coordination) → (rejection_on f sys).1 ≡ sys
rejection_on-same f sys = ground arith

cancellation_on-same : (f : Fulfillment) (sys : Coordination) → (cancellation_on f sys).1 ≡ sys
cancellation_on-same f sys = ground arith

same-Kept : (sys sys' : Coordination) → IsTidy sys → sys' ≡ sys → Kept sys sys'
same-Kept sys sys' tidy same = subst (Kept sys) (sym same) (Kept-refl sys tidy)

module _ (seen sys : Coordination) (read : IsRead seen sys) where
  pub consume_job_accepted-Kept :
      (event : EventEnvelope) (payload : MoveJobAcceptedPayload)
      → Kept sys (consume_job_accepted event payload seen sys).1
  unfolding consume_job_accepted
  consume_job_accepted-Kept event payload =
      answer_to-Kept payload.fulfillment_id _ seen sys read.tidy (λ current here.
        if-Kept (is_closed current.status || is_dispatched current.status) _ _ sys
          (λ _.
            acceptance_on-Kept payload.job_id event.correlation_id current payload.fulfillment_id
              seen sys read here)
          (λ _.
            transition-Kept (dispatch event payload current)
              (acceptance_on payload.job_id event.correlation_id) seen sys read
              (dispatch-Moves seen sys event payload current)
              (λ k winner sys' tidy there.
                acceptance_on-Kept payload.job_id event.correlation_id winner k sys' sys'
                  (present sys' tidy) there)))

  module _ (payments : Option FulfillmentPaymentPort) (d : AreDiscreet payments) where
    pub consume_market_order-Kept :
        (event : EventEnvelope) (payload : MarketOrderCreatedPayload)
        → Kept sys (consume_market_order payments event payload seen sys).1
    unfolding consume_market_order
    consume_market_order-Kept event payload =
        by_order (find_by_order_reference payload.order_id seen.store)
      where
        body : Body
        body =
            take_order payments event payload
              (inspect_hold payments payload.payment_authorization_id seen)

        by_order :
            (r : Option Fulfillment)
            → Kept sys
                (elim r as (λ _. Answer) [
                  | some existing ↦ (ok existing, sys)
                  | none ↦ intake body seen sys
                ]).1
        by_order (some existing) = Kept-refl sys read.tidy
        by_order none = intake-Kept body seen sys read (
            take_order-Moves seen sys payments event payload
              (inspect_hold payments payload.payment_authorization_id seen) d)

    pub consume_job_rejected-Kept :
        (event : EventEnvelope) (payload : MoveJobRejectedPayload)
        → Kept sys (consume_job_rejected payments event payload seen sys).1
    unfolding consume_job_rejected
    consume_job_rejected-Kept event payload =
        answer_to-Kept payload.fulfillment_id _ seen sys read.tidy (λ current here.
          if-Kept (is_closed current.status) _ _ sys
            (λ _. same-Kept sys _ read.tidy (rejection_on-same current sys))
            (λ _.
              transition-Kept (reject payments event payload current) rejection_on seen sys read
                (reject-Moves seen sys payments event payload current d)
                (λ k winner sys' tidy there.
                  same-Kept sys' _ tidy (rejection_on-same winner sys'))))

    pub consume_move_completion-Kept :
        (event : EventEnvelope) (payload : MoveJobCompletedPayload)
        → Kept sys (consume_move_completion payments event payload seen sys).1
    unfolding consume_move_completion
    consume_move_completion-Kept event payload =
        answer_to-Kept payload.fulfillment_id _ seen sys read.tidy (λ current here.
          if-Kept (is_closed current.status) _ _ sys
            (λ _. completion_on-Kept event payload current sys read.tidy)
            (λ _.
              transition-Kept (complete payments event payload current)
                (completion_on event payload) seen sys read
                (complete-Moves seen sys payments event payload current d)
                (λ k winner sys' tidy there. completion_on-Kept event payload winner sys' tidy)))

    pub cancel-Kept : (input : CancelInput) → Kept sys (cancel payments input seen sys).1
    unfolding cancel
    cancel-Kept input = answer_to-Kept input.fulfillment_id _ seen sys read.tidy (λ current here.
        if-Kept (is_empty_text input.reason) _ _ sys (λ _. Kept-refl sys read.tidy)
          (λ _.
            if-Kept (is_closed current.status) _ _ sys
              (λ _. same-Kept sys _ read.tidy (cancellation_on-same current sys))
              (λ _.
                transition-Kept (cancel_open payments input current) cancellation_on seen sys read
                  (cancel-Moves seen sys payments input current d)
                  (λ k winner sys' tidy there.
                    same-Kept sys' _ tidy (cancellation_on-same winner sys')))))
