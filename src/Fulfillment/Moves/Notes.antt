-- ===== src/Fulfillment/Moves/Notes.antt =====
-- src/modules/fulfillment/service.ts: the transactions that close no open row: dispatches, traces of a job, and
-- executions after a cancellation.
use wasla_core.Base.{ℕ, String, some, true, false, ◌≡◌, refl, sym, ap, subst, ◌∙◌, [], ◌∷◌, arith}
use wasla_core.Base.Table.{get, put, IsKeyed, get-keyed}
use wasla_core.Base.Values.{text, id, instant, flag}
use wasla_core.Eventing.Envelope.{EventEnvelope}
use wasla_core.Fulfillment.Domain.{
  Fulfillment, FulfillmentStatus, coordinating, dispatched, completed, failed, cancelled, is_closed,
}
use wasla_core.Fulfillment.Moves.{Moves, rows}
use wasla_core.Fulfillment.Moves.Bodies.{noted, noted_quietly}
use wasla_core.Fulfillment.Moves.Commands.{run_body-Moves}
use wasla_core.Fulfillment.Moves.Writes.{
  transition_mutation-KeepsRules, update-KeepsRules, marking_mutation-KeepsRules,
  transition_mutation-ok, update-ok, marking_mutation-ok,
}
use wasla_core.Fulfillment.Payments.{Coordination}
use wasla_core.Fulfillment.Service.{
  run_body, transition_mutation, audit_entry, settlement_text, or_null,
}
use wasla_core.Fulfillment.Service.Jobs.{
  dispatch, dispatched_row, MoveJobAcceptedPayload, trace_job, MoveJobCompletedPayload,
  mark_execution, marking_mutation,
}
use wasla_core.Fulfillment.Store.{includes, takes_marker, executed_row, update}
use wasla_core.Fulfillment.Turn.{Turn, dispatches, marks, traces, SameClosure, IsClosed}
use wasla_core.Fulfillment.Turn.Invariant.{fulfillment_key}

coordinating-open :
    (status : FulfillmentStatus)
    → includes (coordinating ∷ []) status ≡ true
    → is_closed status ≡ false
coordinating-open coordinating h = refl
coordinating-open dispatched h = refl
coordinating-open completed h = cc
coordinating-open failed h = cc
coordinating-open cancelled h = cc

cancelled-IsClosed : (f : Fulfillment) → takes_marker f ≡ true → IsClosed f
cancelled-IsClosed f h = ground arith

module _ (seen sys : Coordination) where
  pub dispatch-Moves :
      (event : EventEnvelope) (payload : MoveJobAcceptedPayload) (current : Fulfillment)
      → Moves seen sys (run_body (dispatch event payload current) seen sys).1
  unfolding dispatch
  dispatch-Moves event payload current =
      let updated = dispatched_row payload.job_id current in
      run_body-Moves seen sys _ _ _
        (noted updated (λ f. transition_mutation f (coordinating ∷ []))
          "core.fulfillment.dispatched" event.correlation_id (some event.event_id)
          updated.fulfillment_id
          (("fulfillment_id", id updated.fulfillment_id)
            ∷ ("organization_id", id updated.organization_id)
            ∷ ("order_reference", text updated.market_order_reference)
            ∷ ("job_reference", text payload.job_id)
            ∷ ("dispatched_at", instant payload.accepted_at)
            ∷ [])
          (audit_entry "fulfillment.dispatched" updated event.correlation_id []) seen sys.next_id
          refl)
        (λ row. transition_mutation-KeepsRules row (coordinating ∷ []))
        (λ row n' es mid done out start runs.
          let (old, there, expected, put_) =
            transition_mutation-ok row (coordinating ∷ []) mid done runs in
          subst (Turn (rows seen) (rows sys) sys.next_id n' es)
            (sym (put_ ∙ ap (put row.fulfillment_id row) start))
            (dispatches old row (ap (get row.fulfillment_id) (sym start) ∙ there)
              (coordinating-open old.status expected) (ap (λ f. is_closed f.status) out.0) out.1))

  -- A trace is written over the row that was read.
  pub trace-Moves :
      (k : ℕ) (old traced : Fulfillment) (correlation_id : String)
      → get k (rows seen) ≡ some old
      → IsClosed old
      → SameClosure old traced
      → Moves seen sys (run_body (trace_job traced correlation_id) seen sys).1
  unfolding trace_job
  trace-Moves k old traced correlation_id here closed same =
      run_body-Moves seen sys _ _ _
        (noted_quietly traced update
          (audit_entry "fulfillment.acceptance_after_cancellation" traced correlation_id []) seen
          sys.next_id)
        update-KeepsRules
        (λ row n' es mid done out start runs.
          subst (Turn (rows seen) (rows sys) sys.next_id n' es)
            (sym (update-ok row mid done runs ∙ ap (put row.fulfillment_id row) start))
            (traces k old row here closed (subst (SameClosure old) (sym out.0) same) out.1))

  pub mark-Moves :
      (event : EventEnvelope) (payload : MoveJobCompletedPayload) (current : Fulfillment)
      → IsKeyed fulfillment_key (rows sys)
      → Moves seen sys (run_body (mark_execution event payload current) seen sys).1
  unfolding mark_execution
  mark-Moves event payload current keyed =
      let marked = executed_row payload.completed_at payload.job_id current in
      run_body-Moves seen sys _ _ _
        (noted marked (λ f. marking_mutation current.fulfillment_id payload)
          "core.fulfillment.executed_after_cancellation" event.correlation_id (some event.event_id)
          marked.fulfillment_id
          (("fulfillment_id", id marked.fulfillment_id)
            ∷ ("organization_id", id marked.organization_id)
            ∷ ("order_reference", text marked.market_order_reference)
            ∷ ("job_id", text payload.job_id)
            ∷ ("executed_at", instant payload.completed_at)
            ∷ ("cancelled_at", or_null instant marked.completed_at)
            ∷ ("cancellation_reason", or_null text marked.closure_reason)
            ∷ ("settlement_state", text (settlement_text marked.settlement_state))
            ∷ ("financial_decision_required", flag true)
            ∷ [])
          (audit_entry "fulfillment.executed_after_cancellation" marked event.correlation_id (
            ("job_id", text payload.job_id)
            ∷ ("executed_at", instant payload.completed_at)
            ∷ ("cancelled_at", or_null instant current.completed_at)
            ∷ ("cancellation_reason", or_null text current.closure_reason)
            ∷ ("financial_decision_required", flag true)
            ∷ []))
          seen sys.next_id refl)
        (λ row. marking_mutation-KeepsRules current.fulfillment_id payload)
        (λ row n' es mid done out start runs.
          let (old, there, takes, put_) =
            marking_mutation-ok current.fulfillment_id payload mid done runs in
          let here = ap (get current.fulfillment_id) (sym start) ∙ there in
          let key = get-keyed fulfillment_key current.fulfillment_id old (rows sys) keyed here in
          let new = executed_row payload.completed_at payload.job_id old in
          subst (Turn (rows seen) (rows sys) sys.next_id n' es)
            (sym (put_ ∙ ap (put new.fulfillment_id new) start))
            (marks old new (subst (λ j. get j (rows sys) ≡ some old) key here)
              (cancelled-IsClosed old takes)
              (record {
                status = refl;
                settlement_state = refl;
                completed_at = refl;
                closure_reason = refl;
                fulfillment_id = refl;
              })
              out.1))
