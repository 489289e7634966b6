-- ===== src/Fulfillment/Moves/Commands.antt =====
-- src/modules/fulfillment/service.ts: every command makes a move of `Moves`, whatever state it read, as long
-- as the money module's events are not closures.
use Prim.Native.String.{◌++◌ as concat}
use wasla_core.Platform.Texts.{trim}
use wasla_core.Base.{
  ℕ, String, Option, none, some, Bool, true, false, ◌≡◌, refl, sym, ap, subst, ◌∙◌, List, [], arith,
}
use wasla_core.Base.Table.{get, put}
use wasla_core.Eventing.Envelope.{EventEnvelope}
use wasla_core.Fulfillment.Domain.{Fulfillment, failed, cancelled, open_statuses}
use wasla_core.Fulfillment.Moves.{
  Moves, rests, turns, rows, Prepared, Committed, unchanged, written, commit-Committed,
}
use wasla_core.Fulfillment.Moves.Bodies.{ClosesRow, settled_closure}
use wasla_core.Fulfillment.Moves.Settling.{Settles, AreDiscreet, release-Settles, settle-Settles}
use wasla_core.Fulfillment.Moves.Writes.{
  KeepsRules, transition_mutation-KeepsRules, transition_mutation-ok, open-includes,
}
use wasla_core.Fulfillment.Payments.{
  Coordination, FulfillmentPaymentPort, SettlementOutcome, release,
}
use wasla_core.Fulfillment.Service.{
  Body, run_body, commit_body, transition_mutation, close_within, closed_row, audit_entry,
  stage_closure,
}
use wasla_core.Fulfillment.Service.Jobs.{
  reject, complete, cancel_open, MoveJobRejectedPayload, MoveJobCompletedPayload, CancelInput,
  reported_row, settle_report,
}
use wasla_core.Fulfillment.Store.{CoreScope}
use wasla_core.Fulfillment.Turn.Invariant.{IsRuled}
use wasla_core.Fulfillment.Turn.{Turn, closes, IsClosed}
use wasla_core.Platform.Errors.{Result, ok}
use wasla_core.Platform.UnitOfWork.{Unit₀, append_all, ◌>>=◌}

abbrev to_closed : Fulfillment → CoreScope → Result CoreScope
to_closed row = transition_mutation row open_statuses

module _ (seen sys : Coordination) where
  -- A prepared body makes the turn that its mutation allows, or none.
  pub run_body-Moves :
      (body : Body) (m : Fulfillment → CoreScope → Result CoreScope)
      (Out : Fulfillment → ℕ → List EventEnvelope → Type 0)
      → Prepared body seen sys.next_id m Out
      → ((row : Fulfillment) → KeepsRules (m row))
      → ((row : Fulfillment) (n' : ℕ) (es : List EventEnvelope) (mid done : CoreScope)
          → Out row n' es
          → mid.store.fulfillments ≡ rows sys
          → m row mid ≡ ok done
          → Turn (rows seen) (rows sys) sys.next_id n' es done.store.fulfillments)
      → Moves seen sys (run_body body seen sys).1
  unfolding run_body append_all
  run_body-Moves body m Out p rules turn =
      subst (λ r. Moves seen sys (commit_body r sys).1) (sym p.result)
        (by_commit _ (commit-Committed (m p.row) p.row p.staged p.recorded sys p.ends p.later))
    where
      by_commit :
          (r : Result Fulfillment × Coordination)
          → Committed (m p.row) p.row p.staged sys r
          → Moves seen sys r.1
      by_commit r (unchanged e thrown same out le) =
          rests [] sys.next_id same tt out (omega arith) le
      by_commit r (written mid done start runs answer same out le) =
          turns p.staged.events p.staged.next_id
            (subst (Turn (rows seen) (rows sys) sys.next_id p.staged.next_id p.staged.events)
              (sym same) (turn p.row p.staged.next_id p.staged.events mid done p.out start runs))
            (λ ruled.
              subst IsRuled (sym same)
                (rules p.row mid done runs (subst IsRuled (sym start) ruled)))
            out p.later le

  -- A closure closes an open row.
  pub closing-Moves :
      (body : Body) (P : Fulfillment → Type 0)
      → Prepared body seen sys.next_id
          (λ row. transition_mutation row open_statuses)
          (λ row n' es. ClosesRow P row sys.next_id n' es)
      → Moves seen sys (run_body body seen sys).1
  closing-Moves body P p =
      run_body-Moves body _ _ p (λ row. transition_mutation-KeepsRules row open_statuses)
        (λ row n' es mid done out start runs.
          let (old, there, expected, put_) =
            transition_mutation-ok row open_statuses mid done runs in
          let (closed, key, announces) = out in
          subst (Turn (rows seen) (rows sys) sys.next_id n' es)
            (sym (put_ ∙ ap (put row.fulfillment_id row) start))
            (closes old row (ap (get row.fulfillment_id) (sym start) ∙ there)
              (open-includes old.status expected) closed announces))

  pub reject-Moves :
      (payments : Option FulfillmentPaymentPort) (event : EventEnvelope)
      (payload : MoveJobRejectedPayload) (current : Fulfillment)
      → AreDiscreet payments
      → Moves seen sys (run_body (reject payments event payload current) seen sys).1
  unfolding reject close_within stage_closure ◌>>=◌
  reject-Moves payments event payload current d =
      closing-Moves _ (λ row. Unit₀)
        (settled_closure to_closed
          (release payments current (concat "move_rejected:" payload.reason) event.correlation_id)
          (λ o.
            close_within current failed (some payload.reason) o event.correlation_id
              (some event.event_id))
          (λ o. closed_row seen.now failed (some payload.reason) o.settlement current)
          event.correlation_id (some event.event_id)
          (λ o.
            audit_entry "fulfillment.closed"
              (closed_row seen.now failed (some payload.reason) o.settlement current)
              event.correlation_id [])
          seen sys.next_id (λ row. Unit₀)
          (release-Settles payments current (concat "move_rejected:" payload.reason)
            event.correlation_id seen sys.next_id d)
          (λ o staged. refl) (λ o. refl) (λ o. tt))

  pub cancel-Moves :
      (payments : Option FulfillmentPaymentPort) (input : CancelInput) (current : Fulfillment)
      → AreDiscreet payments
      → Moves seen sys (run_body (cancel_open payments input current) seen sys).1
  unfolding cancel_open close_within stage_closure ◌>>=◌
  cancel-Moves payments input current d =
      closing-Moves _ (λ row. Unit₀)
        (settled_closure to_closed
          (release payments current (concat "cancelled:" (trim input.reason)) input.correlation_id)
          (λ o.
            close_within current cancelled (some (trim input.reason)) o input.correlation_id none)
          (λ o. closed_row seen.now cancelled (some (trim input.reason)) o.settlement current)
          input.correlation_id none
          (λ o.
            audit_entry "fulfillment.cancelled"
              (closed_row seen.now cancelled (some (trim input.reason)) o.settlement current)
              input.correlation_id [])
          seen sys.next_id (λ row. Unit₀)
          (release-Settles payments current (concat "cancelled:" (trim input.reason))
            input.correlation_id seen sys.next_id d)
          (λ o staged. refl) (λ o. refl) (λ o. tt))

  report-IsClosed :
      (payload : MoveJobCompletedPayload) (o : SettlementOutcome) (f : Fulfillment)
      → IsClosed (reported_row payload o f)
  report-IsClosed payload o f = ground arith

  report-Settles :
      (payments : Option FulfillmentPaymentPort) (delivered : Bool) (current : Fulfillment)
      (correlation_id : String)
      → AreDiscreet payments
      → Settles (settle_report payments delivered current correlation_id) seen sys.next_id
  unfolding settle_report
  report-Settles payments true current correlation_id d =
      settle-Settles payments current correlation_id seen sys.next_id d
  report-Settles payments false current correlation_id d =
      release-Settles payments current "move_execution_failed" correlation_id seen sys.next_id d

  pub complete-Moves :
      (payments : Option FulfillmentPaymentPort) (event : EventEnvelope)
      (payload : MoveJobCompletedPayload) (current : Fulfillment)
      → AreDiscreet payments
      → Moves seen sys (run_body (complete payments event payload current) seen sys).1
  unfolding complete stage_closure
  complete-Moves payments event payload current d =
      closing-Moves _ (λ row. Unit₀)
        (settled_closure to_closed
          (settle_report payments payload.delivered current event.correlation_id)
          (λ o.
            stage_closure (reported_row payload o current) o event.correlation_id
              (some event.event_id) "fulfillment.closed")
          (λ o. reported_row payload o current) event.correlation_id (some event.event_id)
          (λ o.
            audit_entry "fulfillment.closed" (reported_row payload o current) event.correlation_id
              [])
          seen sys.next_id (λ row. Unit₀)
          (report-Settles payments payload.delivered current event.correlation_id d)
          (λ o staged. refl) (λ o. report-IsClosed payload o current) (λ o. tt))
