-- ===== src/Fulfillment/Unreleased.antt =====
-- src/modules/fulfillment/service.ts: a cancellation whose hold cannot be released.
use Prim.Native.String.{◌++◌ as concat}
use wasla_core.Base.{ℕ, ◌+◌, String, Option, none, some, false, ◌≡◌, sym, subst, [], ◌∷◌, arith}
use wasla_core.Base.Table.{get, put}
use wasla_core.Fulfillment.Domain.{Fulfillment, cancelled, unsettled, is_closed, open_statuses}
use wasla_core.Fulfillment.Moves.{rows}
use wasla_core.Fulfillment.Moves.Settling.{blank}
use wasla_core.Fulfillment.Payments.{
  Coordination, FulfillmentPaymentPort, money_of_core, inconsistency, release, unsettled_hold,
}
use wasla_core.Fulfillment.Service.{
  run_body, commit_body, require, closed_row, audit_entry, stage_closure, close_within, emit_event,
  transition_mutation,
}
use wasla_core.Fulfillment.Service.Jobs.{CancelInput, cancel, cancel_open}
use wasla_core.Fulfillment.Store.{rules_refusal, references_refusal, put_row, update_if_status_in}
use wasla_core.Platform.Audit.{PendingAuditEntry}
use wasla_core.Platform.Errors.{Failure, Result, ok, err}
use wasla_core.Platform.Texts.{trim, is_empty_text}
use wasla_core.Platform.UnitOfWork.{record_all, commit, run_mutations, verify, ◌>>=◌}
use wasla_core.Platform.UnitOfWork.Parts.{within}

cancelled_rules :
    (now : ℕ) (reason : Option String) (f : Fulfillment)
    → is_closed f.status ≡ false
    → rules_refusal f ≡ none
    → rules_refusal (closed_row now cancelled reason unsettled f) ≡ none
unfolding rules_refusal
cancelled_rules now reason f open_ h = ground arith

module _ (port : FulfillmentPaymentPort) (input : CancelInput) (sys : Coordination)
    (f : Fulfillment) (hold : ℕ) (e : Failure)
    (stored : get input.fulfillment_id (rows sys) ≡ some f)
    (own : f.fulfillment_id ≡ input.fulfillment_id) (open_ : is_closed f.status ≡ false)
    (funded : f.payment_authorization_id ≡ some hold) (said : is_empty_text input.reason ≡ false)
    (ruled : rules_refusal f ≡ none) (referred : references_refusal f sys.store ≡ none)
    (fails : port.void_within hold
        (concat "cancelled:" (trim input.reason))
        input.correlation_id
        (money_of_core sys)
        (blank sys.next_id)
      ≡ err e) where
  abbrev closed : Fulfillment
  closed = closed_row sys.now cancelled (some (trim input.reason)) unsettled f

  abbrev entry : PendingAuditEntry
  entry = inconsistency f hold (concat "cancelled:" (trim input.reason)) input.correlation_id e

  unreleased :
      release
        (some port)
        f
        (concat "cancelled:" (trim input.reason))
        input.correlation_id
        sys
        (blank sys.next_id)
      ≡ ok (unsettled_hold entry, blank sys.next_id)
  unfolding release within
  unreleased = ground (arith, funded, fails)

  body_result :
      cancel_open (some port) input f sys (blank sys.next_id)
      ≡ close_within f cancelled
          (some (trim input.reason))
          (unsettled_hold entry)
          input.correlation_id
          none
          sys
          (blank sys.next_id)
  unfolding cancel_open ◌>>=◌
  body_result = ground (arith, unreleased)

  written :
      transition_mutation closed open_statuses (record { store = sys.store; deferred = [] })
      ≡ ok (record {
        store = record sys.store { fulfillments = put f.fulfillment_id closed (rows sys) };
        deferred = [];
      })
  unfolding transition_mutation update_if_status_in put_row references_refusal
  written =
      let rules = cancelled_rules sys.now (some (trim input.reason)) f open_ ruled in
      let here : get f.fulfillment_id (rows sys) ≡ some f =
        subst (λ k. get k (rows sys) ≡ some f) (sym own) stored in
      ground (arith, here, open_, rules, referred)

  abbrev Unreleased : Result Fulfillment × Coordination → Type 0
  Unreleased r =
      (r.0 ≡ ok closed)
      × (r.1.store ≡ record sys.store { fulfillments = put f.fulfillment_id closed (rows sys) })
      × (r.1.audit_log
          ≡ record_all (sys.next_id + 1 + 1) sys.now
              (audit_entry "fulfillment.cancelled" closed input.correlation_id [] ∷ [])
              (record_all (sys.next_id + 1) sys.now (entry ∷ []) sys.audit_log))

  committed : Unreleased (
      commit_body
        (close_within f cancelled
          (some (trim input.reason))
          (unsettled_hold entry)
          input.correlation_id
          none
          sys
          (blank sys.next_id))
        sys)
  unfolding close_within stage_closure emit_event ◌>>=◌ commit run_mutations verify
  committed = ground (arith, written)

  transaction_result : Unreleased (run_body (cancel_open (some port) input f) sys sys)
  unfolding run_body
  transaction_result = subst (λ r. Unreleased (commit_body r sys)) (sym body_result) committed

  -- Where the port refuses to void the hold of an open fulfillment that the store admits, a cancellation with a
  -- reason still succeeds: the fulfillment is cancelled as unsettled, no other row and nothing of the money
  -- module changes, and the audit trail has an entry with the refusal in front of the cancellation's.
  pub cancel-Unreleased : Unreleased (cancel (some port) input sys sys)
  unfolding cancel require
  cancel-Unreleased = ground (arith, stored, said, open_, transaction_result)
