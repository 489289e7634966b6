-- ===== src/Fulfillment/Repeats.antt =====
-- src/modules/fulfillment/service.ts: an order that is delivered again.
use text.Mathlib.Text.{◌==◌ as str_eq}
use text.Mathlib.TextPositions.{eq_refl}
use wasla_core.Base.{
  String, Option, none, some, Bool, ◌≡◌, Option-cases, sym, ap, subst, ◌∙◌, ◌⊎◌, inl, inr, arith,
}
use wasla_core.Base.Table.{get, put, values, values-put_new, get-above}
use wasla_core.Eventing.Envelope.{EventEnvelope}
use wasla_core.Fulfillment.Domain.{Fulfillment}
use wasla_core.Fulfillment.Moves.{
  rows, IsTidy, Prepared, Committed, unchanged, written, commit-Committed,
}
use wasla_core.Fulfillment.Moves.Intakes.{Taken, take_order-Prepared}
use wasla_core.Fulfillment.Moves.Settling.{AreDiscreet}
use wasla_core.Fulfillment.Moves.Writes.{intake_mutation-ok}
use wasla_core.Fulfillment.Payments.{Coordination, FulfillmentPaymentPort, inspect_hold}
use wasla_core.Fulfillment.Service.{
  Body, run_body, commit_body, intake, when_taken, intake_mutation,
}
use wasla_core.Fulfillment.Service.Intake.{
  MarketOrderCreatedPayload, consume_market_order, take_order,
}
use wasla_core.Fulfillment.Store.{Core, find_by_order_reference}
use wasla_core.Fulfillment.Turn.Invariant.{fulfillment_key}
use wasla_core.Money.Store.{find}
use wasla_core.Money.Retry.{find-append}
use wasla_core.Platform.Errors.{
  Result, ok, err, transition_lost, intake_lost, core, plain, conflict,
}

-- A new row for an order that had none is found by the order's reference.
new_row-found :
    (f : Fulfillment) (reference : String) (s s' : Core)
    → f.market_order_reference ≡ reference
    → find_by_order_reference f.market_order_reference s ≡ none
    → get f.fulfillment_id s.fulfillments ≡ none
    → s'.fulfillments ≡ put f.fulfillment_id f s.fulfillments
    → find_by_order_reference reference s' ≡ some f
unfolding find_by_order_reference
new_row-found f reference s s' same none_yet free done =
    let p : Fulfillment → Bool = λ x. str_eq x.market_order_reference f.market_order_reference in
    ap (λ r. find (λ x. str_eq x.market_order_reference r) (values s'.fulfillments)) (sym same)
    ∙ ap (λ t. find p (values t)) done
    ∙ ap (find p) (values-put_new f.fulfillment_id f s.fulfillments free)
    ∙ find-append p (values s.fulfillments) f none_yet (eq_refl f.market_order_reference)

-- What a delivery comes to: nothing changes among the fulfillments, or the answer is found again.
abbrev Settled : String → Coordination → Result Fulfillment × Coordination → Type 0
Settled reference sys r =
    (rows r.1 ≡ rows sys)
    ⊎ ((f : Fulfillment) × (r.0 ≡ ok f) × (find_by_order_reference reference r.1.store ≡ some f))

prepared-Settled :
    (body : Body) (reference : String) (seen sys : Coordination)
    → IsTidy sys
    → Prepared body seen sys.next_id intake_mutation (Taken sys.next_id reference)
    → Settled reference sys (run_body body seen sys)
unfolding run_body
prepared-Settled body reference seen sys tidy p =
    subst (λ r. Settled reference sys (commit_body r sys)) (sym p.result)
      (by_commit _
        (commit-Committed (intake_mutation p.row) p.row p.staged p.recorded sys p.ends p.later))
  where
    by_commit :
        (r : Result Fulfillment × Coordination)
        → Committed (intake_mutation p.row) p.row p.staged sys r
        → Settled reference sys r
    by_commit r (unchanged e thrown same out le) = inl same
    by_commit r (written mid done start runs answer same out le) =
        let (none_yet, put_) = intake_mutation-ok p.row mid done runs in
        inr (
          p.row,
          answer,
          new_row-found p.row reference mid.store r.1.store p.out.1 none_yet
              (subst (λ t. get p.row.fulfillment_id t ≡ none) (sym start)
                (get-above fulfillment_key sys.next_id p.row.fulfillment_id (rows sys) tidy.keyed
                  tidy.below (omega (arith, p.out.0))))
              (same ∙ put_),
        )

taken-Settled :
    (reference : String) (sys : Coordination) (r : Result Fulfillment × Coordination)
    → Settled reference sys r
    → Settled reference sys (when_taken r)
taken-Settled reference sys (ok answer, sys') h = h
taken-Settled reference sys (err (intake_lost other), sys') (inr (f, answer, found)) =
    absurd (ground (arith, answer))
taken-Settled reference sys (err (intake_lost other), sys') (inl same) =
    inl (by_row (find_by_order_reference other sys'.store))
  where
    by_row :
        (r : Option Fulfillment)
        → rows
            (elim r as (λ _. Result Fulfillment × Coordination) [
              | some winner ↦ (ok winner, sys')
              | none ↦ (err (conflict "fulfillment for this order is not readable yet"), sys')
            ]).1
          ≡ rows sys
    by_row none = same
    by_row (some winner) = same
taken-Settled reference sys (err (transition_lost k), sys') h = h
taken-Settled reference sys (err (core e), sys') h = h
taken-Settled reference sys (err (plain message), sys') h = h

-- An order's fulfillment is found in the fulfillments alone.
found_among :
    (reference : String) (f : Fulfillment) (s s' : Core)
    → s.fulfillments ≡ s'.fulfillments
    → find_by_order_reference reference s' ≡ some f
    → find_by_order_reference reference s ≡ some f
unfolding find_by_order_reference
found_among reference f s s' same found =
    ap (λ t. find (λ x. str_eq x.market_order_reference reference) (values t)) same ∙ found

-- A delivery that reads no fulfillment of the order takes it up.
unanswered :
    (payments : Option FulfillmentPaymentPort) (event : EventEnvelope)
    (payload : MarketOrderCreatedPayload) (seen sys : Coordination)
    → find_by_order_reference payload.order_id seen.store ≡ none
    → consume_market_order payments event payload seen sys
      ≡ intake
          (take_order payments event payload
            (inspect_hold payments payload.payment_authorization_id seen))
          seen
          sys
unfolding consume_market_order
unanswered payments event payload seen sys unread = ground (arith, unread)

market_order-Settled :
    (payments : Option FulfillmentPaymentPort) (event : EventEnvelope)
    (payload : MarketOrderCreatedPayload) (seen sys : Coordination)
    → AreDiscreet payments
    → IsTidy sys
    → find_by_order_reference payload.order_id seen.store ≡ none
    → Settled payload.order_id sys (consume_market_order payments event payload seen sys)
market_order-Settled payments event payload seen sys d tidy unread =
    subst (Settled payload.order_id sys) (sym (unanswered payments event payload seen sys unread)) (
      taken-Settled payload.order_id sys (run_body body seen sys)
        (elim (take_order-Prepared seen sys payments event payload
          (inspect_hold payments payload.payment_authorization_id seen) d) [
            | inl (e, thrown) ↦ inl (ap (λ r. rows r.1) (sym thrown))
            | inr p ↦ prepared-Settled body payload.order_id seen sys tidy p
          ]))
  where
    body : Body
    body =
        take_order payments event payload
          (inspect_hold payments payload.payment_authorization_id seen)

-- A delivery that reads the order's fulfillment answers it and changes nothing.
answered :
    (payments : Option FulfillmentPaymentPort) (event : EventEnvelope)
    (payload : MarketOrderCreatedPayload) (seen sys : Coordination) (f : Fulfillment)
    → find_by_order_reference payload.order_id seen.store ≡ some f
    → consume_market_order payments event payload seen sys ≡ (ok f, sys)
unfolding consume_market_order
answered payments event payload seen sys f found = ground (arith, found)

-- In a state as `IsTidy` says, and where the money module emits no closure event, the delivery of an order
-- that reads the order's fulfillment answers it and changes nothing. Any other, whatever state it read,
-- either leaves the fulfillments as they were, or answers the order's fulfillment, and then a delivery of the
-- order that reads the fulfillments as this one left them, whatever else the state it reads has and whatever
-- was committed since, answers that fulfillment again and changes nothing.
pub repeat_intake :
    (payments : Option FulfillmentPaymentPort) (event : EventEnvelope)
    (payload : MarketOrderCreatedPayload) (seen sys : Coordination)
    → AreDiscreet payments
    → IsTidy sys
    → let done = consume_market_order payments event payload seen sys in
      let read_before = find_by_order_reference payload.order_id seen.store in
      ((f : Fulfillment) × (read_before ≡ some f) × (done ≡ (ok f, sys)))
      ⊎ ((read_before ≡ none) × (rows done.1 ≡ rows sys))
      ⊎ ((read_before ≡ none)
          × ((f : Fulfillment) × (done.0 ≡ ok f)
              × ((again : EventEnvelope) (read present : Coordination)
                  → rows read ≡ rows done.1
                  → consume_market_order payments again payload read present ≡ (ok f, present))))
repeat_intake payments event payload seen sys d tidy =
    elim (Option-cases (find_by_order_reference payload.order_id seen.store)) [
      | inr (f, found) ↦ inl (f, found, answered payments event payload seen sys f found)
      | inl unread ↦ elim (market_order-Settled payments event payload seen sys d tidy unread) [
        | inl same ↦ inr (inl (unread, same))
        | inr (f, answer, found) ↦ inr (
            inr (
              unread,
              (
                f,
                answer,
                λ again read present same. answered payments again payload read present f (
                    found_among payload.order_id f read.store
                      (consume_market_order payments event payload seen sys).1.store same found),
              ),
            ))
      ]
    ]
