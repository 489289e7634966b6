-- ===== src/Fulfillment/Moves/Intakes.antt =====
-- src/modules/fulfillment/service.ts: the intake of an order makes a new row, open or closed at once.
use Prim.Native.String.{◌++◌ as concat}
use wasla_core.Base.{
  ℕ, ◌+◌, ◌<◌, String, Option, some, ◌≡◌, refl, sym, ap, subst, ◌∙◌, ◌⊎◌, inl, inr, List, [], ◌∷◌,
  arith, Bool-cases,
}
use wasla_core.Base.Table.{put}
use wasla_core.Base.Values.{text, id}
use wasla_core.Eventing.Envelope.{EventEnvelope}
use wasla_core.Fulfillment.Domain.{
  Fulfillment, failed, is_closed, SettlementState, unfunded, held, captured, partially_captured,
  released, unsettled,
}
use wasla_core.Fulfillment.Moves.{Moves, still, rows, Prepared}
use wasla_core.Fulfillment.Moves.Bodies.{noted, ClosesRow, settled_closure}
use wasla_core.Fulfillment.Moves.Commands.{run_body-Moves}
use wasla_core.Fulfillment.Moves.Settling.{
  AreDiscreet, Settles, release-Settles, blank, blank-OnlyMoney,
}
use wasla_core.Fulfillment.Moves.Writes.{intake_mutation-ok, intake_mutation-KeepsRules}
use wasla_core.Fulfillment.Payments.{
  Coordination, FulfillmentPaymentPort, HoldInspection, SettlementOutcome,
}
use wasla_core.Fulfillment.Service.{
  Body, run_body, intake_mutation, audit_entry, or_null, or_text, closed_row,
}
use wasla_core.Fulfillment.Service.Intake.{
  MarketOrderCreatedPayload, take_order, accept_order, refuse_order, refuse_settled,
  new_fulfillment, row_reference, release_if_held, as_inspected, unresolved,
}
use wasla_core.Fulfillment.Turn.{Turn, opens, refuses, Quiets, Announces, IsOpen, IsClosed}
use wasla_core.Fulfillment.Store.{CoreScope}
use wasla_core.Platform.Errors.{Failure, Result, err, Result-cases}
use wasla_core.Platform.UnitOfWork.{◌>>=◌}

-- A row with the identifier and the order of another.
abbrev Of : Fulfillment → Fulfillment → Type 0
Of f row =
    (row.fulfillment_id ≡ f.fulfillment_id)
    × (row.market_order_reference ≡ f.market_order_reference)

module _ (seen : Coordination) (n : ℕ) where
  release_if_held-Settles :
      (settlement : SettlementState) (payments : Option FulfillmentPaymentPort) (f : Fulfillment)
      (hold : HoldInspection) (correlation_id : String)
      → AreDiscreet payments
      → Settles (release_if_held settlement payments f hold correlation_id) seen n
  release_if_held-Settles held payments f hold correlation_id d =
      release-Settles payments f (concat "refused:" (or_text hold.reason "null")) correlation_id
        seen n d
  release_if_held-Settles unfunded payments f hold correlation_id d =
      (as_inspected hold, blank n, refl, blank-OnlyMoney n)
  release_if_held-Settles captured payments f hold correlation_id d =
      (as_inspected hold, blank n, refl, blank-OnlyMoney n)
  release_if_held-Settles partially_captured payments f hold correlation_id d =
      (as_inspected hold, blank n, refl, blank-OnlyMoney n)
  release_if_held-Settles released payments f hold correlation_id d =
      (as_inspected hold, blank n, refl, blank-OnlyMoney n)
  release_if_held-Settles unsettled payments f hold correlation_id d =
      (as_inspected hold, blank n, refl, blank-OnlyMoney n)

  accept-Prepared :
      (event : EventEnvelope) (payload : MarketOrderCreatedPayload) (f : Fulfillment)
      → Prepared
          (accept_order event payload f)
          seen
          n
          intake_mutation
          (λ row n' es. (row ≡ f) × Quiets n' es)
  unfolding accept_order
  accept-Prepared event payload f =
      noted f intake_mutation "core.fulfillment.created" event.correlation_id (some event.event_id)
        f.fulfillment_id
        (("fulfillment_id", id f.fulfillment_id)
          ∷ ("organization_id", id f.organization_id)
          ∷ ("order_reference", text f.market_order_reference)
          ∷ ("requested_service", text payload.requested_service)
          ∷ [])
        (audit_entry "fulfillment.created" f event.correlation_id []) seen n refl

  refuse-Prepared :
      (payments : Option FulfillmentPaymentPort) (event : EventEnvelope)
      (payload : MarketOrderCreatedPayload) (hold : HoldInspection) (f : Fulfillment)
      → AreDiscreet payments
      → Prepared
          (refuse_order payments event payload hold f)
          seen
          n
          intake_mutation
          (λ row n' es. ClosesRow (Of f) row n n' es)
  unfolding refuse_order refuse_settled ◌>>=◌
  refuse-Prepared payments event payload hold f d =
      let row_of : SettlementOutcome → Fulfillment =
        λ o. closed_row seen.now failed hold.reason o.settlement f in
      settled_closure intake_mutation
        (release_if_held hold.settlement payments f hold event.correlation_id)
        (refuse_settled event payload hold f) row_of event.correlation_id (some event.event_id)
        (λ o. audit_entry "fulfillment.refused" (row_of o) event.correlation_id (
          ("refusal_reason", or_null text hold.reason)
          ∷ unresolved hold.known payload.payment_authorization_id))
        seen n (Of f)
        (release_if_held-Settles hold.settlement payments f hold event.correlation_id d)
        (λ o staged. refl) (λ o. refl) (λ o. (refl, refl))

-- A body that takes the next identifier and goes on.
after_id :
    (body inner : Body) (seen : Coordination) (n : ℕ)
    (m : Fulfillment → CoreScope → Result CoreScope)
    (Out Out' : Fulfillment → ℕ → List EventEnvelope → Type 0)
    → body seen (blank n) ≡ inner seen (blank (n + 1))
    → ((row : Fulfillment) (n' : ℕ) (es : List EventEnvelope)
        → n < n'
        → Out row n' es
        → Out' row n' es)
    → Prepared inner seen (n + 1) m Out
    → Prepared body seen n m Out'
after_id body inner seen n m Out Out' same weaken p = record {
  row = p.row;
  recorded = p.recorded;
  staged = p.staged;
  result = same ∙ p.result;
  ends = p.ends;
  later = omega (arith, p.later);
  out = weaken p.row p.staged.next_id p.staged.events (omega (arith, p.later)) p.out;
}

Announces-weaken :
    (k n n' : ℕ) (es : List EventEnvelope) → Announces k (n + 1) n' es → Announces k n n' es
Announces-weaken k n n' es a = record {
  before = a.before;
  closure = a.closure;
  events = a.events;
  quiet = a.quiet;
  fresh = omega (arith, a.fresh);
  used = a.used;
  named = a.named;
  about = a.about;
}

refused_body :
    (seen sys : Coordination) (payments : Option FulfillmentPaymentPort) (event : EventEnvelope)
    (payload : MarketOrderCreatedPayload) (hold : HoldInspection) (e : Failure)
    → row_reference hold.known payload.payment_authorization_id ≡ err e
    → (err e, sys) ≡ run_body (take_order payments event payload hold) seen sys
unfolding take_order ◌>>=◌ run_body
refused_body seen sys payments event payload hold e refused = ground (arith, refused)

-- The row that an intake makes for an order, under a new identifier.
abbrev pub Taken : ℕ → String → Fulfillment → ℕ → List EventEnvelope → Type 0
Taken n reference row n' es =
    (row.fulfillment_id ≡ n)
    × (row.market_order_reference ≡ reference)
    × (n < n')
    × ((IsOpen row × Quiets n' es) ⊎ (IsClosed row × Announces row.fulfillment_id n n' es))

module _ (seen sys : Coordination) where
  -- An intake is refused before it stages anything, or it is prepared.
  pub take_order-Prepared :
      (payments : Option FulfillmentPaymentPort) (event : EventEnvelope)
      (payload : MarketOrderCreatedPayload) (hold : HoldInspection)
      → AreDiscreet payments
      → ((e : Failure) × ((err e, sys)
            ≡ run_body (take_order payments event payload hold) seen sys))
        ⊎ Prepared
            (take_order payments event payload hold)
            seen
            sys.next_id
            intake_mutation
            (Taken sys.next_id payload.order_id)
  unfolding take_order ◌>>=◌
  take_order-Prepared payments event payload hold d =
      elim (Result-cases (row_reference hold.known payload.payment_authorization_id)) [
        | inr (e, refused) ↦ inl (e, refused_body seen sys payments event payload hold e refused)
        | inl (reference, known) ↦
            let f = new_fulfillment sys.next_id seen.now payload reference hold.settlement in
            elim (Bool-cases hold.usable) [
              | inl usable ↦ inr (
                  after_id (take_order payments event payload hold) (accept_order event payload f)
                    seen sys.next_id _ _ _ (ground (arith, known, usable))
                    (λ row n' es lt (same, quiet). (
                      ap (λ x. x.fulfillment_id) same,
                      ap (λ x. x.market_order_reference) same,
                      lt,
                      inl (ap (λ x. is_closed x.status) same, quiet),
                    ))
                    (accept-Prepared seen (sys.next_id + 1) event payload f))
              | inr unusable ↦ inr (
                  after_id (take_order payments event payload hold)
                    (refuse_order payments event payload hold f) seen sys.next_id _ _ _
                    (ground (arith, known, unusable))
                    (λ row n' es lt (closed, (key, reference), a). (
                      key,
                      reference,
                      lt,
                      inr (closed, Announces-weaken row.fulfillment_id sys.next_id n' es a),
                    ))
                    (refuse-Prepared seen (sys.next_id + 1) payments event payload hold f d))
            ]
      ]

  intake-Moves :
      (body : Body) (reference : String)
      → Prepared body seen sys.next_id intake_mutation (Taken sys.next_id reference)
      → Moves seen sys (run_body body seen sys).1
  intake-Moves body reference p =
      run_body-Moves seen sys body _ _ p intake_mutation-KeepsRules
        (λ row n' es mid done (key, of_order, lt, kind) start runs.
          subst (Turn (rows seen) (rows sys) sys.next_id n' es)
            (sym ((intake_mutation-ok row mid done runs).1 ∙ ap (put row.fulfillment_id row) start))
            (elim kind [
              | inl (open_, quiet) ↦ opens row (omega (arith, key)) (omega (arith, key)) open_ quiet
              | inr (closed, a) ↦ refuses row (omega (arith, key)) (omega (arith, key)) closed a
            ]))

  pub take_order-Moves :
      (payments : Option FulfillmentPaymentPort) (event : EventEnvelope)
      (payload : MarketOrderCreatedPayload) (hold : HoldInspection)
      → AreDiscreet payments
      → Moves seen sys (run_body (take_order payments event payload hold) seen sys).1
  take_order-Moves payments event payload hold d =
      elim (take_order-Prepared payments event payload hold d) [
        | inl (e, refused) ↦ subst (λ r. Moves seen sys r.1) refused (still seen sys)
        | inr p ↦ intake-Moves (take_order payments event payload hold) payload.order_id p
      ]
