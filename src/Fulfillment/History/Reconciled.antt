-- ===== src/Fulfillment/History/Reconciled.antt =====
-- src/modules/fulfillment/service.ts: what the reads for reconciliation list, in every history.
use wasla_core.Base.{
  ℕ, Option, none, some, Bool, true, false, not, ◌&&◌, ◌||◌, ◌≡◌, ap, List, ◌∷◌, All, All-map,
  All-filter, filter, filter-agree, is_some, arith,
}
use wasla_core.Base.Sort.{All-sort}
use wasla_core.Base.Table.{get, values, values-get}
use wasla_core.Fulfillment.Domain.{
  Fulfillment, FulfillmentStatus, failed, cancelled, SettlementState, partially_captured, unsettled,
  financial_disposition, requires_financial_decision, is_financially_consistent,
}
use wasla_core.Fulfillment.History.{History, starts, commands, others}
use wasla_core.Fulfillment.History.Closures.{AllRead, History-AllRead, perform-Kept, others-Kept}
use wasla_core.Fulfillment.Moves.{rows}
use wasla_core.Fulfillment.Moves.Settling.{AreDiscreet}
use wasla_core.Fulfillment.Payments.{Coordination, FulfillmentPaymentPort}
use wasla_core.Fulfillment.Service.Reads.{
  is_within, list_financially_inconsistent, list_pending_financial_decision,
}
use wasla_core.Fulfillment.Store.{all_fulfillments, rules_refusal, compare_created}
use wasla_core.Fulfillment.Turn.Invariant.{IsRuled, fulfillment_key}

History-IsRuled :
    (payments : Option FulfillmentPaymentPort) (sys : Coordination) (past : List Coordination)
    → AreDiscreet payments
    → History payments (sys ∷ past)
    → IsRuled (rows sys)
unfolding AllRead get
History-IsRuled payments _ _ d (starts sys none_yet nothing_sent) =
    λ k f here. absurd (ground (arith, here, ap (get k) none_yet))
History-IsRuled payments _ _ d (commands c seen sys past read run) =
    let reads = History-AllRead payments (sys ∷ past) d run in
    (perform-Kept payments c seen sys d (reads.1 seen read)).ruled
      (History-IsRuled payments sys past d run)
History-IsRuled payments _ _ d (others sys sys' past e run) =
    let reads = History-AllRead payments (sys ∷ past) d run in
    (others-Kept sys sys' e reads.0).ruled (History-IsRuled payments sys past d run)

abbrev is_unsettled : SettlementState → Bool
is_unsettled unsettled = true
is_unsettled _ = false

abbrev is_partial : SettlementState → Bool
is_partial partially_captured = true
is_partial _ = false

abbrev is_undelivered : FulfillmentStatus → Bool
is_undelivered failed = true
is_undelivered cancelled = true
is_undelivered _ = false

-- Nobody has said what becomes of the money: part of it moved for work that was not delivered, or work
-- was delivered after its cancellation.
abbrev pub is_open_question : Fulfillment → Bool
is_open_question f =
    is_some f.executed_after_cancellation_at
    || is_undelivered f.status && is_partial f.settlement_state

consistent_row :
    (f : Fulfillment)
    → rules_refusal f ≡ none
    → not (is_financially_consistent f) ≡ is_unsettled f.settlement_state || is_open_question f
unfolding rules_refusal is_financially_consistent financial_disposition
consistent_row f h = ground arith

decided_row :
    (f : Fulfillment)
    → rules_refusal f ≡ none
    → requires_financial_decision f ≡ not (is_unsettled f.settlement_state) && is_open_question f
unfolding rules_refusal requires_financial_decision financial_disposition
decided_row f h = ground arith

-- In every run of the commands, stale reads and the work of other modules included, the reconciliation read
-- lists the fulfillments whose settlement failed or whose money is an open question, in the order
-- of their creation, and the read of pending decisions lists those of them whose settlement did not fail, where
-- the money module emits no closure event.
pub reconciled :
    (payments : Option FulfillmentPaymentPort) (sys : Coordination) (past : List Coordination)
    → AreDiscreet payments
    → History payments (sys ∷ past)
    → (organization_id : Option ℕ)
    → (list_financially_inconsistent organization_id sys
        ≡ filter
            (λ f. is_unsettled f.settlement_state || is_open_question f)
            (filter (is_within organization_id) (all_fulfillments sys.store)))
      × (list_pending_financial_decision organization_id sys
          ≡ filter
              (λ f. not (is_unsettled f.settlement_state) && is_open_question f)
              (filter (is_within organization_id) (all_fulfillments sys.store)))
unfolding list_financially_inconsistent list_pending_financial_decision all_fulfillments AllRead
reconciled payments sys past d run organization_id =
    let ruled = History-IsRuled payments sys past d run in
    let keyed = (History-AllRead payments (sys ∷ past) d run).0.keyed in
    let listed : All (λ f. rules_refusal f ≡ none)
        (filter (is_within organization_id) (all_fulfillments sys.store)) =
      All-filter (λ f. rules_refusal f ≡ none) (is_within organization_id)
        (all_fulfillments sys.store)
        (All-sort compare_created (λ f. rules_refusal f ≡ none) (values (rows sys))
          (All-map (λ f. get f.fulfillment_id (rows sys) ≡ some f) (λ f. rules_refusal f ≡ none)
            (λ f. ruled f.fulfillment_id f) (values (rows sys))
            (values-get fulfillment_key (rows sys) keyed))) in
    (
      filter-agree _ _ _ (All-map _ _ consistent_row _ listed),
      filter-agree _ _ _ (All-map _ _ decided_row _ listed),
    )
