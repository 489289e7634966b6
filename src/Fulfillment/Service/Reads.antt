-- ===== src/Fulfillment/Service/Reads.antt =====
-- src/modules/fulfillment/service.ts: the reads for reconciliation.
use wasla_core.Base.{
  ℕ, String, Option, none, some, Bool, true, not, ◌&&◌, List, [], ◌∷◌, is_some, filter, ◌==◌,
  if◌then◌else◌,
}
use wasla_core.Base.Int.{ℤ}
use wasla_core.Fulfillment.Domain.{
  Fulfillment, FulfillmentStatus, SettlementState, is_closed, is_financially_consistent,
  requires_financial_decision,
}
use wasla_core.Fulfillment.Payments.{
  Coordination, FulfillmentPaymentPort, HoldInspection, inspect_hold,
}
use wasla_core.Fulfillment.Service.{or_text}
use wasla_core.Fulfillment.Store.{Core, all_fulfillments, same_status}
use wasla_core.Money.Ages.{ages, counts}
use wasla_core.Base.Table.{values}
use wasla_core.Platform.Ids.{IdText, uuid}

-- `!organizationId || item.organization_id === organizationId`
abbrev pub is_within : Option ℕ → Fulfillment → Bool
is_within none f = true
is_within (some organization_id) f = f.organization_id == organization_id

unfoldable pub list_financially_inconsistent : Option ℕ → Coordination → List Fulfillment
unfolding all_fulfillments is_financially_consistent
list_financially_inconsistent organization_id sys =
    filter (λ f. not (is_financially_consistent f))
      (filter (is_within organization_id) (all_fulfillments sys.store))

unfoldable pub list_pending_financial_decision : Option ℕ → Coordination → List Fulfillment
unfolding all_fulfillments requires_financial_decision
list_pending_financial_decision organization_id sys =
    filter requires_financial_decision
      (filter (is_within organization_id) (all_fulfillments sys.store))

pub record StaleHold : Type 0 where
  pub fulfillment : Fulfillment
  pub reason : String
  pub hold_captured_minor : Option ℤ
  pub settlement_state_if_closed : SettlementState

abbrev pub declared_hold : Fulfillment → Option IdText
declared_hold f = elim f.payment_authorization_id [
  | none ↦ none
  | some authorization_id ↦ some (uuid authorization_id)
]

abbrev pub is_open_and_funded : Option ℕ → Fulfillment → Bool
is_open_and_funded organization_id f =
    not (is_closed f.status) && is_some f.payment_authorization_id && is_within organization_id f

abbrev pub stale_hold : Fulfillment → HoldInspection → StaleHold
stale_hold f hold = record {
  fulfillment = f;
  reason = or_text hold.reason "payment_hold_unusable";
  hold_captured_minor = hold.captured_minor;
  settlement_state_if_closed = hold.settlement;
}

-- The loop of `listStaleHolds`.
unfoldable pub stale_holds :
    Option FulfillmentPaymentPort → Coordination → List Fulfillment → List StaleHold
unfolding inspect_hold
stale_holds payments sys [] = []
stale_holds payments sys (f ∷ fs) =
    let rest = stale_holds payments sys fs in
    let hold = inspect_hold payments (declared_hold f) sys in
    if hold.usable then rest else stale_hold f hold ∷ rest

unfoldable pub list_stale_holds :
    Option FulfillmentPaymentPort → Option ℕ → Coordination → List StaleHold
unfolding stale_holds all_fulfillments
list_stale_holds payments organization_id sys =
    stale_holds payments sys
      (filter (is_open_and_funded organization_id) (all_fulfillments sys.store))

abbrev has_status : Fulfillment → FulfillmentStatus → Bool
has_status f status = same_status f.status status

-- `countByStatus` and `oldestAgeByStatus`, as functions of the status.
unfoldable pub count_by_status : Core → FulfillmentStatus → ℕ
unfolding counts
count_by_status s = counts has_status (λ f. f.created_at) 0 (values s.fulfillments) (λ status. 0)

unfoldable pub oldest_age_by_status : ℕ → Core → FulfillmentStatus → Option ℤ
unfolding ages
oldest_age_by_status now s =
    ages has_status (λ f. f.created_at) now (values s.fulfillments) (λ status. none)
