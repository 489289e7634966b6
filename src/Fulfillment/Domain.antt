-- ===== src/Fulfillment/Domain.antt =====
-- src/modules/fulfillment/domain.ts
use wasla_core.Base.{
  ℕ, String, Option, Bool, true, false, not, List, [], ◌∷◌, is_some, filter, if◌then◌else◌,
}

pub data FulfillmentStatus : Type 0 where
  coordinating dispatched completed failed cancelled : FulfillmentStatus

-- Where the money that guards a fulfillment stands. `unfunded` is the source's `none`.
pub data SettlementState : Type 0 where
  unfunded held captured partially_captured released unsettled : SettlementState

pub record Fulfillment : Type 0 where
  pub fulfillment_id : ℕ
  pub organization_id : ℕ
  pub market_order_reference : String
  pub move_job_reference : Option String
  pub payment_authorization_id : Option ℕ
  pub status : FulfillmentStatus
  pub settlement_state : SettlementState
  pub created_at : ℕ
  pub completed_at : Option ℕ
  pub closure_reason : Option String
  pub executed_after_cancellation_at : Option ℕ
  pub executed_after_cancellation_job_reference : Option String

abbrev pub is_closed : FulfillmentStatus → Bool
is_closed coordinating = false
is_closed dispatched = false
is_closed completed = true
is_closed failed = true
is_closed cancelled = true

-- `ALL_STATUSES` and `OPEN_STATUSES`
abbrev pub all_statuses : List FulfillmentStatus
all_statuses = coordinating ∷ dispatched ∷ completed ∷ failed ∷ cancelled ∷ []

abbrev pub open_statuses : List FulfillmentStatus
open_statuses = filter (λ status. not (is_closed status)) all_statuses

pub data FinancialDisposition : Type 0 where
  no_money awaiting_execution settled decision_required inconsistent : FinancialDisposition

-- The branch of `financialDisposition` for open work.
abbrev pub open_disposition : SettlementState → FinancialDisposition
open_disposition unfunded = no_money
open_disposition held = awaiting_execution
open_disposition _ = inconsistent

-- Its branch for work that was delivered, and for work that was not.
abbrev pub delivered_disposition : SettlementState → FinancialDisposition
delivered_disposition captured = settled
delivered_disposition partially_captured = settled
delivered_disposition _ = inconsistent

abbrev pub undelivered_disposition : SettlementState → FinancialDisposition
undelivered_disposition released = settled
undelivered_disposition partially_captured = decision_required
undelivered_disposition _ = inconsistent

abbrev pub by_outcome : FulfillmentStatus → SettlementState → FinancialDisposition
by_outcome completed settlement = delivered_disposition settlement
by_outcome _ settlement = undelivered_disposition settlement

-- The branch for closed work; the flag says whether it was executed after its cancellation.
abbrev pub closed_disposition : FulfillmentStatus → Bool → SettlementState → FinancialDisposition
closed_disposition status executed held = inconsistent
closed_disposition status executed unfunded = if executed then decision_required else no_money
closed_disposition status executed settlement =
    if executed then decision_required else by_outcome status settlement

abbrev pub disposition_of : FulfillmentStatus → Bool → SettlementState → FinancialDisposition
disposition_of status executed unsettled = inconsistent
disposition_of status executed settlement =
    if not (is_closed status)
    then open_disposition settlement
    else closed_disposition status executed settlement

-- `financialDisposition`
unfoldable pub financial_disposition : Fulfillment → FinancialDisposition
financial_disposition f =
    disposition_of f.status (is_some f.executed_after_cancellation_at) f.settlement_state

abbrev pub is_decision_required : FinancialDisposition → Bool
is_decision_required decision_required = true
is_decision_required _ = false

-- `requiresFinancialDecision`
unfoldable pub requires_financial_decision : Fulfillment → Bool
unfolding financial_disposition
requires_financial_decision f = is_decision_required (financial_disposition f)

abbrev pub is_consistent : FinancialDisposition → Bool
is_consistent settled = true
is_consistent no_money = true
is_consistent awaiting_execution = true
is_consistent _ = false

-- `isFinanciallyConsistent`
unfoldable pub is_financially_consistent : Fulfillment → Bool
unfolding financial_disposition
is_financially_consistent f = is_consistent (financial_disposition f)
