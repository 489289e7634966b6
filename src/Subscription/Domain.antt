-- ===== src/Subscription/Domain.antt =====
-- src/modules/subscription/domain.ts. Instants are milliseconds; limits, quantities and totals are natural
-- numbers, as the rules of the tables have it.
use wasla_core.Base.{
  ℕ, ◌+◌, ◌-◌, String, Option, none, some, Bool, true, false, not, ◌&&◌, leb, ltb, if◌then◌else◌,
}
use wasla_core.Money.Domain.{JsNumber, int, no_integer, max_safe_integer}
use wasla_core.Base.Int.{pos, negsuc}

pub data SubscriptionOwnerType : Type 0 where
  identity organization : SubscriptionOwnerType

pub data SubscriptionStatus : Type 0 where
  active past_due cancelled expired : SubscriptionStatus

pub data PeriodStatus : Type 0 where
  pending settled uncollectible voided : PeriodStatus

pub data BillingInterval : Type 0 where
  day week month year : BillingInterval

pub data PlanStatus : Type 0 where
  draft active_plan retired : PlanStatus

pub record Plan : Type 0 where
  pub plan_id : ℕ
  pub code : String
  pub name : String
  pub currency : String
  pub amount_minor : ℕ
  pub billing_interval : BillingInterval
  pub interval_count : ℕ
  pub status : PlanStatus
  pub created_at : ℕ
  pub activated_at : Option ℕ
  pub retired_at : Option ℕ

pub record PlanGrant : Type 0 where
  pub plan_id : ℕ
  pub feature_key : String
  -- Where there is none, the grant is not metered.
  pub limit_value : Option ℕ

pub record Subscription : Type 0 where
  pub subscription_id : ℕ
  pub owner_type : SubscriptionOwnerType
  pub owner_id : ℕ
  pub plan_id : ℕ
  pub wallet_id : ℕ
  pub status : SubscriptionStatus
  pub created_at : ℕ
  pub cancelled_at : Option ℕ
  pub cancel_reason : Option String
  pub ended_at : Option ℕ

pub record SubscriptionPeriod : Type 0 where
  pub period_id : ℕ
  pub subscription_id : ℕ
  pub sequence : ℕ
  pub starts_at : ℕ
  pub ends_at : ℕ
  pub currency : String
  pub amount_minor : ℕ
  pub status : PeriodStatus
  pub authorization_id : Option ℕ
  pub created_at : ℕ
  pub settled_at : Option ℕ
  pub uncollectible_reason : Option String

pub record UsageRecord : Type 0 where
  pub usage_id : ℕ
  pub period_id : ℕ
  pub feature_key : String
  pub quantity : ℕ
  pub usage_reference : String
  pub recorded_at : ℕ
  pub correlation_id : Option String

pub data EntitlementReason : Type 0 where
  granted no_subscription subscription_past_due subscription_expired : EntitlementReason
  no_current_period period_unpaid not_in_plan limit_exhausted : EntitlementReason

pub record EntitlementDecision : Type 0 where
  pub allowed : Bool
  pub reason : EntitlementReason
  pub feature_key : String
  pub subscription_id : Option ℕ
  pub period_id : Option ℕ
  pub limit_value : Option ℕ
  pub used : ℕ
  pub remaining : Option ℕ

pub record EntitlementInput : Type 0 where
  pub feature_key : String
  pub quantity : ℕ
  pub subscription : Option Subscription
  pub period : Option SubscriptionPeriod
  pub grant : Option PlanGrant
  pub used : ℕ

-- `Number.isSafeInteger(quantity) && quantity > 0`, with the quantity.
unfoldable pub positive_quantity : JsNumber → Option ℕ
positive_quantity no_integer = none
positive_quantity (int (negsuc n)) = none
positive_quantity (int (pos n)) = if ltb 0 n && leb n max_safe_integer then some n else none

-- `periodCovers`
abbrev pub period_covers : SubscriptionPeriod → ℕ → Bool
period_covers period at = leb period.starts_at at && ltb at period.ends_at

abbrev pub is_settled : PeriodStatus → Bool
is_settled settled = true
is_settled _ = false

-- `periodIsPaid`
abbrev pub period_is_paid : SubscriptionPeriod → Bool
period_is_paid period = is_settled period.status

-- The decision with the facts that every answer reports.
abbrev pub base_decision : EntitlementInput → Bool → EntitlementReason → EntitlementDecision
base_decision input allowed reason = record {
  allowed = allowed;
  reason = reason;
  feature_key = input.feature_key;
  subscription_id = elim input.subscription [ none ↦ none | some s ↦ some s.subscription_id ];
  period_id = elim input.period [ none ↦ none | some p ↦ some p.period_id ];
  limit_value = elim input.grant [ none ↦ none | some g ↦ g.limit_value ];
  used = input.used;
  remaining = none;
}

-- What a grant with a limit answers; `quantity > limit - used` holds where the sum passes the limit.
abbrev pub decide_metered : EntitlementInput → ℕ → EntitlementDecision
decide_metered input limit =
    let remaining = some (limit - input.used) in
    if ltb limit (input.used + input.quantity)
    then record (base_decision input false limit_exhausted) { remaining = remaining }
    else record (base_decision input true granted) { remaining = remaining }

abbrev pub decide_grant : EntitlementInput → Option PlanGrant → EntitlementDecision
decide_grant input none = base_decision input false not_in_plan
decide_grant input (some grant) = elim grant.limit_value [
  | none ↦ base_decision input true granted
  | some limit ↦ decide_metered input limit
]

abbrev pub decide_period : EntitlementInput → Option SubscriptionPeriod → EntitlementDecision
decide_period input none = base_decision input false no_current_period
decide_period input (some period) =
    if not (period_is_paid period)
    then base_decision input false period_unpaid
    else decide_grant input input.grant

abbrev pub decide_status : EntitlementInput → SubscriptionStatus → EntitlementDecision
decide_status input past_due = base_decision input false subscription_past_due
decide_status input expired = base_decision input false subscription_expired
decide_status input _ = decide_period input input.period

-- `decideEntitlement`
unfoldable pub decide_entitlement : EntitlementInput → EntitlementDecision
decide_entitlement input = elim input.subscription [
  | none ↦ record (base_decision input false no_subscription) { limit_value = none }
  | some subscription ↦ decide_status input subscription.status
]
