-- ===== src/Subscription/Entitlement.antt =====
-- src/modules/subscription/service.ts: `checkEntitlement`.
use Prim.Native.Nat.{compare}
use wasla_core.Base.{
  ℕ, String, Option, none, some, Bool, true, false, not, ◌&&◌, List, [], ◌∷◌, if◌then◌else◌,
}
use wasla_core.Base.Sort.{sort}
use wasla_core.Money.Domain.{JsNumber}
use wasla_core.Platform.Errors.{Result, ok, err, invalid}
use wasla_core.Platform.Ids.{IdText, assert_id}
use wasla_core.Platform.UnitOfWork.{System}
use wasla_core.Subscription.Domain.{
  SubscriptionOwnerType, Subscription, SubscriptionPeriod, EntitlementReason, not_in_plan,
  EntitlementDecision, EntitlementInput, decide_entitlement, positive_quantity,
}
use wasla_core.Subscription.Store.{
  SubscriptionStore, list_subscriptions_for_owner, find_period_covering, find_grant, usage_total,
}
use wasla_core.Subscription.Usage.{At, instant_of, required_text}

pub record CheckEntitlementInput : Type 0 where
  pub owner_type : SubscriptionOwnerType
  pub owner_id : IdText
  pub feature_key : String
  pub quantity : Option JsNumber
  pub at : At

abbrev pub used_in : Option SubscriptionPeriod → String → SubscriptionStore → ℕ
used_in none feature_key s = 0
used_in (some period) feature_key s = usage_total period.period_id feature_key s

abbrev pub facts_of : String → ℕ → ℕ → SubscriptionStore → Subscription → EntitlementInput
facts_of feature_key quantity at s subscription = record {
  feature_key = feature_key;
  quantity = quantity;
  subscription = some subscription;
  period = find_period_covering subscription.subscription_id at s;
  grant = find_grant subscription.plan_id feature_key s;
  used = used_in (find_period_covering subscription.subscription_id at s) feature_key s;
}

-- The round of the loop for one subscription.
unfoldable pub decision_for :
    String → ℕ → ℕ → SubscriptionStore → Subscription → EntitlementDecision
unfolding decide_entitlement
decision_for feature_key quantity at s subscription =
    decide_entitlement (facts_of feature_key quantity at s subscription)

abbrev pub is_not_in_plan : EntitlementReason → Bool
is_not_in_plan not_in_plan = true
is_not_in_plan _ = false

-- The refusal to keep: the first, unless a later one says more than that the plan has no such feature.
abbrev pub more_informative :
    Option EntitlementDecision → EntitlementDecision → Option EntitlementDecision
more_informative none decision = some decision
more_informative (some best) decision =
    if is_not_in_plan best.reason && not (is_not_in_plan decision.reason)
    then some decision
    else some best

-- The loop of `checkEntitlement`, which the first allowance leaves.
unfoldable pub best_of :
    (Subscription → EntitlementDecision)
    → List Subscription
    → Option EntitlementDecision
    → Option EntitlementDecision
best_of decide [] best = best
best_of decide (s ∷ ss) best =
    let rest = best_of decide ss (more_informative best (decide s)) in
    if (decide s).allowed then some (decide s) else rest

abbrev pub no_subscription_decision : String → ℕ → EntitlementDecision
unfolding decide_entitlement
no_subscription_decision feature_key quantity = decide_entitlement (record {
  feature_key = feature_key;
  quantity = quantity;
  subscription = none;
  period = none;
  grant = none;
  used = 0;
})

unfoldable pub best_decision :
    SubscriptionOwnerType → ℕ → String → ℕ → ℕ → SubscriptionStore → EntitlementDecision
unfolding best_of list_subscriptions_for_owner decision_for
best_decision owner_type owner_id feature_key quantity at s =
    let ordered =
      sort (λ a b. compare a.created_at b.created_at)
        (list_subscriptions_for_owner owner_type owner_id s) in
    elim (best_of (decision_for feature_key quantity at s) ordered none) [
      | some best ↦ best
      | none ↦ no_subscription_decision feature_key quantity
    ]

-- `input.quantity ?? 1`, and the test on it.
unfoldable pub asked_quantity : Option JsNumber → Result ℕ
unfolding positive_quantity
asked_quantity none = ok 1
asked_quantity (some quantity) = elim (positive_quantity quantity) [
  | none ↦ err (invalid "quantity must be a positive integer")
  | some n ↦ ok n
]

infixl 5 ◌then_with◌
-- A step that may throw, with what follows it.
abbrev ◌then_with◌ : {A B : Type 0} → Result A → (A → Result B) → Result B
ok a then_with f = f a
err e then_with f = err e

-- `checkEntitlement`
unfoldable pub check_entitlement :
    CheckEntitlementInput → System SubscriptionStore → Result EntitlementDecision
unfolding required_text asked_quantity best_decision
check_entitlement input sys = assert_id "owner_id" input.owner_id then_with λ owner_id.
    required_text "feature_key is required" input.feature_key then_with λ feature_key.
    asked_quantity input.quantity then_with λ quantity. instant_of input.at sys.now then_with λ at.
    ok (best_decision input.owner_type owner_id feature_key quantity at sys.store)
