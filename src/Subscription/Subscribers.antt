-- ===== src/Subscription/Subscribers.antt =====
-- src/modules/subscription/repository.ts: the write of a subscription, with the rules of its table, its foreign
-- keys and the trigger that compares the plan's currency with the wallet's.
use text.Mathlib.Text.{◌==◌ as str_eq}
use wasla_core.Base.{Option, none, some, Bool, true, false, not, ◌&&◌, is_some, if◌then◌else◌}
use wasla_core.Base.Table.{get, put}
use wasla_core.Fulfillment.Store.{same_presence}
use wasla_core.Money.Domain.{Wallet}
use wasla_core.Money.Store.{or_refuse}
use wasla_core.Platform.Errors.{Failure, Result, ok, plain}
use wasla_core.Platform.Texts.{trim}
use wasla_core.Platform.UnitOfWork.{Scope}
use wasla_core.Subscription.Domain.{
  Plan, PlanStatus, active_plan, Subscription, SubscriptionStatus, cancelled, expired,
}
use wasla_core.Subscription.Periods.{is_reasoned, or_else}
use wasla_core.Subscription.Store.{SubscriptionStore}

abbrev pub is_cancelled : SubscriptionStatus → Bool
is_cancelled cancelled = true
is_cancelled _ = false

abbrev pub is_expired : SubscriptionStatus → Bool
is_expired expired = true
is_expired _ = false

-- `assertSubscriptionShape`
unfoldable pub subscription_refusal : Subscription → Option Failure
subscription_refusal s =
    if not (same_presence (is_cancelled s.status) (is_some s.cancelled_at))
    then some (plain "subscription_cancel_fields")
    else if is_cancelled s.status && not (is_reasoned s.cancel_reason)
    then some (plain "subscription_cancel_reason_required")
    else if not (is_cancelled s.status) && not (is_expired s.status) && is_some s.ended_at
    then some (plain "subscription_ended_fields")
    else none

-- The foreign keys of the table.
unfoldable pub subscription_references : Subscription → SubscriptionStore → Option Failure
subscription_references x s =
    if not (is_some (get x.plan_id s.plans))
    then some (plain "subscription_plan_id_fkey")
    else if not (is_some (get x.wallet_id s.money.wallets))
    then some (plain "subscription_wallet_id_fkey")
    else none

abbrev pub is_offered : PlanStatus → Bool
is_offered active_plan = true
is_offered _ = false

abbrev pub billing_refusal : Option Subscription → Plan → Wallet → Option Failure
billing_refusal previous plan wallet =
    if not (str_eq (trim plan.currency) (trim wallet.currency))
    then some (plain "subscription bills a plan against a wallet of another currency")
    else if not (is_some previous) && not (is_offered plan.status)
    then some (plain "plan cannot be subscribed to")
    else none

abbrev pub with_parents :
    (Plan → Wallet → Option Failure) → Option Plan → Option Wallet → Option Failure
with_parents f none wallet = none
with_parents f (some plan) none = none
with_parents f (some plan) (some wallet) = f plan wallet

-- `subscriptionCurrencyCheck`: an insertion is a write under a new identifier.
unfoldable pub subscription_currency_check : Subscription → SubscriptionStore → Option Failure
subscription_currency_check x s =
    with_parents (billing_refusal (get x.subscription_id s.subscriptions)) (get x.plan_id s.plans)
      (get x.wallet_id s.money.wallets)

abbrev pub with_subscription : Subscription → SubscriptionStore → SubscriptionStore
with_subscription x s = record s { subscriptions = put x.subscription_id x s.subscriptions }

-- `insertSubscription` and `updateSubscription`, which do the same
unfoldable pub write_subscription :
    Subscription → Scope SubscriptionStore → Result (Scope SubscriptionStore)
unfolding subscription_refusal subscription_references subscription_currency_check
write_subscription x sc = or_refuse (subscription_refusal x) (
    or_refuse
      (or_else (subscription_references x sc.store) (subscription_currency_check x sc.store))
      (ok (record sc { store = with_subscription x sc.store })))
