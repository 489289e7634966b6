-- ===== src/Subscription/Reads.antt =====
-- src/modules/subscription/repository.ts and service.ts: the lists and the sampler's queries.
use Prim.Native.Nat.{compare}
use wasla_core.Base.{ℕ, Option, none, some, Bool, true, false, ◌||◌, List, [], ◌∷◌, filter, ◌==◌}
use wasla_core.Base.Int.{ℤ}
use wasla_core.Base.Sort.{sort}
use wasla_core.Base.Table.{values}
use wasla_core.Money.Ages.{ages, counts}
use wasla_core.Platform.Errors.{Result, ok, err}
use wasla_core.Platform.Ids.{IdText, assert_id}
use wasla_core.Subscription.Domain.{
  Subscription, SubscriptionStatus, active, past_due, cancelled, expired, SubscriptionOwnerType,
  SubscriptionPeriod,
}
use wasla_core.Subscription.Store.{
  SubscriptionStore, compare_subscriptions, list_subscriptions_for_owner, require_subscription,
}

abbrev pub same_status : SubscriptionStatus → SubscriptionStatus → Bool
same_status active active = true
same_status past_due past_due = true
same_status cancelled cancelled = true
same_status expired expired = true
same_status _ _ = false

abbrev pub includes_status : List SubscriptionStatus → SubscriptionStatus → Bool
includes_status [] status = false
includes_status (x ∷ xs) status = same_status x status || includes_status xs status

unfoldable pub list_subscriptions_by_status :
    List SubscriptionStatus → SubscriptionStore → List Subscription
list_subscriptions_by_status statuses s =
    sort compare_subscriptions
      (filter (λ x. includes_status statuses x.status) (values s.subscriptions))

abbrev has_status : Subscription → SubscriptionStatus → Bool
has_status s status = same_status s.status status

-- `countSubscriptionsByStatus` and `oldestAgeByStatus`, as functions of the status.
unfoldable pub count_subscriptions_by_status : SubscriptionStore → SubscriptionStatus → ℕ
unfolding counts
count_subscriptions_by_status s =
    counts has_status (λ x. x.created_at) 0 (values s.subscriptions) (λ status. 0)

unfoldable pub oldest_subscription_age_by_status :
    ℕ → SubscriptionStore → SubscriptionStatus → Option ℤ
unfolding ages
oldest_subscription_age_by_status now s =
    ages has_status (λ x. x.created_at) now (values s.subscriptions) (λ status. none)

abbrev of_subscription : ℕ → SubscriptionStore → List SubscriptionPeriod
of_subscription subscription_id s =
    filter (λ p. p.subscription_id == subscription_id) (values s.periods)

unfoldable pub list_periods : ℕ → SubscriptionStore → List SubscriptionPeriod
list_periods subscription_id s =
    sort (λ a b. compare a.sequence b.sequence) (of_subscription subscription_id s)

abbrev pub first_of {ℓ} : {A : Type ℓ} → List A → Option A
first_of [] = none
first_of (x ∷ xs) = some x

unfoldable pub latest_period : ℕ → SubscriptionStore → Option SubscriptionPeriod
latest_period subscription_id s =
    first_of (sort (λ a b. compare b.sequence a.sequence) (of_subscription subscription_id s))

-- The answer of `getSubscription`, for a subscription that is there.
abbrev pub with_periods :
    ℕ → SubscriptionStore → Subscription → Subscription × List SubscriptionPeriod
unfolding list_periods
with_periods subscription_id s subscription = (subscription, list_periods subscription_id s)

unfoldable pub get_subscription :
    IdText → SubscriptionStore → Result (Subscription × List SubscriptionPeriod)
unfolding require_subscription with_periods
get_subscription subscription_id s = elim (assert_id "subscription_id" subscription_id) [
  | err e ↦ err e
  | ok known ↦ elim (require_subscription known s) [
    | err e ↦ err e
    | ok subscription ↦ ok (with_periods known s subscription)
  ]
]

-- The service's `listSubscriptionsForOwner`.
unfoldable pub subscriptions_of_owner :
    SubscriptionOwnerType → IdText → SubscriptionStore → Result (List Subscription)
unfolding list_subscriptions_for_owner
subscriptions_of_owner owner_type owner_id s = elim (assert_id "owner_id" owner_id) [
  | err e ↦ err e
  | ok known ↦ ok (list_subscriptions_for_owner owner_type known s)
]
