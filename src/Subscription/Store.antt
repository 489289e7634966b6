-- ===== src/Subscription/Store.antt =====
-- src/modules/subscription/repository.ts (`InMemorySubscriptionRepository`): the reads of subscriptions, periods,
-- grants and usage, and the write of a usage record with the rules that `putRow` adds for its table.
use Prim.Native.Nat.{compare, Ordering}
use text.Mathlib.Text.{◌==◌ as str_eq}
use wasla_core.Base.{
  ℕ, ◌+◌, String, Option, none, some, Bool, true, false, not, ◌&&◌, List, [], ◌∷◌, filter, is_some,
  ◌==◌, if◌then◌else◌,
}
use wasla_core.Base.Sort.{sort, then_by}
use wasla_core.Base.Table.{Table, get, put, values}
use wasla_core.Money.Store.{MoneyStore, find, or_refuse}
use wasla_core.Platform.Errors.{Failure, Result, ok, err, plain, not_found}
use wasla_core.Platform.Texts.{is_empty_text}
use wasla_core.Platform.UnitOfWork.{Scope}
use wasla_core.Subscription.Domain.{
  SubscriptionOwnerType, identity, organization, Plan, PlanGrant, Subscription, SubscriptionPeriod,
  PeriodStatus, voided, UsageRecord, period_covers,
}

-- The repository's maps, with the rows of the money module, which settled periods refer to.
pub record SubscriptionStore : Type 0 where
  pub money : MoneyStore
  pub plans : Table Plan
  pub grants : List PlanGrant
  pub subscriptions : Table Subscription
  pub periods : Table SubscriptionPeriod
  pub usage : Table UsageRecord

abbrev pub same_owner_type : SubscriptionOwnerType → SubscriptionOwnerType → Bool
same_owner_type identity identity = true
same_owner_type organization organization = true
same_owner_type _ _ = false

abbrev pub is_owned : SubscriptionOwnerType → ℕ → Subscription → Bool
is_owned owner_type owner_id s = same_owner_type s.owner_type owner_type && s.owner_id == owner_id

abbrev pub compare_subscriptions : Subscription → Subscription → Ordering
compare_subscriptions a b =
    then_by (compare a.created_at b.created_at) (compare a.subscription_id b.subscription_id)

unfoldable pub list_subscriptions_for_owner :
    SubscriptionOwnerType → ℕ → SubscriptionStore → List Subscription
list_subscriptions_for_owner owner_type owner_id s =
    sort compare_subscriptions (filter (is_owned owner_type owner_id) (values s.subscriptions))

unfoldable pub find_period_covering : ℕ → ℕ → SubscriptionStore → Option SubscriptionPeriod
find_period_covering subscription_id at s =
    find (λ p. p.subscription_id == subscription_id && period_covers p at) (values s.periods)

unfoldable pub find_grant : ℕ → String → SubscriptionStore → Option PlanGrant
find_grant plan_id feature_key s =
    find (λ g. g.plan_id == plan_id && str_eq g.feature_key feature_key) s.grants

-- Whether a record is of a period and a feature.
abbrev pub is_metered : ℕ → String → UsageRecord → Bool
is_metered period_id feature_key u = u.period_id == period_id && str_eq u.feature_key feature_key

abbrev pub is_reported : ℕ → String → String → UsageRecord → Bool
is_reported period_id feature_key reference u =
    is_metered period_id feature_key u && str_eq u.usage_reference reference

unfoldable pub find_usage_by_reference :
    ℕ → String → String → SubscriptionStore → Option UsageRecord
find_usage_by_reference period_id feature_key reference s =
    find (is_reported period_id feature_key reference) (values s.usage)

-- The loop of `usageTotal`.
unfoldable pub total_of : ℕ → String → List UsageRecord → ℕ → ℕ
total_of period_id feature_key [] total = total
total_of period_id feature_key (u ∷ us) total =
    total_of period_id feature_key us
      (if is_metered period_id feature_key u then total + u.quantity else total)

unfoldable pub usage_total : ℕ → String → SubscriptionStore → ℕ
usage_total period_id feature_key s = total_of period_id feature_key (values s.usage) 0

abbrev pub is_voided : PeriodStatus → Bool
is_voided voided = true
is_voided _ = false

-- `ROW_RULES.usage_record`
unfoldable pub usage_rules : UsageRecord → Option Failure
usage_rules u =
    if is_empty_text u.feature_key
    then some (plain "usage_record_feature_key_present")
    else if u.quantity == 0
    then some (plain "usage_record_quantity_positive")
    else if is_empty_text u.usage_reference
    then some (plain "usage_record_reference_present")
    else none

-- `usageWithinPeriod`, which judges an insertion only.
unfoldable pub usage_within_period :
    Option UsageRecord → UsageRecord → SubscriptionPeriod → Option Failure
usage_within_period (some previous) u period = none
usage_within_period none u period =
    if is_voided period.status
    then some (plain "period was voided and cannot accrue usage")
    else if not (period_covers period u.recorded_at)
    then some (plain "usage falls outside period")
    else none

-- A record that has the same key as another row.
abbrev pub is_usage_clash : UsageRecord → UsageRecord → Bool
is_usage_clash u existing =
    is_reported u.period_id u.feature_key u.usage_reference existing
    && not (existing.usage_id == u.usage_id)

unfoldable pub insert_usage :
    UsageRecord → Scope SubscriptionStore → Result (Scope SubscriptionStore)
unfolding usage_rules usage_within_period
insert_usage u sc = elim (get u.period_id sc.store.periods) [
  | none ↦ err (plain "usage_record_period_id_fkey")
  | some period ↦
      if is_some (find (is_usage_clash u) (values sc.store.usage))
      then err (plain "usage_record_once")
      else or_refuse (usage_rules u) (
          or_refuse (usage_within_period (get u.usage_id sc.store.usage) u period) (
            ok (record sc { store = record sc.store { usage = put u.usage_id u sc.store.usage } })))
]

-- `requireSubscription`
unfoldable pub require_subscription : ℕ → SubscriptionStore → Result Subscription
require_subscription subscription_id s = elim (get subscription_id s.subscriptions) [
  | none ↦ err (not_found "subscription not found")
  | some subscription ↦ ok subscription
]
