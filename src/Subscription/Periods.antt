-- ===== src/Subscription/Periods.antt =====
-- src/modules/subscription/repository.ts: the write of a period, with the rules of its table, the exclusion of
-- overlapping periods and the deferred comparison with the money that settled it.
pub mod Disjoint
use wasla_core.Base.{
  ℕ, String, Option, none, some, Bool, true, false, not, ◌&&◌, is_some, leb, ltb, ◌==◌,
  if◌then◌else◌,
}
use text.Mathlib.Text.{◌==◌ as str_eq}
use wasla_core.Base.Int.{ℤ, pos, negsuc}
use wasla_core.Base.Table.{get, put, values}
use wasla_core.Fulfillment.Store.{same_presence}
use wasla_core.Money.Domain.{PaymentAuthorization}
use wasla_core.Money.Store.{find, or_refuse}
use wasla_core.Platform.Errors.{Failure, Result, ok, err, plain}
use wasla_core.Platform.Texts.{is_empty_text, is_currency}
use wasla_core.Platform.UnitOfWork.{Scope, Check, period_of, defer}
use wasla_core.Subscription.Domain.{SubscriptionPeriod, PeriodStatus, uncollectible, is_settled}
use wasla_core.Subscription.Store.{SubscriptionStore}

abbrev pub is_uncollectible : PeriodStatus → Bool
is_uncollectible uncollectible = true
is_uncollectible _ = false

abbrev pub is_reasoned : Option String → Bool
is_reasoned none = false
is_reasoned (some reason) = not (is_empty_text reason)

-- A settled period has a time of settlement, and a hold where money was owed; another has neither.
abbrev pub settlement_refusal : SubscriptionPeriod → Option Failure
settlement_refusal p =
    if is_settled p.status
    then (if not (is_some p.settled_at)
        then some (plain "subscription_period_settlement_fields")
        else if same_presence (p.amount_minor == 0) (is_some p.authorization_id)
        then some (plain "subscription_period_settlement_fields")
        else none)
    else if is_some p.settled_at
    then some (plain "subscription_period_settlement_fields")
    else if is_some p.authorization_id
    then some (plain "subscription_period_authorization_only_when_settled")
    else none

abbrev pub reason_refusal : SubscriptionPeriod → Option Failure
reason_refusal p =
    if same_presence (is_uncollectible p.status) (is_reasoned p.uncollectible_reason)
    then none
    else some (plain "subscription_period_uncollectible_reason")

abbrev pub or_else : Option Failure → Option Failure → Option Failure
or_else none next = next
or_else (some e) next = some e

-- `assertPeriodShape`
unfoldable pub period_refusal : SubscriptionPeriod → Option Failure
period_refusal p =
    if p.sequence == 0
    then some (plain "subscription_period_sequence_positive")
    else if leb p.ends_at p.starts_at
    then some (plain "subscription_period_ordered")
    else if not (is_currency p.currency)
    then some (plain "subscription_period_currency_format")
    else or_else (settlement_refusal p) (reason_refusal p)

-- The test of `periodOverlapClash` on another row.
abbrev pub overlaps : SubscriptionPeriod → SubscriptionPeriod → Bool
overlaps p existing =
    existing.subscription_id == p.subscription_id
    && not (existing.period_id == p.period_id)
    && ltb p.starts_at existing.ends_at
    && ltb existing.starts_at p.ends_at

abbrev pub has_sequence : SubscriptionPeriod → SubscriptionPeriod → Bool
has_sequence p existing =
    existing.subscription_id == p.subscription_id
    && existing.sequence == p.sequence
    && not (existing.period_id == p.period_id)

abbrev pub has_hold : ℕ → Option ℕ → Bool
has_hold hold none = false
has_hold hold (some other) = other == hold

-- `authorizationClash`
unfoldable pub authorization_clash : SubscriptionPeriod → SubscriptionStore → Bool
authorization_clash p s = elim p.authorization_id [
  | none ↦ false
  | some hold ↦ is_some (
      find (λ x. has_hold hold x.authorization_id && not (x.period_id == p.period_id))
        (values s.periods))
]

abbrev pub is_amount : ℤ → ℕ → Bool
is_amount (pos n) amount = n == amount
is_amount (negsuc n) amount = false

abbrev pub agrees : SubscriptionPeriod → PaymentAuthorization → Option Failure
agrees p a =
    if not (is_amount a.captured_minor p.amount_minor)
    then some (plain "period is settled for another amount than was captured")
    else if not (str_eq a.currency p.currency)
    then some (plain "period was settled in another currency")
    else none

abbrev pub agrees_with_hold : SubscriptionPeriod → SubscriptionStore → Option Failure
agrees_with_hold p s = elim p.authorization_id [
  | none ↦ none
  | some hold ↦ elim (get hold s.money.authorizations) [
    | none ↦ some (plain "period is settled against an authorization which does not exist")
    | some a ↦ agrees p a
  ]
]

-- `assertMoneyAgreement`, with `authorizationSnapshot` of the money module as the reader
unfoldable pub assert_money_agreement : ℕ → SubscriptionStore → Option Failure
assert_money_agreement period_id s = elim (get period_id s.periods) [
  | none ↦ none
  | some p ↦ if is_settled p.status then agrees_with_hold p s else none
]

-- `deferMoneyAgreement`, inside a transaction
abbrev pub money_agreement : ℕ → Check SubscriptionStore
unfolding assert_money_agreement
money_agreement period_id = record {
  key = period_of period_id;
  run = assert_money_agreement period_id;
}

abbrev pub known_hold : Option ℕ → SubscriptionStore → Bool
known_hold none s = true
known_hold (some hold) s = is_some (get hold s.money.authorizations)

-- The foreign keys of the table.
unfoldable pub period_references : SubscriptionPeriod → SubscriptionStore → Option Failure
period_references p s =
    if not (is_some (get p.subscription_id s.subscriptions))
    then some (plain "subscription_period_subscription_id_fkey")
    else if not (known_hold p.authorization_id s)
    then some (plain "subscription_period_authorization_id_fkey")
    else none

abbrev pub with_period : SubscriptionPeriod → SubscriptionStore → SubscriptionStore
with_period p s = record s { periods = put p.period_id p s.periods }

-- `writePeriod`, which `insertPeriod` and `updatePeriod` call
unfoldable pub write_period :
    SubscriptionPeriod → Scope SubscriptionStore → Result (Scope SubscriptionStore)
unfolding period_refusal authorization_clash period_references defer
write_period p sc = or_refuse (period_refusal p) (
    if is_some (find (overlaps p) (values sc.store.periods))
    then err (plain "subscription_period_no_overlap")
    else if is_some (find (has_sequence p) (values sc.store.periods))
    then err (plain "subscription_period_sequence_unique")
    else if authorization_clash p sc.store
    then err (plain "subscription_period_authorization_unique")
    else or_refuse (period_references p sc.store)
        (ok (defer (money_agreement p.period_id) (record sc { store = with_period p sc.store }))))
