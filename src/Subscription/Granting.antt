-- ===== src/Subscription/Granting.antt =====
-- src/modules/subscription/service.ts: what an allowance of `checkEntitlement` rests on.
use Prim.Native.Nat.{compare, Ordering}
use wasla_core.Base.{
  ℕ, ◌+◌, String, Option, none, some, Bool, true, false, ◌&&◌, ◌||◌, ◌≡◌, refl, ap, ◌∙◌, List, [],
  ◌∷◌, filter, leb, arith,
}
use wasla_core.Base.Sort.{sort, insert}
use wasla_core.Base.Table.{values}
use wasla_core.Platform.Errors.{ok}
use wasla_core.Platform.Ids.{assert_id}
use wasla_core.Platform.UnitOfWork.{System}
use wasla_core.Subscription.Domain.{
  SubscriptionOwnerType, Subscription, SubscriptionStatus, active, cancelled, PlanGrant,
  SubscriptionPeriod, EntitlementDecision, decide_entitlement, period_is_paid, EntitlementInput,
}
use wasla_core.Subscription.Entitlement.{
  CheckEntitlementInput, check_entitlement, decision_for, best_of, best_decision, asked_quantity,
  no_subscription_decision, used_in, facts_of, more_informative,
}
use wasla_core.Subscription.Store.{
  SubscriptionStore, is_owned, list_subscriptions_for_owner, find_period_covering, find_grant,
  compare_subscriptions,
}
use wasla_core.Subscription.Usage.{required_text, instant_of}

-- Whether some element passes the test.
unfoldable pub any {ℓ} : {A : Type ℓ} → (A → Bool) → List A → Bool
any p [] = false
any p (x ∷ xs) = p x || any p xs

module _ {ℓ} {A : Type ℓ} (p : A → Bool) (order : A → A → Ordering) where
  any-insert : (x : A) (xs : List A) → any p (insert order x xs) ≡ (p x || any p xs)
  unfolding any insert
  any-insert x [] = refl
  any-insert x (y ∷ ys) = ground (arith, any-insert x ys)

  any-sort : (xs : List A) → any p (sort order xs) ≡ any p xs
  unfolding any sort
  any-sort [] = refl
  any-sort (x ∷ xs) = any-insert x (sort order xs) ∙ ap (λ b. p x || b) (any-sort xs)

any-filter {ℓ} :
    {A : Type ℓ} (p q : A → Bool) (xs : List A) → any p (filter q xs) ≡ any (λ x. q x && p x) xs
unfolding any
any-filter p q [] = refl
any-filter p q (x ∷ xs) = ground (arith, any-filter p q xs)

any-agree {ℓ} :
    {A : Type ℓ} (p q : A → Bool) → ((x : A) → p x ≡ q x) → (xs : List A) → any p xs ≡ any q xs
unfolding any
any-agree p q h [] = refl
any-agree p q h (x ∷ xs) = ground (arith, h x, any-agree p q h xs)

-- A plan's grant of the feature that the quantity stays within.
is_granted : Option PlanGrant → ℕ → ℕ → Bool
is_granted none used quantity = false
is_granted (some grant) used quantity = elim grant.limit_value [
  | none ↦ true
  | some limit ↦ leb (used + quantity) limit
]

is_serving : SubscriptionStatus → Bool
is_serving active = true
is_serving cancelled = true
is_serving _ = false

-- A paid period that covers the instant.
is_paid_for : Option SubscriptionPeriod → Bool
is_paid_for none = false
is_paid_for (some period) = period_is_paid period

-- Whether a subscription gives its owner the feature.
unfoldable pub entitles : String → ℕ → ℕ → SubscriptionStore → Subscription → Bool
unfolding is_granted is_serving is_paid_for find_period_covering find_grant
entitles feature_key quantity at s subscription =
    let period = find_period_covering subscription.subscription_id at s in
    is_serving subscription.status
    && is_paid_for period
    && is_granted (find_grant subscription.plan_id feature_key s) (used_in period feature_key s)
        quantity

decide-allowed :
    (input : EntitlementInput) (subscription : Subscription)
    → input.subscription ≡ some subscription
    → (decide_entitlement input).allowed ≡ (
        is_serving subscription.status
        && is_paid_for input.period
        && is_granted input.grant input.used input.quantity)
unfolding decide_entitlement is_serving is_paid_for is_granted
decide-allowed input subscription h = ground (arith, h)

decision-allowed :
    (feature_key : String) (quantity at : ℕ) (s : SubscriptionStore) (subscription : Subscription)
    → (decision_for feature_key quantity at s subscription).allowed
      ≡ entitles feature_key quantity at s subscription
unfolding decision_for entitles
decision-allowed feature_key quantity at s subscription =
    decide-allowed (facts_of feature_key quantity at s subscription) subscription refl

is_allowed : Option EntitlementDecision → Bool
is_allowed none = false
is_allowed (some d) = d.allowed

best-allowed :
    (decide : Subscription → EntitlementDecision) (ss : List Subscription)
    (best : Option EntitlementDecision)
    → is_allowed best ≡ false
    → is_allowed (best_of decide ss best) ≡ any (λ s. (decide s).allowed) ss
unfolding best_of is_allowed any
best-allowed decide [] best h = h
best-allowed decide (s ∷ ss) best h =
    ground (arith, h, best-allowed decide ss (more_informative best (decide s)))

answer-allowed :
    (best : Option EntitlementDecision) (d : EntitlementDecision)
    → d.allowed ≡ false
    → (elim best as (λ _. EntitlementDecision) [ some b ↦ b | none ↦ d ]).allowed ≡ is_allowed best
unfolding is_allowed
answer-allowed none d h = h
answer-allowed (some b) d h = refl

module _ (owner_type : SubscriptionOwnerType) (owner_id : ℕ) (feature_key : String)
    (quantity at : ℕ) (s : SubscriptionStore) where
  abbrev pub gives : Subscription → Bool
  gives subscription =
      is_owned owner_type owner_id subscription && entitles feature_key quantity at s subscription

  best_decision-allowed :
      (best_decision owner_type owner_id feature_key quantity at s).allowed
      ≡ any gives (values s.subscriptions)
  unfolding best_decision list_subscriptions_for_owner decide_entitlement
  best_decision-allowed =
      let decide = decision_for feature_key quantity at s in
      let served = filter (is_owned owner_type owner_id) (values s.subscriptions) in
      let listed = sort compare_subscriptions served in
      let by_age : Subscription → Subscription → Ordering =
        λ a b. compare a.created_at b.created_at in
      answer-allowed (best_of decide (sort by_age listed) none)
        (no_subscription_decision feature_key quantity) refl
      ∙ best-allowed decide (sort by_age listed) none (unfold is_allowed in refl)
      ∙ any-sort (λ x. (decide x).allowed) by_age listed
      ∙ any-sort (λ x. (decide x).allowed) compare_subscriptions served
      ∙ any-filter (λ x. (decide x).allowed) (is_owned owner_type owner_id) (values s.subscriptions)
      ∙ any-agree (λ x. is_owned owner_type owner_id x && (decide x).allowed) gives
          (λ x.
            ap (λ b. is_owned owner_type owner_id x && b)
              (decision-allowed feature_key quantity at s x))
          (values s.subscriptions)

-- Where the owner, the feature, the quantity and the instant can be read, the check answers, and it allows
-- exactly where some stored subscription of the owner gives the feature: the subscription is active or cancelled,
-- a settled period of it covers the instant, and its plan has a grant of the feature whose limit, if it has
-- one, the usage of the period and the quantity together do not pass.
pub check_entitlement-allowed :
    (input : CheckEntitlementInput) (sys : System SubscriptionStore) (owner_id quantity at : ℕ)
    (feature_key : String)
    → assert_id "owner_id" input.owner_id ≡ ok owner_id
    → required_text "feature_key is required" input.feature_key ≡ ok feature_key
    → asked_quantity input.quantity ≡ ok quantity
    → instant_of input.at sys.now ≡ ok at
    → (d : EntitlementDecision) × (check_entitlement input sys ≡ ok d)
      × (d.allowed
          ≡ any
              (gives input.owner_type owner_id feature_key quantity at sys.store)
              (values sys.store.subscriptions))
unfolding check_entitlement
check_entitlement-allowed input sys owner_id quantity at feature_key own named asked when_ = (
  best_decision input.owner_type owner_id feature_key quantity at sys.store,
  rw own (rw named (rw asked (rw when_ refl))),
  best_decision-allowed input.owner_type owner_id feature_key quantity at sys.store,
)
