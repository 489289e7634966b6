-- ===== src/Subscription/Ending/Honoured.antt =====
-- src/modules/subscription/service.ts: that a cancellation honours the time that was paid for.
use wasla_core.Base.{ℕ, String, Option, none, some, true, false, ◌≡◌, refl, sym, subst, [], arith}
use wasla_core.Base.Table.{get}
use wasla_core.Platform.Errors.{Result, ok}
use wasla_core.Platform.Ids.{assert_id}
use wasla_core.Platform.Texts.{is_empty_text}
use wasla_core.Platform.UnitOfWork.{
  System, nothing_staged, finish, commit, run_mutations, verify, ◌>>=◌,
}
use wasla_core.Subscription.Domain.{Subscription, active, SubscriptionPeriod, period_is_paid}
use wasla_core.Subscription.Ending.{
  CancelInput, cancel_subscription, cancel_body, cancel_by_status, stage_cancellation,
  cancel_mutation, cancelled_row, emit_event,
}
use wasla_core.Subscription.Entitlement.{used_in}
use wasla_core.Subscription.Granting.{entitles}
use wasla_core.Subscription.Store.{
  SubscriptionStore, require_subscription, find_period_covering, find_grant, usage_total,
}
use wasla_core.Subscription.Subscribers.{
  write_subscription, subscription_refusal, subscription_references, subscription_currency_check,
  with_subscription,
}
use wasla_core.Subscription.Usage.{required_text}

-- The usage of a period is not in the rows of the subscriptions.
used-with_subscription :
    (x : Subscription) (s : SubscriptionStore) (feature_key : String)
    (o : Option SubscriptionPeriod)
    → used_in o feature_key (with_subscription x s) ≡ used_in o feature_key s
unfolding usage_total
used-with_subscription x s feature_key none = refl
used-with_subscription x s feature_key (some period) = refl

abbrev pub Answer : Type 0
Answer = Result (Subscription × Option ℕ) × System SubscriptionStore

module _ (sys : System SubscriptionStore) (s : Subscription) (period : SubscriptionPeriod)
    (reason : String) where
  abbrev pub ended : Subscription
  ended = cancelled_row sys.now reason (some period) s

  -- The answer is the cancelled row, covered to the end of the period, and it gives what it gave.
  abbrev pub Honoured : Answer → Type 0
  Honoured r =
      (r.0 ≡ ok (ended, none))
      × (ended.ended_at ≡ some period.ends_at)
      × (r.1.store ≡ with_subscription ended sys.store)
      × ((feature_key : String) (quantity at : ℕ)
          → entitles feature_key quantity at r.1.store ended
            ≡ entitles feature_key quantity at sys.store s)

module _ (input : CancelInput) (sys : System SubscriptionStore) (s : Subscription)
    (period : SubscriptionPeriod) (reason : String)
    (named : assert_id "subscription_id" input.subscription_id ≡ ok s.subscription_id)
    (said : required_text "reason is required" input.reason ≡ ok reason)
    (plain_ : is_empty_text reason ≡ false)
    (stored : get s.subscription_id sys.store.subscriptions ≡ some s) (running : s.status ≡ active)
    (covering : find_period_covering s.subscription_id sys.now sys.store ≡ some period)
    (paid : period_is_paid period ≡ true) (referred : subscription_references s sys.store ≡ none)
    (billed : subscription_currency_check s sys.store ≡ none) where
  abbrev gone : Subscription
  gone = ended sys s period reason

  ended_written :
      cancel_mutation gone none (record { store = sys.store; deferred = [] })
      ≡ ok (record { store = with_subscription gone sys.store; deferred = [] })
  unfolding cancel_mutation write_subscription subscription_refusal subscription_references
      subscription_currency_check
  ended_written = ground (arith, plain_, referred, billed)

  access_kept :
      (t : SubscriptionStore)
      → t ≡ with_subscription gone sys.store
      → (feature_key : String) (quantity at : ℕ)
      → entitles feature_key quantity at t gone ≡ entitles feature_key quantity at sys.store s
  unfolding entitles find_period_covering find_grant usage_total
  access_kept t same feature_key quantity at =
      subst
        (λ x.
          entitles feature_key quantity at x gone ≡ entitles feature_key quantity at sys.store s)
        (sym same)
        (let used =
            used-with_subscription gone sys.store feature_key
              (find_period_covering s.subscription_id at sys.store) in
          ground (arith, running, used))

  abbrev body_answer : Answer
  body_answer =
      finish (cancel_by_status s.status s reason input.correlation_id sys (nothing_staged sys)) sys

  committed :
      (body_answer.0 ≡ ok (gone, none)) × (body_answer.1.store ≡ with_subscription gone sys.store)
  unfolding stage_cancellation emit_event ◌>>=◌ commit run_mutations verify
  committed = ground (arith, running, covering, paid, ended_written)

  body_Honoured : Honoured sys s period reason body_answer
  body_Honoured =
      (committed.0, ground (arith, paid), committed.1, access_kept body_answer.1.store committed.1)

  -- The cancellation of an active subscription, with a reason, from the state that it commits on, where the store
  -- admits the subscription's row and a paid period covers the present: it succeeds and voids nothing, the
  -- coverage ends with the paid period, no other row changes, and the cancelled subscription gives each
  -- feature exactly as it did before, at every instant.
  pub cancel-Honoured : Honoured sys s period reason (cancel_subscription input sys sys)
  unfolding cancel_subscription cancel_body ◌>>=◌ require_subscription
  cancel-Honoured = ground (arith, named, said, stored, body_Honoured)
