-- ===== src/Subscription/Ending.antt =====
-- src/modules/subscription/service.ts: `cancelSubscription` and `expireSubscription`. Each reads one state, and its
-- transaction commits on the present one.
pub mod Honoured
use wasla_core.Base.{ℕ, String, Option, none, some, Bool, true, false, List, [], ◌∷◌, if◌then◌else◌}
use wasla_core.Base.Values.{Value, text, id, instant, null}
use wasla_core.Eventing.Envelope.{make_event}
use wasla_core.Platform.Audit.{PendingAuditEntry}
use wasla_core.Platform.Errors.{Result, ok, err, conflict}
use wasla_core.Platform.Ids.{IdText, assert_id}
use wasla_core.Platform.UnitOfWork.{
  System, Scope, Work, nothing_staged, finish, pure, throw, lift, reads, ◌>>=◌, ◌>>◌, new_id, stage,
  emit, audit, Unit₀,
}
use wasla_core.Subscription.Domain.{
  SubscriptionOwnerType, identity, organization, Subscription, SubscriptionStatus, cancelled,
  expired, SubscriptionPeriod, voided, period_is_paid,
}
use wasla_core.Subscription.Periods.{write_period}
use wasla_core.Subscription.Store.{SubscriptionStore, require_subscription, find_period_covering}
use wasla_core.Subscription.Subscribers.{write_subscription}
use wasla_core.Subscription.Usage.{UsageWork as StoreWork, required_text}

abbrev owner_text : SubscriptionOwnerType → String
owner_text identity = "identity"
owner_text organization = "organization"

abbrev pub or_null {ℓ} : {A : Type ℓ} → (A → Value) → Option A → Value
or_null f none = null
or_null f (some a) = f a

-- An event about a subscription.
unfoldable pub emit_event : String → String → ℕ → List (String × Value) → StoreWork Unit₀
unfolding make_event
emit_event event_type correlation_id subscription_id payload = do
  event_id ← new_id
  now ← reads (λ sys. sys.now)
  emit (
      make_event event_id (record {
        event_type = event_type;
        version = 1;
        producer = "wasla-core";
        occurred_at = now;
        correlation_id = correlation_id;
        causation_id = none;
        entity_type = "subscription";
        entity_id = subscription_id;
        payload = payload;
      }))

abbrev pub audit_entry : String → ℕ → String → List (String × Value) → PendingAuditEntry
audit_entry action subscription_id correlation_id metadata = record {
  action = action;
  entity_type = "subscription";
  entity_id = subscription_id;
  correlation_id = correlation_id;
  metadata = metadata;
}

-- The facts that both events begin with.
abbrev pub owner_facts : Subscription → List (String × Value) → List (String × Value)
owner_facts s more =
    ("subscription_id", id s.subscription_id)
    ∷ ("owner_type", text (owner_text s.owner_type))
    ∷ ("owner_id", id s.owner_id)
    ∷ ("plan_id", id s.plan_id)
    ∷ more

-- The covering period, where it was not paid for.
abbrev pub voidable : Option SubscriptionPeriod → Option SubscriptionPeriod
voidable none = none
voidable (some p) = if period_is_paid p then none else some p

-- Paid time is honoured, and unpaid time ends now.
abbrev pub coverage_end : ℕ → Option SubscriptionPeriod → ℕ
coverage_end now none = now
coverage_end now (some p) = if period_is_paid p then p.ends_at else now

abbrev pub cancelled_row : ℕ → String → Option SubscriptionPeriod → Subscription → Subscription
cancelled_row now reason current s = record s {
  status = cancelled;
  cancelled_at = some now;
  cancel_reason = some reason;
  ended_at = some (coverage_end now current);
}

abbrev pub voided_row : SubscriptionPeriod → SubscriptionPeriod
voided_row p = record p {
  status = voided;
  authorization_id = none;
  settled_at = none;
  uncollectible_reason = none;
}

abbrev pub write_voided :
    Option SubscriptionPeriod → Scope SubscriptionStore → Result (Scope SubscriptionStore)
unfolding write_period
write_voided none sc = ok sc
write_voided (some p) sc = write_period (voided_row p) sc

-- The mutation that a cancellation stages.
unfoldable pub cancel_mutation :
    Subscription
    → Option SubscriptionPeriod
    → Scope SubscriptionStore
    → Result (Scope SubscriptionStore)
unfolding write_subscription write_voided
cancel_mutation updated unpaid sc = elim (write_subscription updated sc) [
  | err e ↦ err e
  | ok sc' ↦ write_voided unpaid sc'
]

abbrev pub period_id_of : Option SubscriptionPeriod → Option ℕ
period_id_of none = none
period_id_of (some p) = some p.period_id

unfoldable pub stage_cancellation :
    Subscription → String → String → StoreWork (Subscription × Option ℕ)
unfolding cancel_mutation emit_event find_period_covering
stage_cancellation s reason correlation_id = do
  now ← reads (λ sys. sys.now)
  current ← reads (λ sys. find_period_covering s.subscription_id now sys.store)
  let updated = cancelled_row now reason current s
  let unpaid = voidable current
  stage (cancel_mutation updated unpaid)
  emit_event "core.subscription.cancelled" correlation_id s.subscription_id (
      owner_facts s (
        ("reason", text reason)
        ∷ ("coverage_ends_at", or_null instant updated.ended_at)
        ∷ ("voided_period_id", or_null id (period_id_of unpaid))
        ∷ []))
  audit (
      audit_entry "subscription.cancelled" s.subscription_id correlation_id
        (("reason", text reason) ∷ ("coverage_ends_at", or_null instant updated.ended_at) ∷ []))
  pure (updated, period_id_of unpaid)

abbrev pub cancel_by_status :
    SubscriptionStatus → Subscription → String → String → StoreWork (Subscription × Option ℕ)
unfolding stage_cancellation
cancel_by_status cancelled s reason correlation_id = pure (s, none)
cancel_by_status expired s reason correlation_id =
    throw (conflict "subscription has already expired")
cancel_by_status _ s reason correlation_id = stage_cancellation s reason correlation_id

pub record CancelInput : Type 0 where
  pub subscription_id : IdText
  pub reason : String
  pub correlation_id : String

unfoldable pub cancel_body : CancelInput → StoreWork (Subscription × Option ℕ)
unfolding cancel_by_status require_subscription
cancel_body input = do
  subscription_id ← lift (assert_id "subscription_id" input.subscription_id)
  reason ← lift (required_text "reason is required" input.reason)
  required ← reads (λ sys. require_subscription subscription_id sys.store)
  subscription ← lift required
  cancel_by_status subscription.status subscription reason input.correlation_id

-- `cancelSubscription`; for a subscription that is cancelled already nothing is staged, and an empty commit
-- changes nothing.
unfoldable pub cancel_subscription :
    CancelInput
    → System SubscriptionStore
    → System SubscriptionStore
    → Result (Subscription × Option ℕ) × System SubscriptionStore
unfolding cancel_body
cancel_subscription input seen sys = finish (cancel_body input seen (nothing_staged sys)) sys

abbrev pub or_now : Option ℕ → ℕ → ℕ
or_now none now = now
or_now (some at) now = at

abbrev pub expired_row : ℕ → Subscription → Subscription
expired_row now s = record s {
  status = expired;
  cancelled_at = none;
  ended_at = some (or_now s.ended_at now);
}

unfoldable pub expire_body : Subscription → String → StoreWork Unit₀
unfolding emit_event write_subscription
expire_body s correlation_id = do
  now ← reads (λ sys. sys.now)
  let updated = expired_row now s
  stage (write_subscription updated)
  emit_event "core.subscription.expired" correlation_id s.subscription_id
      (owner_facts s (("ended_at", or_null instant updated.ended_at) ∷ []))
  audit (
      audit_entry "subscription.expired" s.subscription_id correlation_id
        (("ended_at", or_null instant updated.ended_at) ∷ []))

-- `expireSubscription`
unfoldable pub expire_subscription :
    Subscription
    → String
    → System SubscriptionStore
    → System SubscriptionStore
    → Result Unit₀ × System SubscriptionStore
unfolding expire_body
expire_subscription s correlation_id seen sys =
    finish (expire_body s correlation_id seen (nothing_staged sys)) sys
