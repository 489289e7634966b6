-- ===== src/Eventing/Delivery/Subscriptions.antt =====
-- src/platform/eventing/delivery.ts: the subscriptions of the store and their registry (`SubscriptionRegistry`),
-- and the reads of the deliveries.
use text.Mathlib.Text.{◌==◌ as str_eq}
use Prim.Native.Nat.{compare, Ordering}
use Prim.Native.String.{compare as compare_text}
use wasla_core.Base.{
  ℕ, String, Option, none, some, Bool, true, false, not, ◌&&◌, List, [], ◌∷◌, ltb, leb, ◌==◌,
  if◌then◌else◌, filter, take,
}
use wasla_core.Base.Sort.{sort, then_by}
use wasla_core.Base.Table.{Table, get, put, values}
use wasla_core.Eventing.Delivery.{
  EventSubscription, EventDelivery, DeliveryStatus, Deliveries, pending, delivered, dead, is_dead,
  any,
}
use wasla_core.Eventing.Revival.{includes, unless_given, is_after}
use wasla_core.Money.Store.{find}
use wasla_core.Platform.Errors.{Failure, Result, ok, err, plain, invalid}
use wasla_core.Platform.Texts.{is_empty_text, text_length, starts_with}

abbrev pub same_pair : EventSubscription → EventSubscription → Bool
same_pair s existing =
    str_eq existing.subscriber s.subscriber
    && str_eq existing.event_type s.event_type
    && not (existing.subscription_id == s.subscription_id)

abbrev pub subscription_refusal : EventSubscription → Option Failure
subscription_refusal s =
    if str_eq s.endpoint_url ""
    then some (plain "event_subscription_endpoint_url_check")
    else if str_eq s.signing_secret ""
    then some (plain "event_subscription_signing_secret_check")
    else none

abbrev pub Subscriptions : Type 0
Subscriptions = Table EventSubscription

-- `insertSubscription`
unfoldable pub insert_subscription : EventSubscription → Subscriptions → Result Subscriptions
insert_subscription s rows =
    if any (same_pair s) (values rows)
    then err (plain "event_subscription_subscriber_event_type_key")
    else elim (subscription_refusal s) [ some e ↦ err e | none ↦ ok (put s.subscription_id s rows) ]

abbrev pub has_pair : String → String → EventSubscription → Bool
has_pair subscriber event_type s = str_eq s.subscriber subscriber && str_eq s.event_type event_type

-- `findSubscription`
unfoldable pub find_subscription : String → String → Subscriptions → Option EventSubscription
find_subscription subscriber event_type rows = find (has_pair subscriber event_type) (values rows)

abbrev pub is_interested : String → EventSubscription → Bool
is_interested event_type s = s.active && str_eq s.event_type event_type

abbrev pub compare_subscriber : EventSubscription → EventSubscription → Ordering
compare_subscriber a b =
    then_by (compare_text a.subscriber b.subscriber) (compare a.subscription_id b.subscription_id)

-- `subscriptionsFor`
unfoldable pub subscriptions_for : String → Subscriptions → List EventSubscription
subscriptions_for event_type rows =
    sort compare_subscriber (filter (is_interested event_type) (values rows))

abbrev pub compare_listed : EventSubscription → EventSubscription → Ordering
compare_listed a b =
    then_by (compare_text a.subscriber b.subscriber) (
      then_by (compare_text a.event_type b.event_type)
        (compare a.subscription_id b.subscription_id))

-- `listSubscriptions`
unfoldable pub list_subscriptions : Subscriptions → List EventSubscription
list_subscriptions rows = sort compare_listed (values rows)

-- `setSubscriptionActive`
unfoldable pub set_subscription_active : ℕ → Bool → Subscriptions → Subscriptions
set_subscription_active subscription_id active rows = elim (get subscription_id rows) [
  | none ↦ rows
  | some s ↦ put subscription_id (record s { active = active }) rows
]

-- `redactSubscription`: all but the secret.
pub record PublicSubscription : Type 0 where
  pub subscription_id : ℕ
  pub subscriber : String
  pub event_type : String
  pub endpoint_url : String
  pub active : Bool
  pub created_at : ℕ

abbrev pub redact_subscription : EventSubscription → PublicSubscription
redact_subscription s = record {
  subscription_id = s.subscription_id;
  subscriber = s.subscriber;
  event_type = s.event_type;
  endpoint_url = s.endpoint_url;
  active = s.active;
  created_at = s.created_at;
}

pub record RegisterSubscriptionInput : Type 0 where
  pub subscriber : String
  pub event_type : String
  pub endpoint_url : String
  pub signing_secret : String

unfoldable pub register_refusal : RegisterSubscriptionInput → Option Failure
unfolding text_length starts_with
register_refusal input =
    if is_empty_text input.subscriber
    then some (invalid "subscriber is required")
    else if not (starts_with input.event_type "core.")
    then some (invalid "only core.* events may be subscribed to")
    else if not (starts_with input.endpoint_url "https://")
    then some (invalid "endpoint_url must be https")
    else if ltb (text_length input.signing_secret) 32
    then some (invalid "signing_secret must be at least 32 characters")
    else none

abbrev pub new_subscription : ℕ → ℕ → RegisterSubscriptionInput → EventSubscription
new_subscription new_id now input = record {
  subscription_id = new_id;
  subscriber = input.subscriber;
  event_type = input.event_type;
  endpoint_url = input.endpoint_url;
  signing_secret = input.signing_secret;
  active = true;
  created_at = now;
}

abbrev pub Registered : Type 0
Registered = Result PublicSubscription × Subscriptions

abbrev pub after_insert : EventSubscription → Result Subscriptions → Subscriptions → Registered
after_insert s (ok rows') rows = (ok (redact_subscription s), rows')
after_insert s (err e) rows = (err e, rows)

-- `register`, with what `newId` and the clock answer.
unfoldable pub register : ℕ → ℕ → RegisterSubscriptionInput → Subscriptions → Registered
unfolding register_refusal find_subscription insert_subscription
register new_id now input rows = elim (register_refusal input) [
  | some e ↦ (err e, rows)
  | none ↦ elim (find_subscription input.subscriber input.event_type rows) [
    | some existing ↦ (ok (redact_subscription existing), rows)
    | none ↦
        let s = new_subscription new_id now input in
        after_insert s (insert_subscription s rows) rows
  ]
]

-- `byStatuses`, `forEvent` and `all`
abbrev pub compare_created : EventDelivery → EventDelivery → Ordering
compare_created a b =
    then_by (compare a.created_at b.created_at) (compare a.delivery_id b.delivery_id)

abbrev pub same_status : DeliveryStatus → DeliveryStatus → Bool
same_status pending pending = true
same_status delivered delivered = true
same_status dead dead = true
same_status _ _ = false

unfoldable pub by_statuses : List DeliveryStatus → Deliveries → List EventDelivery
by_statuses statuses rows =
    sort compare_created (filter (λ d. includes same_status statuses d.status) (values rows))

unfoldable pub for_event : ℕ → Deliveries → List EventDelivery
for_event event_id rows = sort compare_created (filter (λ d. d.event_id == event_id) (values rows))

-- `undelivered`
unfoldable pub undelivered : Deliveries → List EventDelivery
unfolding by_statuses
undelivered rows = by_statuses (pending ∷ dead ∷ []) rows

pub record DeliveryRevivalSelection : Type 0 where
  pub delivery_ids : Option (List ℕ)
  pub event_ids : Option (List ℕ)
  pub subscription_id : Option ℕ
  pub created_from : Option ℕ
  pub created_to : Option ℕ
  pub after : Option (ℕ × ℕ)
  pub limit : ℕ

abbrev pub after_cursor : EventDelivery → Option (ℕ × ℕ) → Bool
after_cursor d none = true
after_cursor d (some (created_at, delivery_id)) =
    is_after d.created_at d.delivery_id created_at delivery_id

-- `matchesDeliveryRevival`
unfoldable pub matches_delivery_revival : DeliveryRevivalSelection → EventDelivery → Bool
unfolding is_after
matches_delivery_revival selection d =
    is_dead d.status
    && unless_given selection.delivery_ids (λ ids. includes (λ a b. a == b) ids d.delivery_id)
    && unless_given selection.event_ids (λ ids. includes (λ a b. a == b) ids d.event_id)
    && unless_given selection.subscription_id (λ k. d.subscription_id == k)
    && unless_given selection.created_from (λ at. leb at d.created_at)
    && unless_given selection.created_to (λ at. leb d.created_at at)
    && after_cursor d selection.after

-- `selectDead`
unfoldable pub select_dead : DeliveryRevivalSelection → Deliveries → List EventDelivery
unfolding matches_delivery_revival
select_dead selection rows =
    take selection.limit
      (sort compare_created (filter (matches_delivery_revival selection) (values rows)))
