-- ===== src/Eventing/Delivery/FanOut.antt =====
-- src/platform/eventing/delivery.ts (`DeliveryFanOut`): the deliveries of one event.
pub mod Once
use wasla_core.Base.{
  ℕ, ◌+◌, ◌≤◌, Option, none, some, Bool, true, false, ◌&&◌, ◌||◌, ◌≡◌, refl, sym, ap, ◌∙◌, inl, inr,
  List, [], ◌∷◌, ◌++◌, length, arith, All, Bool-cases, if◌then◌else◌, ◌==◌,
}
use wasla_core.Base.Table.{Table, get, put, values}
use wasla_core.Eventing.Delivery.{
  EventSubscription, EventDelivery, DeliveryStore, Deliveries, Parents, pending, queue, any, is_for,
}
use wasla_core.Eventing.Delivery.Subscriptions.{Subscriptions, subscriptions_for}
use wasla_core.Platform.Errors.{Result, ok, err}
use wasla_core.Eventing.Envelope.{EventEnvelope}

pub record DeliveryFanOutResult : Type 0 where
  pub queued : ℕ
  pub already_queued : ℕ

abbrev pub new_delivery : ℕ → ℕ → ℕ → ℕ → EventDelivery
new_delivery delivery_id event_id subscription_id now = record {
  delivery_id = delivery_id;
  event_id = event_id;
  subscription_id = subscription_id;
  status = pending;
  attempts = 0;
  last_error = none;
  last_status = none;
  next_attempt_at = now;
  created_at = now;
  delivered_at = none;
  claimed_at = none;
  reclaims = 0;
  claim_token = none;
}

-- What a fan-out answers, if it does not throw, and the rows that it leaves in either case.
pub record Queued : Type 0 where
  pub result : Result DeliveryFanOutResult
  pub rows : Deliveries

abbrev pub count_queued : Bool → DeliveryFanOutResult → DeliveryFanOutResult
count_queued true r = record r { queued = r.queued + 1 }
count_queued false r = record r { already_queued = r.already_queued + 1 }

-- The loop of `queueFor`; `newId` counts from `new_id`.
unfoldable pub queue_each :
    Parents → ℕ → ℕ → ℕ → List EventSubscription → DeliveryFanOutResult → Deliveries → Queued
unfolding queue
queue_each parents event_id now new_id [] result rows = record { result = ok result; rows = rows }
queue_each parents event_id now new_id (s ∷ ss) result rows =
    elim (queue parents (new_delivery new_id event_id s.subscription_id now) rows) [
      | err e ↦ record { result = err e; rows = rows }
      | ok (queued, rows') ↦
          queue_each parents event_id now (new_id + 1) ss (count_queued queued result) rows'
    ]

-- `queueFor`
unfoldable pub queue_for : Parents → EventEnvelope → ℕ → ℕ → Deliveries → Queued
unfolding queue_each subscriptions_for
queue_for parents event now new_id rows =
    queue_each parents event.event_id now new_id
      (subscriptions_for event.event_type parents.subscriptions)
      (record { queued = 0; already_queued = 0 }) rows
