-- ===== src/Eventing/Delivery/Tests.antt =====
-- Runs of the model of src/platform/eventing/delivery.ts.
use wasla_core.Base.{
  ◌+◌, ◌==◌, if◌then◌else◌, ℕ, ◌≤◌, none, some, true, ◌≡◌, refl, [], ◌∷◌, arith, length, All,
  is_some,
}
use wasla_core.Base.Sort.{sort, then_by}
use wasla_core.Base.Loops.{for_each}
use wasla_core.Base.Table.{get, put, values, IsKeyed}
use wasla_core.Eventing.Delivery.{
  EventSubscription, DeliveryStore, Deliveries, Parents, claim_due, reclaim_expired, compare_due,
}
use wasla_core.Eventing.Delivery.FanOut.{DeliveryFanOutResult, Queued, queue_for}
use wasla_core.Eventing.Delivery.FanOut.Once.{queue_for_once, copies, subscription_key}
use wasla_core.Eventing.Outbox.{new_row}
use wasla_core.Eventing.Delivery.Rules.{AreRuled}
use wasla_core.Eventing.Delivery.Subscriptions.{Subscriptions, subscriptions_for}
use wasla_core.Eventing.Delivery.Worker.{Settings, World, Pass, drain_once}
use wasla_core.Eventing.Delivery.Worker.Accounting.{drain_once_total}
use wasla_core.Eventing.Envelope.{EventEnvelope}
use wasla_core.Platform.Errors.{ok, err, plain}

abbrev event : EventEnvelope
event = record {
  event_id = 5;
  event_type = "core.payment.captured";
  version = 1;
  producer = "wasla-core";
  occurred_at = 900;
  correlation_id = "c1";
  causation_id = none;
  entity_type = "payment_authorization";
  entity_id = 7;
  payload = [];
}

abbrev subscriber : ℕ → EventSubscription
subscriber k = record {
  subscription_id = k;
  subscriber = "market";
  event_type = "core.payment.captured";
  endpoint_url = "https://market.example/events";
  signing_secret = "0123456789abcdef0123456789abcdef";
  active = true;
  created_at = 10;
}

abbrev subscriptions : Subscriptions
subscriptions = (3, subscriber 3) ∷ (4, record (subscriber 4) { subscriber = "move" }) ∷ []

abbrev parents : Parents
parents = record { outbox = (5, new_row event 900) ∷ []; subscriptions = subscriptions }

abbrev fan_out : Queued
fan_out = queue_for parents event 1000 50 []

abbrev queued : Deliveries
queued = fan_out.rows

event_stored : is_some (get 5 parents.outbox) ≡ true
unfolding get
event_stored = refl

subscriptions-IsKeyed : IsKeyed subscription_key subscriptions
unfolding get
subscriptions-IsKeyed = ground arith

queue_for_once_example :
    let interested = subscriptions_for "core.payment.captured" subscriptions in
    (result : DeliveryFanOutResult) × (fan_out.result ≡ ok result)
    × ((e k : ℕ) → copies e k (values []) ≤ copies e k (values queued))
    × ((e k : ℕ) → copies e k (values queued) ≤ 1)
    × All (λ (s : EventSubscription). copies 5 s.subscription_id (values queued) ≡ 1) interested
    × (result.queued + result.already_queued ≡ length interested)
    × ((now' n' : ℕ)
        → queue_for parents event now' n' queued ≡ record {
          result = ok (record { queued = 0; already_queued = length interested });
          rows = queued;
        })
unfolding copies values
queue_for_once_example =
    queue_for_once parents event 1000 50 [] event_stored subscriptions-IsKeyed
      (record { keyed = tt; below = tt; once = λ e k. omega arith })

queued_both : fan_out.result ≡ ok (record { queued = 2; already_queued = 0 })
unfolding queue_for values sort get put then_by
queued_both = refl

-- An event that the outbox does not have is refused, and nothing is queued.
unknown_event :
    queue_for (record parents { outbox = [] }) event 1000 50 []
    ≡ record { result = err (plain "event_delivery_event_id_fkey"); rows = [] }
unfolding queue_for values sort get put then_by
unknown_event = refl

abbrev settings : Settings
settings = record { max_attempts = 8; base_backoff_ms = 1000; max_reclaims = 3 }

-- One endpoint takes the event, the other is not well.
abbrev world : World
world = record {
  send = λ s e attempt.
      if s.subscription_id == 3
      then record { status = some 204; error = none }
      else record { status = some 503; error = none };
  event_of = λ k. some event;
  before = λ d store. store;
  meanwhile = λ d store. store;
}

abbrev store : DeliveryStore
store = record { subscriptions = subscriptions; deliveries = queued }

drain_once_total_example :
    (p : Pass) × (drain_once settings world 1000 10 77 store ≡ ok p)
    × (p.result.delivered + p.result.failed + p.result.dead + p.result.fenced + p.result.suppressed
        ≡ 2)
    × AreRuled p.store.deliveries
unfolding queue_for values sort get put claim_due reclaim_expired then_by for_each compare_due
drain_once_total_example =
    drain_once_total settings world 1000 10 77 store (λ d s h. h) (λ d s h. h) ((refl, (refl, tt)))
