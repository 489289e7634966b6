-- ===== src/Eventing/Delivery/FanOut/Once.antt =====
-- src/platform/eventing/delivery.ts (`DeliveryFanOut`): an event is queued once for each subscriber.
use wasla_core.Base.{
  ℕ, ◌+◌, ◌≤◌, String, Bool, true, false, is_some, ◌≡◌, refl, ap, ◌∙◌, inl, inr, List, [], ◌∷◌,
  ◌++◌, length, arith, All, All-map, All-filter, Bool-cases, if◌then◌else◌,
}
use wasla_core.Base.Table.{
  get, put, values, values-put_new, values-get, get-above, IsKeyed, IsKeyed-put, AllBelow,
  AllBelow-put, AllBelow-le,
}
use wasla_core.Eventing.Delivery.{
  EventSubscription, EventDelivery, Deliveries, Parents, queue, delivery_refusal, any, is_for,
}
use wasla_core.Eventing.Delivery.Subscriptions.{
  Subscriptions, subscriptions_for, is_interested, compare_subscriber,
}
use wasla_core.Eventing.Delivery.FanOut.{
  DeliveryFanOutResult, new_delivery, count_queued, queue_each, queue_for,
}
use wasla_core.Platform.Errors.{ok}
use wasla_core.Base.Sort.{All-sort}
use wasla_core.Eventing.Envelope.{EventEnvelope}

abbrev pub delivery_key : EventDelivery → ℕ
delivery_key d = d.delivery_id

-- How many deliveries of an event there are for a subscription.
unfoldable pub copies : ℕ → ℕ → List EventDelivery → ℕ
copies event_id subscription_id [] = 0
copies event_id subscription_id (d ∷ ds) =
    if is_for event_id subscription_id d
    then copies event_id subscription_id ds + 1
    else copies event_id subscription_id ds

copies-any : (e k : ℕ) (ds : List EventDelivery) → any (is_for e k) ds ≡ true → 1 ≤ copies e k ds
unfolding copies
copies-any e k [] h = ground arith
copies-any e k (d ∷ ds) h = ground (arith, copies-any e k ds)

any-copies : (e k : ℕ) (ds : List EventDelivery) → 1 ≤ copies e k ds → any (is_for e k) ds ≡ true
unfolding copies
any-copies e k [] h = ground arith
any-copies e k (d ∷ ds) h = ground (arith, any-copies e k ds)

copies-append :
    (e k : ℕ) (ds : List EventDelivery) (d : EventDelivery)
    → copies e k (ds ++ d ∷ []) ≡ copies e k ds + (if is_for e k d then 1 else 0)
unfolding copies
copies-append e k [] d = ground arith
copies-append e k (x ∷ ds) d = ground (arith, copies-append e k ds d)

-- The deliveries stand under their identifiers, below the next one, and each event is queued at most once for a
-- subscription.
pub record IsQueue (n : ℕ) (rows : Deliveries) : Type 0 where
  pub keyed : IsKeyed delivery_key rows
  pub below : AllBelow delivery_key n rows
  pub once : (e k : ℕ) → copies e k (values rows) ≤ 1

-- A fan-out of deliveries that the store admits.
pub enqueue : EventDelivery → Deliveries → Bool × Deliveries
enqueue d rows =
    if any (is_for d.event_id d.subscription_id) (values rows)
    then (false, rows)
    else (true, put d.delivery_id d rows)

pub record Enqueued : Type 0 where
  pub result : DeliveryFanOutResult
  pub rows : Deliveries

enqueue_each : ℕ → ℕ → ℕ → List EventSubscription → DeliveryFanOutResult → Deliveries → Enqueued
unfolding enqueue
enqueue_each event_id now n [] result rows = record { result = result; rows = rows }
enqueue_each event_id now n (s ∷ ss) result rows =
    let (queued, rows') = enqueue (new_delivery n event_id s.subscription_id now) rows in
    enqueue_each event_id now (n + 1) ss (count_queued queued result) rows'

module _ (parents : Parents) (event_id now : ℕ)
    (known : is_some (get event_id parents.outbox) ≡ true) where
  abbrev IsStored : EventSubscription → Type 0
  IsStored s = is_some (get s.subscription_id parents.subscriptions) ≡ true

  queue-enqueue :
      (n : ℕ) (s : EventSubscription) (rows : Deliveries)
      → IsStored s
      → let d = new_delivery n event_id s.subscription_id now in
        queue parents d rows ≡ ok (enqueue d rows)
  unfolding queue delivery_refusal enqueue
  queue-enqueue n s rows h = ground (arith, known, h)

  queue_each-enqueue_each :
      (n : ℕ) (ss : List EventSubscription) (result : DeliveryFanOutResult) (rows : Deliveries)
      → All IsStored ss
      → let done = enqueue_each event_id now n ss result rows in
        queue_each parents event_id now n ss result rows
        ≡ record { result = ok done.result; rows = done.rows }
  unfolding queue_each enqueue_each
  queue_each-enqueue_each n [] result rows all = refl
  queue_each-enqueue_each n (s ∷ ss) result rows all =
      let next = enqueue (new_delivery n event_id s.subscription_id now) rows in
      ground (
        arith,
        queue-enqueue n s rows all.0,
        queue_each-enqueue_each (n + 1) ss (count_queued next.0 result) next.1 all.1,
      )

module _ (d : EventDelivery) (rows : Deliveries) (ready : IsQueue d.delivery_id rows) where
  queued-copies :
      (e k : ℕ)
      → any (is_for d.event_id d.subscription_id) (values rows) ≡ false
      → copies e k (values (put d.delivery_id d rows))
        ≡ copies e k (values rows) + (if is_for e k d then 1 else 0)
  queued-copies e k absent =
      ap (copies e k) (
        values-put_new d.delivery_id d rows (
          get-above delivery_key d.delivery_id d.delivery_id rows ready.keyed ready.below
            (omega arith)))
      ∙ copies-append e k (values rows) d

  absent_once :
      (e k : ℕ)
      → any (is_for d.event_id d.subscription_id) (values rows) ≡ false
      → is_for e k d ≡ true
      → copies e k (values rows) ≡ 0
  absent_once e k absent own =
      ground
        (arith, absent, own, any-copies d.event_id d.subscription_id (values rows), ready.once e k)

  pub enqueue-IsQueue : IsQueue (d.delivery_id + 1) (enqueue d rows).1
  unfolding enqueue
  enqueue-IsQueue = elim (Bool-cases (any (is_for d.event_id d.subscription_id) (values rows))) [
    | inl present ↦ rw present (record {
      keyed = ready.keyed;
      below =
          AllBelow-le delivery_key d.delivery_id (d.delivery_id + 1) rows (omega arith) ready.below;
      once = ready.once;
    })
    | inr absent ↦ rw absent (record {
      keyed = IsKeyed-put delivery_key d rows ready.keyed;
      below = AllBelow-put delivery_key (d.delivery_id + 1) d rows (omega arith) (
          AllBelow-le delivery_key d.delivery_id (d.delivery_id + 1) rows (omega arith)
            ready.below);
      once = λ e k. elim (Bool-cases (is_for e k d)) [
        | inl own ↦ ground (arith, queued-copies e k absent, own, absent_once e k absent own)
        | inr other ↦ ground (arith, queued-copies e k absent, other, ready.once e k)
      ];
    })
  ]

  -- An admitted delivery leaves a delivery for its subscription, and takes none away.
  pub enqueue-copies :
      (1 ≤ copies d.event_id d.subscription_id (values (enqueue d rows).1))
      × ((e k : ℕ) → copies e k (values rows) ≤ copies e k (values (enqueue d rows).1))
  unfolding enqueue
  enqueue-copies = elim (Bool-cases (any (is_for d.event_id d.subscription_id) (values rows))) [
    | inl present ↦ (
      ground (arith, present, copies-any d.event_id d.subscription_id (values rows)),
      λ e k. ground (arith, present),
    )
    | inr absent ↦ (
      ground (arith, absent, queued-copies d.event_id d.subscription_id absent),
      λ e k. ground (arith, absent, queued-copies e k absent),
    )
  ]

abbrev HasOne : ℕ → Deliveries → EventSubscription → Type 0
HasOne event_id rows s = 1 ≤ copies event_id s.subscription_id (values rows)

module _ (event_id now : ℕ) where
  -- What the loop of a fan-out leaves.
  enqueue_each_lem :
      (n : ℕ) (ss : List EventSubscription) (result : DeliveryFanOutResult) (rows : Deliveries)
      → IsQueue n rows
      → let done = enqueue_each event_id now n ss result rows in
        ((e k : ℕ) → copies e k (values done.rows) ≤ 1)
        × ((e k : ℕ) → copies e k (values rows) ≤ copies e k (values done.rows))
        × All (HasOne event_id done.rows) ss
        × (done.result.queued + done.result.already_queued
            ≡ result.queued + result.already_queued + length ss)
  unfolding enqueue_each
  enqueue_each_lem n [] result rows ready = (ready.once, λ e k. omega arith, tt, omega arith)
  enqueue_each_lem n (s ∷ ss) result rows ready =
      let d = new_delivery n event_id s.subscription_id now in
      let first = enqueue-copies d rows ready in
      let (once, more, each, counted) =
        enqueue_each_lem (n + 1) ss (count_queued (enqueue d rows).0 result) (enqueue d rows).1
          (enqueue-IsQueue d rows ready) in
      (
        once,
        λ e k. omega (arith, first.1 e k, more e k),
        (omega (arith, first.0, more event_id s.subscription_id), each),
        ground (arith, counted),
      )

  -- A fan-out over subscriptions that all have their delivery changes nothing.
  enqueue_each-again :
      (n : ℕ) (ss : List EventSubscription) (result : DeliveryFanOutResult) (rows : Deliveries)
      → All (HasOne event_id rows) ss
      → enqueue_each event_id now n ss result rows ≡ record {
        result = record result { already_queued = result.already_queued + length ss };
        rows = rows;
      }
  unfolding enqueue_each enqueue
  enqueue_each-again n [] result rows all = ground arith
  enqueue_each-again n (s ∷ ss) result rows (h, all) = ground (
    arith,
    any-copies event_id s.subscription_id (values rows) h,
    enqueue_each-again (n + 1) ss (record result { already_queued = result.already_queued + 1 })
        rows all,
  )

abbrev pub subscription_key : EventSubscription → ℕ
subscription_key s = s.subscription_id

-- The subscriptions that a fan-out reads are stored.
subscriptions-stored :
    (event_type : String) (subscriptions : Subscriptions)
    → IsKeyed subscription_key subscriptions
    → All
        (λ s. is_some (get s.subscription_id subscriptions) ≡ true)
        (subscriptions_for event_type subscriptions)
unfolding subscriptions_for
subscriptions-stored event_type subscriptions keyed =
    let found = values-get subscription_key subscriptions keyed in
    All-sort compare_subscriber _ _ (
      All-filter _ (is_interested event_type) _
        (All-map _ _ (λ s e. ap is_some e) (values subscriptions) found))

-- For an event that the outbox has, where each event is queued at most once for a subscription, identifiers are
-- new and subscriptions stand under their own, `queueFor` does not throw; an event is then still queued at most once
-- for a subscription, every active subscription to the type of the event has exactly one delivery of it, no
-- delivery is taken away, each subscription is counted once, and the same event queued again is counted as
-- queued already for all of them and changes nothing.
pub queue_for_once :
    (parents : Parents) (event : EventEnvelope) (now n : ℕ) (rows : Deliveries)
    → is_some (get event.event_id parents.outbox) ≡ true
    → IsKeyed subscription_key parents.subscriptions
    → IsQueue n rows
    → let done = queue_for parents event now n rows in
      let interested = subscriptions_for event.event_type parents.subscriptions in
      (result : DeliveryFanOutResult) × (done.result ≡ ok result)
      × ((e k : ℕ) → copies e k (values rows) ≤ copies e k (values done.rows))
      × ((e k : ℕ) → copies e k (values done.rows) ≤ 1)
      × All (λ s. copies event.event_id s.subscription_id (values done.rows) ≡ 1) interested
      × (result.queued + result.already_queued ≡ length interested)
      × ((now' n' : ℕ)
          → queue_for parents event now' n' done.rows ≡ record {
            result = ok (record { queued = 0; already_queued = length interested });
            rows = done.rows;
          })
unfolding queue_for
queue_for_once parents event now n rows known keyed ready =
    let interested = subscriptions_for event.event_type parents.subscriptions in
    let stored = subscriptions-stored event.event_type parents.subscriptions keyed in
    let none_yet : DeliveryFanOutResult = record { queued = 0; already_queued = 0 } in
    let (once, more, each, counted) =
      enqueue_each_lem event.event_id now n interested none_yet rows ready in
    let after = enqueue_each event.event_id now n interested none_yet rows in
    rw (queue_each-enqueue_each parents event.event_id now known n interested none_yet rows stored)
      (
        after.result,
        refl,
        more,
        once,
        All-map _ _ (λ s one. omega (arith, one, once event.event_id s.subscription_id)) interested
            each,
        counted ∙ omega arith,
        λ now' n'.
            queue_each-enqueue_each parents event.event_id now' known n' interested none_yet
              after.rows stored
            ∙ ap (λ (x : Enqueued). record { result = ok x.result; rows = x.rows })
                (enqueue_each-again event.event_id now' n' interested none_yet after.rows each
                  ∙ ground arith),
      )
