-- ===== src/Eventing/Delivery/Worker.antt =====
-- src/platform/eventing/delivery.ts (`DeliveryWorker.drainOnce`). What the endpoints answer, what the outbox has,
-- and what other processes do to the store meanwhile are parameters; metrics and the signature are left
-- out.
pub mod Accounting
use wasla_core.Base.{
  ℕ, ◌+◌, ◌*◌, ◌^◌, String, Option, none, some, Bool, true, false, ◌&&◌, ◌||◌, List, [], ◌∷◌, leb,
  ltb, ◌==◌, if◌then◌else◌,
}
use wasla_core.Base.Table.{get}
use wasla_core.Eventing.Delivery.{
  EventSubscription, EventDelivery, DeliveryStore, Deliveries, Ack, claim_due, reclaim_expired,
  mark_delivered, mark_failed, mark_dead, mark_suppressed, revive, queue,
}
use wasla_core.Eventing.Delivery.Subscriptions.{set_subscription_active}
use wasla_core.Eventing.Envelope.{EventEnvelope}
use wasla_core.Eventing.Fencing.{Fence}
use wasla_core.Eventing.Reclaim.{LastError, message}
use wasla_core.Platform.Errors.{Failure, Result, ok, err}

-- `isRetryable`
unfoldable pub is_retryable : Option ℕ → Bool
is_retryable none = true
is_retryable (some status) =
    if status == 408 || status == 429
    then true
    else if leb 400 status && ltb status 500
    then false
    else true

-- `isSuccess`
unfoldable pub is_success : Option ℕ → Bool
is_success none = false
is_success (some status) = leb 200 status && ltb status 300

pub record TransportResponse : Type 0 where
  pub status : Option ℕ
  pub error : Option String

pub record DeliveryWorkerResult : Type 0 where
  pub delivered : ℕ
  pub failed : ℕ
  pub dead : ℕ
  pub reclaimed : ℕ
  pub reclaim_exhausted : ℕ
  pub fenced : ℕ
  pub suppressed : ℕ

pub record Settings : Type 0 where
  pub max_attempts : ℕ
  pub base_backoff_ms : ℕ
  pub max_reclaims : ℕ

pub record World : Type 0 where
  -- What the endpoint of a subscription answers to an attempt.
  pub send : EventSubscription → EventEnvelope → ℕ → TransportResponse
  -- The event of the outbox under an identifier.
  pub event_of : ℕ → Option EventEnvelope
  -- What others do to the store before a delivery is looked at, and before it is acknowledged.
  pub before : EventDelivery → DeliveryStore → DeliveryStore
  pub meanwhile : EventDelivery → DeliveryStore → DeliveryStore

pub record Pass : Type 0 where
  pub result : DeliveryWorkerResult
  pub store : DeliveryStore

-- What becomes of a claimed delivery.
pub data Verdict : Type 0 where
  suppress : String → Verdict
  bury : LastError → Option ℕ → Verdict
  deliver : ℕ → Verdict
  retry : LastError → Option ℕ → Verdict

abbrev pub reason_of : TransportResponse → LastError
reason_of response = elim response.error [
  | some error ↦ message error
  | none ↦ message "endpoint responded"
]

-- The branches for a response that is no success.
abbrev pub refuse : ℕ → ℕ → TransportResponse → Verdict
refuse max_attempts attempts response =
    if is_retryable response.status
    then (if leb max_attempts attempts
        then bury (reason_of response) response.status
        else retry (reason_of response) response.status)
    else bury (reason_of response) response.status

abbrev pub judge_response : ℕ → ℕ → TransportResponse → Verdict
judge_response max_attempts attempts response = elim response.status [
  | none ↦ refuse max_attempts attempts response
  | some status ↦
      if is_success (some status) then deliver status else refuse max_attempts attempts response
]

module _ (cfg : Settings) (world : World) (now : ℕ) where
  abbrev pub judge_event : EventDelivery → EventSubscription → Option EventEnvelope → Verdict
  judge_event d s none = bury (message "event no longer in the outbox") none
  judge_event d s (some event) =
      judge_response cfg.max_attempts (d.attempts + 1) (world.send s event (d.attempts + 1))

  -- The loop's body of `drainOnce`, up to its acknowledgement.
  unfoldable pub judge : EventDelivery → Option EventSubscription → Verdict
  unfolding is_success is_retryable
  judge d none = bury (message "subscription no longer exists") none
  judge d (some s) =
      if s.active
      then judge_event d s (world.event_of d.event_id)
      else suppress "subscription is not active; delivery suppressed"

  unfoldable pub acknowledge_verdict : EventDelivery → Verdict → Deliveries → Ack
  unfolding mark_delivered mark_failed mark_dead mark_suppressed
  acknowledge_verdict d (suppress reason) = mark_suppressed d.delivery_id d.claim_token reason
  acknowledge_verdict d (bury error status) = mark_dead d.delivery_id d.claim_token error status
  acknowledge_verdict d (deliver status) = mark_delivered now d.delivery_id d.claim_token status
  acknowledge_verdict d (retry error status) =
      mark_failed d.delivery_id d.claim_token error status
        (now + cfg.base_backoff_ms * 2 ^ d.attempts)

  abbrev pub count_applied : Verdict → DeliveryWorkerResult → DeliveryWorkerResult
  count_applied (suppress reason) r = record r { suppressed = r.suppressed + 1 }
  count_applied (bury error status) r = record r { dead = r.dead + 1 }
  count_applied (deliver status) r = record r { delivered = r.delivered + 1 }
  count_applied (retry error status) r = record r { failed = r.failed + 1 }

  abbrev pub count_ack : Bool → Verdict → DeliveryWorkerResult → DeliveryWorkerResult
  count_ack true verdict r = count_applied verdict r
  count_ack false verdict r = record r { fenced = r.fenced + 1 }

  abbrev pub after_ack : Verdict → DeliveryWorkerResult → DeliveryStore → Ack → Result Pass
  after_ack verdict r store (err e) = err e
  after_ack verdict r store (ok (applied, rows)) =
      ok (record {
        result = count_ack applied verdict r;
        store = record store { deliveries = rows };
      })

  unfoldable pub deliver_one : EventDelivery → Pass → Result Pass
  unfolding judge acknowledge_verdict
  deliver_one d s =
      let read = world.before d s.store in
      let verdict = judge d (get d.subscription_id read.subscriptions) in
      let store = world.meanwhile d read in
      after_ack verdict s.result store (acknowledge_verdict d verdict store.deliveries)

  -- The loop: what is thrown ends it.
  unfoldable pub deliver_all : List EventDelivery → Pass → Result Pass
  unfolding deliver_one
  deliver_all [] s = ok s
  deliver_all (d ∷ ds) s = elim (deliver_one d s) [ ok s' ↦ deliver_all ds s' | err e ↦ err e ]

  -- `drainOnce`; `token` is the fresh token of its claim, and the lease is the default.
  unfoldable pub drain_once : ℕ → ℕ → DeliveryStore → Result Pass
  unfolding deliver_all reclaim_expired claim_due
  drain_once limit token store =
      let reclaim = reclaim_expired now cfg.max_reclaims limit store.deliveries in
      let claim = claim_due now limit 30000 token reclaim.rows in
      deliver_all claim.due (record {
        result = record {
          delivered = 0;
          failed = 0;
          dead = 0;
          reclaimed = reclaim.outcome.reclaimed;
          reclaim_exhausted = reclaim.outcome.dead;
          fenced = 0;
          suppressed = 0;
        };
        store = record store { deliveries = claim.rows };
      })
