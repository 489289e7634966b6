-- ===== src/Eventing/Delivery.antt =====
-- src/platform/eventing/delivery.ts (`InMemoryDeliveryStore`): subscriptions, and the deliveries queued for them.
-- `now` and the fresh claim token are arguments. `putRow` refuses a row that breaks `row_rules` or, where it
-- is new, one whose event or subscription is not stored; of the writes to stored rows only an
-- acknowledgement can break a rule.
pub mod Subscriptions
pub mod FanOut
pub mod Worker
pub mod Rules
mod Tests
use Prim.Native.Nat.{compare, Ordering}
use wasla_core.Base.{
  ℕ, ◌+◌, String, Option, none, some, Bool, true, false, not, ◌&&◌, ◌||◌, List, [], ◌∷◌, ◌++◌, leb,
  ◌==◌, if◌then◌else◌, is_some, filter, take,
}
use wasla_core.Base.Loops.{Flow, next, break, for_each}
use wasla_core.Base.Sort.{sort, then_by}
use wasla_core.Base.Table.{Table, get, put, values}
use wasla_core.Eventing.Fencing.{Fence, is_fenced}
use wasla_core.Eventing.Outbox.{Rows}
use wasla_core.Eventing.Reclaim.{
  ReclaimOutcome, reclaim_exhausted, LastError, message, reclaimed_error, reclaim_exhausted_error,
}
use wasla_core.Eventing.Revival.{includes, unless_given, is_after}
use wasla_core.Platform.Errors.{Failure, Result, ok, err, plain}

pub record EventSubscription : Type 0 where
  pub subscription_id : ℕ
  pub subscriber : String
  pub event_type : String
  pub endpoint_url : String
  pub signing_secret : String
  pub active : Bool
  pub created_at : ℕ

pub data DeliveryStatus : Type 0 where
  pending delivered dead : DeliveryStatus

pub record EventDelivery : Type 0 where
  pub delivery_id : ℕ
  pub event_id : ℕ
  pub subscription_id : ℕ
  pub status : DeliveryStatus
  pub attempts : ℕ
  pub last_error : Option LastError
  pub last_status : Option ℕ
  pub next_attempt_at : ℕ
  pub created_at : ℕ
  pub delivered_at : Option ℕ
  pub claimed_at : Option ℕ
  pub reclaims : ℕ
  pub claim_token : Option ℕ

pub record DeliveryStore : Type 0 where
  pub subscriptions : Table EventSubscription
  pub deliveries : Table EventDelivery

abbrev pub Deliveries : Type 0
Deliveries = Table EventDelivery

abbrev pub is_pending : DeliveryStatus → Bool
is_pending pending = true
is_pending _ = false

abbrev pub is_delivered : DeliveryStatus → Bool
is_delivered delivered = true
is_delivered _ = false

abbrev pub is_dead : DeliveryStatus → Bool
is_dead dead = true
is_dead _ = false

abbrev same_truth : Bool → Bool → Bool
same_truth true b = b
same_truth false b = not b

-- `ROW_RULES.event_delivery`
abbrev pub row_rules : EventDelivery → Bool
row_rules d =
    (not (is_some d.claimed_at) || is_pending d.status)
    && (not (is_some d.claim_token) || is_some d.claimed_at)
    && same_truth (is_delivered d.status) (is_some d.delivered_at)

-- `queue`: the event of a delivery is queued for a subscription once.
abbrev pub is_for : ℕ → ℕ → EventDelivery → Bool
is_for event_id subscription_id d = d.event_id == event_id && d.subscription_id == subscription_id

abbrev pub any {ℓ} : {A : Type ℓ} → (A → Bool) → List A → Bool
any p [] = false
any p (x ∷ xs) = p x || any p xs

-- The tables that the foreign keys of a delivery point to.
pub record Parents : Type 0 where
  pub outbox : Rows
  pub subscriptions : Table EventSubscription

-- What `putRow` says of a new delivery: the rules of its table, and its foreign keys.
unfoldable pub delivery_refusal : Parents → EventDelivery → Option Failure
delivery_refusal parents d =
    if not (row_rules d)
    then some (plain "event_delivery_check")
    else if not (is_some (get d.event_id parents.outbox))
    then some (plain "event_delivery_event_id_fkey")
    else if not (is_some (get d.subscription_id parents.subscriptions))
    then some (plain "event_delivery_subscription_id_fkey")
    else none

unfoldable pub queue : Parents → EventDelivery → Deliveries → Result (Bool × Deliveries)
unfolding delivery_refusal
queue parents d rows =
    if any (is_for d.event_id d.subscription_id) (values rows)
    then ok (false, rows)
    else (elim (delivery_refusal parents d) [
      | some e ↦ err e
      | none ↦ ok (true, put d.delivery_id d rows)
    ])

unfoldable pub compare_due : EventDelivery → EventDelivery → Ordering
compare_due left right = then_by (compare left.next_attempt_at right.next_attempt_at) (
    then_by (compare left.created_at right.created_at) (compare left.delivery_id right.delivery_id))

unfoldable pub in_due_order : List EventDelivery → List EventDelivery
in_due_order rows = sort compare_due rows

abbrev pub is_claimable : ℕ → EventDelivery → Bool
is_claimable now d = is_pending d.status && not (is_some d.claimed_at) && leb d.next_attempt_at now

abbrev pub claimed_row : ℕ → ℕ → ℕ → EventDelivery → EventDelivery
claimed_row now lease_ms token d = record d {
  next_attempt_at = now + lease_ms;
  claimed_at = some now;
  claim_token = some token;
}

pub record Claim : Type 0 where
  pub due : List EventDelivery
  pub rows : Deliveries

-- The loop of `claimDue`.
unfoldable pub claim_all : ℕ → ℕ → ℕ → List EventDelivery → Deliveries → Claim
claim_all now lease_ms token [] rows = record { due = []; rows = rows }
claim_all now lease_ms token (d ∷ ds) rows =
    let claimed = claimed_row now lease_ms token d in
    let rest = claim_all now lease_ms token ds (put d.delivery_id claimed rows) in
    record { due = claimed ∷ rest.due; rows = rest.rows }

-- `claimDue`
unfoldable pub claim_due : ℕ → ℕ → ℕ → ℕ → Deliveries → Claim
unfolding in_due_order claim_all
claim_due now limit lease_ms token rows =
    claim_all now lease_ms token
      (take limit (in_due_order (filter (is_claimable now) (values rows)))) rows

-- A held row whose lease has run out.
abbrev pub is_abandoned : ℕ → EventDelivery → Bool
is_abandoned now d = is_pending d.status && is_some d.claimed_at && leb d.next_attempt_at now

unfoldable pub reclaimed_row : ℕ → ℕ → EventDelivery → EventDelivery
reclaimed_row now max_reclaims d =
    let reclaims = d.reclaims + 1 in
    let exhausted = reclaim_exhausted d.reclaims max_reclaims in
    record d {
      reclaims = reclaims;
      status = if exhausted then dead else d.status;
      claimed_at = none;
      claim_token = none;
      next_attempt_at = if exhausted then d.next_attempt_at else now;
      last_error =
          if exhausted
          then some (reclaim_exhausted_error reclaims d.attempts)
          else some (reclaimed_error reclaims d.attempts);
    }

pub record Reclaim : Type 0 where
  pub outcome : ReclaimOutcome
  pub rows : Deliveries

abbrev pub count_reclaim : Bool → ReclaimOutcome → ReclaimOutcome
count_reclaim true o = record o { dead = o.dead + 1 }
count_reclaim false o = record o { reclaimed = o.reclaimed + 1 }

unfoldable pub reclaim_round : ℕ → ℕ → ℕ → EventDelivery → Reclaim → Flow Reclaim
unfolding reclaimed_row
reclaim_round now max_reclaims limit d s =
    if leb limit (s.outcome.reclaimed + s.outcome.dead)
    then break s
    else if is_abandoned now d
    then next (record {
      outcome = count_reclaim (reclaim_exhausted d.reclaims max_reclaims) s.outcome;
      rows = put d.delivery_id (reclaimed_row now max_reclaims d) s.rows;
    })
    else next s

-- `reclaimExpired`
unfoldable pub reclaim_expired : ℕ → ℕ → ℕ → Deliveries → Reclaim
unfolding in_due_order reclaim_round
reclaim_expired now max_reclaims limit rows =
    for_each (reclaim_round now max_reclaims limit) (in_due_order (values rows))
      (record { outcome = record { reclaimed = 0; dead = 0 }; rows = rows })

abbrev pub Ack : Type 0
Ack = Result (Bool × Deliveries)

-- `putRow`, of an acknowledged row.
abbrev pub write_ack : ℕ → EventDelivery → Deliveries → Ack
write_ack delivery_id d rows =
    if row_rules d
    then ok (true, put delivery_id d rows)
    else err (plain "event_delivery_delivered_at_check")

-- An acknowledgement: refused when there is no row, or its claim is not the caller's.
abbrev pub acknowledge : ℕ → Fence → (EventDelivery → EventDelivery) → Deliveries → Ack
acknowledge delivery_id fence change rows = elim (get delivery_id rows) [
  | none ↦ ok (false, rows)
  | some d ↦
      if is_fenced d.claim_token fence
      then ok (false, rows)
      else write_ack delivery_id (change d) rows
]

abbrev pub delivered_row : ℕ → ℕ → EventDelivery → EventDelivery
delivered_row now status d = record d {
  status = delivered;
  attempts = d.attempts + 1;
  last_error = none;
  last_status = some status;
  delivered_at = some now;
  claimed_at = none;
  claim_token = none;
}

unfoldable pub mark_delivered : ℕ → ℕ → Fence → ℕ → Deliveries → Ack
mark_delivered now delivery_id fence status =
    acknowledge delivery_id fence (delivered_row now status)

abbrev pub failed_row : LastError → Option ℕ → ℕ → EventDelivery → EventDelivery
failed_row error status next_attempt_at d = record d {
  attempts = d.attempts + 1;
  last_error = some error;
  last_status = status;
  next_attempt_at = next_attempt_at;
  claimed_at = none;
  claim_token = none;
}

unfoldable pub mark_failed : ℕ → Fence → LastError → Option ℕ → ℕ → Deliveries → Ack
mark_failed delivery_id fence error status next_attempt_at =
    acknowledge delivery_id fence (failed_row error status next_attempt_at)

abbrev pub dead_row : LastError → Option ℕ → EventDelivery → EventDelivery
dead_row error status d = record d {
  status = dead;
  attempts = d.attempts + 1;
  last_error = some error;
  last_status = status;
  claimed_at = none;
  claim_token = none;
}

unfoldable pub mark_dead : ℕ → Fence → LastError → Option ℕ → Deliveries → Ack
mark_dead delivery_id fence error status = acknowledge delivery_id fence (dead_row error status)

abbrev pub suppressed_row : String → EventDelivery → EventDelivery
suppressed_row reason d = record d {
  status = dead;
  last_error = some (message reason);
  claimed_at = none;
  claim_token = none;
}

unfoldable pub mark_suppressed : ℕ → Fence → String → Deliveries → Ack
mark_suppressed delivery_id fence reason = acknowledge delivery_id fence (suppressed_row reason)

abbrev pub revived_row : ℕ → EventDelivery → EventDelivery
revived_row now d = record d {
  status = pending;
  next_attempt_at = now;
  claimed_at = none;
  claim_token = none;
  reclaims = 0;
}

unfoldable pub revive : ℕ → ℕ → Deliveries → Bool × Deliveries
revive delivery_id now rows = elim (get delivery_id rows) [
  | none ↦ (false, rows)
  | some d ↦
      if is_dead d.status then (true, put delivery_id (revived_row now d) rows) else (false, rows)
]
