-- ===== src/Fulfillment/Store.antt =====
-- src/modules/fulfillment/service.ts (`InMemoryFulfillmentRepository`) inside a transaction, with what
-- `putRow` adds for the table: ROW_RULES.fulfillment, and the foreign keys of reference-keys.ts. The
-- store holds the money module's state too, since a closure changes both in one transaction; of the
-- organizations it has the identifiers.
use text.Mathlib.Text.{◌==◌ as str_eq}
use Prim.Native.Nat.{compare, Ordering}
use wasla_core.Base.{
  ℕ, String, Option, none, some, Bool, true, false, not, ◌&&◌, ◌||◌, List, [], ◌∷◌, is_some, ◌==◌,
  if◌then◌else◌,
}
use wasla_core.Base.Sort.{sort, then_by}
use wasla_core.Base.Table.{Table, get, put, values}
use wasla_core.Fulfillment.Domain.{
  Fulfillment, FulfillmentStatus, coordinating, dispatched, completed, failed, cancelled,
  SettlementState, unfunded, held, captured, partially_captured, released, unsettled,
}
use wasla_core.Money.Store.{MoneyStore, find, or_refuse}
use wasla_core.Platform.Errors.{Failure, Result, ok, err, plain}
use wasla_core.Platform.UnitOfWork.{Scope}

pub record Core : Type 0 where
  pub money : MoneyStore
  pub organizations : List ℕ
  pub fulfillments : Table Fulfillment

abbrev pub CoreScope : Type 0
CoreScope = Scope Core

abbrev pub contains : ℕ → List ℕ → Bool
contains id [] = false
contains id (x ∷ xs) = x == id || contains id xs

-- `fulfillment_settlement_alignment_check`
abbrev pub aligned : FulfillmentStatus → SettlementState → Bool
aligned coordinating unfunded = true
aligned coordinating held = true
aligned coordinating _ = false
aligned dispatched unfunded = true
aligned dispatched held = true
aligned dispatched _ = false
aligned completed unfunded = true
aligned completed captured = true
aligned completed partially_captured = true
aligned completed unsettled = true
aligned completed _ = false
aligned _ unfunded = true
aligned _ released = true
aligned _ partially_captured = true
aligned _ unsettled = true
aligned _ _ = false

abbrev pub is_cancelled : FulfillmentStatus → Bool
is_cancelled cancelled = true
is_cancelled _ = false

abbrev pub same_presence : Bool → Bool → Bool
same_presence true b = b
same_presence false b = not b

-- The rules of `ROW_RULES.fulfillment`.
unfoldable pub rules_refusal : Fulfillment → Option Failure
rules_refusal f =
    if not (aligned f.status f.settlement_state)
    then some (plain "fulfillment_settlement_alignment_check")
    else if not (
        same_presence (is_some f.executed_after_cancellation_at)
          (is_some f.executed_after_cancellation_job_reference))
    then some (plain "fulfillment_execution_after_cancellation_check")
    else if is_some f.executed_after_cancellation_at && not (is_cancelled f.status)
    then some (plain "fulfillment_execution_after_cancellation_status_check")
    else none

abbrev pub known_hold : Option ℕ → MoneyStore → Bool
known_hold none s = true
known_hold (some id) s = is_some (get id s.authorizations)

unfoldable pub references_refusal : Fulfillment → Core → Option Failure
references_refusal f s =
    if not (contains f.organization_id s.organizations)
    then some (plain "fulfillment_organization_id_fkey")
    else if not (known_hold f.payment_authorization_id s.money)
    then some (plain "fulfillment_payment_authorization_id_fkey")
    else none

abbrev pub with_fulfillment : Fulfillment → Core → Core
with_fulfillment f s = record s { fulfillments = put f.fulfillment_id f s.fulfillments }

-- `putRow`
unfoldable pub put_row : Fulfillment → CoreScope → Result CoreScope
unfolding rules_refusal references_refusal
put_row f sc = or_refuse (rules_refusal f) (
    or_refuse (references_refusal f sc.store)
      (ok (record sc { store = with_fulfillment f sc.store })))

-- `byOrderReference`
unfoldable pub find_by_order_reference : String → Core → Option Fulfillment
find_by_order_reference reference s =
    find (λ f. str_eq f.market_order_reference reference) (values s.fulfillments)

abbrev pub same_job : String → Option String → Bool
same_job job none = false
same_job job (some other) = str_eq other job

-- `assertJobReferenceFree`: whether another row has the job.
abbrev pub holds_job : Fulfillment → String → Fulfillment → Bool
holds_job f job other =
    not (other.fulfillment_id == f.fulfillment_id) && same_job job other.move_job_reference

unfoldable pub job_reference_refusal : Fulfillment → Core → Option Failure
job_reference_refusal f s = elim f.move_job_reference [
  | none ↦ none
  | some job ↦
      if is_some (find (holds_job f job) (values s.fulfillments))
      then some (plain "fulfillment_move_job_reference_key")
      else none
]

unfoldable pub insert : Fulfillment → CoreScope → Result CoreScope
unfolding find_by_order_reference job_reference_refusal put_row
insert f sc =
    if is_some (find_by_order_reference f.market_order_reference sc.store)
    then err (plain "fulfillment_market_order_reference_key")
    else or_refuse (job_reference_refusal f sc.store) (put_row f sc)

-- Whether a conditional write was applied (`ConditionalWrite`, `InsertOutcome`).
pub data WriteOutcome : Type 0 where
  applied refused : WriteOutcome

abbrev pub applying : Result CoreScope → Result (WriteOutcome × CoreScope)
applying (ok sc) = ok (applied, sc)
applying (err e) = err e

-- `insertIfAbsent`
unfoldable pub insert_if_absent : Fulfillment → CoreScope → Result (WriteOutcome × CoreScope)
unfolding find_by_order_reference put_row
insert_if_absent f sc =
    if is_some (find_by_order_reference f.market_order_reference sc.store)
    then ok (refused, sc)
    else applying (put_row f sc)

-- `update`
unfoldable pub update : Fulfillment → CoreScope → Result CoreScope
unfolding job_reference_refusal put_row
update f sc = or_refuse (job_reference_refusal f sc.store) (put_row f sc)

abbrev pub same_status : FulfillmentStatus → FulfillmentStatus → Bool
same_status coordinating coordinating = true
same_status dispatched dispatched = true
same_status completed completed = true
same_status failed failed = true
same_status cancelled cancelled = true
same_status _ _ = false

abbrev pub includes : List FulfillmentStatus → FulfillmentStatus → Bool
includes [] status = false
includes (x ∷ xs) status = same_status x status || includes xs status

abbrev pub has_status_in : List FulfillmentStatus → Option Fulfillment → Bool
has_status_in expected none = false
has_status_in expected (some stored) = includes expected stored.status

-- `updateIfStatusIn`
unfoldable pub update_if_status_in :
    Fulfillment → List FulfillmentStatus → CoreScope → Result (WriteOutcome × CoreScope)
unfolding put_row
update_if_status_in f expected sc =
    if has_status_in expected (get f.fulfillment_id sc.store.fulfillments)
    then applying (put_row f sc)
    else ok (refused, sc)

abbrev pub executed_row : ℕ → String → Fulfillment → Fulfillment
executed_row executed_at job_reference f = record f {
  executed_after_cancellation_at = some executed_at;
  executed_after_cancellation_job_reference = some job_reference;
}

-- Whether a row takes the marker: it is cancelled, and has none.
abbrev pub takes_marker : Fulfillment → Bool
takes_marker f = is_cancelled f.status && not (is_some f.executed_after_cancellation_at)

-- `markExecutedAfterCancellation`
unfoldable pub mark_executed_after_cancellation :
    ℕ → ℕ → String → CoreScope → Result (WriteOutcome × CoreScope)
unfolding put_row
mark_executed_after_cancellation fulfillment_id executed_at job_reference sc =
    elim (get fulfillment_id sc.store.fulfillments) [
      | none ↦ ok (refused, sc)
      | some stored ↦
          if takes_marker stored
          then applying (put_row (executed_row executed_at job_reference stored) sc)
          else ok (refused, sc)
    ]

abbrev pub compare_created : Fulfillment → Fulfillment → Ordering
compare_created a b =
    then_by (compare a.created_at b.created_at) (compare a.fulfillment_id b.fulfillment_id)

-- `all`
unfoldable pub all_fulfillments : Core → List Fulfillment
all_fulfillments s = sort compare_created (values s.fulfillments)
