-- ===== src/Fulfillment/Moves/Writes.antt =====
-- src/modules/fulfillment/service.ts: what a staged mutation that succeeds does to the rows.
use wasla_core.Base.{
  sym, ℕ, none, some, true, false, ◌≡◌, refl, inl, inr, List, arith, Option-cases, Bool-cases,
  subst, ◌==◌,
}
use wasla_core.Base.Table.{Table, get, put, get-put}
use wasla_core.Fulfillment.Domain.{
  Fulfillment, FulfillmentStatus, coordinating, dispatched, completed, failed, cancelled,
  open_statuses, is_closed,
}
use wasla_core.Fulfillment.Service.{transition_mutation, intake_mutation}
use wasla_core.Fulfillment.Service.Jobs.{marking_mutation, MoveJobCompletedPayload}
use wasla_core.Fulfillment.Store.{
  CoreScope, put_row, update, update_if_status_in, insert_if_absent, includes, takes_marker,
  executed_row, mark_executed_after_cancellation, find_by_order_reference, rules_refusal,
}
use wasla_core.Fulfillment.Turn.Invariant.{IsRuled}
use wasla_core.Platform.Errors.{Result, ok}

put_row-ok :
    (f : Fulfillment) (sc sc' : CoreScope)
    → put_row f sc ≡ ok sc'
    → sc'.store.fulfillments ≡ put f.fulfillment_id f sc.store.fulfillments
unfolding put_row
put_row-ok f sc sc' h = ground arith

-- What the table's rules admit.
pub put_row-rules :
    (f : Fulfillment) (sc sc' : CoreScope) → put_row f sc ≡ ok sc' → rules_refusal f ≡ none
unfolding put_row
put_row-rules f sc sc' h = ground arith

pub open-includes :
    (status : FulfillmentStatus) → includes open_statuses status ≡ true → is_closed status ≡ false
open-includes coordinating h = refl
open-includes dispatched h = refl
open-includes completed h = cc
open-includes failed h = cc
open-includes cancelled h = cc

-- A transition is written over a row that has one of the expected statuses, or not at all.
pub transition_mutation-ok :
    (f : Fulfillment) (expected : List FulfillmentStatus) (sc sc' : CoreScope)
    → transition_mutation f expected sc ≡ ok sc'
    → (old : Fulfillment) × (get f.fulfillment_id sc.store.fulfillments ≡ some old)
      × (includes expected old.status ≡ true)
      × (sc'.store.fulfillments ≡ put f.fulfillment_id f sc.store.fulfillments)
unfolding transition_mutation update_if_status_in
transition_mutation-ok f expected sc sc' h =
    elim (Option-cases (get f.fulfillment_id sc.store.fulfillments)) [
      | inl missing ↦ absurd (ground (arith, missing))
      | inr (old, there) ↦
          (old, there, ground (arith, there), ground (arith, there, put_row-ok f sc sc'))
    ]

pub intake_mutation-ok :
    (f : Fulfillment) (sc sc' : CoreScope)
    → intake_mutation f sc ≡ ok sc'
    → (find_by_order_reference f.market_order_reference sc.store ≡ none)
      × (sc'.store.fulfillments ≡ put f.fulfillment_id f sc.store.fulfillments)
unfolding intake_mutation insert_if_absent
intake_mutation-ok f sc sc' h = (ground arith, ground (arith, put_row-ok f sc sc'))

pub update-ok :
    (f : Fulfillment) (sc sc' : CoreScope)
    → update f sc ≡ ok sc'
    → sc'.store.fulfillments ≡ put f.fulfillment_id f sc.store.fulfillments
unfolding update
update-ok f sc sc' h = ground (arith, put_row-ok f sc sc')

-- The marker goes onto a cancelled row that has none, as the row stands.
pub marking_mutation-ok :
    (k : ℕ) (payload : MoveJobCompletedPayload) (sc sc' : CoreScope)
    → marking_mutation k payload sc ≡ ok sc'
    → (old : Fulfillment) × (get k sc.store.fulfillments ≡ some old)
      × (takes_marker old ≡ true)
      × (sc'.store.fulfillments
          ≡ put old.fulfillment_id
              (executed_row payload.completed_at payload.job_id old)
              sc.store.fulfillments)
unfolding marking_mutation mark_executed_after_cancellation
marking_mutation-ok k payload sc sc' h = elim (Option-cases (get k sc.store.fulfillments)) [
  | inl missing ↦ absurd (ground (arith, missing))
  | inr (old, there) ↦ (
    old,
    there,
    ground (arith, there),
    ground (arith, there, put_row-ok (executed_row payload.completed_at payload.job_id old) sc sc'),
  )
]

IsRuled-put :
    (k : ℕ) (f : Fulfillment) (t : Table Fulfillment)
    → rules_refusal f ≡ none
    → IsRuled t
    → IsRuled (put k f t)
IsRuled-put k f t ruled all j g here = elim (Bool-cases (k == j)) [
  | inl same ↦ ground (arith, get-put k j f t, same, here, ruled)
  | inr other ↦ all j g (ground (arith, get-put k j f t, other, here))
]

-- A mutation that writes only what the rules admit.
abbrev pub KeepsRules : (CoreScope → Result CoreScope) → Type 0
KeepsRules m =
    (sc sc' : CoreScope)
    → m sc ≡ ok sc'
    → IsRuled sc.store.fulfillments
    → IsRuled sc'.store.fulfillments

stored-IsRuled :
    (k : ℕ) (f : Fulfillment) (sc sc' : CoreScope)
    → rules_refusal f ≡ none
    → sc'.store.fulfillments ≡ put k f sc.store.fulfillments
    → IsRuled sc.store.fulfillments
    → IsRuled sc'.store.fulfillments
stored-IsRuled k f sc sc' ruled done all =
    subst IsRuled (sym done) (IsRuled-put k f sc.store.fulfillments ruled all)

pub transition_mutation-KeepsRules :
    (f : Fulfillment) (expected : List FulfillmentStatus)
    → KeepsRules (transition_mutation f expected)
unfolding transition_mutation update_if_status_in
transition_mutation-KeepsRules f expected sc sc' h =
    elim (Option-cases (get f.fulfillment_id sc.store.fulfillments)) [
      | inl missing ↦ absurd (ground (arith, missing))
      | inr (old, there) ↦
          stored-IsRuled f.fulfillment_id f sc sc' (ground (arith, there, put_row-rules f sc sc'))
            (transition_mutation-ok f expected sc sc' h).3
    ]

pub intake_mutation-KeepsRules : (f : Fulfillment) → KeepsRules (intake_mutation f)
unfolding intake_mutation insert_if_absent
intake_mutation-KeepsRules f sc sc' h =
    stored-IsRuled f.fulfillment_id f sc sc' (ground (arith, put_row-rules f sc sc'))
      (intake_mutation-ok f sc sc' h).1

pub update-KeepsRules : (f : Fulfillment) → KeepsRules (update f)
unfolding update
update-KeepsRules f sc sc' h =
    stored-IsRuled f.fulfillment_id f sc sc' (ground (arith, put_row-rules f sc sc'))
      (update-ok f sc sc' h)

pub marking_mutation-KeepsRules :
    (k : ℕ) (payload : MoveJobCompletedPayload) → KeepsRules (marking_mutation k payload)
unfolding marking_mutation mark_executed_after_cancellation
marking_mutation-KeepsRules k payload sc sc' h = elim (Option-cases (get k sc.store.fulfillments)) [
  | inl missing ↦ absurd (ground (arith, missing))
  | inr (old, there) ↦
      let new = executed_row payload.completed_at payload.job_id old in
      stored-IsRuled old.fulfillment_id new sc sc' (ground (arith, there, put_row-rules new sc sc'))
        (ground (arith, there, put_row-ok new sc sc'))
]
