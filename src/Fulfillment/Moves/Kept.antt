-- ===== src/Fulfillment/Moves/Kept.antt =====
-- src/modules/fulfillment/service.ts: what a move keeps, where the state that it read is one that was.
use wasla_core.Base.{ℕ, ◌≤◌, String, Option, none, some, ◌≡◌, refl, sym, subst, ◌∙◌}
use wasla_core.Base.Table.{Table, get, IsKeyed, AllBelow-le}
use wasla_core.Fulfillment.Domain.{Fulfillment}
use wasla_core.Fulfillment.Moves.{Moves, rests, turns, rows, IsTidy}
use wasla_core.Fulfillment.Payments.{Coordination}
use wasla_core.Fulfillment.Service.{
  Body, run_body, when_lost, transition, require, when_taken, intake,
}
use wasla_core.Fulfillment.Service.Jobs.{Answer, answer_to}
use wasla_core.Fulfillment.Store.{find_by_order_reference}
use wasla_core.Fulfillment.Turn.Counts.{append_all-quiet, Sent-le}
use wasla_core.Fulfillment.Turn.Invariant.{
  IsRuled, Tidy, Older, Older-refl, Older-trans, Turn-Tidy, Turn-Older, fulfillment_key,
}
use wasla_core.Platform.Errors.{
  Result, ok, err, transition_lost, intake_lost, core, plain, not_found, conflict,
}
use wasla_core.Platform.UnitOfWork.{append_all}
use wasla_core.Eventing.Outbox.{Rows}

-- Every closure went out once, and what was closed is closed in the same way.
pub record Kept (sys sys' : Coordination) : Type 0 where
  pub tidy : IsTidy sys'
  pub older : Older (rows sys) (rows sys')
  pub ruled : IsRuled (rows sys) → IsRuled (rows sys')

pub Kept-refl : (sys : Coordination) → IsTidy sys → Kept sys sys
Kept-refl sys tidy = record { tidy = tidy; older = Older-refl (rows sys); ruled = λ r. r }

pub Kept-trans : (s t u : Coordination) → Kept s t → Kept t u → Kept s u
Kept-trans s t u p q = record {
  tidy = q.tidy;
  older = Older-trans (rows s) (rows t) (rows u) p.older q.older;
  ruled = λ r. q.ruled (p.ruled r);
}

Tidy-le : (n m : ℕ) (t : Table Fulfillment) (out : Rows) → n ≤ m → Tidy n t out → Tidy m t out
Tidy-le n m t out le tidy = record {
  sent = Sent-le n m out le tidy.sent;
  keyed = tidy.keyed;
  below = AllBelow-le fulfillment_key n m t le tidy.below;
  counted = tidy.counted;
}

-- A state that was read, and the present one.
pub record IsRead (seen sys : Coordination) : Type 0 where
  pub tidy : IsTidy sys
  pub keyed : IsKeyed fulfillment_key (rows seen)
  pub older : Older (rows seen) (rows sys)

pub present : (sys : Coordination) → IsTidy sys → IsRead sys sys
present sys tidy = record { tidy = tidy; keyed = tidy.keyed; older = Older-refl (rows sys) }

pub Moves-Kept :
    (seen sys sys' : Coordination) → IsRead seen sys → Moves seen sys sys' → Kept sys sys'
Moves-Kept seen sys sys' read (rests es n' same quiet out le le') = record {
  tidy =
      let quiets : (k : ℕ) → _ =
        λ k. append_all-quiet k sys.next_id n' sys.now es sys.outbox le quiet read.tidy.sent in
      subst (λ o. Tidy sys'.next_id (rows sys') o) (sym out)
        (subst (λ t. Tidy sys'.next_id t (append_all sys.now es sys.outbox)) (sym same)
          (Tidy-le n' sys'.next_id (rows sys) (append_all sys.now es sys.outbox) le' (record {
            sent = (quiets 0).1;
            keyed = read.tidy.keyed;
            below = AllBelow-le fulfillment_key sys.next_id n' (rows sys) le read.tidy.below;
            counted = λ k. (quiets k).0 ∙ read.tidy.counted k;
          })));
  older = subst (Older (rows sys)) (sym same) (Older-refl (rows sys));
  ruled = subst IsRuled (sym same);
}
Moves-Kept seen sys sys' read (turns es n' turn ruled out le le') = record {
  tidy =
      subst (λ o. Tidy sys'.next_id (rows sys') o) (sym out)
        (Tidy-le n' sys'.next_id (rows sys') (append_all sys.now es sys.outbox) le' (
          Turn-Tidy sys.next_id n' es (rows seen) (rows sys) sys.outbox le read.tidy read.keyed
            read.older sys.now (rows sys') turn));
  older =
      Turn-Older sys.next_id n' es (rows seen) (rows sys) sys.outbox le read.tidy read.keyed
        read.older (rows sys') turn;
  ruled = ruled;
}

-- A command that starts from a row, read by its identifier.
pub answer_to-Kept :
    (k : ℕ) (f : Fulfillment → Coordination → Answer) (seen sys : Coordination)
    → IsTidy sys
    → ((current : Fulfillment) → get k (rows seen) ≡ some current → Kept sys (f current sys).1)
    → Kept sys (answer_to (require k seen) f sys).1
unfolding require
answer_to-Kept k f seen sys tidy found = by_row (get k (rows seen)) refl
  where
    by_row :
        (r : Option Fulfillment)
        → get k (rows seen) ≡ r
        → Kept sys
            (answer_to
              (elim r [ none ↦ err (not_found "fulfillment not found") | some g ↦ ok g ])
              f
              sys).1
    by_row none e = Kept-refl sys tidy
    by_row (some current) e = found current e

-- A transition: the body's move, then the answer from the present row where the transition was lost.
pub transition-Kept :
    (body : Body) (on_lost : Fulfillment → Coordination → Answer) (seen sys : Coordination)
    → IsRead seen sys
    → Moves seen sys (run_body body seen sys).1
    → ((k : ℕ) (winner : Fulfillment) (sys' : Coordination)
        → IsTidy sys'
        → get k (rows sys') ≡ some winner
        → Kept sys' (on_lost winner sys').1)
    → Kept sys (transition body on_lost seen sys).1
unfolding require
transition-Kept body on_lost seen sys read moves answers =
    by_result (run_body body seen sys) (Moves-Kept seen sys (run_body body seen sys).1 read moves)
  where
    by_row :
        (k : ℕ) (sys' : Coordination) (r : Option Fulfillment)
        → Kept sys sys'
        → get k (rows sys') ≡ r
        → Kept sys
            (elim (elim r as (λ _. Result Fulfillment) [
              | none ↦ err (not_found "fulfillment not found")
              | some f ↦ ok f
            ])
              as (λ _. Answer) [ ok winner ↦ on_lost winner sys' | err e ↦ (err e, sys') ]).1
    by_row k sys' none kept e = kept
    by_row k sys' (some winner) kept e =
        Kept-trans sys sys' (on_lost winner sys').1 kept (answers k winner sys' kept.tidy e)

    by_result : (r : Answer) → Kept sys r.1 → Kept sys (when_lost on_lost r).1
    by_result (ok answer, sys') kept = kept
    by_result (err (transition_lost k), sys') kept = by_row k sys' (get k (rows sys')) kept refl
    by_result (err (intake_lost reference), sys') kept = kept
    by_result (err (core e), sys') kept = kept
    by_result (err (plain message), sys') kept = kept

-- An intake only reads, once its body is done.
pub intake-Kept :
    (body : Body) (seen sys : Coordination)
    → IsRead seen sys
    → Moves seen sys (run_body body seen sys).1
    → Kept sys (intake body seen sys).1
intake-Kept body seen sys read moves =
    by_result (run_body body seen sys) (Moves-Kept seen sys (run_body body seen sys).1 read moves)
  where
    by_row :
        (reference : String) (sys' : Coordination) (r : Option Fulfillment)
        → Kept sys sys'
        → Kept sys
            (elim r as (λ _. Answer) [
              | some winner ↦ (ok winner, sys')
              | none ↦ (err (conflict "fulfillment for this order is not readable yet"), sys')
            ]).1
    by_row reference sys' none kept = kept
    by_row reference sys' (some winner) kept = kept

    by_result : (r : Answer) → Kept sys r.1 → Kept sys (when_taken r).1
    by_result (ok answer, sys') kept = kept
    by_result (err (intake_lost reference), sys') kept =
        by_row reference sys' (find_by_order_reference reference sys'.store) kept
    by_result (err (transition_lost k), sys') kept = kept
    by_result (err (core e), sys') kept = kept
    by_result (err (plain message), sys') kept = kept
