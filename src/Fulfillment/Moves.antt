-- ===== src/Fulfillment/Moves.antt =====
-- src/modules/fulfillment/service.ts: what a command does to the state, from the state that it read to
-- the state that it leaves.
use wasla_core.Base.{
  ℕ, ◌+◌, ◌≤◌, Option, none, some, ◌≡◌, refl, sym, ap, subst, ◌∙◌, inl, inr, List, [], ◌∷◌, ◌++◌,
  arith, length, map, Option-cases,
}
use wasla_core.Base.Table.{Table, IsKeyed}
use wasla_core.Eventing.Envelope.{EventEnvelope}
use wasla_core.Fulfillment.Domain.{Fulfillment}
use wasla_core.Fulfillment.Payments.{Coordination, with_money}
use wasla_core.Fulfillment.Service.{Body, run_body, commit_body, record_now}
use wasla_core.Fulfillment.Store.{Core, CoreScope}
use wasla_core.Fulfillment.Turn.{Turn, Announces, Quiets}
use wasla_core.Fulfillment.Turn.Counts.{append_all-quiet}
use wasla_core.Fulfillment.Turn.Invariant.{
  Tidy, Older, Older-refl, Turn-Tidy, Turn-Older, fulfillment_key, IsRuled,
}
use wasla_core.Platform.Audit.{PendingAuditEntry}
use wasla_core.Platform.Errors.{Failure, Result, ok, err, Result-cases}
use wasla_core.Platform.UnitOfWork.{
  Staged, Scope, commit, run_mutations, verify, append_all, nothing_staged,
}
use wasla_core.Platform.UnitOfWork.Parts.{mutate_part}
use wasla_core.Platform.UnitOfWork.Parts.Kept.{run_parts-keeps}
use wasla_core.Money.Store.{MoneyStore}
pub mod Writes
pub mod Settling
pub mod Bodies
pub mod Commands
pub mod Notes
pub mod MoneyPort
pub mod Intakes
pub mod Kept
pub mod Steps

abbrev pub rows : Coordination → Table Fulfillment
rows sys = sys.store.fulfillments

pub data Moves (seen sys sys' : Coordination) : Type 0 where
  -- No fulfillment changes, and no closure goes out.
  rests :
      (es : List EventEnvelope) (n' : ℕ)
      → rows sys' ≡ rows sys
      → Quiets n' es
      → sys'.outbox ≡ append_all sys.now es sys.outbox
      → sys.next_id ≤ n'
      → n' ≤ sys'.next_id
      → Moves seen sys sys'
  turns :
      (es : List EventEnvelope) (n' : ℕ)
      → Turn (rows seen) (rows sys) sys.next_id n' es (rows sys')
      → (IsRuled (rows sys) → IsRuled (rows sys'))
      → sys'.outbox ≡ append_all sys.now es sys.outbox
      → sys.next_id ≤ n'
      → n' ≤ sys'.next_id
      → Moves seen sys sys'

abbrev pub IsTidy : Coordination → Type 0
IsTidy sys = Tidy sys.next_id (rows sys) sys.outbox

pub still : (seen sys : Coordination) → Moves seen sys sys
unfolding append_all
still seen sys = rests [] sys.next_id refl tt refl (omega arith) (omega arith)

abbrev money_mutation :
    (Scope MoneyStore → Result (Scope MoneyStore)) → CoreScope → Result CoreScope
money_mutation = mutate_part (λ (s : Core). s.money) with_money

-- The staged mutations: those of the money module, then the one of the fulfillment.
pub record EndsWith (m : CoreScope → Result CoreScope) (staged : Staged Core) : Type 0 where
  pub of_money : List (Scope MoneyStore → Result (Scope MoneyStore))
  pub mutations : staged.mutations ≡ map money_mutation of_money ++ m ∷ []

-- A body that reads `seen` for the state `sys`, and the row and the mutation that it ends with.
pub record Prepared (body : Body) (seen : Coordination) (n : ℕ)
    (m : Fulfillment → CoreScope → Result CoreScope)
    (Out : Fulfillment → ℕ → List EventEnvelope → Type 0) : Type 0 where
  pub row : Fulfillment
  pub recorded : List PendingAuditEntry
  pub staged : Staged Core
  pub result :
      body seen (record { mutations = []; events = []; audits = []; next_id = n })
      ≡ ok ((row, recorded), staged)
  pub ends : EndsWith (m row) staged
  pub later : n ≤ staged.next_id
  pub out : Out row staged.next_id staged.events

-- What a commit of prepared work comes to.
pub data Committed (m : CoreScope → Result CoreScope) (f : Fulfillment) (staged : Staged Core)
    (sys : Coordination) (r : Result Fulfillment × Coordination) : Type 0 where
  unchanged :
      (e : Failure)
      → r.0 ≡ err e
      → rows r.1 ≡ rows sys
      → r.1.outbox ≡ sys.outbox
      → sys.next_id ≤ r.1.next_id
      → Committed m f staged sys r
  written :
      (mid done : CoreScope)
      → mid.store.fulfillments ≡ rows sys
      → m mid ≡ ok done
      → r.0 ≡ ok f
      → rows r.1 ≡ done.store.fulfillments
      → r.1.outbox ≡ append_all sys.now staged.events sys.outbox
      → staged.next_id ≤ r.1.next_id
      → Committed m f staged sys r

pub commit-Committed :
    (m : CoreScope → Result CoreScope) (f : Fulfillment) (staged : Staged Core)
    (recorded : List PendingAuditEntry) (sys : Coordination)
    → EndsWith m staged
    → sys.next_id ≤ staged.next_id
    → Committed m f staged sys (commit_body (ok ((f, recorded), staged)) sys)
unfolding commit
commit-Committed m f staged recorded sys ends le =
    elim (Result-cases
      (run_mutations staged.mutations (record { store = sys.store; deferred = [] }))) [
        | inr (e, failed) ↦
            unchanged e (ground (arith, failed)) (ground (arith, failed)) (ground (arith, failed))
              (ground (arith, failed))
        | inl (done, e) ↦
            let (mid, kept, last) =
              run_parts-keeps (λ (s : Core). s.money) with_money (λ (s : Core). s.fulfillments)
                (λ (p : MoneyStore) (t : Core). refl) ends.of_money m
                (record { store = sys.store; deferred = [] }) done
                (ap (λ ms. run_mutations ms (record { store = sys.store; deferred = [] }))
                    (sym ends.mutations)
                  ∙ e) in
            elim (Option-cases (verify done.deferred done.store)) [
              | inl passed ↦
                  written mid done kept last (ground (arith, e, passed)) (ground (arith, e, passed))
                    (ground (arith, e, passed)) (ground (arith, e, passed))
              | inr (x, failed) ↦
                  unchanged x (ground (arith, e, failed)) (ground (arith, e, failed))
                    (ground (arith, e, failed)) (ground (arith, e, failed))
            ]
      ]
