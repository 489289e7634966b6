-- ===== src/Platform/UnitOfWork.antt =====
-- src/platform/eventing/unit-of-work.ts, over the reference boundary of
-- src/platform/persistence/transaction.ts, for a module whose repository has the state `S`. Work reads
-- the system and stages mutations, events and audit entries; the commit runs them in that order, then
-- the deferred checks, and any failure gives back the state that the work began from.
pub mod Parts
use mathlib.Core.List.{foldl}
use wasla_core.Base.{
  ℕ, ◌+◌, String, Option, none, some, Bool, true, false, ◌&&◌, ◌||◌, List, [], ◌∷◌, ◌++◌, ◌==◌,
  length, if◌then◌else◌,
}
use wasla_core.Eventing.Envelope.{EventEnvelope}
use wasla_core.Eventing.Outbox.{Rows, append}
use wasla_core.Platform.Audit.{PendingAuditEntry, AuditEntry, record_entry}
use wasla_core.Platform.Errors.{Failure, Result, ok, err}

pub record System (S : Type 0) : Type 0 where
  pub store : S
  pub outbox : Rows
  pub audit_log : List AuditEntry
  -- What `newId` returns next.
  pub next_id : ℕ
  -- What the clock says for the length of a command, in milliseconds.
  pub now : ℕ

-- A deferred check, under the key by which the journal keeps one of each: its kind and its row.
pub data CheckKey : Type 0 where
  balance_of money_of period_of : ℕ → CheckKey

pub record Check (S : Type 0) : Type 0 where
  pub key : CheckKey
  pub run : S → Option Failure

-- A repository's state inside a transaction, with the checks that wait for its end.
pub record Scope (S : Type 0) : Type 0 where
  pub store : S
  pub deferred : List (Check S)

pub record Staged (S : Type 0) : Type 0 where
  pub mutations : List (Scope S → Result (Scope S))
  pub events : List EventEnvelope
  pub audits : List PendingAuditEntry
  pub next_id : ℕ

abbrev pub same_key : CheckKey → CheckKey → Bool
same_key (balance_of a) (balance_of b) = a == b
same_key (money_of a) (money_of b) = a == b
same_key (period_of a) (period_of b) = a == b
same_key _ _ = false

-- What a command's body is: it reads the system, may throw, and stages.
abbrev pub Work : Type 0 → Type 0 → Type 0
Work S A = System S → Staged S → Result (A × Staged S)

unfoldable pub record_all : ℕ → ℕ → List PendingAuditEntry → List AuditEntry → List AuditEntry
record_all new_id now [] log = log
record_all new_id now (e ∷ es) log = record_all (new_id + 1) now es (record_entry new_id now e log)

unfoldable pub append_all : ℕ → List EventEnvelope → Rows → Rows
append_all now [] rows = rows
append_all now (e ∷ es) rows = append_all now es (append e now rows)

module _ {S : Type 0} where
  abbrev pub has_key : CheckKey → List (Check S) → Bool
  has_key key [] = false
  has_key key (c ∷ cs) = same_key c.key key || has_key key cs

  -- `journal.defer`
  unfoldable pub defer : Check S → Scope S → Scope S
  defer check scope =
      if has_key check.key scope.deferred
      then scope
      else record scope { deferred = scope.deferred ++ check ∷ [] }

  -- `journal.verify`
  unfoldable pub verify : List (Check S) → S → Option Failure
  verify [] store = none
  verify (c ∷ cs) store = elim (c.run store) [ none ↦ verify cs store | some e ↦ some e ]

  unfoldable pub run_mutations : List (Scope S → Result (Scope S)) → Scope S → Result (Scope S)
  run_mutations [] scope = ok scope
  run_mutations (m ∷ ms) scope = elim (m scope) [
    | ok scope' ↦ run_mutations ms scope'
    | err e ↦ err e
  ]

  unfoldable pub commit {ℓ} : {A : Type ℓ} → A → Staged S → System S → Result A × System S
  commit a staged sys =
      elim (run_mutations staged.mutations (record { store = sys.store; deferred = [] })) [
        | err e ↦ (err e, sys)
        | ok scope ↦ elim (verify scope.deferred scope.store) [
          | some e ↦ (err e, sys)
          | none ↦ (
            ok a,
            record sys {
              store = scope.store;
              audit_log = record_all staged.next_id sys.now staged.audits sys.audit_log;
              outbox = append_all sys.now staged.events sys.outbox;
              next_id = staged.next_id + length staged.audits;
            },
          )
        ]
      ]

  abbrev pub nothing_staged : System S → Staged S
  nothing_staged sys = record { mutations = []; events = []; audits = []; next_id = sys.next_id }

  abbrev pub finish : {A : Type 0} → Result (A × Staged S) → System S → Result A × System S
  finish (err e) sys = (err e, sys)
  finish (ok (a, staged)) sys = commit a staged sys

  -- `withTransaction`
  unfoldable pub with_transaction : {A : Type 0} → Work S A → System S → Result A × System S
  with_transaction fn sys = finish (fn sys (nothing_staged sys)) sys

module _ {S A : Type 0} where
  abbrev pub pure : A → Work S A
  pure a sys staged = ok (a, staged)

  abbrev pub throw : Failure → Work S A
  throw e sys staged = err e

  abbrev pub lift : Result A → Work S A
  lift (ok a) = pure a
  lift (err e) = throw e

  abbrev pub reads : (System S → A) → Work S A
  reads f sys staged = ok (f sys, staged)

  abbrev pub or_throw : Option A → Failure → Work S A
  or_throw none e = throw e
  or_throw (some a) e = pure a

infixl 5 ◌>>=◌ ◌>>◌
unfoldable pub ◌>>=◌ : {S A B : Type 0} → Work S A → (A → Work S B) → Work S B
◌>>=◌ m f sys staged = elim (m sys staged) [ ok (a, staged') ↦ f a sys staged' | err e ↦ err e ]

abbrev pub ◌>>◌ : {S A B : Type 0} → Work S A → Work S B → Work S B
m >> k = m >>= λ _. k

abbrev pub Unit₀ : Type 0
Unit₀ = Unit

module _ {S : Type 0} where
  -- `newId()`
  abbrev pub new_id : Work S ℕ
  new_id sys staged = ok (staged.next_id, record staged { next_id = staged.next_id + 1 })

  abbrev pub stage : (Scope S → Result (Scope S)) → Work S Unit₀
  stage mutation sys staged =
      ok (tt, record staged { mutations = staged.mutations ++ mutation ∷ [] })

  abbrev pub emit : EventEnvelope → Work S Unit₀
  emit event sys staged = ok (tt, record staged { events = staged.events ++ event ∷ [] })

  abbrev pub audit : PendingAuditEntry → Work S Unit₀
  audit entry sys staged = ok (tt, record staged { audits = staged.audits ++ entry ∷ [] })
