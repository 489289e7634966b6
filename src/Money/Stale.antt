-- ===== src/Money/Stale.antt =====
-- src/modules/money/repository.ts and src/platform/persistence/transaction.ts: the deferred checks guard
-- a command whose reads were out of date when it committed.
use wasla_core.Base.{
  ℕ, Option, none, some, false, ◌≡◌, refl, ap, subst, ◌∙◌, inl, inr, List, [], ◌∷◌, ◌++◌, arith,
  ◌==◌, Bool-cases, Option-cases,
}
use wasla_core.Base.Int.{pos, ◌-ℤ◌, int_laws, eq_of_parts}
use wasla_core.Base.Table.{get, put, values, get-put_self}
use wasla_core.Platform.Errors.{Result-cases, ok}
use wasla_core.Platform.UnitOfWork.{Staged, Check, commit, run_mutations, verify, defer}
use wasla_core.Money.Domain.{
  PaymentAuthorization, LedgerTransaction, LedgerKind, capture_kind, refund_kind,
}
use wasla_core.Money.Holds.{update_and_post}
use wasla_core.Money.Service.{Money}
use wasla_core.Money.Store.{
  MoneyStore, MoneyScope, update_authorization, put_authorization, insert_transaction,
  put_transaction, defer_for, defer_balance, defer_ledger_agreement, assert_ledger_agreement,
  ledger_sum,
}
use wasla_core.Money.Store.Writes.{with_authorization, with_transaction_row}
use wasla_core.Money.Step.Holding.{update_and_post-ok}
use wasla_core.Money.Step.Leads.{begin}
use wasla_core.Money.Step.Sound.{Agrees}
use wasla_core.Money.Step.Sound.Posted.{captured_of-put, refunded_of-put, part, ledger_sum-put}

-- The checks that wait include the agreement of an authorization.
abbrev Guards : ℕ → List (Check MoneyStore) → Type 0
Guards id checks = (s : MoneyStore) → verify checks s ≡ none → assert_ledger_agreement id s ≡ none

verify-front :
    (checks : List (Check MoneyStore)) (c : Check MoneyStore) (s : MoneyStore)
    → verify (checks ++ c ∷ []) s ≡ none
    → verify checks s ≡ none
unfolding verify
verify-front [] c s h = refl
verify-front (d ∷ checks) c s h = ground (arith, verify-front checks c s)

defer-Guards :
    (id : ℕ) (c : Check MoneyStore) (sc : MoneyScope)
    → Guards id sc.deferred
    → Guards id (defer c sc).deferred
unfolding defer
defer-Guards id c sc h s e = ground (arith, verify-front sc.deferred c s, h s)

agreement-Guards :
    (id : ℕ) (sc : MoneyScope)
    → sc.deferred ≡ []
    → Guards id (defer_ledger_agreement id sc).deferred
unfolding defer_ledger_agreement defer verify
agreement-Guards id sc h s e = ground (arith, h)

defer_for-Guards :
    (id : ℕ) (o : Option ℕ) (sc : MoneyScope)
    → Guards id sc.deferred
    → Guards id (defer_for o sc).deferred
unfolding defer_ledger_agreement
defer_for-Guards id none sc h = h
defer_for-Guards id (some k) sc h = defer-Guards id _ sc h

balance-Guards :
    (id : ℕ) (t : LedgerTransaction) (sc : MoneyScope)
    → Guards id sc.deferred
    → Guards id (defer_balance t sc).deferred
unfolding defer_balance
balance-Guards id t sc h = defer-Guards id _ sc h

insert_transaction-Guards :
    (id : ℕ) (t : LedgerTransaction) (sc sc' : MoneyScope)
    → Guards id sc.deferred
    → insert_transaction t sc ≡ ok sc'
    → Guards id sc'.deferred
unfolding insert_transaction
insert_transaction-Guards id t sc sc' h e =
    let kept =
      defer_for-Guards id t.authorization_id (defer_balance t (put_transaction t sc))
        (balance-Guards id t (put_transaction t sc) h) in
    λ s v. ground (arith, kept s)

update_authorization-Guards :
    (a : PaymentAuthorization) (sc sc' : MoneyScope)
    → sc.deferred ≡ []
    → update_authorization a sc ≡ ok sc'
    → Guards a.authorization_id sc'.deferred
unfolding update_authorization
update_authorization-Guards a sc sc' fresh e s v =
    ground (arith, agreement-Guards a.authorization_id (put_authorization a sc) fresh s)

update_and_post-Guards :
    (a : PaymentAuthorization) (t : LedgerTransaction) (sc sc' : MoneyScope)
    → sc.deferred ≡ []
    → update_and_post a t sc ≡ ok sc'
    → Guards a.authorization_id sc'.deferred
unfolding update_and_post
update_and_post-Guards a t sc sc' fresh e = elim (Result-cases (update_authorization a sc)) [
  | inl (x, u) ↦
      insert_transaction-Guards a.authorization_id t x sc'
        (update_authorization-Guards a sc x fresh u) (ground (arith, u))
  | inr (f, u) ↦ λ s v. ground (arith, u)
]

part-other :
    (kind : LedgerKind) (id own : ℕ) (t : LedgerTransaction)
    → t.authorization_id ≡ some own
    → (own == id) ≡ false
    → part kind id t ≡ pos 0
unfolding part
part-other kind id own t e other = ground arith

-- What the check says of the row that it reads.
checked_row :
    (id : ℕ) (a : PaymentAuthorization) (s : MoneyStore)
    → get id s.authorizations ≡ some a
    → assert_ledger_agreement id s ≡ none
    → (a.captured_minor ≡ ledger_sum capture_kind id (values s.ledger))
      × (a.refunded_minor ≡ pos 0 -ℤ ledger_sum refund_kind id (values s.ledger))
unfolding assert_ledger_agreement
checked_row id a s here h = ground (
  arith,
  eq_of_parts a.captured_minor (ledger_sum capture_kind id (values s.ledger)),
  eq_of_parts a.refunded_minor (pos 0 -ℤ ledger_sum refund_kind id (values s.ledger)),
)

module _ (a : PaymentAuthorization) (t : LedgerTransaction) (s : MoneyStore)
    (free : get t.transaction_id s.ledger ≡ none)
    (own : t.authorization_id ≡ some a.authorization_id)
    (agrees : Agrees s.authorizations s.ledger) where
  moved : MoneyStore
  moved = with_transaction_row t (with_authorization a s)

  moved-Agrees :
      assert_ledger_agreement a.authorization_id moved ≡ none
      → Agrees (put a.authorization_id a s.authorizations) (put t.transaction_id t s.ledger)
  unfolding moved
  moved-Agrees h =
      let checked =
        checked_row a.authorization_id a moved (get-put_self a.authorization_id a s.authorizations)
          h in
      record {
        captured = λ id. elim (Bool-cases (a.authorization_id == id)) [
          | inl same ↦
              let eq : a.authorization_id ≡ id = ground (arith, same) in
              ground (arith, same, captured_of-put id a.authorization_id a s.authorizations)
              ∙ checked.0
              ∙ ap (λ k. ledger_sum capture_kind k (values (put t.transaction_id t s.ledger))) eq
          | inr other ↦ grind (
            int_laws,
            other,
            captured_of-put id a.authorization_id a s.authorizations,
            part-other capture_kind id a.authorization_id t own other,
            ledger_sum-put capture_kind id t.transaction_id t s.ledger free,
            agrees.captured id,
          )
        ];
        refunded = λ id. elim (Bool-cases (a.authorization_id == id)) [
          | inl same ↦
              let eq : a.authorization_id ≡ id = ground (arith, same) in
              ground (arith, same, refunded_of-put id a.authorization_id a s.authorizations)
              ∙ checked.1
              ∙ ap
                  (λ k.
                    pos 0 -ℤ ledger_sum refund_kind k (values (put t.transaction_id t s.ledger)))
                  eq
          | inr other ↦ grind (
            int_laws,
            other,
            refunded_of-put id a.authorization_id a s.authorizations,
            part-other refund_kind id a.authorization_id t own other,
            ledger_sum-put refund_kind id t.transaction_id t s.ledger free,
            agrees.refunded id,
          )
        ];
      }

-- A commit of an authorization row with a ledger transaction for it, whatever the two hold and however
-- old the reads are that they were made from, keeps every authorization in agreement with the ledger:
-- it is written only if it agrees. The transaction's identifier must be new.
pub commit-Agrees :
    {A : Type 0} (x : A) (a : PaymentAuthorization) (t : LedgerTransaction)
    (staged : Staged MoneyStore) (sys : Money)
    → staged.mutations ≡ update_and_post a t ∷ []
    → get t.transaction_id sys.store.ledger ≡ none
    → t.authorization_id ≡ some a.authorization_id
    → Agrees sys.store.authorizations sys.store.ledger
    → Agrees (commit x staged sys).1.store.authorizations (commit x staged sys).1.store.ledger
unfolding commit run_mutations moved
commit-Agrees x a t staged sys one free own agrees =
    elim (Result-cases (update_and_post a t (begin sys))) [
      | inl (sc, e) ↦ elim (Option-cases (verify sc.deferred sc.store)) [
        | inl passed ↦
            let guarded = update_and_post-Guards a t (begin sys) sc refl e sc.store passed in
            let written = (update_and_post-ok a t (begin sys) sc e).1 in
            let kept =
              moved-Agrees a t sys.store free own agrees (
                subst (λ s. assert_ledger_agreement a.authorization_id s ≡ none) written guarded) in
            ground (arith, one, e, passed, written, kept)
        | inr (f, failed) ↦ ground (arith, one, e, failed, agrees)
      ]
      | inr (f, e) ↦ ground (arith, one, e, agrees)
    ]
