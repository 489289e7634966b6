-- ===== src/Money/Store/Writes.antt =====
-- src/modules/money/repository.ts: what a write that succeeds does to the tables.
use wasla_core.Base.{Option, none, some, ◌≡◌, refl, ap, sym, ◌∙◌, arith}
use wasla_core.Base.Table.{put}
use wasla_core.Platform.Errors.{Failure, Result, ok}
use wasla_core.Platform.UnitOfWork.{Check, defer}
use wasla_core.Money.Domain.{Wallet, PaymentAuthorization, LedgerTransaction}
use wasla_core.Money.Store.{
  MoneyStore, MoneyScope, or_refuse, insert_wallet, insert_authorization, authorization_refusal,
  update_authorization, insert_transaction, put_authorization, put_transaction, defer_for,
  defer_balance, defer_ledger_agreement,
}

abbrev pub with_wallet : Wallet → MoneyStore → MoneyStore
with_wallet w s = record s { wallets = put w.wallet_id w s.wallets }

abbrev pub with_authorization : PaymentAuthorization → MoneyStore → MoneyStore
with_authorization a s = record s { authorizations = put a.authorization_id a s.authorizations }

abbrev pub with_transaction_row : LedgerTransaction → MoneyStore → MoneyStore
with_transaction_row t s = record s { ledger = put t.transaction_id t s.ledger }

or_refuse-ok :
    {A : Type 0} (r : Option Failure) (x : Result A) (a : A)
    → or_refuse r x ≡ ok a
    → (r ≡ none) × (x ≡ ok a)
or_refuse-ok none x a h = (refl, h)
or_refuse-ok (some e) x a h = cc

ok-eq : {A : Type 0} (a b : A) → ok a ≡ ok b → a ≡ b
ok-eq a b h = cc

defer-store : (c : Check MoneyStore) (sc : MoneyScope) → (defer c sc).store ≡ sc.store
unfolding defer
defer-store c sc = ground arith

agreement-store : (id : _) (sc : MoneyScope) → (defer_ledger_agreement id sc).store ≡ sc.store
unfolding defer_ledger_agreement
agreement-store id sc = defer-store _ sc

defer_for-store : (id : Option _) (sc : MoneyScope) → (defer_for id sc).store ≡ sc.store
defer_for-store none sc = refl
defer_for-store (some id) sc = agreement-store id sc

balance-store : (t : LedgerTransaction) (sc : MoneyScope) → (defer_balance t sc).store ≡ sc.store
unfolding defer_balance
balance-store t sc = defer-store _ sc

pub insert_wallet-ok :
    (w : Wallet) (sc sc' : MoneyScope)
    → insert_wallet w sc ≡ ok sc'
    → sc'.store ≡ with_wallet w sc.store
unfolding insert_wallet
insert_wallet-ok w sc sc' h = ground arith

pub update_authorization-ok :
    (a : PaymentAuthorization) (sc sc' : MoneyScope)
    → update_authorization a sc ≡ ok sc'
    → (authorization_refusal a ≡ none) × (sc'.store ≡ with_authorization a sc.store)
unfolding update_authorization
update_authorization-ok a sc sc' h =
    let (shape, rest) = or_refuse-ok _ _ sc' h in
    let (row, done) = or_refuse-ok _ _ sc' rest in
    (
      shape,
      ap (λ x. x.store) (sym (ok-eq _ sc' done))
          ∙ agreement-store a.authorization_id (put_authorization a sc),
    )

pub insert_authorization-ok :
    (a : PaymentAuthorization) (sc sc' : MoneyScope)
    → insert_authorization a sc ≡ ok sc'
    → (authorization_refusal a ≡ none) × (sc'.store ≡ with_authorization a sc.store)
unfolding insert_authorization
insert_authorization-ok a sc sc' h = ground arith

pub insert_transaction-ok :
    (t : LedgerTransaction) (sc sc' : MoneyScope)
    → insert_transaction t sc ≡ ok sc'
    → sc'.store ≡ with_transaction_row t sc.store
unfolding insert_transaction
insert_transaction-ok t sc sc' h = ground (
  arith,
  defer_for-store t.authorization_id (defer_balance t (put_transaction t sc)),
  balance-store t (put_transaction t sc),
)
