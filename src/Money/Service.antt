-- ===== src/Money/Service.antt =====
-- src/modules/money/service.ts (`MoneyService`): the balance, and what every movement of money shares.
-- A command's reads and its staging are one body of work, which `with_transaction` commits; the clock
-- stands still for its length.
pub mod Wallets
pub mod Authorizing
use wasla_core.Base.{
  ℕ, String, Option, none, some, Bool, true, false, not, ◌&&◌, List, [], ◌∷◌, leb, filter,
  if◌then◌else◌, ◌==◌,
}
use wasla_core.Base.Int.{ℤ, pos, ◌+ℤ◌, ◌-ℤ◌, -ℤ◌, ltb_ℤ}
use wasla_core.Base.Table.{get}
use wasla_core.Base.Values.{Value, num, text, id}
use wasla_core.Eventing.Envelope.{make_event}
use wasla_core.Platform.Audit.{PendingAuditEntry}
use wasla_core.Platform.Errors.{Failure, Result, ok, err, invalid, not_found, conflict}
use wasla_core.Platform.Ids.{IdText, assert_id}
use wasla_core.Platform.Texts.{normalize_currency}
use wasla_core.Platform.UnitOfWork.{
  System, Work, with_transaction, pure, throw, lift, reads, or_throw, ◌>>=◌, ◌>>◌, new_id, stage,
  emit, audit, Unit₀,
}
use wasla_core.Money.Domain.{
  Wallet, WalletOwnerType, identity, organization, WalletStatus, active, PaymentAuthorization,
  authorized, is_authorized, Account, wallet_account, clearing_external, clearing_captured,
  LedgerEntry, LedgerKind, credit_kind, LedgerTransaction, remaining_hold, sum_entries,
  assert_balanced, JsNumber, positive_amount,
}
use wasla_core.Money.Store.{
  MoneyStore, find_wallet, find_authorization_by_reference, find_transaction_by_reference,
  list_authorizations, transactions, insert_wallet, insert_authorization, insert_transaction,
}

abbrev pub Money : Type 0
Money = System MoneyStore

abbrev pub MoneyWork : Type 0 → Type 0
MoneyWork = Work MoneyStore

abbrev pub assert_amount : JsNumber → MoneyWork ℤ
assert_amount amount =
    or_throw (positive_amount amount) (invalid "amount_minor must be a positive integer")

-- `requireWallet`
abbrev pub require_wallet : ℕ → MoneyWork Wallet
require_wallet wallet_id sys =
    or_throw (get wallet_id sys.store.wallets) (not_found "wallet not found") sys

-- `isExpired`
abbrev pub is_expired : ℕ → PaymentAuthorization → Bool
is_expired now a = elim a.expires_at [ none ↦ false | some at ↦ leb at now ]

abbrev pub of_wallet : ℕ → LedgerEntry → Bool
of_wallet wallet_id e = elim e.account_reference [
  | wallet_account other ↦ other == wallet_id
  | clearing_external ↦ false
  | clearing_captured ↦ false
]

-- The sum over the entries of all transactions, as `flatMap`, `filter` and `reduce` take it.
unfoldable pub posted_in : ℕ → List LedgerTransaction → ℤ
posted_in wallet_id [] = pos 0
posted_in wallet_id (t ∷ ts) = sum_entries (of_wallet wallet_id) t.entries +ℤ posted_in wallet_id ts

unfoldable pub held_in : List PaymentAuthorization → ℤ
held_in [] = pos 0
held_in (a ∷ rest) = remaining_hold a +ℤ held_in rest

abbrev pub is_live : ℕ → PaymentAuthorization → Bool
is_live now a = is_authorized a.status && not (is_expired now a)

abbrev pub is_lapsed : ℕ → PaymentAuthorization → Bool
is_lapsed now a = is_authorized a.status && is_expired now a

pub record Balance : Type 0 where
  pub posted_minor : ℤ
  pub held_minor : ℤ
  pub available_minor : ℤ
  pub expired_hold_minor : ℤ

-- `balance`, of a wallet that is there.
unfoldable pub balance_of_wallet : ℕ → ℕ → MoneyStore → Balance
unfolding posted_in held_in
balance_of_wallet now wallet_id s =
    let posted = posted_in wallet_id (transactions s) in
    let held = held_in (filter (is_live now) (list_authorizations wallet_id s)) in
    record {
      posted_minor = posted;
      held_minor = held;
      available_minor = posted -ℤ held;
      expired_hold_minor = held_in (filter (is_lapsed now) (list_authorizations wallet_id s));
    }

-- The entries of a movement, and the transaction that holds them (`transaction`).
abbrev pub movement : ℕ → ℕ → ℕ → String → Account → Account → ℤ → List LedgerEntry
movement tid e1 e2 currency credit_account debit_account amount =
    record {
      entry_id = e1;
      transaction_id = tid;
      account_reference = credit_account;
      amount_minor = amount;
      currency = currency;
    }
    ∷ record {
      entry_id = e2;
      transaction_id = tid;
      account_reference = debit_account;
      amount_minor = -ℤ◌ amount;
      currency = currency;
    }
    ∷ []

abbrev pub unless_refused : Option Failure → MoneyWork Unit₀
unless_refused none = pure tt
unless_refused (some e) = throw e

abbrev pub posting :
    ℕ
    → ℕ
    → ℕ
    → ℕ
    → LedgerKind
    → String
    → String
    → Account
    → Account
    → ℤ
    → Option ℕ
    → LedgerTransaction
posting now tid e1 e2 kind reference currency credit_account debit_account amount authorization_id =
    record {
      transaction_id = tid;
      kind = kind;
      business_reference = reference;
      authorization_id = authorization_id;
      occurred_at = now;
      entries = movement tid e1 e2 currency credit_account debit_account amount;
    }

unfoldable pub transaction :
    LedgerKind → String → String → Account → Account → ℤ → Option ℕ → MoneyWork LedgerTransaction
transaction kind reference currency credit_account debit_account amount authorization_id = do
  tid ← new_id
  e1 ← new_id
  e2 ← new_id
  unless_refused (assert_balanced (movement tid e1 e2 currency credit_account debit_account amount))
  now ← reads (λ sys. sys.now)
  pure (
      posting now tid e1 e2 kind reference currency credit_account debit_account amount
        authorization_id)

-- `makeEvent` with a fresh identifier, and `uow.emit`.
abbrev pub emit_event : String → String → String → ℕ → List (String × Value) → MoneyWork Unit₀
emit_event event_type correlation_id entity_type entity_id payload = do
  event_id ← new_id
  now ← reads (λ sys. sys.now)
  emit (
      make_event event_id (record {
        event_type = event_type;
        version = 1;
        producer = "wasla-core";
        occurred_at = now;
        correlation_id = correlation_id;
        causation_id = none;
        entity_type = entity_type;
        entity_id = entity_id;
        payload = payload;
      }))

-- `moneyAudit`
abbrev pub money_audit : String → ℕ → String → ℤ → String → PendingAuditEntry
money_audit action entity_id correlation_id amount currency = record {
  action = action;
  entity_type = "money";
  entity_id = entity_id;
  correlation_id = correlation_id;
  metadata = ("amount_minor", num amount) ∷ ("currency", text currency) ∷ [];
}

unfoldable pub or_existing {ℓ} : {A : Type ℓ} {B : Type 0} → Option A → (A → B) → B → B
or_existing none f b = b
or_existing (some a) f b = f a
