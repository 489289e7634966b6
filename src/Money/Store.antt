-- ===== src/Money/Store.antt =====
-- src/modules/money/repository.ts (`InMemoryMoneyRepository`) inside a transaction, with the rules
-- that `putRow` adds for its tables: ROW_RULES, and the foreign keys of reference-keys.ts. Column
-- types are not checked: the rows of the model are typed.
pub mod Writes
use text.Mathlib.Text.{◌==◌ as str_eq}
use wasla_core.Base.{
  ℕ, String, Option, none, some, Bool, true, false, not, ◌&&◌, ◌||◌, List, [], ◌∷◌, is_some, filter,
  ◌==◌, if◌then◌else◌,
}
use wasla_core.Base.Int.{ℤ, pos, ◌+ℤ◌, ◌-ℤ◌, ltb_ℤ, eqb_ℤ}
use wasla_core.Base.Table.{Table, get, put, values}
use wasla_core.Base.Sort.{sort, then_by}
use Prim.Native.Nat.{compare, Ordering}
use wasla_core.Platform.Errors.{Failure, Result, ok, err, plain}
use wasla_core.Platform.Texts.{is_currency, is_truthy}
use wasla_core.Platform.UnitOfWork.{Scope, Check, defer, balance_of, money_of}
use wasla_core.Money.Domain.{
  WalletOwnerType, identity, organization, AuthorizationStatus, authorized, captured,
  partially_captured, voided, Wallet, PaymentAuthorization, Account, clearing_captured,
  wallet_account, clearing_external, LedgerEntry, LedgerKind, credit_kind, capture_kind,
  refund_kind, LedgerTransaction, sum_entries, assert_balanced,
}

pub record MoneyStore : Type 0 where
  pub wallets : Table Wallet
  pub authorizations : Table PaymentAuthorization
  pub ledger : Table LedgerTransaction

abbrev pub find {ℓ} : {A : Type ℓ} → (A → Bool) → List A → Option A
find p [] = none
find p (x ∷ xs) = if p x then some x else find p xs

abbrev pub same_owner_type : WalletOwnerType → WalletOwnerType → Bool
same_owner_type identity identity = true
same_owner_type organization organization = true
same_owner_type _ _ = false

abbrev pub owned_by : WalletOwnerType → ℕ → String → Wallet → Bool
owned_by owner_type owner_id currency w =
    same_owner_type w.owner_type owner_type && w.owner_id == owner_id && str_eq w.currency currency

unfoldable pub find_wallet : WalletOwnerType → ℕ → String → MoneyStore → Option Wallet
find_wallet owner_type owner_id currency s =
    find (owned_by owner_type owner_id currency) (values s.wallets)

unfoldable pub find_authorization_by_reference : String → MoneyStore → Option PaymentAuthorization
find_authorization_by_reference reference s =
    find (λ a. str_eq a.business_reference reference) (values s.authorizations)

unfoldable pub find_transaction_by_reference : String → MoneyStore → Option LedgerTransaction
find_transaction_by_reference reference s =
    find (λ t. str_eq t.business_reference reference) (values s.ledger)

abbrev pub compare_created : PaymentAuthorization → PaymentAuthorization → Ordering
compare_created a b =
    then_by (compare a.created_at b.created_at) (compare a.authorization_id b.authorization_id)

unfoldable pub list_authorizations : ℕ → MoneyStore → List PaymentAuthorization
list_authorizations wallet_id s =
    sort compare_created (filter (λ a. a.wallet_id == wallet_id) (values s.authorizations))

unfoldable pub all_authorizations : MoneyStore → List PaymentAuthorization
all_authorizations s = sort compare_created (values s.authorizations)

abbrev pub compare_occurred : LedgerTransaction → LedgerTransaction → Ordering
compare_occurred a b =
    then_by (compare a.occurred_at b.occurred_at) (compare a.transaction_id b.transaction_id)

unfoldable pub transactions : MoneyStore → List LedgerTransaction
transactions s = sort compare_occurred (values s.ledger)

-- `assertAuthorizationShape`, and the rules of `ROW_RULES.payment_authorization`.
abbrev pub consistent_status : PaymentAuthorization → Bool
consistent_status a = elim a.status [
  | authorized ↦ ltb_ℤ a.captured_minor a.amount_minor
  | captured ↦ eqb_ℤ a.captured_minor a.amount_minor
  | partially_captured ↦ ltb_ℤ (pos 0) a.captured_minor && ltb_ℤ a.captured_minor a.amount_minor
  | voided ↦ eqb_ℤ a.captured_minor (pos 0)
]

abbrev pub needs_reason : AuthorizationStatus → Bool
needs_reason voided = true
needs_reason partially_captured = true
needs_reason _ = false

unfoldable pub authorization_refusal : PaymentAuthorization → Option Failure
authorization_refusal a =
    if ltb_ℤ a.captured_minor (pos 0) || ltb_ℤ a.amount_minor a.captured_minor
    then some (plain "payment_authorization_capture_ceiling")
    else if ltb_ℤ a.refunded_minor (pos 0) || ltb_ℤ a.captured_minor a.refunded_minor
    then some (plain "payment_authorization_refund_ceiling")
    else if not (consistent_status a)
    then some (plain "payment_authorization_status_amounts")
    else if needs_reason a.status && not (is_truthy a.void_reason)
    then some (plain "payment_authorization_void_reason_required")
    else none

-- What `putRow` refuses of an authorization: its rules, then its foreign key.
unfoldable pub authorization_row_refusal : PaymentAuthorization → MoneyStore → Option Failure
authorization_row_refusal a s =
    if not (ltb_ℤ (pos 0) a.amount_minor)
    then some (plain "payment_authorization_amount_minor_check")
    else if not (is_currency a.currency)
    then some (plain "payment_authorization_currency_check")
    else if not (is_some (get a.wallet_id s.wallets))
    then some (plain "payment_authorization_wallet_id_fkey")
    else none

abbrev pub or_refuse {ℓ} : {A : Type ℓ} → Option Failure → Result A → Result A
or_refuse none r = r
or_refuse (some e) r = err e

abbrev pub MoneyScope : Type 0
MoneyScope = Scope MoneyStore

-- Another wallet of the same owner and currency.
abbrev pub wallet_clash : Wallet → Option Wallet → Bool
wallet_clash w none = false
wallet_clash w (some other) = not (other.wallet_id == w.wallet_id)

unfoldable pub insert_wallet : Wallet → MoneyScope → Result MoneyScope
insert_wallet w sc =
    if wallet_clash w (find_wallet w.owner_type w.owner_id w.currency sc.store)
    then err (plain "wallet_owner_type_owner_id_currency_key")
    else if not (is_currency w.currency)
    then err (plain "wallet_currency_check")
    else ok (record sc { store = record sc.store { wallets = put w.wallet_id w sc.store.wallets } })

abbrev pub authorization_clash : PaymentAuthorization → Option PaymentAuthorization → Bool
authorization_clash a none = false
authorization_clash a (some other) = not (other.authorization_id == a.authorization_id)

abbrev pub put_authorization : PaymentAuthorization → MoneyScope → MoneyScope
put_authorization a sc = record sc {
  store = record sc.store { authorizations = put a.authorization_id a sc.store.authorizations };
}

unfoldable pub insert_authorization : PaymentAuthorization → MoneyScope → Result MoneyScope
insert_authorization a sc = or_refuse (authorization_refusal a) (
    if authorization_clash a (find_authorization_by_reference a.business_reference sc.store)
    then err (plain "payment_authorization_business_reference_key")
    else or_refuse (authorization_row_refusal a sc.store) (ok (put_authorization a sc)))

-- The entries of a kind of transaction that an authorization's columns add up.
abbrev pub is_captured_entry : LedgerEntry → Bool
is_captured_entry e = elim e.account_reference [
  | clearing_captured ↦ true
  | wallet_account _ ↦ false
  | clearing_external ↦ false
]

abbrev pub same_kind : LedgerKind → LedgerKind → Bool
same_kind credit_kind credit_kind = true
same_kind capture_kind capture_kind = true
same_kind refund_kind refund_kind = true
same_kind _ _ = false

abbrev pub belongs_to : LedgerKind → ℕ → LedgerTransaction → Bool
belongs_to kind authorization_id t = elim t.authorization_id [
  | none ↦ false
  | some id ↦ id == authorization_id && same_kind t.kind kind
]

-- What the transactions of a kind posted to `clearing:captured` for an authorization.
unfoldable pub ledger_sum : LedgerKind → ℕ → List LedgerTransaction → ℤ
ledger_sum kind authorization_id [] = pos 0
ledger_sum kind authorization_id (t ∷ ts) =
    if belongs_to kind authorization_id t
    then sum_entries is_captured_entry t.entries +ℤ ledger_sum kind authorization_id ts
    else ledger_sum kind authorization_id ts

abbrev pub ledger_agrees : ℕ → PaymentAuthorization → List LedgerTransaction → Bool
ledger_agrees id a ts =
    eqb_ℤ a.captured_minor (ledger_sum capture_kind id ts)
    && eqb_ℤ a.refunded_minor (pos 0 -ℤ ledger_sum refund_kind id ts)

-- `assertLedgerAgreement`
unfoldable pub assert_ledger_agreement : ℕ → MoneyStore → Option Failure
assert_ledger_agreement id s = elim (get id s.authorizations) [
  | none ↦ none
  | some a ↦
      if ledger_agrees id a (values s.ledger)
      then none
      else some (plain "authorization does not agree with the ledger")
]

unfoldable pub defer_ledger_agreement : ℕ → MoneyScope → MoneyScope
unfolding defer assert_ledger_agreement
defer_ledger_agreement id = defer (record { key = money_of id; run = assert_ledger_agreement id })

unfoldable pub defer_balance : LedgerTransaction → MoneyScope → MoneyScope
unfolding defer assert_balanced
defer_balance t =
    defer (record { key = balance_of t.transaction_id; run = λ _. assert_balanced t.entries })

unfoldable pub update_authorization : PaymentAuthorization → MoneyScope → Result MoneyScope
update_authorization a sc = or_refuse (authorization_refusal a) (
    or_refuse (authorization_row_refusal a sc.store)
      (ok (defer_ledger_agreement a.authorization_id (put_authorization a sc))))

-- `ledgerReferenceClash`
unfoldable pub ledger_reference_clash : LedgerTransaction → MoneyStore → Bool
ledger_reference_clash t s = is_some (
    find
      (λ other.
        str_eq other.business_reference t.business_reference
        && not (other.transaction_id == t.transaction_id))
      (values s.ledger))

-- `ROW_RULES.ledger_entry`, over the entries of a transaction.
unfoldable pub entries_refusal : List LedgerEntry → Option Failure
entries_refusal [] = none
entries_refusal (e ∷ es) =
    if eqb_ℤ e.amount_minor (pos 0)
    then some (plain "ledger_entry_amount_minor_check")
    else if not (is_currency e.currency)
    then some (plain "ledger_entry_currency_check")
    else entries_refusal es

-- A credit has no authorization, and everything else has one that exists.
abbrev pub misplaced : LedgerKind → Option ℕ → Bool
misplaced credit_kind id = is_some id
misplaced _ id = not (is_some id)

abbrev pub known_authorization : Option ℕ → MoneyStore → Bool
known_authorization none s = true
known_authorization (some id) s = is_some (get id s.authorizations)

abbrev pub put_transaction : LedgerTransaction → MoneyScope → MoneyScope
put_transaction t sc = record sc {
  store = record sc.store { ledger = put t.transaction_id t sc.store.ledger };
}

abbrev pub defer_for : Option ℕ → MoneyScope → MoneyScope
defer_for none sc = sc
defer_for (some id) sc = defer_ledger_agreement id sc

unfoldable pub insert_transaction : LedgerTransaction → MoneyScope → Result MoneyScope
unfolding entries_refusal
insert_transaction t sc =
    if ledger_reference_clash t sc.store
    then err (plain "ledger_transaction_business_reference_key")
    else if misplaced t.kind t.authorization_id
    then err (plain "ledger_transaction_authorization_presence")
    else or_refuse (entries_refusal t.entries) (
        if not (known_authorization t.authorization_id sc.store)
        then err (plain "ledger_transaction_authorization_id_fkey")
        else ok (defer_for t.authorization_id (defer_balance t (put_transaction t sc))))
