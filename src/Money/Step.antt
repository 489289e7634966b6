-- ===== src/Money/Step.antt =====
-- What src/modules/money/service.ts promises of the stored money: which command may make which change in
-- one transaction, said without its staging, its events and its deferred checks. The rows and the
-- ledger's transactions are written out here, apart from the service's own.
pub mod Leads
pub mod Commands
pub mod Placing
pub mod Holding
pub mod Returning
pub mod Sound
pub mod Solvent
use wasla_core.Base.{ℕ, ◌≤◌, ◌<◌, String, Option, none, some, false, ◌≡◌, [], ◌∷◌, if◌then◌else◌}
use wasla_core.Base.Int.{ℤ, pos, ◌+ℤ◌, -ℤ◌, ◌≤ℤ◌, ◌<ℤ◌, eqb_ℤ, ltb_ℤ}
use wasla_core.Base.Table.{get}
use wasla_core.Platform.Errors.{ok}
use wasla_core.Platform.Ids.{assert_id}
use wasla_core.Platform.Texts.{trim}
use wasla_core.Money.Domain.{
  Wallet, WalletStatus, PaymentAuthorization, AuthorizationStatus, is_authorized, Account,
  wallet_account, clearing_external, clearing_captured, LedgerKind, credit_kind, capture_kind,
  refund_kind, LedgerTransaction, remaining_hold, refundable_amount, positive_amount,
}
use wasla_core.Money.Store.{
  MoneyStore, authorization_refusal, find_transaction_by_reference, find_authorization_by_reference,
}
use wasla_core.Money.Store.Writes.{with_wallet, with_authorization, with_transaction_row}
use wasla_core.Money.Service.{balance_of_wallet, is_expired}
use wasla_core.Money.Service.Wallets.{CreateWalletInput, CreditInput}
use wasla_core.Money.Service.Authorizing.{AuthorizeInput, expiry}
use wasla_core.Money.Holds.{or_all}
use wasla_core.Money.Holds.Captures.{CaptureInput, capture_reference}
use wasla_core.Money.Holds.Refunds.{RefundInput, refund_reference}
use wasla_core.Money.Holds.Voids.{VoidInput}

-- What was asked for; the sweep closes lapsed holds of its own accord.
pub data Ask : Type 0 where
  of_wallet : CreateWalletInput → Ask
  of_credit : CreditInput → Ask
  of_authorize : AuthorizeInput → Ask
  of_capture : CaptureInput → Ask
  of_refund : RefundInput → Ask
  of_void : VoidInput → Ask
  of_sweep : Ask

-- Whether the ask is for this change.
abbrev pub AsksWallet : Ask → Type 0
AsksWallet (of_wallet input) = Unit
AsksWallet _ = ⊥

abbrev pub AsksCredit : Ask → ℕ → ℤ → String → Type 0
AsksCredit (of_credit input) wallet_id amount reference =
    (assert_id "wallet_id" input.wallet_id ≡ ok wallet_id)
    × (positive_amount input.amount_minor ≡ some amount)
    × (input.business_reference ≡ reference)
AsksCredit _ wallet_id amount reference = ⊥

abbrev pub AsksHold : Ask → ℕ → ℕ → ℤ → String → Option ℕ → Type 0
AsksHold (of_authorize input) now wallet_id amount reference expires_at =
    (assert_id "wallet_id" input.wallet_id ≡ ok wallet_id)
    × (positive_amount input.amount_minor ≡ some amount)
    × (input.business_reference ≡ reference)
    × (expiry now input.expires_at ≡ ok expires_at)
AsksHold _ now wallet_id amount reference expires_at = ⊥

abbrev pub AsksCapture : Ask → ℕ → PaymentAuthorization → ℤ → String → Type 0
AsksCapture (of_capture input) authorization_id a amount reference =
    (assert_id "authorization_id" input.authorization_id ≡ ok authorization_id)
    × (positive_amount (or_all input.amount_minor (remaining_hold a)) ≡ some amount)
    × (capture_reference a.authorization_id input.capture_reference ≡ reference)
AsksCapture _ authorization_id a amount reference = ⊥

abbrev pub AsksRefund : Ask → ℕ → PaymentAuthorization → ℤ → String → Type 0
AsksRefund (of_refund input) authorization_id a amount reference =
    (assert_id "authorization_id" input.authorization_id ≡ ok authorization_id)
    × (positive_amount (or_all input.amount_minor (refundable_amount a)) ≡ some amount)
    × (refund_reference a.authorization_id input.refund_reference ≡ reference)
AsksRefund _ authorization_id a amount reference = ⊥

abbrev pub AsksRelease : Ask → ℕ → String → Type 0
AsksRelease (of_void input) authorization_id reason =
    (assert_id "authorization_id" input.authorization_id ≡ ok authorization_id)
    × (trim input.reason ≡ reason)
AsksRelease of_sweep authorization_id reason = Unit
AsksRelease _ authorization_id reason = ⊥

-- Whether what is asked for was done before, so that nothing is left to do.
abbrev pub IsDone : Ask → MoneyStore → Type 0
IsDone (of_wallet input) s = Unit
IsDone (of_credit input) s =
    (t : LedgerTransaction) × (find_transaction_by_reference input.business_reference s ≡ some t)
IsDone (of_authorize input) s =
    (a : PaymentAuthorization) × (find_authorization_by_reference input.business_reference s
      ≡ some a)
IsDone (of_capture input) s =
    (k : ℕ) × (a : PaymentAuthorization) × (t : LedgerTransaction) × (assert_id "authorization_id"
        input.authorization_id
      ≡ ok k)
    × (get k s.authorizations ≡ some a)
    × (find_transaction_by_reference (capture_reference a.authorization_id input.capture_reference)
          s
        ≡ some t)
IsDone (of_refund input) s =
    (k : ℕ) × (a : PaymentAuthorization) × (t : LedgerTransaction) × (assert_id "authorization_id"
        input.authorization_id
      ≡ ok k)
    × (get k s.authorizations ≡ some a)
    × (find_transaction_by_reference (refund_reference a.authorization_id input.refund_reference) s
        ≡ some t)
IsDone (of_void input) s =
    (k : ℕ) × (a : PaymentAuthorization) × (assert_id "authorization_id" input.authorization_id
      ≡ ok k)
    × (get k s.authorizations ≡ some a)
    × (is_authorized a.status ≡ false)
IsDone of_sweep s = ⊥

-- A transaction of two entries: the amount on one account, and its negation on the other.
abbrev pub posted :
    ℕ
    → ℕ
    → ℕ
    → ℕ
    → LedgerKind
    → String
    → String
    → Account
    → Account
    → ℤ
    → Option ℕ
    → LedgerTransaction
posted now tid e1 e2 kind reference currency gains loses amount authorization_id = record {
  transaction_id = tid;
  kind = kind;
  business_reference = reference;
  authorization_id = authorization_id;
  occurred_at = now;
  entries =
      record {
        entry_id = e1;
        transaction_id = tid;
        account_reference = gains;
        amount_minor = amount;
        currency = currency;
      }
      ∷ record {
        entry_id = e2;
        transaction_id = tid;
        account_reference = loses;
        amount_minor = -ℤ◌ amount;
        currency = currency;
      }
      ∷ [];
}

-- An open hold of the amount, of which nothing is captured or refunded.
abbrev pub opened_hold : ℕ → ℕ → Wallet → ℤ → String → Option ℕ → PaymentAuthorization
opened_hold new_id now w amount reference expires_at = record {
  authorization_id = new_id;
  wallet_id = w.wallet_id;
  amount_minor = amount;
  captured_minor = pos 0;
  refunded_minor = pos 0;
  currency = w.currency;
  status = AuthorizationStatus.authorized;
  business_reference = reference;
  created_at = now;
  captured_at = none;
  voided_at = none;
  expires_at = expires_at;
  void_reason = none;
}

-- The hold with the amount more captured: used up where that makes its whole, and open otherwise.
abbrev pub captured_hold : ℕ → ℤ → PaymentAuthorization → PaymentAuthorization
captured_hold now amount a =
    let used_up = eqb_ℤ (a.captured_minor +ℤ amount) a.amount_minor in
    record a {
      captured_minor = a.captured_minor +ℤ amount;
      status = if used_up then AuthorizationStatus.captured else AuthorizationStatus.authorized;
      captured_at = if used_up then some now else a.captured_at;
    }

-- The hold with the amount more refunded.
abbrev pub refunded_hold : ℤ → PaymentAuthorization → PaymentAuthorization
refunded_hold amount a = record a { refunded_minor = a.refunded_minor +ℤ amount }

-- The hold closed: what was captured of it stays so.
abbrev pub released_hold : ℕ → String → PaymentAuthorization → PaymentAuthorization
released_hold now reason a =
    let used = ltb_ℤ (pos 0) a.captured_minor in
    record a {
      status = if used then AuthorizationStatus.partially_captured else AuthorizationStatus.voided;
      captured_at = if used then some now else a.captured_at;
      voided_at = some now;
      void_reason = some reason;
    }

-- From a store whose fresh identifiers begin at `n` to one where they begin at `n'`.
pub data Step (ask : Ask) (now n : ℕ) (s : MoneyStore) (n' : ℕ) : MoneyStore → Type 0 where
  stays : n ≤ n' → IsDone ask s → Step ask now n s n' s
  opens :
      (w : Wallet)
      → AsksWallet ask
      → n ≤ w.wallet_id
      → w.wallet_id < n'
      → Step ask now n s n' (with_wallet w s)
  credits :
      (w : Wallet) (k tid e1 e2 : ℕ) (reference : String) (amount : ℤ)
      → AsksCredit ask k amount reference
      → get k s.wallets ≡ some w
      → n ≤ tid
      → tid < n'
      → pos 0 <ℤ amount
      → Step ask now n s n' (
          with_transaction_row
            (posted now tid e1 e2 credit_kind reference w.currency
              (wallet_account w.wallet_id)
              clearing_external
              amount
              none)
            s)
  authorizes :
      (w : Wallet) (k new_id : ℕ) (amount : ℤ) (reference : String) (expires_at : Option ℕ)
      → AsksHold ask now k amount reference expires_at
      → get k s.wallets ≡ some w
      → w.status ≡ WalletStatus.active
      → n ≤ new_id
      → new_id < n'
      → pos 0 <ℤ amount
      → authorization_refusal (opened_hold new_id now w amount reference expires_at) ≡ none
      → amount ≤ℤ (balance_of_wallet now w.wallet_id s).available_minor
      → Step ask now n s n'
          (with_authorization (opened_hold new_id now w amount reference expires_at) s)
  captures :
      (a : PaymentAuthorization) (k tid e1 e2 : ℕ) (reference : String) (amount : ℤ)
      → AsksCapture ask k a amount reference
      → get k s.authorizations ≡ some a
      → k ≡ a.authorization_id
      → a.status ≡ AuthorizationStatus.authorized
      → is_expired now a ≡ false
      → n ≤ tid
      → tid < n'
      → pos 0 <ℤ amount
      → authorization_refusal (captured_hold now amount a) ≡ none
      → amount ≤ℤ remaining_hold a
      → Step ask now n s n' (
          with_transaction_row
            (posted now tid e1 e2 capture_kind reference a.currency clearing_captured
              (wallet_account a.wallet_id)
              amount
              (some a.authorization_id))
            (with_authorization (captured_hold now amount a) s))
  refunds :
      (a : PaymentAuthorization) (k tid e1 e2 : ℕ) (reference : String) (amount : ℤ)
      → AsksRefund ask k a amount reference
      → get k s.authorizations ≡ some a
      → k ≡ a.authorization_id
      → n ≤ tid
      → tid < n'
      → pos 0 <ℤ amount
      → authorization_refusal (refunded_hold amount a) ≡ none
      → amount ≤ℤ refundable_amount a
      → Step ask now n s n' (
          with_transaction_row
            (posted now tid e1 e2 refund_kind reference a.currency
              (wallet_account a.wallet_id)
              clearing_captured
              amount
              (some a.authorization_id))
            (with_authorization (refunded_hold amount a) s))
  releases :
      (a : PaymentAuthorization) (k : ℕ) (reason : String)
      → AsksRelease ask k reason
      → get k s.authorizations ≡ some a
      → k ≡ a.authorization_id
      → a.status ≡ AuthorizationStatus.authorized
      → authorization_refusal (released_hold now reason a) ≡ none
      → n ≤ n'
      → Step ask now n s n' (with_authorization (released_hold now reason a) s)
