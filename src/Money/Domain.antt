-- ===== src/Money/Domain.antt =====
-- src/modules/money/domain.ts. Amounts are integers of any sign, as the checks of the store suppose; a
-- number that a caller gives may be no integer at all.
use text.Mathlib.Text.{◌==◌ as str_eq}
use wasla_core.Base.{
  ℕ, ◌-◌, ◌^◌, String, Option, none, some, Bool, true, false, not, ◌&&◌, List, [], ◌∷◌, ltb, length,
  if◌then◌else◌,
}
use wasla_core.Base.Int.{ℤ, pos, ◌+ℤ◌, ◌-ℤ◌, ltb_ℤ, eqb_ℤ}
use wasla_core.Platform.Errors.{Failure, plain}

pub data WalletOwnerType : Type 0 where
  identity organization : WalletOwnerType

pub data WalletStatus : Type 0 where
  active frozen closed : WalletStatus

pub data AuthorizationStatus : Type 0 where
  authorized captured partially_captured voided : AuthorizationStatus

pub record Wallet : Type 0 where
  pub wallet_id : ℕ
  pub owner_type : WalletOwnerType
  pub owner_id : ℕ
  pub currency : String
  pub status : WalletStatus
  pub created_at : ℕ

pub record PaymentAuthorization : Type 0 where
  pub authorization_id : ℕ
  pub wallet_id : ℕ
  pub amount_minor : ℤ
  pub captured_minor : ℤ
  pub refunded_minor : ℤ
  pub currency : String
  pub status : AuthorizationStatus
  pub business_reference : String
  pub created_at : ℕ
  pub captured_at : Option ℕ
  pub voided_at : Option ℕ
  pub expires_at : Option ℕ
  pub void_reason : Option String

-- The texts `wallet:<wallet_id>`, `clearing:external` and `clearing:captured`.
pub data Account : Type 0 where
  wallet_account : ℕ → Account
  clearing_external clearing_captured : Account

pub record LedgerEntry : Type 0 where
  pub entry_id : ℕ
  pub transaction_id : ℕ
  pub account_reference : Account
  pub amount_minor : ℤ
  pub currency : String

pub data LedgerKind : Type 0 where
  credit_kind capture_kind refund_kind : LedgerKind

pub record LedgerTransaction : Type 0 where
  pub transaction_id : ℕ
  pub kind : LedgerKind
  pub business_reference : String
  pub authorization_id : Option ℕ
  pub occurred_at : ℕ
  pub entries : List LedgerEntry

abbrev pub is_authorized : AuthorizationStatus → Bool
is_authorized authorized = true
is_authorized _ = false

-- `remainingHold`
unfoldable pub remaining_hold : PaymentAuthorization → ℤ
remaining_hold a = if is_authorized a.status then a.amount_minor -ℤ a.captured_minor else pos 0

-- `refundableAmount`
unfoldable pub refundable_amount : PaymentAuthorization → ℤ
refundable_amount a = a.captured_minor -ℤ a.refunded_minor

-- The sum that `entries.reduce` takes, on the entries that a test selects.
unfoldable pub sum_entries : (LedgerEntry → Bool) → List LedgerEntry → ℤ
sum_entries p [] = pos 0
sum_entries p (e ∷ es) = if p e then e.amount_minor +ℤ sum_entries p es else sum_entries p es

abbrev pub any_entry : LedgerEntry → Bool
any_entry e = true

-- `new Set(entries.map((entry) => entry.currency)).size === 1`, of entries that are there.
abbrev pub one_currency : String → List LedgerEntry → Bool
one_currency c [] = true
one_currency c (e ∷ es) = str_eq e.currency c && one_currency c es

abbrev pub of_first : List LedgerEntry → Bool
of_first [] = false
of_first (e ∷ es) = one_currency e.currency es

-- `assertBalanced`
unfoldable pub assert_balanced : List LedgerEntry → Option Failure
assert_balanced entries =
    if ltb (length entries) 2
    then some (plain "ledger transaction requires at least two entries")
    else if not (of_first entries)
    then some (plain "ledger transaction cannot mix currencies")
    else if not (eqb_ℤ (sum_entries any_entry entries) (pos 0))
    then some (plain "ledger transaction is not balanced")
    else none

-- A number of JavaScript: an integer, or anything else.
pub data JsNumber : Type 0 where
  int : ℤ → JsNumber
  no_integer : JsNumber

abbrev pub max_safe_integer : ℕ
max_safe_integer = 2 ^ 53 - 1

-- `Number.isSafeInteger(amount) && amount > 0`, with the amount.
unfoldable pub positive_amount : JsNumber → Option ℤ
positive_amount no_integer = none
positive_amount (int n) =
    if ltb_ℤ (pos 0) n && not (ltb_ℤ (pos max_safe_integer) n) then some n else none
