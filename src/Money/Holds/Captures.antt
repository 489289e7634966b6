-- ===== src/Money/Holds/Captures.antt =====
-- src/modules/money/service.ts: captures. A capture answers the ledger's transaction and the hold as it
-- then stands.
use Prim.Native.String.{◌++◌ as concat}
use package.text.Mathlib.Text.{◌==◌ as str_eq}
use wasla_core.Base.{ℕ, String, Option, none, some, not, ◌&&◌, [], ◌∷◌, if◌then◌else◌}
use wasla_core.Base.Int.{ℤ, ◌+ℤ◌, ◌-ℤ◌, ltb_ℤ, eqb_ℤ}
use wasla_core.Base.Values.{num, text, id}
use wasla_core.Eventing.Envelope.{make_event}
use wasla_core.Platform.Errors.{Failure, Result, invalid, conflict}
use wasla_core.Platform.Ids.{IdText, assert_id, uuid_text}
use wasla_core.Platform.Texts.{is_truthy}
use wasla_core.Platform.UnitOfWork.{with_transaction, pure, lift, reads, ◌>>=◌, ◌>>◌, stage, audit}
use wasla_core.Money.Domain.{
  PaymentAuthorization, authorized, captured, is_authorized, wallet_account, clearing_captured,
  capture_kind, LedgerTransaction, remaining_hold, JsNumber,
}
use wasla_core.Money.Store.{find_transaction_by_reference}
use wasla_core.Money.Service.{
  Money, MoneyWork, assert_amount, require_wallet, is_expired, transaction, emit_event, money_audit,
  unless_refused, or_existing,
}
use wasla_core.Money.Holds.{require_authorization, or_all, update_and_post}

pub record CaptureInput : Type 0 where
  pub authorization_id : IdText
  pub amount_minor : Option JsNumber
  pub capture_reference : Option String
  pub correlation_id : String

unfoldable pub capture_reference : ℕ → Option String → String
capture_reference authorization_id none = concat "capture:" (uuid_text authorization_id)
capture_reference authorization_id (some key) =
    if str_eq key ""
    then concat "capture:" (uuid_text authorization_id)
    else concat "capture:" (concat (uuid_text authorization_id) (concat ":" key))

-- What refuses a capture, or a refund, before its amount is read.
unfoldable pub capture_refusal : ℕ → PaymentAuthorization → Option Failure
capture_refusal now a =
    if not (is_authorized a.status)
    then some (conflict "authorization cannot be captured")
    else if is_expired now a
    then some (conflict "authorization has expired and can only be voided")
    else none

unfoldable pub capture_amount_refusal : Option String → ℤ → ℤ → Option Failure
capture_amount_refusal key requested remaining =
    if ltb_ℤ requested remaining && not (is_truthy key)
    then some (invalid "capture_reference is required when capturing less than the remaining hold")
    else if ltb_ℤ remaining requested
    then some (conflict "capture exceeds the remaining hold")
    else none

-- The authorization after a capture.
unfoldable pub captured_row : ℕ → ℤ → PaymentAuthorization → PaymentAuthorization
captured_row now requested a =
    let total = a.captured_minor +ℤ requested in
    let settled = eqb_ℤ total a.amount_minor in
    record a {
      captured_minor = total;
      status = if settled then captured else authorized;
      captured_at = if settled then some now else a.captured_at;
    }

-- What `applyCaptureWithin` stages, given the wallet and the transaction.
unfoldable pub capture_staged :
    CaptureInput
    → PaymentAuthorization
    → ℕ
    → ℤ
    → LedgerTransaction
    → MoneyWork (LedgerTransaction × PaymentAuthorization)
unfolding captured_row update_and_post make_event
capture_staged input a wallet_id requested t = do
  now ← reads (λ sys. sys.now)
  let updated = captured_row now requested a
  stage (update_and_post updated t)
  emit_event "core.payment.captured" input.correlation_id "payment_authorization" a.authorization_id
      (("authorization_id", id a.authorization_id)
        ∷ ("wallet_id", id wallet_id)
        ∷ ("transaction_id", id t.transaction_id)
        ∷ ("amount_minor", num requested)
        ∷ ("captured_minor", num updated.captured_minor)
        ∷ ("remaining_minor", num (updated.amount_minor -ℤ updated.captured_minor))
        ∷ ("currency", text a.currency)
        ∷ ("business_reference", text a.business_reference)
        ∷ [])
  audit (
      money_audit "payment.authorization.captured" a.authorization_id input.correlation_id requested
        a.currency)
  pure (t, updated)

-- The part of `applyCaptureWithin` that moves the money.
unfoldable pub capture_new :
    CaptureInput
    → PaymentAuthorization
    → String
    → MoneyWork (LedgerTransaction × PaymentAuthorization)
unfolding capture_refusal capture_amount_refusal transaction remaining_hold capture_staged
capture_new input a reference = do
  now ← reads (λ sys. sys.now)
  unless_refused (capture_refusal now a)
  requested ← assert_amount (or_all input.amount_minor (remaining_hold a))
  unless_refused (capture_amount_refusal input.capture_reference requested (remaining_hold a))
  w ← require_wallet a.wallet_id
  t ←
      transaction capture_kind reference a.currency clearing_captured (wallet_account w.wallet_id)
        requested (some a.authorization_id)
  capture_staged input a w.wallet_id requested t

-- `applyCaptureWithin`
unfoldable pub apply_capture_within :
    CaptureInput → MoneyWork (LedgerTransaction × PaymentAuthorization)
unfolding capture_reference capture_new
apply_capture_within input = do
  authorization_id ← lift (assert_id "authorization_id" input.authorization_id)
  a ← require_authorization authorization_id
  let reference = capture_reference a.authorization_id input.capture_reference
  existing ← reads (λ sys. find_transaction_by_reference reference sys.store)
  or_existing existing (λ t. pure (t, a)) (capture_new input a reference)

-- `captureWithin`, `captureHoldWithin` and `capture`
unfoldable pub capture_within : CaptureInput → MoneyWork LedgerTransaction
unfolding apply_capture_within
capture_within input = apply_capture_within input >>= λ both. pure both.0

unfoldable pub capture_hold_within : CaptureInput → MoneyWork PaymentAuthorization
unfolding apply_capture_within
capture_hold_within input = apply_capture_within input >>= λ both. pure both.1

unfoldable pub capture : CaptureInput → Money → Result LedgerTransaction × Money
unfolding capture_within
capture input = with_transaction (capture_within input)
