-- ===== src/Money/Holds/Refunds.antt =====
-- src/modules/money/service.ts: refunds.
use Prim.Native.String.{◌++◌ as concat}
use wasla_core.Base.{ℕ, String, Option, none, some, [], ◌∷◌, if◌then◌else◌}
use wasla_core.Base.Int.{ℤ, pos, ◌+ℤ◌, ltb_ℤ, eqb_ℤ}
use wasla_core.Base.Values.{num, text, id}
use wasla_core.Eventing.Envelope.{make_event}
use wasla_core.Platform.Errors.{Failure, Result, conflict}
use wasla_core.Platform.Ids.{IdText, assert_id, uuid_text}
use wasla_core.Platform.Texts.{trim}
use wasla_core.Platform.UnitOfWork.{with_transaction, pure, lift, reads, ◌>>=◌, ◌>>◌, stage, audit}
use wasla_core.Money.Domain.{
  PaymentAuthorization, wallet_account, clearing_captured, refund_kind, LedgerTransaction,
  refundable_amount, JsNumber,
}
use wasla_core.Money.Store.{find_transaction_by_reference}
use wasla_core.Money.Service.{
  Money, MoneyWork, assert_amount, require_wallet, transaction, emit_event, money_audit,
  unless_refused, or_existing,
}
use wasla_core.Money.Holds.{require_authorization, or_all, update_and_post, unless_empty}

pub record RefundInput : Type 0 where
  pub authorization_id : IdText
  pub amount_minor : Option JsNumber
  pub refund_reference : String
  pub reason : String
  pub correlation_id : String

unfoldable pub refund_refusal : PaymentAuthorization → Option Failure
unfolding refundable_amount
refund_refusal a =
    if eqb_ℤ a.captured_minor (pos 0)
    then some (conflict "nothing has been captured on this authorization")
    else if eqb_ℤ (refundable_amount a) (pos 0)
    then some (conflict "nothing refundable remains on this authorization")
    else none

abbrev pub refund_amount_refusal : ℤ → ℤ → Option Failure
refund_amount_refusal requested refundable =
    if ltb_ℤ refundable requested
    then some (conflict "refund exceeds the refundable amount")
    else none

unfoldable pub refunded_row : ℤ → PaymentAuthorization → PaymentAuthorization
refunded_row requested a = record a { refunded_minor = a.refunded_minor +ℤ requested }

unfoldable pub refund_reference : ℕ → String → String
refund_reference authorization_id key =
    concat "refund:" (concat (uuid_text authorization_id) (concat ":" (trim key)))

-- What `refundWithin` stages, given the wallet and the transaction.
unfoldable pub refund_staged :
    RefundInput → PaymentAuthorization → ℕ → ℤ → LedgerTransaction → MoneyWork LedgerTransaction
unfolding refunded_row update_and_post make_event
refund_staged input a wallet_id requested t = do
  let updated = refunded_row requested a
  stage (update_and_post updated t)
  emit_event "core.payment.refunded" input.correlation_id "payment_authorization" a.authorization_id
      (("authorization_id", id a.authorization_id)
        ∷ ("wallet_id", id wallet_id)
        ∷ ("transaction_id", id t.transaction_id)
        ∷ ("amount_minor", num requested)
        ∷ ("refunded_minor", num updated.refunded_minor)
        ∷ ("captured_minor", num a.captured_minor)
        ∷ ("currency", text a.currency)
        ∷ ("business_reference", text a.business_reference)
        ∷ ("reason", text (trim input.reason))
        ∷ [])
  audit (
      money_audit "payment.authorization.refunded" a.authorization_id input.correlation_id requested
        a.currency)
  pure t

-- The part of `refundWithin` that moves the money.
unfoldable pub refund_new :
    RefundInput → PaymentAuthorization → String → MoneyWork LedgerTransaction
unfolding refund_refusal transaction refundable_amount refund_staged
refund_new input a reference = do
  unless_refused (refund_refusal a)
  requested ← assert_amount (or_all input.amount_minor (refundable_amount a))
  unless_refused (refund_amount_refusal requested (refundable_amount a))
  w ← require_wallet a.wallet_id
  t ←
      transaction refund_kind reference a.currency (wallet_account w.wallet_id) clearing_captured
        requested (some a.authorization_id)
  refund_staged input a w.wallet_id requested t

-- `refundWithin` and `refund`
unfoldable pub refund_within : RefundInput → MoneyWork LedgerTransaction
unfolding refund_reference refund_new
refund_within input = do
  authorization_id ← lift (assert_id "authorization_id" input.authorization_id)
  unless_empty input.refund_reference "refund_reference is required"
  unless_empty input.reason "reason is required"
  a ← require_authorization authorization_id
  let reference = refund_reference a.authorization_id input.refund_reference
  existing ← reads (λ sys. find_transaction_by_reference reference sys.store)
  or_existing existing pure (refund_new input a reference)

unfoldable pub refund : RefundInput → Money → Result LedgerTransaction × Money
unfolding refund_within
refund input = with_transaction (refund_within input)
