-- ===== src/Money/Service/Authorizing.antt =====
-- src/modules/money/service.ts: `authorize`.
use wasla_core.Base.{
  ℕ, String, Option, none, some, Bool, true, false, not, [], ◌∷◌, leb, if◌then◌else◌,
}
use wasla_core.Base.Int.{ℤ, pos, ltb_ℤ}
use wasla_core.Base.Values.{num, text, id}
use wasla_core.Eventing.Envelope.{make_event}
use wasla_core.Platform.Errors.{Failure, Result, ok, err, invalid, conflict}
use wasla_core.Platform.Ids.{IdText, assert_id}
use wasla_core.Platform.UnitOfWork.{
  with_transaction, pure, lift, reads, ◌>>=◌, ◌>>◌, new_id, stage, audit,
}
use wasla_core.Money.Domain.{
  Wallet, WalletStatus, active, PaymentAuthorization, authorized, JsNumber,
}
use wasla_core.Money.Store.{MoneyStore, find_authorization_by_reference, insert_authorization}
use wasla_core.Money.Service.{
  Money, MoneyWork, assert_amount, require_wallet, balance_of_wallet, unless_refused, emit_event,
  money_audit, or_existing,
}

-- The instant that `new Date(value)` reads, if it reads one.
pub data ExpiryInput : Type 0 where
  no_expiry unreadable : ExpiryInput
  expires : ℕ → ExpiryInput

-- `expiry`
abbrev pub expiry : ℕ → ExpiryInput → Result (Option ℕ)
expiry now no_expiry = ok none
expiry now unreadable = err (invalid "expires_at must be a valid timestamp")
expiry now (expires at) =
    if leb at now then err (invalid "expires_at must be in the future") else ok (some at)

pub record AuthorizeInput : Type 0 where
  pub wallet_id : IdText
  pub amount_minor : JsNumber
  pub business_reference : String
  pub correlation_id : String
  pub expires_at : ExpiryInput

abbrev pub is_active : WalletStatus → Bool
is_active active = true
is_active _ = false

-- The refusals of `authorize` once the wallet and the amount are read.
abbrev pub authorize_refusal : ℕ → Wallet → ℤ → MoneyStore → Option Failure
authorize_refusal now w amount s =
    if not (is_active w.status)
    then some (conflict "wallet is not active")
    else if ltb_ℤ (balance_of_wallet now w.wallet_id s).available_minor amount
    then some (conflict "insufficient available balance")
    else none

abbrev pub new_authorization : ℕ → ℕ → Wallet → ℤ → String → Option ℕ → PaymentAuthorization
new_authorization new_id now w amount reference expires_at = record {
  authorization_id = new_id;
  wallet_id = w.wallet_id;
  amount_minor = amount;
  captured_minor = pos 0;
  refunded_minor = pos 0;
  currency = w.currency;
  status = authorized;
  business_reference = reference;
  created_at = now;
  captured_at = none;
  voided_at = none;
  expires_at = expires_at;
  void_reason = none;
}

-- The transaction of `authorize`.
unfoldable pub authorize_staged :
    AuthorizeInput → PaymentAuthorization → MoneyWork PaymentAuthorization
unfolding make_event
authorize_staged input a = do
  stage (insert_authorization a)
  emit_event "core.payment.authorized" input.correlation_id "payment_authorization"
      a.authorization_id
      (("authorization_id", id a.authorization_id)
        ∷ ("wallet_id", id a.wallet_id)
        ∷ ("amount_minor", num a.amount_minor)
        ∷ ("currency", text a.currency)
        ∷ ("business_reference", text input.business_reference)
        ∷ [])
  audit (
      money_audit "payment.authorization.created" a.authorization_id input.correlation_id
        a.amount_minor a.currency)
  pure a

unfoldable pub authorize_new : AuthorizeInput → Wallet → ℤ → MoneyWork PaymentAuthorization
unfolding balance_of_wallet authorize_staged
authorize_new input w amount = do
  now ← reads (λ sys. sys.now)
  refusal ← reads (λ sys. authorize_refusal sys.now w amount sys.store)
  unless_refused refusal
  authorization_id ← new_id
  expires_at ← lift (expiry now input.expires_at)
  authorize_staged input
      (new_authorization authorization_id now w amount input.business_reference expires_at)

unfoldable pub authorize_work : AuthorizeInput → MoneyWork PaymentAuthorization
unfolding authorize_new
authorize_work input = do
  wallet_id ← lift (assert_id "wallet_id" input.wallet_id)
  w ← require_wallet wallet_id
  amount ← assert_amount input.amount_minor
  existing ← reads (λ sys. find_authorization_by_reference input.business_reference sys.store)
  or_existing existing pure (authorize_new input w amount)

unfoldable pub authorize : AuthorizeInput → Money → Result PaymentAuthorization × Money
authorize input = with_transaction (authorize_work input)
