-- ===== src/Money/Service/Wallets.antt =====
-- src/modules/money/service.ts: `createWallet` and `credit`.
use wasla_core.Base.{ℕ, String, none, Bool, true, false, [], ◌∷◌}
use wasla_core.Base.Int.{ℤ}
use wasla_core.Base.Values.{num, text, id}
use wasla_core.Eventing.Envelope.{make_event}
use wasla_core.Platform.Errors.{Result, invalid}
use wasla_core.Platform.Ids.{IdText, assert_id}
use wasla_core.Platform.Texts.{normalize_currency}
use wasla_core.Platform.UnitOfWork.{
  with_transaction, pure, lift, reads, or_throw, ◌>>=◌, ◌>>◌, new_id, stage, audit,
}
use wasla_core.Money.Domain.{
  Wallet, WalletOwnerType, identity, organization, active, wallet_account, clearing_external,
  credit_kind, LedgerTransaction, JsNumber,
}
use wasla_core.Money.Store.{
  find_wallet, find_transaction_by_reference, insert_wallet, insert_transaction,
}
use wasla_core.Money.Service.{
  Money, MoneyWork, assert_amount, require_wallet, transaction, emit_event, money_audit,
  or_existing,
}

-- The inputs of the commands, as a caller gives them.
pub record CreateWalletInput : Type 0 where
  pub owner_type : WalletOwnerType
  pub owner_id : IdText
  pub currency : String
  pub correlation_id : String

abbrev pub new_wallet : ℕ → ℕ → WalletOwnerType → ℕ → String → Wallet
new_wallet new_id now owner_type owner_id currency = record {
  wallet_id = new_id;
  owner_type = owner_type;
  owner_id = owner_id;
  currency = currency;
  status = active;
  created_at = now;
}

abbrev pub owner_text : WalletOwnerType → String
owner_text identity = "identity"
owner_text organization = "organization"

-- The part of `createWallet` that runs when the owner has no wallet of the currency.
unfoldable pub create_wallet_new : CreateWalletInput → ℕ → String → MoneyWork (Wallet × Bool)
create_wallet_new input owner_id currency = do
  wallet_id ← new_id
  now ← reads (λ sys. sys.now)
  let w = new_wallet wallet_id now input.owner_type owner_id currency
  stage (insert_wallet w)
  audit (record {
    action = "wallet.created";
    entity_type = "wallet";
    entity_id = wallet_id;
    correlation_id = input.correlation_id;
    metadata =
        ("owner_type", text (owner_text input.owner_type))
        ∷ ("owner_id", id owner_id)
        ∷ ("currency", text currency)
        ∷ [];
  })
  pure (w, true)

unfoldable pub create_wallet_work : CreateWalletInput → MoneyWork (Wallet × Bool)
unfolding create_wallet_new
create_wallet_work input = do
  owner_id ← lift (assert_id "owner_id" input.owner_id)
  currency ←
      or_throw (normalize_currency input.currency) (invalid "currency must be an ISO 4217 code")
  existing ← reads (λ sys. find_wallet input.owner_type owner_id currency sys.store)
  or_existing existing (λ w. pure (w, false)) (create_wallet_new input owner_id currency)

unfoldable pub create_wallet : CreateWalletInput → Money → Result (Wallet × Bool) × Money
create_wallet input = with_transaction (create_wallet_work input)

pub record CreditInput : Type 0 where
  pub wallet_id : IdText
  pub amount_minor : JsNumber
  pub business_reference : String
  pub correlation_id : String

-- The part of `credit` that runs when the reference is new.
unfoldable pub credit_new : CreditInput → Wallet → ℤ → MoneyWork LedgerTransaction
unfolding transaction make_event
credit_new input w amount = do
  t ←
      transaction credit_kind input.business_reference w.currency (wallet_account w.wallet_id)
        clearing_external amount none
  stage (insert_transaction t)
  emit_event "core.money.credited" input.correlation_id "wallet" w.wallet_id (
      ("wallet_id", id w.wallet_id)
      ∷ ("transaction_id", id t.transaction_id)
      ∷ ("amount_minor", num amount)
      ∷ ("currency", text w.currency)
      ∷ ("business_reference", text input.business_reference)
      ∷ [])
  audit (money_audit "wallet.credited" w.wallet_id input.correlation_id amount w.currency)
  pure t

unfoldable pub credit_work : CreditInput → MoneyWork LedgerTransaction
unfolding credit_new
credit_work input = do
  wallet_id ← lift (assert_id "wallet_id" input.wallet_id)
  w ← require_wallet wallet_id
  amount ← assert_amount input.amount_minor
  existing ← reads (λ sys. find_transaction_by_reference input.business_reference sys.store)
  or_existing existing pure (credit_new input w amount)

unfoldable pub credit : CreditInput → Money → Result LedgerTransaction × Money
credit input = with_transaction (credit_work input)
