-- ===== src/Money/Holds.antt =====
-- src/modules/money/service.ts: what captures, refunds and voids of a hold share.
pub mod Captures
pub mod Refunds
pub mod Voids
use Prim.Native.String.{◌++◌ as concat}
use package.text.Mathlib.Text.{◌==◌ as str_eq}
use wasla_core.Base.{ℕ, String, Option, none, some, not, ◌&&◌, List, [], ◌∷◌, filter, if◌then◌else◌}
use wasla_core.Base.Int.{ℤ, pos, ◌+ℤ◌, ◌-ℤ◌, ltb_ℤ, eqb_ℤ}
use wasla_core.Base.Table.{get}
use wasla_core.Base.Values.{num, text, id}
use wasla_core.Eventing.Envelope.{make_event}
use wasla_core.Platform.Errors.{Failure, Result, ok, err, invalid, not_found, conflict}
use wasla_core.Platform.Ids.{IdText, assert_id, uuid_text}
use wasla_core.Platform.Texts.{trim, is_empty_text, is_truthy}
use wasla_core.Platform.UnitOfWork.{
  with_transaction, pure, throw, lift, reads, or_throw, ◌>>=◌, ◌>>◌, stage, audit, Unit₀,
}
use wasla_core.Money.Domain.{
  PaymentAuthorization, AuthorizationStatus, authorized, captured, partially_captured, voided,
  is_authorized, wallet_account, clearing_captured, capture_kind, refund_kind, LedgerTransaction,
  remaining_hold, refundable_amount, JsNumber, int,
}
use wasla_core.Money.Store.{
  MoneyScope, find_transaction_by_reference, all_authorizations, insert_transaction,
  update_authorization,
}
use wasla_core.Money.Service.{
  Money, MoneyWork, assert_amount, require_wallet, is_expired, is_lapsed, transaction, emit_event,
  money_audit, unless_refused, or_existing,
}

abbrev pub require_authorization : ℕ → MoneyWork PaymentAuthorization
require_authorization authorization_id sys =
    or_throw (get authorization_id sys.store.authorizations)
      (not_found "payment authorization not found") sys

-- `input.amount_minor ?? remaining`
abbrev pub or_all : Option JsNumber → ℤ → JsNumber
or_all none all = int all
or_all (some n) all = n

-- The staged mutation of a capture and of a refund.
unfoldable pub update_and_post :
    PaymentAuthorization → LedgerTransaction → MoneyScope → Result MoneyScope
unfolding update_authorization insert_transaction
update_and_post a t sc = elim (update_authorization a sc) [
  | ok sc' ↦ insert_transaction t sc'
  | err e ↦ err e
]

abbrev pub unless_empty : String → String → MoneyWork Unit₀
unless_empty s message = if is_empty_text s then throw (invalid message) else pure tt
