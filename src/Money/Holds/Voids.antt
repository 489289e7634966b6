-- ===== src/Money/Holds/Voids.antt =====
-- src/modules/money/service.ts: voids, and the sweep of the expired holds.
use wasla_core.Base.{ℕ, String, some, List, [], ◌∷◌, filter, if◌then◌else◌}
use wasla_core.Base.Int.{pos, ltb_ℤ}
use wasla_core.Base.Values.{num, text, id}
use wasla_core.Eventing.Envelope.{make_event}
use wasla_core.Platform.Errors.{Result, ok, err, conflict}
use wasla_core.Platform.Ids.{IdText, assert_id}
use wasla_core.Platform.Texts.{trim}
use wasla_core.Platform.UnitOfWork.{
  with_transaction, pure, throw, lift, reads, ◌>>=◌, ◌>>◌, stage, audit,
}
use wasla_core.Money.Domain.{
  PaymentAuthorization, AuthorizationStatus, authorized, captured, partially_captured, voided,
  remaining_hold,
}
use wasla_core.Money.Store.{all_authorizations, update_authorization}
use wasla_core.Money.Service.{Money, MoneyWork, is_lapsed, emit_event, money_audit}
use wasla_core.Money.Holds.{require_authorization, unless_empty}

-- The authorization after a void: only what is left comes back.
unfoldable pub closed_row : ℕ → String → PaymentAuthorization → PaymentAuthorization
closed_row now reason a =
    let moved = ltb_ℤ (pos 0) a.captured_minor in
    record a {
      status = if moved then partially_captured else voided;
      voided_at = some now;
      void_reason = some reason;
      captured_at = if moved then some now else a.captured_at;
    }

-- `applyVoidWithin`
unfoldable pub apply_void_within :
    PaymentAuthorization → String → String → MoneyWork PaymentAuthorization
unfolding closed_row update_authorization make_event remaining_hold
apply_void_within a reason correlation_id = do
  now ← reads (λ sys. sys.now)
  let updated = closed_row now reason a
  stage (update_authorization updated)
  emit_event "core.payment.voided" correlation_id "payment_authorization" updated.authorization_id (
      ("authorization_id", id updated.authorization_id)
      ∷ ("wallet_id", id updated.wallet_id)
      ∷ ("amount_minor", num (remaining_hold a))
      ∷ ("captured_minor", num updated.captured_minor)
      ∷ ("currency", text updated.currency)
      ∷ ("business_reference", text updated.business_reference)
      ∷ ("reason", text reason)
      ∷ [])
  audit (
      money_audit "payment.authorization.voided" updated.authorization_id correlation_id
        (remaining_hold a) updated.currency)
  pure updated

pub record VoidInput : Type 0 where
  pub authorization_id : IdText
  pub reason : String
  pub correlation_id : String

-- `voidWithin`, by the status of the authorization.
abbrev pub void_by_status :
    AuthorizationStatus → VoidInput → PaymentAuthorization → MoneyWork PaymentAuthorization
void_by_status voided input a = pure a
void_by_status partially_captured input a = pure a
void_by_status captured input a = throw (conflict "a captured authorization cannot be voided")
void_by_status authorized input a =
    unless_empty input.reason "reason is required"
    >> apply_void_within a (trim input.reason) input.correlation_id

unfoldable pub void_within : VoidInput → MoneyWork PaymentAuthorization
unfolding apply_void_within
void_within input = do
  authorization_id ← lift (assert_id "authorization_id" input.authorization_id)
  a ← require_authorization authorization_id
  void_by_status a.status input a

-- `voidAuthorization`
unfoldable pub void_authorization : VoidInput → Money → Result PaymentAuthorization × Money
unfolding void_within
void_authorization input = with_transaction (void_within input)

-- The loop of `expireDueAuthorizations`: a transaction for each hold, up to the first that fails.
unfoldable pub expire_each :
    String → List PaymentAuthorization → Money → Result (List PaymentAuthorization) × Money
unfolding apply_void_within
expire_each correlation_id [] sys = (ok [], sys)
expire_each correlation_id (a ∷ rest) sys =
    let (answer, sys') = with_transaction (apply_void_within a "expired" correlation_id) sys in
    let (others, sys'') = expire_each correlation_id rest sys' in
    elim answer [
      | err e ↦ (err e, sys')
      | ok x ↦ elim others [ ok xs ↦ (ok (x ∷ xs), sys'') | err e ↦ (err e, sys'') ]
    ]

-- `expireDueAuthorizations`
unfoldable pub expire_due_authorizations :
    String → Money → Result (List PaymentAuthorization) × Money
unfolding expire_each
expire_due_authorizations correlation_id sys =
    expire_each correlation_id (filter (is_lapsed sys.now) (all_authorizations sys.store)) sys
