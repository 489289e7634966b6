-- ===== src/Fulfillment/Moves/MoneyPort.antt =====
-- src/modules/money/service.ts: a capture and a void, as fulfillment asks for them, emit events of the money
-- module only.
use wasla_core.Base.{ℕ, ◌+◌, ◌≤◌, String, none, some, refl, subst, arith}
use wasla_core.Base.Int.{ℤ}
use wasla_core.Fulfillment.Moves.Settling.{Discreet, IsDiscreet, blank}
use wasla_core.Fulfillment.Payments.{money_port}
use wasla_core.Fulfillment.Turn.{Quiets}
use wasla_core.Money.Domain.{
  PaymentAuthorization, AuthorizationStatus, authorized, captured, partially_captured, voided,
  LedgerTransaction, capture_kind, clearing_captured, wallet_account,
}
use wasla_core.Money.Holds.Captures.{
  CaptureInput, capture_staged, capture_new, apply_capture_within, capture_hold_within,
}
use wasla_core.Money.Holds.Voids.{VoidInput, apply_void_within, void_by_status, void_within}
use wasla_core.Money.Service.{Money, MoneyWork}
use wasla_core.Money.Step.Leads.{
  Leads, lift-Leads, reads-Leads, require_wallet-Leads, require_authorization-Leads,
  or_existing-Leads, or_throw-Leads, unless_refused-Leads, bind-Leads,
}
use wasla_core.Money.Step.Commands.{transaction-ok}
use wasla_core.Money.Step.Returning.{unless_empty-Leads}
use wasla_core.Money.Store.{MoneyStore}
use wasla_core.Platform.Errors.{ok, err, Result}
use wasla_core.Platform.Ids.{assert_id, uuid}
use wasla_core.Platform.UnitOfWork.{Staged, ◌>>=◌}

-- No closure of a fulfillment is staged.
Silent : {A : Type 0} → ℕ → A → Staged MoneyStore → Type 0
Silent n a more = (n ≤ more.next_id) × Quiets more.next_id more.events

silent-Discreet :
    {A : Type 0} (m : MoneyWork A)
    → ((sys : Money) (n : ℕ) → Leads (Silent n) (m sys (blank n)))
    → Discreet m
unfolding Silent
silent-Discreet m h sys n a more e = subst (Leads (Silent n)) e (h sys n)

module _ (sys : Money) (n : ℕ) where
  capture_staged-Silent :
      (input : CaptureInput) (a : PaymentAuthorization) (wallet_id : ℕ) (amount : ℤ)
      (t : LedgerTransaction)
      → Leads (Silent n) (capture_staged input a wallet_id amount t sys (blank (n + 1 + 1 + 1)))
  unfolding Silent capture_staged ◌>>=◌
  capture_staged-Silent input a wallet_id amount t = (omega arith, ((refl, omega arith), tt))

  capture_new-Silent :
      (input : CaptureInput) (a : PaymentAuthorization) (reference : String)
      → Leads (Silent n) (capture_new input a reference sys (blank n))
  unfolding capture_new
  capture_new-Silent input a reference =
      let Q = Silent {A = LedgerTransaction × PaymentAuthorization} n in
      reads-Leads Q sys _ _ _ (
        unless_refused-Leads Q sys _ _ _ (λ open_. or_throw-Leads Q sys _ _ _ _ (λ amount read.
          unless_refused-Leads Q sys _ _ _ (λ within. require_wallet-Leads Q sys _ _ _ (λ w found.
            bind-Leads Q sys _ _ _ _ _
              (transaction-ok capture_kind reference a.currency clearing_captured
                (wallet_account w.wallet_id) amount (some a.authorization_id) sys (blank n))
              (capture_staged-Silent input a w.wallet_id amount _))))))

  apply_capture_within-Silent :
      (input : CaptureInput) → Leads (Silent n) (apply_capture_within input sys (blank n))
  unfolding apply_capture_within Silent
  apply_capture_within-Silent input =
      lift-Leads (Silent n) sys _ (assert_id "authorization_id" input.authorization_id) _
        (λ authorization_id e. require_authorization-Leads (Silent n) sys _ _ _ (λ a e.
          reads-Leads (Silent n) sys _ _ _ (
            or_existing-Leads (Silent n) sys _ _ _ _ (λ t e. (omega arith, tt))
              (λ none_yet. capture_new-Silent input a _))))

  capture_hold_within-Silent :
      (input : CaptureInput) → Leads (Silent n) (capture_hold_within input sys (blank n))
  unfolding capture_hold_within ◌>>=◌ Silent
  capture_hold_within-Silent input =
      by_result (apply_capture_within input sys (blank n)) (apply_capture_within-Silent input)
    where
      by_result :
          (r : Result ((LedgerTransaction × PaymentAuthorization) × Staged MoneyStore))
          → Leads (Silent n) r
          → Leads (Silent n) (elim r as (λ _. Result (PaymentAuthorization × Staged MoneyStore)) [
            | ok (both, s) ↦ ok (both.1, s)
            | err e ↦ err e
          ])
      by_result (ok (both, s)) h = h
      by_result (err e) h = tt

  apply_void_within-Silent :
      (a : PaymentAuthorization) (reason correlation_id : String)
      → Leads (Silent n) (apply_void_within a reason correlation_id sys (blank n))
  unfolding Silent apply_void_within ◌>>=◌
  apply_void_within-Silent a reason correlation_id = (omega arith, ((refl, omega arith), tt))

  void_by_status-Silent :
      (status : AuthorizationStatus) (input : VoidInput) (a : PaymentAuthorization)
      → Leads (Silent n) (void_by_status status input a sys (blank n))
  unfolding Silent
  void_by_status-Silent authorized input a =
      unless_empty-Leads (Silent n) sys _ _ _ _ (apply_void_within-Silent a _ _)
  void_by_status-Silent captured input a = tt
  void_by_status-Silent partially_captured input a = (omega arith, tt)
  void_by_status-Silent voided input a = (omega arith, tt)

  void_within-Silent : (input : VoidInput) → Leads (Silent n) (void_within input sys (blank n))
  unfolding void_within
  void_within-Silent input =
      lift-Leads (Silent n) sys _ (assert_id "authorization_id" input.authorization_id) _
        (λ authorization_id e.
          require_authorization-Leads (Silent n) sys _ _ _
            (λ a e. void_by_status-Silent a.status input a))

pub money_port-IsDiscreet : IsDiscreet money_port
unfolding money_port
money_port-IsDiscreet = record {
  capture = λ hold correlation_id.
      silent-Discreet (money_port.capture_hold_within hold correlation_id) (λ sys n.
        capture_hold_within-Silent sys n (record {
          authorization_id = uuid hold;
          amount_minor = none;
          capture_reference = none;
          correlation_id = correlation_id;
        }));
  void = λ hold reason correlation_id.
      silent-Discreet (money_port.void_within hold reason correlation_id) (λ sys n.
        void_within-Silent sys n (record {
          authorization_id = uuid hold;
          reason = reason;
          correlation_id = correlation_id;
        }));
}
