-- ===== src/Money/Step/Placing.antt =====
-- src/modules/money/service.ts: an authorization makes a step of `Step`, or leaves the store alone.
use wasla_core.Base.{ℕ, ◌+◌, none, some, true, ◌≡◌, refl, sym, subst, arith}
use wasla_core.Base.Int.{ℤ, ◌≤ℤ◌}
use wasla_core.Base.Table.{get}
use wasla_core.Platform.Errors.{ok}
use wasla_core.Platform.Ids.{assert_id}
use wasla_core.Platform.UnitOfWork.{nothing_staged, ◌>>=◌}
use wasla_core.Money.Domain.{Wallet, WalletStatus, active, positive_amount, PaymentAuthorization}
use wasla_core.Money.Store.{MoneyStore, authorization_refusal, insert_authorization}
use wasla_core.Money.Store.Writes.{with_authorization, insert_authorization-ok}
use wasla_core.Money.Service.{Money, balance_of_wallet}
use wasla_core.Money.Service.Authorizing.{
  AuthorizeInput, authorize, authorize_work, authorize_new, authorize_staged, authorize_refusal,
  new_authorization, expiry, is_active,
}
use wasla_core.Money.Step.{of_authorize, Step, authorizes}
use wasla_core.Money.Step.Commands.{positive_amount-positive}
use wasla_core.Money.Step.Leads.{
  Leads, Makes, StepsTo, begin, still-Makes, one-Makes, unless_refused-Leads, or_throw-Leads,
  lift-Leads, or_existing-Leads, bind-Leads, reads-Leads, require_wallet-Leads,
  with_transaction-StepsTo,
}

is_active-true : (status : WalletStatus) → is_active status ≡ true → status ≡ active
is_active-true status h = ground arith

authorize_refusal-none :
    (now : ℕ) (w : Wallet) (amount : ℤ) (s : MoneyStore)
    → authorize_refusal now w amount s ≡ none
    → (w.status ≡ active) × (amount ≤ℤ (balance_of_wallet now w.wallet_id s).available_minor)
authorize_refusal-none now w amount s h = ground (arith, is_active-true w.status)

module _ (sys : Money) where
  authorize_staged-Leads :
      (input : AuthorizeInput) (a : PaymentAuthorization)
      → (authorization_refusal a ≡ none
          → Step
              (of_authorize input)
              sys.now
              sys.next_id
              sys.store
              (sys.next_id + 1 + 1 + 1)
              (with_authorization a sys.store))
      → Leads
          (Makes (of_authorize input) sys)
          (authorize_staged input a sys (record (nothing_staged sys) { next_id = sys.next_id + 1 }))
  unfolding authorize_staged ◌>>=◌
  authorize_staged-Leads input a k =
      one-Makes (of_authorize input) sys a _ (omega arith) (insert_authorization a) refl (λ sc e.
        let (shape, done) = insert_authorization-ok a (begin sys) sc e in
        subst
          (λ s. Step (of_authorize input) sys.now sys.next_id sys.store (sys.next_id + 1 + 1 + 1) s)
          (sym done) (k shape))

  authorize_new-Leads :
      (input : AuthorizeInput) (w : Wallet) (k : ℕ) (amount : ℤ)
      → assert_id "wallet_id" input.wallet_id ≡ ok k
      → get k sys.store.wallets ≡ some w
      → positive_amount input.amount_minor ≡ some amount
      → Leads
          (Makes (of_authorize input) sys)
          (authorize_new input w amount sys (nothing_staged sys))
  unfolding authorize_new
  authorize_new-Leads input w k amount asked here read =
      reads-Leads (Makes (of_authorize input) sys) sys _ _ _ (
        reads-Leads (Makes (of_authorize input) sys) sys _ _ _ (
          unless_refused-Leads (Makes (of_authorize input) sys) sys _ _ _ (λ open_.
            bind-Leads (Makes (of_authorize input) sys) sys _ _ sys.next_id _ _ refl (
              lift-Leads (Makes (of_authorize input) sys) sys _ (expiry sys.now input.expires_at) _
                (λ expires_at until.
                  authorize_staged-Leads input
                    (new_authorization sys.next_id sys.now w amount input.business_reference
                      expires_at)
                    (λ shape.
                      authorizes w k sys.next_id amount input.business_reference expires_at
                        (asked, read, refl, until) here
                        (authorize_refusal-none sys.now w amount sys.store open_).0 (omega arith)
                        (omega arith) (positive_amount-positive input.amount_minor amount read)
                        shape (authorize_refusal-none sys.now w amount sys.store open_).1))))))

  -- An authorization, with any input, throws and leaves everything as it was, or its reference was authorized
  -- before and the stored money stays, or it writes one row under a fresh identifier that the store
  -- accepts: an open hold with the input's reference and expiry, of the input's amount, which is positive and
  -- available of the input's wallet, which is stored and active.
  pub authorize-StepsTo :
      (input : AuthorizeInput) → StepsTo (of_authorize input) sys (authorize input sys)
  unfolding authorize authorize_work
  authorize-StepsTo input =
      with_transaction-StepsTo (of_authorize input) (authorize_work input) sys (
        lift-Leads (Makes (of_authorize input) sys) sys _ (assert_id "wallet_id" input.wallet_id) _
          (λ wallet_id asked.
            require_wallet-Leads (Makes (of_authorize input) sys) sys _ _ _ (λ w here.
              or_throw-Leads (Makes (of_authorize input) sys) sys _ _ _ _ (λ amount read.
                reads-Leads (Makes (of_authorize input) sys) sys _ _ _ (
                  or_existing-Leads (Makes (of_authorize input) sys) sys _ _ _ _
                    (λ a found.
                      still-Makes (of_authorize input) sys a (nothing_staged sys) (omega arith)
                        (a, found) refl)
                    (λ none_yet. authorize_new-Leads input w wallet_id amount asked here read))))))
