-- ===== src/Money/Step/Returning.antt =====
-- src/modules/money/service.ts: refunds and voids make a step of `Step`, or leave the store alone.
use wasla_core.Base.{
  ℕ, ◌+◌, String, none, some, Bool, true, false, ◌≡◌, refl, sym, ap, subst, arith, if◌then◌else◌,
}
use wasla_core.Base.Int.{ℤ, ◌≤ℤ◌}
use wasla_core.Base.Table.{get, IsKeyed}
use wasla_core.Platform.Errors.{ok, invalid}
use wasla_core.Platform.Ids.{assert_id}
use wasla_core.Platform.Texts.{is_empty_text}
use wasla_core.Platform.UnitOfWork.{Staged, nothing_staged, ◌>>=◌, ◌>>◌, throw, pure}
use wasla_core.Money.Domain.{
  PaymentAuthorization, is_authorized, authorized, captured, partially_captured, voided,
  LedgerTransaction, wallet_account, clearing_captured, refundable_amount, refund_kind,
  AuthorizationStatus,
}
use wasla_core.Money.Store.{MoneyStore, authorization_refusal, update_authorization}
use wasla_core.Money.Store.Writes.{
  with_authorization, with_transaction_row, update_authorization-ok,
}
use wasla_core.Money.Service.{Money, MoneyWork, posting}
use wasla_core.Money.Holds.{update_and_post, or_all, unless_empty}
use wasla_core.Money.Holds.Refunds.{
  refund_staged, RefundInput, refund_reference, refund_amount_refusal, refunded_row, refund_new,
  refund_within, refund,
}
use wasla_core.Money.Holds.Voids.{
  closed_row, apply_void_within, VoidInput, void_by_status, void_within, void_authorization,
}
use wasla_core.Money.Step.{Ask, AsksRelease, of_refund, of_void, Step, refunds, releases}
use wasla_core.Money.Step.Commands.{positive_amount-positive, transaction-ok}
use wasla_core.Money.Step.Leads.{
  Leads, Makes, StepsTo, begin, still-Makes, one-Makes, unless_refused-Leads, or_throw-Leads,
  lift-Leads, or_existing-Leads, bind-Leads, reads-Leads, require_wallet-Leads,
  require_authorization-Leads, with_transaction-StepsTo,
}
use wasla_core.Money.Step.Holding.{update_and_post-ok, own_wallet, own_authorization}

refund_amount_refusal-none :
    (requested refundable : ℤ)
    → refund_amount_refusal requested refundable ≡ none
    → requested ≤ℤ refundable
refund_amount_refusal-none requested refundable h = ground arith

pub unless_empty-Leads :
    {A : Type 0} (Q : A → Staged MoneyStore → Type 0) (sys : Money) (staged : Staged MoneyStore)
    (text message : String) (k : MoneyWork A)
    → Leads Q (k sys staged)
    → Leads Q ((unless_empty text message >> k) sys staged)
unfolding ◌>>=◌
unless_empty-Leads Q sys staged text message k h = by_test (is_empty_text text)
  where
    by_test :
        (b : Bool) → Leads Q (((if b then throw (invalid message) else pure tt) >> k) sys staged)
    by_test true = tt
    by_test false = h

module _ (sys : Money) where
  refund_staged-Leads :
      (input : RefundInput) (a : PaymentAuthorization) (wallet_id : ℕ) (amount : ℤ)
      (t : LedgerTransaction)
      → (authorization_refusal (refunded_row amount a) ≡ none
          → Step
              (of_refund input)
              sys.now
              sys.next_id
              sys.store
              (sys.next_id + 1 + 1 + 1 + 1 + 1)
              (with_transaction_row t (with_authorization (refunded_row amount a) sys.store)))
      → Leads (Makes (of_refund input) sys) (
          refund_staged input a wallet_id amount t sys
            (record (nothing_staged sys) { next_id = sys.next_id + 1 + 1 + 1 }))
  unfolding refund_staged ◌>>=◌
  refund_staged-Leads input a wallet_id amount t k =
      one-Makes (of_refund input) sys t _ (omega arith) (update_and_post (refunded_row amount a) t)
        refl
        (λ sc e.
          let (shape, done) = update_and_post-ok (refunded_row amount a) t (begin sys) sc e in
          subst
            (λ s.
              Step (of_refund input) sys.now sys.next_id sys.store (sys.next_id + 1 + 1 + 1 + 1 + 1)
                s)
            (sym done) (k shape))

module _ (sys : Money) (wallets : IsKeyed (λ w. w.wallet_id) sys.store.wallets)
    (authorizations : IsKeyed (λ a. a.authorization_id) sys.store.authorizations) where
  refund_new-Leads :
      (input : RefundInput) (a : PaymentAuthorization) (k : ℕ)
      → assert_id "authorization_id" input.authorization_id ≡ ok k
      → get k sys.store.authorizations ≡ some a
      → Leads (Makes (of_refund input) sys) (
          refund_new input a
            (refund_reference a.authorization_id input.refund_reference)
            sys
            (nothing_staged sys))
  unfolding refund_new
  refund_new-Leads input a k asked here =
      let n = sys.next_id in
      let reference = refund_reference a.authorization_id input.refund_reference in
      unless_refused-Leads (Makes (of_refund input) sys) sys _ _ _ (λ open_.
        or_throw-Leads (Makes (of_refund input) sys) sys _ _ _ _ (λ amount read.
          unless_refused-Leads (Makes (of_refund input) sys) sys _ _ _ (λ within.
            require_wallet-Leads (Makes (of_refund input) sys) sys _ _ _ (λ w found.
              bind-Leads (Makes (of_refund input) sys) sys _ _
                (posting sys.now n (n + 1) (n + 1 + 1) refund_kind reference a.currency
                  (wallet_account w.wallet_id) clearing_captured amount (some a.authorization_id))
                _ _
                (transaction-ok refund_kind reference a.currency (wallet_account w.wallet_id)
                  clearing_captured amount (some a.authorization_id) sys (nothing_staged sys))
                (refund_staged-Leads sys input a w.wallet_id amount _ (λ shape.
                  subst
                    (λ owner. Step (of_refund input) sys.now n sys.store (n + 1 + 1 + 1 + 1 + 1) (
                      with_transaction_row
                        (posting sys.now n (n + 1) (n + 1 + 1) refund_kind reference a.currency
                          (wallet_account owner) clearing_captured amount (some a.authorization_id))
                        (with_authorization (refunded_row amount a) sys.store)))
                    (own_wallet sys wallets authorizations a.wallet_id w found)
                    (refunds a k n (n + 1) (n + 1 + 1) reference amount (asked, read, refl) here
                      (own_authorization sys wallets authorizations k a here) (omega arith)
                      (omega arith)
                      (positive_amount-positive (or_all input.amount_minor (refundable_amount a))
                        amount read)
                      shape (refund_amount_refusal-none amount (refundable_amount a) within))))))))

  refund_within-Leads :
      (input : RefundInput)
      → Leads (Makes (of_refund input) sys) (refund_within input sys (nothing_staged sys))
  unfolding refund_within
  refund_within-Leads input =
      lift-Leads (Makes (of_refund input) sys) sys _
        (assert_id "authorization_id" input.authorization_id) _
        (λ authorization_id asked. unless_empty-Leads (Makes (of_refund input) sys) sys _ _ _ _ (
          unless_empty-Leads (Makes (of_refund input) sys) sys _ _ _ _ (
            require_authorization-Leads (Makes (of_refund input) sys) sys _ _ _ (λ a here.
              reads-Leads (Makes (of_refund input) sys) sys _ _ _ (
                or_existing-Leads (Makes (of_refund input) sys) sys _ _ _ _
                  (λ t found.
                    still-Makes (of_refund input) sys t (nothing_staged sys) (omega arith)
                      (authorization_id, a, t, asked, here, found) refl)
                  (λ none_yet. refund_new-Leads input a authorization_id asked here))))))

  -- Where wallets and authorizations stand under their own identifiers, a refund with any input throws and leaves
  -- everything as it was, or its reference was posted before and the stored money stays, or it is a step on the
  -- input's hold, which is stored: the amount asked for, or else all that is refundable, which is positive and
  -- at most what is refundable, is added to the hold's refunded total and posted once, with the reference
  -- asked for, onto the hold's wallet.
  pub refund-StepsTo : (input : RefundInput) → StepsTo (of_refund input) sys (refund input sys)
  unfolding refund
  refund-StepsTo input =
      with_transaction-StepsTo (of_refund input) (refund_within input) sys
        (refund_within-Leads input)

  -- A hold that is stored and open is closed.
  pub apply_void_within-Leads :
      (ask : Ask) (a : PaymentAuthorization) (k : ℕ) (reason correlation_id : String)
      → AsksRelease ask k reason
      → get k sys.store.authorizations ≡ some a
      → a.status ≡ authorized
      → Leads (Makes ask sys) (apply_void_within a reason correlation_id sys (nothing_staged sys))
  unfolding apply_void_within ◌>>=◌
  apply_void_within-Leads ask a k reason correlation_id asked here open_ =
      let updated = closed_row sys.now reason a in
      one-Makes ask sys updated _ (omega arith) (update_authorization updated) refl (λ sc e.
        let (shape, done) = update_authorization-ok updated (begin sys) sc e in
        subst (λ s. Step ask sys.now sys.next_id sys.store (sys.next_id + 1 + 1) s) (sym done)
          (releases a k reason asked here (own_authorization sys wallets authorizations k a here)
            open_ shape (omega arith)))

  void_by_status-Leads :
      (status : AuthorizationStatus) (input : VoidInput) (a : PaymentAuthorization) (k : ℕ)
      → assert_id "authorization_id" input.authorization_id ≡ ok k
      → a.status ≡ status
      → get k sys.store.authorizations ≡ some a
      → Leads (Makes (of_void input) sys) (void_by_status status input a sys (nothing_staged sys))
  void_by_status-Leads authorized input a k asked e here =
      unless_empty-Leads (Makes (of_void input) sys) sys _ _ _ _
        (apply_void_within-Leads (of_void input) a k _ _ (asked, refl) here e)
  void_by_status-Leads captured input a k asked e here = tt
  void_by_status-Leads partially_captured input a k asked e here =
      still-Makes (of_void input) sys a (nothing_staged sys) (omega arith)
        (k, a, asked, here, ap is_authorized e) refl
  void_by_status-Leads voided input a k asked e here =
      still-Makes (of_void input) sys a (nothing_staged sys) (omega arith)
        (k, a, asked, here, ap is_authorized e) refl

  -- Where wallets and authorizations stand under their own identifiers, a void with any input throws and leaves
  -- everything as it was, or the input's hold is stored but not open and the stored money stays, or it is a
  -- step on the input's open hold: the hold is closed for the input's reason, as partially captured where
  -- some of it was captured and as voided otherwise, and nothing is posted.
  pub void_authorization-StepsTo :
      (input : VoidInput) → StepsTo (of_void input) sys (void_authorization input sys)
  unfolding void_authorization void_within
  void_authorization-StepsTo input =
      with_transaction-StepsTo (of_void input) (void_within input) sys (
        lift-Leads (Makes (of_void input) sys) sys _
          (assert_id "authorization_id" input.authorization_id) _
          (λ authorization_id asked.
            require_authorization-Leads (Makes (of_void input) sys) sys _ _ _
              (λ a here. void_by_status-Leads a.status input a authorization_id asked refl here)))
