-- ===== src/Money/Step/Holding.antt =====
-- src/modules/money/service.ts: a capture makes a step of `Step`, or leaves the store alone.
use wasla_core.Base.{
  ℕ, ◌+◌, String, Option, none, some, true, false, ◌≡◌, refl, sym, ap, subst, ◌∙◌, arith,
}
use wasla_core.Base.Int.{ℤ, ◌≤ℤ◌}
use wasla_core.Base.Table.{get, IsKeyed, get-keyed}
use wasla_core.Platform.Errors.{Result, ok, err}
use wasla_core.Platform.Ids.{assert_id}
use wasla_core.Platform.UnitOfWork.{nothing_staged, ◌>>=◌}
use wasla_core.Money.Domain.{
  Wallet, PaymentAuthorization, authorized, LedgerTransaction, is_authorized, wallet_account,
  clearing_captured, remaining_hold, capture_kind, AuthorizationStatus,
}
use wasla_core.Money.Store.{
  MoneyScope, authorization_refusal, insert_transaction, update_authorization,
}
use wasla_core.Money.Store.Writes.{
  with_authorization, with_transaction_row, update_authorization-ok, insert_transaction-ok,
}
use wasla_core.Money.Service.{Money, posting, is_expired}
use wasla_core.Money.Holds.Captures.{
  CaptureInput, capture_reference, capture_refusal, capture_amount_refusal, captured_row,
  capture_new, capture_staged, apply_capture_within, capture_within, capture,
}
use wasla_core.Money.Holds.{update_and_post, or_all}
use wasla_core.Money.Step.{of_capture, Step, captures}
use wasla_core.Money.Step.Commands.{positive_amount-positive, transaction-ok}
use wasla_core.Money.Step.Leads.{
  Leads, Makes, StepsTo, begin, still-Makes, one-Makes, unless_refused-Leads, or_throw-Leads,
  lift-Leads, or_existing-Leads, bind-Leads, reads-Leads, require_wallet-Leads,
  require_authorization-Leads, with_transaction-StepsTo, answer-Leads,
}

pub is_authorized-true :
    (status : AuthorizationStatus) → is_authorized status ≡ true → status ≡ authorized
is_authorized-true status h = ground arith

capture_refusal-none :
    (now : ℕ) (a : PaymentAuthorization)
    → capture_refusal now a ≡ none
    → (a.status ≡ authorized) × (is_expired now a ≡ false)
unfolding capture_refusal
capture_refusal-none now a h = ground (arith, is_authorized-true a.status)

capture_amount_refusal-none :
    (key : Option String) (requested remaining : ℤ)
    → capture_amount_refusal key requested remaining ≡ none
    → requested ≤ℤ remaining
unfolding capture_amount_refusal
capture_amount_refusal-none key requested remaining h = ground arith

pub update_and_post-ok :
    (a : PaymentAuthorization) (t : LedgerTransaction) (sc sc' : MoneyScope)
    → update_and_post a t sc ≡ ok sc'
    → (authorization_refusal a ≡ none)
      × (sc'.store ≡ with_transaction_row t (with_authorization a sc.store))
unfolding update_and_post
update_and_post-ok a t sc sc' h =
    by_update (update_authorization a sc) (update_authorization-ok a sc) h
  where
    by_update :
        (r : Result MoneyScope)
        → ((x : MoneyScope)
            → r ≡ ok x
            → (authorization_refusal a ≡ none) × (x.store ≡ with_authorization a sc.store))
        → (elim r [ ok x ↦ insert_transaction t x | err e ↦ err e ]) ≡ ok sc'
        → (authorization_refusal a ≡ none)
          × (sc'.store ≡ with_transaction_row t (with_authorization a sc.store))
    by_update (ok x) k h =
        ((k x refl).0, insert_transaction-ok t x sc' h ∙ ap (with_transaction_row t) (k x refl).1)
    by_update (err e) k h = cc

module _ (sys : Money) where
  capture_staged-Leads :
      (input : CaptureInput) (a : PaymentAuthorization) (wallet_id : ℕ) (amount : ℤ)
      (t : LedgerTransaction)
      → (authorization_refusal (captured_row sys.now amount a) ≡ none
          → Step
              (of_capture input)
              sys.now
              sys.next_id
              sys.store
              (sys.next_id + 1 + 1 + 1 + 1 + 1)
              (with_transaction_row t
                (with_authorization (captured_row sys.now amount a) sys.store)))
      → Leads (Makes (of_capture input) sys) (
          capture_staged input a wallet_id amount t sys
            (record (nothing_staged sys) { next_id = sys.next_id + 1 + 1 + 1 }))
  unfolding capture_staged ◌>>=◌
  capture_staged-Leads input a wallet_id amount t k =
      one-Makes (of_capture input) sys (t, captured_row sys.now amount a) _ (omega arith)
        (update_and_post (captured_row sys.now amount a) t) refl
        (λ sc e.
          let (shape, done) =
            update_and_post-ok (captured_row sys.now amount a) t (begin sys) sc e in
          subst
            (λ s.
              Step (of_capture input) sys.now sys.next_id sys.store
                (sys.next_id + 1 + 1 + 1 + 1 + 1) s)
            (sym done) (k shape))

module _ (sys : Money) (wallets : IsKeyed (λ w. w.wallet_id) sys.store.wallets)
    (authorizations : IsKeyed (λ a. a.authorization_id) sys.store.authorizations) where
  pub own_wallet : (k : ℕ) (w : Wallet) → get k sys.store.wallets ≡ some w → k ≡ w.wallet_id
  own_wallet k w e = get-keyed (λ w. w.wallet_id) k w sys.store.wallets wallets e

  pub own_authorization :
      (k : ℕ) (a : PaymentAuthorization)
      → get k sys.store.authorizations ≡ some a
      → k ≡ a.authorization_id
  own_authorization k a e =
      get-keyed (λ a. a.authorization_id) k a sys.store.authorizations authorizations e

  capture_new-Leads :
      (input : CaptureInput) (a : PaymentAuthorization) (k : ℕ)
      → assert_id "authorization_id" input.authorization_id ≡ ok k
      → get k sys.store.authorizations ≡ some a
      → Leads (Makes (of_capture input) sys) (
          capture_new input a
            (capture_reference a.authorization_id input.capture_reference)
            sys
            (nothing_staged sys))
  unfolding capture_new
  capture_new-Leads input a k asked here =
      let n = sys.next_id in
      let reference = capture_reference a.authorization_id input.capture_reference in
      reads-Leads (Makes (of_capture input) sys) sys _ _ _ (
        unless_refused-Leads (Makes (of_capture input) sys) sys _ _ _ (λ open_.
          or_throw-Leads (Makes (of_capture input) sys) sys _ _ _ _ (λ amount read.
            unless_refused-Leads (Makes (of_capture input) sys) sys _ _ _ (λ within.
              require_wallet-Leads (Makes (of_capture input) sys) sys _ _ _ (λ w found.
                bind-Leads (Makes (of_capture input) sys) sys _ _
                  (posting sys.now n (n + 1) (n + 1 + 1) capture_kind reference a.currency
                    clearing_captured (wallet_account w.wallet_id) amount (some a.authorization_id))
                  _ _
                  (transaction-ok capture_kind reference a.currency clearing_captured
                    (wallet_account w.wallet_id) amount (some a.authorization_id) sys
                    (nothing_staged sys))
                  (capture_staged-Leads sys input a w.wallet_id amount _ (λ shape.
                    subst
                      (λ owner.
                        Step (of_capture input) sys.now n sys.store (n + 1 + 1 + 1 + 1 + 1) (
                          with_transaction_row
                            (posting sys.now n (n + 1) (n + 1 + 1) capture_kind reference a.currency
                              clearing_captured (wallet_account owner) amount
                              (some a.authorization_id))
                            (with_authorization (captured_row sys.now amount a) sys.store)))
                      (own_wallet a.wallet_id w found)
                      (captures a k n (n + 1) (n + 1 + 1) reference amount (asked, read, refl) here
                        (own_authorization k a here) (capture_refusal-none sys.now a open_).0
                        (capture_refusal-none sys.now a open_).1 (omega arith) (omega arith)
                        (positive_amount-positive (or_all input.amount_minor (remaining_hold a))
                          amount read)
                        shape
                        (capture_amount_refusal-none input.capture_reference amount
                          (remaining_hold a) within)))))))))

  apply_capture_within-Leads :
      (input : CaptureInput)
      → Leads (Makes (of_capture input) sys) (apply_capture_within input sys (nothing_staged sys))
  unfolding apply_capture_within
  apply_capture_within-Leads input =
      lift-Leads (Makes (of_capture input) sys) sys _
        (assert_id "authorization_id" input.authorization_id) _
        (λ authorization_id asked.
          require_authorization-Leads (Makes (of_capture input) sys) sys _ _ _ (λ a here.
            reads-Leads (Makes (of_capture input) sys) sys _ _ _ (
              or_existing-Leads (Makes (of_capture input) sys) sys _ _ _ _
                (λ t found.
                  still-Makes (of_capture input) sys (t, a) (nothing_staged sys) (omega arith)
                    (authorization_id, a, t, asked, here, found) refl)
                (λ none_yet. capture_new-Leads input a authorization_id asked here))))

  -- Where wallets and authorizations stand under their own identifiers, a capture with any input throws and leaves
  -- everything as it was, or its reference was posted before and the stored money stays, or it is a step on the
  -- input's hold, which is stored, open and unexpired: the amount asked for, or else all that remains, which is
  -- positive and at most what remains, is added to the hold's captured total, closes the hold where it makes
  -- the whole, and is posted once, with the reference asked for, off the hold's wallet.
  pub capture-StepsTo : (input : CaptureInput) → StepsTo (of_capture input) sys (capture input sys)
  unfolding capture capture_within
  capture-StepsTo input = with_transaction-StepsTo (of_capture input) (capture_within input) sys (
      answer-Leads (of_capture input) (apply_capture_within input) (λ both. both.0) sys
        (nothing_staged sys) (apply_capture_within-Leads input))
