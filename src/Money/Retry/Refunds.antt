-- ===== src/Money/Retry/Refunds.antt =====
-- src/modules/money/service.ts: a refund that is retried, with the same key, after it succeeded.
use wasla_core.Base.{
  ℕ, ◌+◌, String, Option, none, some, Bool, true, false, ◌≡◌, inl, inr, refl, sym, ap, subst, ◌∙◌,
  arith, if◌then◌else◌,
}
use wasla_core.Base.Int.{ℤ}
use wasla_core.Base.Table.{IsKeyed, get-keyed, get, get-put_self}
use wasla_core.Platform.Errors.{Result-cases, Result, ok, err, invalid}
use wasla_core.Platform.Ids.{assert_id}
use wasla_core.Platform.Texts.{is_empty_text}
use wasla_core.Platform.UnitOfWork.{
  Staged, with_transaction, finish, commit, run_mutations, verify, append_all, nothing_staged,
  ◌>>=◌, ◌>>◌, lift, reads, pure, throw,
}
use wasla_core.Money.Domain.{
  PaymentAuthorization, LedgerTransaction, JsNumber, refund_kind, clearing_captured, wallet_account,
}
use wasla_core.Money.Holds.Refunds.{
  RefundInput, refund, refund_within, refund_new, refund_staged, refund_reference, refunded_row,
}
use wasla_core.Money.Holds.{require_authorization, unless_empty}
use wasla_core.Money.Retry.{bind-ok, lift-ok, posted-found}
use wasla_core.Money.Service.{Money, MoneyWork, or_existing, posting}
use wasla_core.Money.Store.{MoneyStore, MoneyScope, find_transaction_by_reference}
use wasla_core.Money.Store.Writes.{with_authorization, with_transaction_row}
use wasla_core.Money.Step.Commands.{transaction-ok}
use wasla_core.Money.Step.Holding.{update_and_post-ok}
use wasla_core.Money.Step.Leads.{
  Leads, begin, unless_refused-Leads, or_throw-Leads, lift-Leads, or_existing-Leads, bind-Leads,
  reads-Leads, require_wallet-Leads, require_authorization-Leads,
}

-- The store knows the transaction as the answer to this refund.
pub record Recorded (input : RefundInput) (t : LedgerTransaction) (s : MoneyStore) : Type 0 where
  pub authorization_id : ℕ
  pub authorization : PaymentAuthorization
  pub named : assert_id "authorization_id" input.authorization_id ≡ ok authorization_id
  pub has_reference : is_empty_text input.refund_reference ≡ false
  pub has_reason : is_empty_text input.reason ≡ false
  pub there : get authorization_id s.authorizations ≡ some authorization
  pub found :
      find_transaction_by_reference
        (refund_reference authorization.authorization_id input.refund_reference)
        s
      ≡ some t

unless_empty-ok :
    (s message : String) (sys : Money) (staged : Staged MoneyStore)
    → is_empty_text s ≡ false
    → unless_empty s message sys staged ≡ ok (tt, staged)
unless_empty-ok s message sys staged e = ground arith

unless_empty-Leads :
    {A : Type 0} (Q : A → Staged MoneyStore → Type 0) (sys : Money) (staged : Staged MoneyStore)
    (s message : String) (k : MoneyWork A)
    → (is_empty_text s ≡ false → Leads Q (k sys staged))
    → Leads Q ((unless_empty s message >> k) sys staged)
unfolding ◌>>=◌
unless_empty-Leads Q sys staged s message k h = by_test (is_empty_text s) h
  where
    by_test :
        (b : Bool)
        → (b ≡ false → Leads Q (k sys staged))
        → Leads Q (((if b then throw (invalid message) else pure tt) >> k) sys staged)
    by_test true h = tt
    by_test false h = h refl

Recorded-answer :
    (input : RefundInput) (t : LedgerTransaction) (sys : Money)
    → Recorded input t sys.store
    → refund_within input sys (nothing_staged sys) ≡ ok (t, nothing_staged sys)
unfolding refund_within or_existing
Recorded-answer input t sys r =
    bind-ok (lift (assert_id "authorization_id" input.authorization_id)) _ sys (nothing_staged sys)
      r.authorization_id
      (lift-ok (assert_id "authorization_id" input.authorization_id) r.authorization_id sys
        (nothing_staged sys) r.named)
    ∙ bind-ok (unless_empty input.refund_reference _) _ sys (nothing_staged sys) tt
        (unless_empty-ok input.refund_reference _ sys (nothing_staged sys) r.has_reference)
    ∙ bind-ok (unless_empty input.reason _) _ sys (nothing_staged sys) tt
        (unless_empty-ok input.reason _ sys (nothing_staged sys) r.has_reason)
    ∙ bind-ok (require_authorization r.authorization_id) _ sys (nothing_staged sys) r.authorization
        (ground (arith, r.there))
    ∙ bind-ok (reads _) _ sys (nothing_staged sys) _ refl
    ∙ ground (arith, r.found)

-- A refund that the store knows answers its transaction again, moves nothing and publishes nothing.
Recorded-refund :
    (input : RefundInput) (t : LedgerTransaction) (sys : Money)
    → Recorded input t sys.store
    → ((refund input sys).0 ≡ ok t)
      × ((refund input sys).1.store ≡ sys.store)
      × ((refund input sys).1.outbox ≡ sys.outbox)
unfolding refund with_transaction commit run_mutations verify append_all
Recorded-refund input t sys r = ground (arith, Recorded-answer input t sys r)

abbrev Leaves : RefundInput → Money → LedgerTransaction → Staged MoneyStore → Type 0
Leaves input sys t staged =
    (sc : MoneyScope)
    → run_mutations staged.mutations (begin sys) ≡ ok sc
    → Recorded input t sc.store

-- The input has what `refundWithin` asks for before it reads.
record Complete (input : RefundInput) (id : ℕ) : Type 0 where
  named : assert_id "authorization_id" input.authorization_id ≡ ok id
  has_reference : is_empty_text input.refund_reference ≡ false
  has_reason : is_empty_text input.reason ≡ false

written-Recorded :
    (input : RefundInput) (s : MoneyStore) (updated : PaymentAuthorization) (t : LedgerTransaction)
    → Complete input updated.authorization_id
    → t.business_reference ≡ refund_reference updated.authorization_id input.refund_reference
    → find_transaction_by_reference
        (refund_reference updated.authorization_id input.refund_reference)
        s
      ≡ none
    → get t.transaction_id s.ledger ≡ none
    → Recorded input t (with_transaction_row t (with_authorization updated s))
unfolding find_transaction_by_reference
written-Recorded input s updated t c reference none_yet free = record {
  authorization_id = updated.authorization_id;
  authorization = updated;
  named = c.named;
  has_reference = c.has_reference;
  has_reason = c.has_reason;
  there = get-put_self updated.authorization_id updated s.authorizations;
  found =
      posted-found (refund_reference updated.authorization_id input.refund_reference) t
        (with_authorization updated s) reference none_yet free;
}

module _ (sys : Money) (authorizations : IsKeyed (λ a. a.authorization_id) sys.store.authorizations)
    (free : get sys.next_id sys.store.ledger ≡ none) (input : RefundInput) where
  refund_staged-Leaves :
      (a : PaymentAuthorization) (wallet_id : ℕ) (amount : ℤ) (t : LedgerTransaction)
      → Recorded input t
          (with_transaction_row t (with_authorization (refunded_row amount a) sys.store))
      → Leads (Leaves input sys) (
          refund_staged input a wallet_id amount t sys
            (record (nothing_staged sys) { next_id = sys.next_id + 1 + 1 + 1 }))
  unfolding refund_staged ◌>>=◌ run_mutations
  refund_staged-Leaves a wallet_id amount t recorded sc e =
      subst (Recorded input t)
        (sym (update_and_post-ok (refunded_row amount a) t (begin sys) sc (ground arith)).1)
        recorded

  refund_new-Leaves :
      (a : PaymentAuthorization)
      → Complete input a.authorization_id
      → find_transaction_by_reference
          (refund_reference a.authorization_id input.refund_reference)
          sys.store
        ≡ none
      → Leads (Leaves input sys) (
          refund_new input a
            (refund_reference a.authorization_id input.refund_reference)
            sys
            (nothing_staged sys))
  unfolding refund_new refunded_row
  refund_new-Leaves a c none_yet =
      let n = sys.next_id in
      let reference = refund_reference a.authorization_id input.refund_reference in
      unless_refused-Leads (Leaves input sys) sys _ _ _ (λ open_.
        or_throw-Leads (Leaves input sys) sys _ _ _ _ (λ amount read.
          unless_refused-Leads (Leaves input sys) sys _ _ _ (λ within.
            require_wallet-Leads (Leaves input sys) sys _ _ _ (λ w found.
              let t =
                posting sys.now n (n + 1) (n + 1 + 1) refund_kind reference a.currency
                  (wallet_account w.wallet_id) clearing_captured amount (some a.authorization_id) in
              bind-Leads (Leaves input sys) sys _ _ t _ _
                (transaction-ok refund_kind reference a.currency (wallet_account w.wallet_id)
                  clearing_captured amount (some a.authorization_id) sys (nothing_staged sys))
                (refund_staged-Leaves a w.wallet_id amount t (
                  written-Recorded input sys.store (refunded_row amount a) t c refl none_yet
                    free))))))

  existing-Leaves :
      (a : PaymentAuthorization) (t : LedgerTransaction)
      → Complete input a.authorization_id
      → get a.authorization_id sys.store.authorizations ≡ some a
      → find_transaction_by_reference
          (refund_reference a.authorization_id input.refund_reference)
          sys.store
        ≡ some t
      → Leaves input sys t (nothing_staged sys)
  unfolding run_mutations
  existing-Leaves a t c there found sc e =
      subst (λ (x : MoneyScope). Recorded input t x.store) (begin_eq e)
        (record {
          authorization_id = a.authorization_id;
          authorization = a;
          named = c.named;
          has_reference = c.has_reference;
          has_reason = c.has_reason;
          there = there;
          found = found;
        })
    where
      begin_eq : ok (begin sys) ≡ ok sc → begin sys ≡ sc
      begin_eq e = cc

  refund_within-Leaves : Leads (Leaves input sys) (refund_within input sys (nothing_staged sys))
  unfolding refund_within
  refund_within-Leaves =
      lift-Leads (Leaves input sys) sys _ (assert_id "authorization_id" input.authorization_id) _
        (λ id named. unless_empty-Leads (Leaves input sys) sys _ _ _ _ (λ has_reference.
          unless_empty-Leads (Leaves input sys) sys _ _ _ _ (λ has_reason.
            require_authorization-Leads (Leaves input sys) sys _ _ _ (λ a there.
              let same =
                get-keyed (λ a. a.authorization_id) id a sys.store.authorizations authorizations
                  there in
              let c : Complete input a.authorization_id = record {
                named = named ∙ ap ok same;
                has_reference = has_reference;
                has_reason = has_reason;
              } in
              reads-Leads (Leaves input sys) sys _ _ _ (
                or_existing-Leads (Leaves input sys) sys _ _ _ _
                  (λ t found.
                    existing-Leaves a t c
                      (subst (λ k. get k sys.store.authorizations ≡ some a) same there) found)
                  (λ none_yet. refund_new-Leaves a c none_yet))))))

  commit-Leaves :
      (t t' : LedgerTransaction) (staged : Staged MoneyStore)
      → Leaves input sys t' staged
      → (commit t' staged sys).0 ≡ ok t
      → Recorded input t (commit t' staged sys).1.store
  unfolding commit
  commit-Leaves t t' staged h e = elim (Result-cases (run_mutations staged.mutations (begin sys))) [
    | inl (sc, done) ↦ ground (arith, h sc done, done)
    | inr (f, failed) ↦ ground (arith, failed)
  ]

  finish-Leaves :
      (t : LedgerTransaction) (r : Result (LedgerTransaction × Staged MoneyStore))
      → Leads (Leaves input sys) r
      → (finish r sys).0 ≡ ok t
      → Recorded input t (finish r sys).1.store
  finish-Leaves t (ok (t', staged)) h e = commit-Leaves t t' staged h e
  finish-Leaves t (err f) h e = cc

  refund-Recorded :
      (t : LedgerTransaction)
      → (refund input sys).0 ≡ ok t
      → Recorded input t (refund input sys).1.store
  unfolding refund with_transaction
  refund-Recorded t e =
      finish-Leaves t (refund_within input sys (nothing_staged sys)) refund_within-Leaves e

-- Where authorizations stand under their own identifiers and the next identifier is new, a refund that
-- succeeded and is sent again, with the same key and reason and whatever amount, answers the same
-- transaction, changes no row and appends no event.
pub refund_retry :
    (sys : Money) (input : RefundInput) (t : LedgerTransaction)
    → IsKeyed (λ a. a.authorization_id) sys.store.authorizations
    → get sys.next_id sys.store.ledger ≡ none
    → (refund input sys).0 ≡ ok t
    → (amount : Option JsNumber)
    → let sys' = (refund input sys).1 in
      let again = refund (record input { amount_minor = amount }) sys' in
      (again.0 ≡ ok t) × (again.1.store ≡ sys'.store) × (again.1.outbox ≡ sys'.outbox)
refund_retry sys input t authorizations free e amount =
    let r = refund-Recorded sys authorizations free input t e in
    Recorded-refund (record input { amount_minor = amount }) t (refund input sys).1
      (record {
        authorization_id = r.authorization_id;
        authorization = r.authorization;
        named = r.named;
        has_reference = r.has_reference;
        has_reason = r.has_reason;
        there = r.there;
        found = r.found;
      })
