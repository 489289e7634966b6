-- ===== src/Money/Retry.antt =====
-- src/modules/money/service.ts: a capture that is retried, with the same key, after it succeeded; the
-- module Refunds is about refunds.
pub mod Refunds
use text.Mathlib.Text.{◌==◌ as str_eq}
use text.Mathlib.TextPositions.{eq_refl}
use wasla_core.Base.{
  ℕ, ◌+◌, String, Option, none, some, Bool, true, ◌≡◌, inl, inr, refl, sym, ap, subst, ◌∙◌, List,
  [], ◌∷◌, ◌++◌, arith,
}
use wasla_core.Base.Int.{ℤ}
use wasla_core.Base.Table.{IsKeyed, get-keyed, get, values, values-put_new, get-put_self}
use wasla_core.Platform.Errors.{Result-cases, Result, ok, err}
use wasla_core.Platform.Ids.{assert_id}
use wasla_core.Platform.UnitOfWork.{
  Staged, with_transaction, finish, commit, run_mutations, verify, append_all, nothing_staged,
  ◌>>=◌, lift, reads,
}
use wasla_core.Money.Domain.{
  PaymentAuthorization, LedgerTransaction, JsNumber, capture_kind, clearing_captured,
  wallet_account,
}
use wasla_core.Money.Holds.Captures.{
  CaptureInput, capture, capture_within, apply_capture_within, capture_new, capture_staged,
  capture_reference, captured_row,
}
use wasla_core.Money.Holds.{require_authorization}
use wasla_core.Money.Service.{Money, MoneyWork, or_existing, posting}
use wasla_core.Money.Store.{MoneyStore, MoneyScope, find, find_transaction_by_reference}
use wasla_core.Money.Store.Writes.{with_authorization, with_transaction_row}
use wasla_core.Money.Step.Commands.{transaction-ok}
use wasla_core.Money.Step.Holding.{update_and_post-ok}
use wasla_core.Money.Step.Leads.{
  Leads, begin, unless_refused-Leads, or_throw-Leads, lift-Leads, or_existing-Leads, bind-Leads,
  reads-Leads, require_wallet-Leads, require_authorization-Leads,
}

-- The store knows the transaction as the answer to this capture.
pub record Recorded (input : CaptureInput) (t : LedgerTransaction) (s : MoneyStore) : Type 0 where
  pub authorization_id : ℕ
  pub authorization : PaymentAuthorization
  pub named : assert_id "authorization_id" input.authorization_id ≡ ok authorization_id
  pub there : get authorization_id s.authorizations ≡ some authorization
  pub found :
      find_transaction_by_reference
        (capture_reference authorization.authorization_id input.capture_reference)
        s
      ≡ some t

pub bind-ok :
    {A B : Type 0} (m : MoneyWork B) (k : B → MoneyWork A) (sys : Money)
    (staged : Staged MoneyStore) (b : B)
    → m sys staged ≡ ok (b, staged)
    → (m >>= k) sys staged ≡ k b sys staged
unfolding ◌>>=◌
bind-ok m k sys staged b e = ap (λ r. elim r [ ok (b, s) ↦ k b sys s | err f ↦ err f ]) e

pub lift-ok :
    {B : Type 0} (r : Result B) (b : B) (sys : Money) (staged : Staged MoneyStore)
    → r ≡ ok b
    → lift r sys staged ≡ ok (b, staged)
lift-ok r b sys staged e = ap (λ r. lift r sys staged) e

Recorded-answer :
    (input : CaptureInput) (t : LedgerTransaction) (sys : Money) (r : Recorded input t sys.store)
    → apply_capture_within input sys (nothing_staged sys)
      ≡ ok ((t, r.authorization), nothing_staged sys)
unfolding apply_capture_within or_existing
Recorded-answer input t sys r =
    bind-ok (lift (assert_id "authorization_id" input.authorization_id)) _ sys (nothing_staged sys)
      r.authorization_id
      (lift-ok (assert_id "authorization_id" input.authorization_id) r.authorization_id sys
        (nothing_staged sys) r.named)
    ∙ bind-ok (require_authorization r.authorization_id) _ sys (nothing_staged sys) r.authorization
        (ground (arith, r.there))
    ∙ bind-ok (reads _) _ sys (nothing_staged sys) _ refl
    ∙ ground (arith, r.found)

-- A capture that the store knows answers its transaction again, moves nothing and publishes nothing.
Recorded-capture :
    (input : CaptureInput) (t : LedgerTransaction) (sys : Money)
    → Recorded input t sys.store
    → ((capture input sys).0 ≡ ok t)
      × ((capture input sys).1.store ≡ sys.store)
      × ((capture input sys).1.outbox ≡ sys.outbox)
unfolding capture capture_within with_transaction commit run_mutations verify append_all ◌>>=◌
Recorded-capture input t sys r = ground (arith, Recorded-answer input t sys r)

pub find-append {ℓ} :
    {A : Type ℓ} (p : A → Bool) (ts : List A) (t : A)
    → find p ts ≡ none
    → p t ≡ true
    → find p (ts ++ t ∷ []) ≡ some t
find-append p [] t h e = ground arith
find-append p (x ∷ ts) t h e = ground (arith, find-append p ts t)

abbrev Leaves : CaptureInput → Money → LedgerTransaction → Staged MoneyStore → Type 0
Leaves input sys t staged =
    (sc : MoneyScope)
    → run_mutations staged.mutations (begin sys) ≡ ok sc
    → Recorded input t sc.store

abbrev LeavesBoth :
    CaptureInput → Money → LedgerTransaction × PaymentAuthorization → Staged MoneyStore → Type 0
LeavesBoth input sys both = Leaves input sys both.0

-- What a new capture writes is found again.
pub posted-found :
    (r : String) (t : LedgerTransaction) (s : MoneyStore)
    → t.business_reference ≡ r
    → find_transaction_by_reference r s ≡ none
    → get t.transaction_id s.ledger ≡ none
    → find_transaction_by_reference r (with_transaction_row t s) ≡ some t
unfolding find_transaction_by_reference
posted-found r t s same none_yet free =
    let p : LedgerTransaction → Bool = λ x. str_eq x.business_reference r in
    ap (find p) (values-put_new t.transaction_id t s.ledger free)
    ∙ find-append p (values s.ledger) t none_yet
        (subst (λ x. str_eq t.business_reference x ≡ true) same (eq_refl t.business_reference))

written-Recorded :
    (input : CaptureInput) (s : MoneyStore) (id : ℕ) (updated : PaymentAuthorization)
    (t : LedgerTransaction)
    → assert_id "authorization_id" input.authorization_id ≡ ok id
    → updated.authorization_id ≡ id
    → t.business_reference ≡ capture_reference id input.capture_reference
    → find_transaction_by_reference (capture_reference id input.capture_reference) s ≡ none
    → get t.transaction_id s.ledger ≡ none
    → Recorded input t (with_transaction_row t (with_authorization updated s))
unfolding find_transaction_by_reference
written-Recorded input s id updated t named same reference none_yet free = record {
  authorization_id = id;
  authorization = updated;
  named = named;
  there = rw (sym same) (get-put_self updated.authorization_id updated s.authorizations);
  found =
      subst
        (λ k.
          find_transaction_by_reference (capture_reference k input.capture_reference)
            (with_transaction_row t (with_authorization updated s))
          ≡ some t)
        (sym same)
        (posted-found (capture_reference id input.capture_reference) t
          (with_authorization updated s) reference none_yet free);
}

module _ (sys : Money) (authorizations : IsKeyed (λ a. a.authorization_id) sys.store.authorizations)
    (free : get sys.next_id sys.store.ledger ≡ none) (input : CaptureInput) where
  capture_staged-Leaves :
      (a : PaymentAuthorization) (wallet_id : ℕ) (amount : ℤ) (t : LedgerTransaction)
      → Recorded input t
          (with_transaction_row t (with_authorization (captured_row sys.now amount a) sys.store))
      → Leads (LeavesBoth input sys) (
          capture_staged input a wallet_id amount t sys
            (record (nothing_staged sys) { next_id = sys.next_id + 1 + 1 + 1 }))
  unfolding capture_staged ◌>>=◌ run_mutations
  capture_staged-Leaves a wallet_id amount t recorded sc e =
      subst (Recorded input t)
        (sym (update_and_post-ok (captured_row sys.now amount a) t (begin sys) sc (ground arith)).1)
        recorded

  capture_new-Leaves :
      (id : ℕ) (a : PaymentAuthorization)
      → assert_id "authorization_id" input.authorization_id ≡ ok id
      → get id sys.store.authorizations ≡ some a
      → find_transaction_by_reference
          (capture_reference a.authorization_id input.capture_reference)
          sys.store
        ≡ none
      → Leads (LeavesBoth input sys) (
          capture_new input a
            (capture_reference a.authorization_id input.capture_reference)
            sys
            (nothing_staged sys))
  unfolding capture_new
  capture_new-Leaves id a named there none_yet =
      let n = sys.next_id in
      let reference = capture_reference a.authorization_id input.capture_reference in
      let same =
        get-keyed (λ a. a.authorization_id) id a sys.store.authorizations authorizations there in
      reads-Leads (LeavesBoth input sys) sys _ _ _ (
        unless_refused-Leads (LeavesBoth input sys) sys _ _ _ (λ open_.
          or_throw-Leads (LeavesBoth input sys) sys _ _ _ _ (λ amount read.
            unless_refused-Leads (LeavesBoth input sys) sys _ _ _ (λ within.
              require_wallet-Leads (LeavesBoth input sys) sys _ _ _ (λ w found.
                let t =
                  posting sys.now n (n + 1) (n + 1 + 1) capture_kind reference a.currency
                    clearing_captured (wallet_account w.wallet_id) amount
                    (some a.authorization_id) in
                bind-Leads (LeavesBoth input sys) sys _ _ t _ _
                  (transaction-ok capture_kind reference a.currency clearing_captured
                    (wallet_account w.wallet_id) amount (some a.authorization_id) sys
                    (nothing_staged sys))
                  (capture_staged-Leaves a w.wallet_id amount t (
                    written-Recorded input sys.store a.authorization_id
                      (captured_row sys.now amount a) t (named ∙ ap ok same)
                      (unfold captured_row in refl) refl none_yet free)))))))

  existing-Leaves :
      (id : ℕ) (a : PaymentAuthorization) (t : LedgerTransaction)
      → assert_id "authorization_id" input.authorization_id ≡ ok id
      → get id sys.store.authorizations ≡ some a
      → find_transaction_by_reference
          (capture_reference a.authorization_id input.capture_reference)
          sys.store
        ≡ some t
      → LeavesBoth input sys (t, a) (nothing_staged sys)
  unfolding run_mutations
  existing-Leaves id a t named there found sc e =
      subst (λ (x : MoneyScope). Recorded input t x.store) (begin_eq e)
        (record {
          authorization_id = id;
          authorization = a;
          named = named;
          there = there;
          found = found;
        })
    where
      begin_eq : ok (begin sys) ≡ ok sc → begin sys ≡ sc
      begin_eq e = cc

  apply_capture_within-Leaves :
      Leads (LeavesBoth input sys) (apply_capture_within input sys (nothing_staged sys))
  unfolding apply_capture_within
  apply_capture_within-Leaves =
      lift-Leads (LeavesBoth input sys) sys _ (assert_id "authorization_id" input.authorization_id)
        _
        (λ id named. require_authorization-Leads (LeavesBoth input sys) sys _ _ _ (λ a there.
          reads-Leads (LeavesBoth input sys) sys _ _ _ (
            or_existing-Leads (LeavesBoth input sys) sys _ _ _ _
              (λ t found. existing-Leaves id a t named there found)
              (λ none_yet. capture_new-Leaves id a named there none_yet))))

  commit-Leaves :
      (t t' : LedgerTransaction) (staged : Staged MoneyStore)
      → Leaves input sys t' staged
      → (commit t' staged sys).0 ≡ ok t
      → Recorded input t (commit t' staged sys).1.store
  unfolding commit
  commit-Leaves t t' staged h e = elim (Result-cases (run_mutations staged.mutations (begin sys))) [
    | inl (sc, done) ↦ ground (arith, h sc done, done)
    | inr (f, failed) ↦ ground (arith, failed)
  ]

  finish-Leaves :
      (t : LedgerTransaction)
      (r : Result ((LedgerTransaction × PaymentAuthorization) × Staged MoneyStore))
      → Leads (LeavesBoth input sys) r
      → (finish (elim r [ ok (both, s) ↦ ok (both.0, s) | err e ↦ err e ]) sys).0 ≡ ok t
      → Recorded input t
          (finish (elim r [ ok (both, s) ↦ ok (both.0, s) | err e ↦ err e ]) sys).1.store
  finish-Leaves t (ok (both, staged)) h e = commit-Leaves t both.0 staged h e
  finish-Leaves t (err f) h e = cc

  capture-Recorded :
      (t : LedgerTransaction)
      → (capture input sys).0 ≡ ok t
      → Recorded input t (capture input sys).1.store
  unfolding capture capture_within with_transaction ◌>>=◌
  capture-Recorded t e =
      finish-Leaves t (apply_capture_within input sys (nothing_staged sys))
        apply_capture_within-Leaves e

-- Where authorizations stand under their own identifiers and the next identifier is new, a capture that
-- succeeded and is sent again, with the same key and whatever amount, answers the same transaction,
-- changes no row and appends no event.
pub capture_retry :
    (sys : Money) (input : CaptureInput) (t : LedgerTransaction)
    → IsKeyed (λ a. a.authorization_id) sys.store.authorizations
    → get sys.next_id sys.store.ledger ≡ none
    → (capture input sys).0 ≡ ok t
    → (amount : Option JsNumber)
    → let sys' = (capture input sys).1 in
      let again = capture (record input { amount_minor = amount }) sys' in
      (again.0 ≡ ok t) × (again.1.store ≡ sys'.store) × (again.1.outbox ≡ sys'.outbox)
capture_retry sys input t authorizations free e amount =
    let r = capture-Recorded sys authorizations free input t e in
    Recorded-capture (record input { amount_minor = amount }) t (capture input sys).1
      (record {
        authorization_id = r.authorization_id;
        authorization = r.authorization;
        named = r.named;
        there = r.there;
        found = r.found;
      })
