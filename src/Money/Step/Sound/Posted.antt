-- ===== src/Money/Step/Sound/Posted.antt =====
-- src/modules/money/repository.ts (`assertLedgerAgreement`): how a write changes the two sides that the
-- check compares.
use wasla_core.Base.{
  ℕ, String, none, some, ◌≡◌, refl, sym, ap, ◌∙◌, List, [], ◌∷◌, arith, if◌then◌else◌, ◌==◌,
}
use wasla_core.Base.Int.{ℤ, pos, ◌+ℤ◌, -ℤ◌, int_laws, eq_of_parts, +ℤ_parts}
use wasla_core.Base.Sums.{sum_of, sum-put_new}
use wasla_core.Base.Table.{Table, get, put, values, get-put}
use wasla_core.Money.Domain.{
  PaymentAuthorization, LedgerTransaction, LedgerKind, credit_kind, capture_kind, refund_kind,
  sum_entries, wallet_account, clearing_external, clearing_captured,
}
use wasla_core.Money.Store.{ledger_sum, belongs_to, is_captured_entry}
use wasla_core.Money.Service.{posting}

abbrev pub captured_of : ℕ → Table PaymentAuthorization → ℤ
captured_of id t = elim (get id t) [ none ↦ pos 0 | some a ↦ a.captured_minor ]

abbrev pub refunded_of : ℕ → Table PaymentAuthorization → ℤ
refunded_of id t = elim (get id t) [ none ↦ pos 0 | some a ↦ a.refunded_minor ]

pub captured_of-put :
    (id k : ℕ) (a : PaymentAuthorization) (t : Table PaymentAuthorization)
    → captured_of id (put k a t) ≡ (if k == id then a.captured_minor else captured_of id t)
captured_of-put id k a t = ground (arith, get-put k id a t)

pub refunded_of-put :
    (id k : ℕ) (a : PaymentAuthorization) (t : Table PaymentAuthorization)
    → refunded_of id (put k a t) ≡ (if k == id then a.refunded_minor else refunded_of id t)
refunded_of-put id k a t = ground (arith, get-put k id a t)

-- A transaction's part in `ledger_sum`.
unfoldable pub part : LedgerKind → ℕ → LedgerTransaction → ℤ
part kind id t = if belongs_to kind id t then sum_entries is_captured_entry t.entries else pos 0

ledger_sum-parts :
    (kind : LedgerKind) (id : ℕ) (ts : List LedgerTransaction)
    → ledger_sum kind id ts ≡ sum_of (part kind id) ts
unfolding ledger_sum sum_of part
ledger_sum-parts kind id [] = refl
ledger_sum-parts kind id (t ∷ ts) = grind (int_laws, ledger_sum-parts kind id ts)

pub ledger_sum-put :
    (kind : LedgerKind) (id k : ℕ) (t : LedgerTransaction) (ledger : Table LedgerTransaction)
    → get k ledger ≡ none
    → ledger_sum kind id (values (put k t ledger))
      ≡ ledger_sum kind id (values ledger) +ℤ part kind id t
ledger_sum-put kind id k t ledger h =
    ledger_sum-parts kind id (values (put k t ledger))
    ∙ sum-put_new (part kind id) k t ledger h
    ∙ ap (λ x. x +ℤ part kind id t) (sym (ledger_sum-parts kind id (values ledger)))

module _ (now tid e1 e2 : ℕ) (reference currency : String) (wallet_id : ℕ) (amount : ℤ) where
  pub part-credit :
      (kind : LedgerKind) (id : ℕ)
      → part kind id (
          posting now tid e1 e2 credit_kind reference currency
            (wallet_account wallet_id)
            clearing_external
            amount
            none)
        ≡ pos 0
  unfolding part
  part-credit kind id = refl

  pub part-capture :
      (authorization_id id : ℕ)
      → part capture_kind id (
          posting now tid e1 e2 capture_kind reference currency clearing_captured
            (wallet_account wallet_id)
            amount
            (some authorization_id))
        ≡ (if authorization_id == id then amount else pos 0)
  unfolding part sum_entries
  part-capture authorization_id id =
      ground (arith, +ℤ_parts amount (pos 0), eq_of_parts (amount +ℤ pos 0) amount)

  pub part-capture_refund :
      (authorization_id id : ℕ)
      → part refund_kind id (
          posting now tid e1 e2 capture_kind reference currency clearing_captured
            (wallet_account wallet_id)
            amount
            (some authorization_id))
        ≡ pos 0
  unfolding part
  part-capture_refund authorization_id id = ground arith

  pub part-refund :
      (authorization_id id : ℕ)
      → part refund_kind id (
          posting now tid e1 e2 refund_kind reference currency
            (wallet_account wallet_id)
            clearing_captured
            amount
            (some authorization_id))
        ≡ (if authorization_id == id then -ℤ◌ amount else pos 0)
  unfolding part sum_entries
  part-refund authorization_id id =
      ground (arith, +ℤ_parts (-ℤ◌ amount) (pos 0), eq_of_parts (-ℤ◌ amount +ℤ pos 0) (-ℤ◌ amount))

  pub part-refund_capture :
      (authorization_id id : ℕ)
      → part capture_kind id (
          posting now tid e1 e2 refund_kind reference currency
            (wallet_account wallet_id)
            clearing_captured
            amount
            (some authorization_id))
        ≡ pos 0
  unfolding part
  part-refund_capture authorization_id id = ground arith
