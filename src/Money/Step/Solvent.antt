-- ===== src/Money/Step/Solvent.antt =====
-- src/modules/money/service.ts (`balance`): the balance as two sums over the stored rows, and what each
-- kind of change adds to them.
pub mod Kept
use wasla_core.Base.{
  ℕ, ◌≤◌, String, Option, none, some, Bool, true, false, ◌≡◌, refl, sym, ap, subst, ◌∙◌, List, [],
  ◌∷◌, arith, if◌then◌else◌, ◌==◌, filter,
}
use wasla_core.Base.Int.{
  ℤ, pos, ◌+ℤ◌, ◌-ℤ◌, -ℤ◌, ◌≤ℤ◌, ◌<ℤ◌, int_laws, eq_of_parts, +ℤ_parts, -ℤ_parts, neg_parts,
}
use wasla_core.Base.Sums.{sum_of, sum-filter, sum-sort, sum-ext}
use wasla_core.Base.Table.{Table, values}
use wasla_core.Money.Domain.{
  PaymentAuthorization, authorized, Account, LedgerTransaction, LedgerKind, sum_entries,
  remaining_hold, wallet_account, clearing_external, clearing_captured, Wallet,
}
use wasla_core.Money.Holds.Captures.{captured_row}
use wasla_core.Money.Holds.Refunds.{refunded_row}
use wasla_core.Money.Holds.Voids.{closed_row}
use wasla_core.Money.Service.{
  posted_in, held_in, of_wallet, is_live, is_expired, balance_of_wallet, posting,
}
use wasla_core.Money.Service.Authorizing.{new_authorization}
use wasla_core.Money.Store.{
  MoneyStore, transactions, list_authorizations, compare_created, compare_occurred,
  authorization_refusal,
}

abbrev pub posted_part : ℕ → LedgerTransaction → ℤ
posted_part wallet_id t = sum_entries (of_wallet wallet_id) t.entries

abbrev pub hold_part : ℕ → ℕ → PaymentAuthorization → ℤ
hold_part now wallet_id a =
    if a.wallet_id == wallet_id then (if is_live now a then remaining_hold a else pos 0) else pos 0

abbrev pub posted_sum : ℕ → Table LedgerTransaction → ℤ
posted_sum wallet_id ledger = sum_of (posted_part wallet_id) (values ledger)

abbrev pub held_sum : ℕ → ℕ → Table PaymentAuthorization → ℤ
held_sum now wallet_id authorizations = sum_of (hold_part now wallet_id) (values authorizations)

posted_in-sum :
    (wallet_id : ℕ) (ts : List LedgerTransaction)
    → posted_in wallet_id ts ≡ sum_of (posted_part wallet_id) ts
unfolding posted_in sum_of
posted_in-sum wallet_id [] = refl
posted_in-sum wallet_id (t ∷ ts) =
    ap (λ x. posted_part wallet_id t +ℤ x) (posted_in-sum wallet_id ts)

held_in-sum : (rows : List PaymentAuthorization) → held_in rows ≡ sum_of remaining_hold rows
unfolding held_in sum_of
held_in-sum [] = refl
held_in-sum (a ∷ rows) = ap (λ x. remaining_hold a +ℤ x) (held_in-sum rows)

held_of_list :
    (now wallet_id : ℕ) (s : MoneyStore)
    → held_in (filter (is_live now) (list_authorizations wallet_id s))
      ≡ held_sum now wallet_id s.authorizations
unfolding list_authorizations
held_of_list now wallet_id s =
    let mine = filter (λ a. a.wallet_id == wallet_id) (values s.authorizations) in
    held_in-sum (filter (is_live now) (list_authorizations wallet_id s))
    ∙ sum-filter remaining_hold (is_live now) (list_authorizations wallet_id s)
    ∙ sum-sort (λ a. if is_live now a then remaining_hold a else pos 0) compare_created mine
    ∙ sum-filter (λ a. if is_live now a then remaining_hold a else pos 0)
        (λ a. a.wallet_id == wallet_id) (values s.authorizations)

-- What is available of a wallet is what the ledger posted to it, less its live holds.
pub available-sums :
    (now wallet_id : ℕ) (s : MoneyStore)
    → (balance_of_wallet now wallet_id s).available_minor
      ≡ posted_sum wallet_id s.ledger -ℤ held_sum now wallet_id s.authorizations
unfolding balance_of_wallet transactions
available-sums now wallet_id s =
    let posted =
      posted_in-sum wallet_id (transactions s)
      ∙ sum-sort (posted_part wallet_id) compare_occurred (values s.ledger) in
    ap (λ x. x -ℤ held_in (filter (is_live now) (list_authorizations wallet_id s))) posted
    ∙ ap (λ x. posted_sum wallet_id s.ledger -ℤ x) (held_of_list now wallet_id s)

module _ (now tid e1 e2 : ℕ) (kind : LedgerKind) (reference currency : String) (owner : ℕ)
    (amount : ℤ) (authorization_id : Option ℕ) (wallet_id : ℕ) where
  pub posted-credit :
      posted_part wallet_id (
        posting now tid e1 e2 kind reference currency
          (wallet_account owner)
          clearing_external
          amount
          authorization_id)
      ≡ (if owner == wallet_id then amount else pos 0)
  unfolding sum_entries
  posted-credit = ground (arith, +ℤ_parts amount (pos 0), eq_of_parts (amount +ℤ pos 0) amount)

  pub posted-refund :
      posted_part wallet_id (
        posting now tid e1 e2 kind reference currency
          (wallet_account owner)
          clearing_captured
          amount
          authorization_id)
      ≡ (if owner == wallet_id then amount else pos 0)
  unfolding sum_entries
  posted-refund = ground (arith, +ℤ_parts amount (pos 0), eq_of_parts (amount +ℤ pos 0) amount)

  pub posted-capture :
      posted_part wallet_id (
        posting now tid e1 e2 kind reference currency clearing_captured
          (wallet_account owner)
          amount
          authorization_id)
      ≡ (if owner == wallet_id then -ℤ◌ amount else pos 0)
  unfolding sum_entries
  posted-capture =
      ground (arith, +ℤ_parts (-ℤ◌ amount) (pos 0), eq_of_parts (-ℤ◌ amount +ℤ pos 0) (-ℤ◌ amount))

-- No hold that the store accepts is negative.
pub hold_part-nonneg :
    (now wallet_id : ℕ) (a : PaymentAuthorization)
    → authorization_refusal a ≡ none
    → pos 0 ≤ℤ hold_part now wallet_id a
unfolding remaining_hold authorization_refusal
hold_part-nonneg now wallet_id a h = ground (arith, -ℤ_parts a.amount_minor a.captured_minor)

-- Time lets holds lapse.
pub hold_part-later :
    (now later wallet_id : ℕ) (a : PaymentAuthorization)
    → now ≤ later
    → authorization_refusal a ≡ none
    → hold_part later wallet_id a ≤ℤ hold_part now wallet_id a
hold_part-later now later wallet_id a le h = ground (arith, hold_part-nonneg now wallet_id a h)

pub hold_part-new :
    (now wallet_id new_id : ℕ) (w : Wallet) (amount : ℤ) (reference : String)
    (expires_at : Option ℕ)
    → pos 0 <ℤ amount
    → hold_part now wallet_id (new_authorization new_id now w amount reference expires_at)
      ≤ℤ (if w.wallet_id == wallet_id then amount else pos 0)
unfolding remaining_hold
hold_part-new now wallet_id new_id w amount reference expires_at positive =
    ground (arith, -ℤ_parts amount (pos 0))

pub hold_part-captured :
    (now wallet_id : ℕ) (a : PaymentAuthorization) (amount : ℤ)
    → a.status ≡ authorized
    → is_expired now a ≡ false
    → hold_part now wallet_id (captured_row now amount a)
      ≡ hold_part now wallet_id a -ℤ (if a.wallet_id == wallet_id then amount else pos 0)
unfolding remaining_hold captured_row
hold_part-captured now wallet_id a amount open_ live = grind int_laws

pub hold_part-refunded :
    (now wallet_id : ℕ) (a : PaymentAuthorization) (amount : ℤ)
    → hold_part now wallet_id (refunded_row amount a) ≡ hold_part now wallet_id a
unfolding remaining_hold refunded_row
hold_part-refunded now wallet_id a amount = refl

pub hold_part-closed :
    (now wallet_id : ℕ) (a : PaymentAuthorization) (reason : String)
    → hold_part now wallet_id (closed_row now reason a) ≡ pos 0
unfolding closed_row
hold_part-closed now wallet_id a reason = ground arith
