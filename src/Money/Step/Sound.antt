-- ===== src/Money/Step/Sound.antt =====
-- The agreement of authorizations with the ledger that `assertLedgerAgreement` of
-- src/modules/money/repository.ts checks, kept by every step, with what else holds of the stored rows.
pub mod Posted
pub mod Kept
use wasla_core.Base.{
  ℕ, ◌≤◌, ◌<◌, String, Option, none, some, Bool, true, false, ◌≡◌, refl, sym, ap, subst, ◌∙◌, arith,
  if◌then◌else◌, ◌==◌, Bool-cases, inl, inr,
}
use wasla_core.Base.Int.{
  ℤ, pos, ◌+ℤ◌, ◌-ℤ◌, -ℤ◌, int_laws, eq_of_parts, +ℤ_parts, -ℤ_parts, neg_parts,
}
use wasla_core.Base.Table.{
  Table, get, put, values, get-put, AllRows, AllRows-put, IsKeyed, IsKeyed-put, AllBelow,
  AllBelow-put, AllBelow-le, get-above,
}
use wasla_core.Money.Domain.{
  Wallet, PaymentAuthorization, LedgerTransaction, LedgerKind, capture_kind, refund_kind,
  assert_balanced,
}
use wasla_core.Money.Store.{MoneyStore, authorization_refusal, ledger_sum}
use wasla_core.Money.Store.Writes.{with_wallet, with_authorization, with_transaction_row}
use wasla_core.Money.Step.{Step, stays, opens, credits, authorizes, captures, refunds, releases}
use wasla_core.Money.Step.Sound.Posted.{captured_of, refunded_of}

abbrev pub Balanced : LedgerTransaction → Type 0
Balanced t = assert_balanced t.entries ≡ none

abbrev pub Shaped : PaymentAuthorization → Type 0
Shaped a = authorization_refusal a ≡ none

-- Rows under their own identifiers, all of them below a bound.
pub record IsTable {V : Type 0} (id_of : V → ℕ) (n : ℕ) (t : Table V) : Type 0 where
  pub keyed : IsKeyed id_of t
  pub below : AllBelow id_of n t

module _ {V : Type 0} (id_of : V → ℕ) (n n' : ℕ) (t : Table V) (h : IsTable id_of n t)
    (le : n ≤ n') where
  pub IsTable-le : IsTable id_of n' t
  IsTable-le = record { keyed = h.keyed; below = AllBelow-le id_of n n' t le h.below }

  pub IsTable-put : (v : V) → id_of v < n' → IsTable id_of n' (put (id_of v) v t)
  IsTable-put v p = record {
    keyed = IsKeyed-put id_of v t h.keyed;
    below = AllBelow-put id_of n' v t p IsTable-le.below;
  }

pub record Agrees (authorizations : Table PaymentAuthorization) (ledger : Table LedgerTransaction)
    : Type 0 where
  pub captured :
      (id : ℕ) → captured_of id authorizations ≡ ledger_sum capture_kind id (values ledger)
  pub refunded :
      (id : ℕ) → refunded_of id authorizations ≡ pos 0 -ℤ ledger_sum refund_kind id (values ledger)

pub record Sound (n : ℕ) (s : MoneyStore) : Type 0 where
  pub wallets : IsTable (λ w. w.wallet_id) n s.wallets
  pub authorizations : IsTable (λ a. a.authorization_id) n s.authorizations
  pub ledger : IsTable (λ t. t.transaction_id) n s.ledger
  pub shaped : AllRows Shaped s.authorizations
  pub balanced : AllRows Balanced s.ledger
  pub agrees : Agrees s.authorizations s.ledger
