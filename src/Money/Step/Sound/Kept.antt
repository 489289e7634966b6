-- ===== src/Money/Step/Sound/Kept.antt =====
-- src/modules/money/service.ts: every step keeps the rows sound and the authorizations in agreement
-- with the ledger.
use wasla_core.Base.{ℕ, ◌≤◌, ◌<◌, none, some, ◌≡◌, subst, arith}
use wasla_core.Base.Int.{pos, ◌+ℤ◌, ◌-ℤ◌, -ℤ◌, int_laws}
use wasla_core.Base.Table.{get, put, AllRows-put, get-above, below_bound}
use wasla_core.Money.Domain.{
  Wallet, PaymentAuthorization, LedgerTransaction, capture_kind, refund_kind, wallet_account,
  clearing_external, clearing_captured,
}
use wasla_core.Money.Holds.Captures.{captured_row}
use wasla_core.Money.Holds.Refunds.{refunded_row}
use wasla_core.Money.Holds.Voids.{closed_row}
use wasla_core.Money.Store.{MoneyStore}
use wasla_core.Money.Store.Writes.{with_wallet, with_authorization, with_transaction_row}
use wasla_core.Money.Step.{
  Ask, Step, stays, opens, credits, authorizes, captures, refunds, releases,
}
use wasla_core.Money.Step.Commands.{movement-balanced}
use wasla_core.Money.Step.Sound.{Sound, IsTable, IsTable-le, IsTable-put, Balanced, Shaped}
use wasla_core.Money.Step.Sound.Posted.{
  captured_of, refunded_of, captured_of-put, refunded_of-put, part, ledger_sum-put, part-credit,
  part-capture, part-capture_refund, part-refund, part-refund_capture,
}

module _ (n n' : ℕ) (s : MoneyStore) (h : Sound n s) (le : n ≤ n') where
  same_wallets : IsTable (λ w. w.wallet_id) n' s.wallets
  same_wallets = IsTable-le (λ w. w.wallet_id) n n' s.wallets h.wallets le

  same_authorizations : IsTable (λ a. a.authorization_id) n' s.authorizations
  same_authorizations =
      IsTable-le (λ a. a.authorization_id) n n' s.authorizations h.authorizations le

  same_ledger : IsTable (λ t. t.transaction_id) n' s.ledger
  same_ledger = IsTable-le (λ t. t.transaction_id) n n' s.ledger h.ledger le

  stays-Sound : Sound n' s
  stays-Sound = record {
    wallets = same_wallets;
    authorizations = same_authorizations;
    ledger = same_ledger;
    shaped = h.shaped;
    balanced = h.balanced;
    agrees = h.agrees;
  }

  with_wallet-Sound : (w : Wallet) → w.wallet_id < n' → Sound n' (with_wallet w s)
  with_wallet-Sound w below = record {
    wallets = IsTable-put (λ w. w.wallet_id) n n' s.wallets h.wallets le w below;
    authorizations = same_authorizations;
    ledger = same_ledger;
    shaped = h.shaped;
    balanced = h.balanced;
    agrees = h.agrees;
  }

  module _ (a : PaymentAuthorization) (known : a.authorization_id < n') (shape : Shaped a) where
    -- The amounts of a row that is written alone are those that stood there.
    with_authorization-Sound :
        a.captured_minor ≡ captured_of a.authorization_id s.authorizations
        → a.refunded_minor ≡ refunded_of a.authorization_id s.authorizations
        → Sound n' (with_authorization a s)
    with_authorization-Sound c r = record {
      wallets = same_wallets;
      authorizations =
          IsTable-put (λ a. a.authorization_id) n n' s.authorizations h.authorizations le a known;
      ledger = same_ledger;
      shaped = AllRows-put Shaped a.authorization_id a s.authorizations shape h.shaped;
      balanced = h.balanced;
      agrees = record {
        captured = λ id.
            ground (
              arith,
              captured_of-put id a.authorization_id a s.authorizations,
              h.agrees.captured id,
            );
        refunded = λ id.
            ground (
              arith,
              refunded_of-put id a.authorization_id a s.authorizations,
              h.agrees.refunded id,
            );
      };
    }

  module _ (t : LedgerTransaction) (fresh : n ≤ t.transaction_id) (below : t.transaction_id < n')
      (balance : Balanced t) where
    free : get t.transaction_id s.ledger ≡ none
    free =
        get-above (λ t. t.transaction_id) n t.transaction_id s.ledger h.ledger.keyed h.ledger.below
          fresh

    grown : IsTable (λ t. t.transaction_id) n' (put t.transaction_id t s.ledger)
    grown = IsTable-put (λ t. t.transaction_id) n n' s.ledger h.ledger le t below

    with_transaction-Sound :
        ((id : ℕ) → part capture_kind id t ≡ pos 0)
        → ((id : ℕ) → part refund_kind id t ≡ pos 0)
        → Sound n' (with_transaction_row t s)
    with_transaction-Sound c r = record {
      wallets = same_wallets;
      authorizations = same_authorizations;
      ledger = grown;
      shaped = h.shaped;
      balanced = AllRows-put Balanced t.transaction_id t s.ledger balance h.balanced;
      agrees = record {
        captured = λ id. grind (
          int_laws,
          ledger_sum-put capture_kind id t.transaction_id t s.ledger free,
          h.agrees.captured id,
          c id,
        );
        refunded = λ id. grind (
          int_laws,
          ledger_sum-put refund_kind id t.transaction_id t s.ledger free,
          h.agrees.refunded id,
          r id,
        );
      };
    }

    -- A movement for an authorization, with the row that records it.
    moved-Sound :
        (a : PaymentAuthorization)
        → a.authorization_id < n'
        → Shaped a
        → ((id : ℕ)
            → captured_of id (put a.authorization_id a s.authorizations)
              ≡ captured_of id s.authorizations +ℤ part capture_kind id t)
        → ((id : ℕ)
            → refunded_of id (put a.authorization_id a s.authorizations)
              ≡ refunded_of id s.authorizations -ℤ part refund_kind id t)
        → Sound n' (with_transaction_row t (with_authorization a s))
    moved-Sound a known shape c r = record {
      wallets = same_wallets;
      authorizations =
          IsTable-put (λ a. a.authorization_id) n n' s.authorizations h.authorizations le a known;
      ledger = grown;
      shaped = AllRows-put Shaped a.authorization_id a s.authorizations shape h.shaped;
      balanced = AllRows-put Balanced t.transaction_id t s.ledger balance h.balanced;
      agrees = record {
        captured = λ id. grind (
          int_laws,
          ledger_sum-put capture_kind id t.transaction_id t s.ledger free,
          h.agrees.captured id,
          c id,
        );
        refunded = λ id. grind (
          int_laws,
          ledger_sum-put refund_kind id t.transaction_id t s.ledger free,
          h.agrees.refunded id,
          r id,
        );
      };
    }

-- An identifier under which a row stands is below the bound.
below-get :
    (n k : ℕ) (a : PaymentAuthorization) (s : MoneyStore)
    → Sound n s
    → get a.authorization_id s.authorizations ≡ some a
    → a.authorization_id < n
below-get n k a s h e =
    below_bound (λ a. a.authorization_id) n a.authorization_id a s.authorizations
      h.authorizations.below e

pub held-get :
    (k : ℕ) (a : PaymentAuthorization) (s : MoneyStore)
    → get k s.authorizations ≡ some a
    → k ≡ a.authorization_id
    → get a.authorization_id s.authorizations ≡ some a
held-get k a s found own = subst (λ j. get j s.authorizations ≡ some a) own found

-- The invariant of the money module.
pub Step-Sound :
    (ask : Ask) (now n n' : ℕ) (s s' : MoneyStore)
    → Step ask now n s n' s'
    → Sound n s
    → Sound n' s'
unfolding captured_row refunded_row closed_row
Step-Sound ask now n n' s s' (stays le done) h = stays-Sound n n' s h le
Step-Sound ask now n n' s s' (opens w asked fresh below) h =
    with_wallet-Sound n n' s h (omega arith) w below
Step-Sound ask now n n' s s'
      (credits w k tid e1 e2 reference amount asked found fresh below positive) h =
    with_transaction-Sound n n' s h (omega arith) _ fresh below
      (movement-balanced tid e1 e2 w.currency (wallet_account w.wallet_id) clearing_external amount)
      (part-credit now tid e1 e2 reference w.currency w.wallet_id amount capture_kind)
      (part-credit now tid e1 e2 reference w.currency w.wallet_id amount refund_kind)
Step-Sound ask now n n' s s'
      (authorizes w k new_id amount reference expires_at asked found usable fresh below positive
        shape enough)
      h =
    with_authorization-Sound n n' s h (omega arith) _ below shape (ground (arith, unused))
      (ground (arith, unused))
  where
    unused : get new_id s.authorizations ≡ none
    unused =
        get-above (λ a. a.authorization_id) n new_id s.authorizations h.authorizations.keyed
          h.authorizations.below fresh
Step-Sound ask now n n' s s'
      (captures a k tid e1 e2 reference amount asked found own open_ live fresh below positive shape
        enough)
      h =
    moved-Sound n n' s h (omega arith) _ fresh below
      (movement-balanced tid e1 e2 a.currency clearing_captured (wallet_account a.wallet_id) amount)
      (captured_row now amount a) (omega (arith, below-get n 0 a s h (held-get k a s found own)))
      shape
      (λ id. grind (
        int_laws,
        part-capture now tid e1 e2 reference a.currency a.wallet_id amount a.authorization_id id,
        captured_of-put id a.authorization_id (captured_row now amount a) s.authorizations,
        held-get k a s found own,
      ))
      (λ id. grind (
        int_laws,
        part-capture_refund now tid e1 e2 reference a.currency a.wallet_id amount a.authorization_id
            id,
        refunded_of-put id a.authorization_id (captured_row now amount a) s.authorizations,
        held-get k a s found own,
      ))
Step-Sound ask now n n' s s'
      (refunds a k tid e1 e2 reference amount asked found own fresh below positive shape enough) h =
    moved-Sound n n' s h (omega arith) _ fresh below
      (movement-balanced tid e1 e2 a.currency (wallet_account a.wallet_id) clearing_captured amount)
      (refunded_row amount a) (omega (arith, below-get n 0 a s h (held-get k a s found own))) shape
      (λ id. grind (
        int_laws,
        part-refund_capture now tid e1 e2 reference a.currency a.wallet_id amount a.authorization_id
            id,
        captured_of-put id a.authorization_id (refunded_row amount a) s.authorizations,
        held-get k a s found own,
      ))
      (λ id. grind (
        int_laws,
        part-refund now tid e1 e2 reference a.currency a.wallet_id amount a.authorization_id id,
        refunded_of-put id a.authorization_id (refunded_row amount a) s.authorizations,
        held-get k a s found own,
      ))
Step-Sound ask now n n' s s' (releases a k reason asked found own open_ shape le) h =
    with_authorization-Sound n n' s h le (closed_row now reason a)
      (omega (arith, below-get n 0 a s h (held-get k a s found own))) shape
      (ground (arith, held-get k a s found own)) (ground (arith, held-get k a s found own))
