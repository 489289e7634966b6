-- ===== src/Money/Step/Commands.antt =====
-- Every command of src/modules/money/service.ts makes a step of `Step`, or leaves the store alone.
use text.Mathlib.TextPositions.{eq_refl}
use wasla_core.Base.{
  ℕ, String, ◌+◌, Option, none, some, Bool, true, false, ◌≡◌, refl, sym, subst, [], arith,
}
use wasla_core.Base.Int.{ℤ, pos, ◌+ℤ◌, -ℤ◌, +ℤ_parts, neg_parts, ◌<ℤ◌}
use wasla_core.Platform.Errors.{ok}
use wasla_core.Platform.Ids.{assert_id}
use wasla_core.Platform.UnitOfWork.{Staged, nothing_staged, ◌>>=◌}
use wasla_core.Base.Table.{get}
use wasla_core.Money.Domain.{
  Wallet, positive_amount, JsNumber, no_integer, int, assert_balanced, wallet_account,
  clearing_external, credit_kind, Account, LedgerKind, sum_entries,
}
use wasla_core.Money.Store.{MoneyStore, insert_wallet, insert_transaction}
use wasla_core.Money.Store.Writes.{insert_wallet-ok, insert_transaction-ok}
use wasla_core.Money.Service.{Money, transaction, movement, posting}
use wasla_core.Money.Service.Wallets.{
  CreateWalletInput, create_wallet, create_wallet_work, create_wallet_new, CreditInput, credit,
  credit_work, credit_new, new_wallet,
}
use wasla_core.Money.Step.{of_wallet, of_credit, Step, opens, credits}
use wasla_core.Money.Step.Leads.{
  Leads, Makes, StepsTo, still-Makes, one-Makes, or_throw-Leads, lift-Leads, or_existing-Leads,
  bind-Leads, reads-Leads, require_wallet-Leads, with_transaction-StepsTo,
}

pub positive_amount-positive : (j : JsNumber) (n : ℤ) → positive_amount j ≡ some n → pos 0 <ℤ n
unfolding positive_amount
positive_amount-positive no_integer n h = cc
positive_amount-positive (int m) n h = ground arith

-- A movement is balanced, so that a transaction can always be made.
pub movement-balanced :
    (tid e1 e2 : ℕ) (currency : String) (credit_account debit_account : Account) (amount : ℤ)
    → assert_balanced (movement tid e1 e2 currency credit_account debit_account amount) ≡ none
unfolding assert_balanced sum_entries
movement-balanced tid e1 e2 currency credit_account debit_account amount = ground (
  arith,
  eq_refl currency,
  neg_parts amount,
  +ℤ_parts (-ℤ◌ amount) (pos 0),
  +ℤ_parts amount (-ℤ◌ amount +ℤ pos 0),
)

pub transaction-ok :
    (kind : LedgerKind) (reference currency : String) (credit_account debit_account : Account)
    (amount : ℤ) (authorization_id : Option ℕ) (sys : Money) (staged : Staged MoneyStore)
    → transaction kind reference currency credit_account debit_account amount authorization_id sys
        staged
      ≡ ok (
        posting sys.now staged.next_id
            (staged.next_id + 1)
            (staged.next_id + 1 + 1)
            kind
            reference
            currency
            credit_account
            debit_account
            amount
            authorization_id,
        record staged { next_id = staged.next_id + 1 + 1 + 1 },
      )
unfolding transaction ◌>>=◌
transaction-ok kind reference currency credit_account debit_account amount authorization_id sys
      staged =
    let tid = staged.next_id in
    ground (
      arith,
      movement-balanced tid (tid + 1) (tid + 1 + 1) currency credit_account debit_account amount,
    )

module _ (sys : Money) where
  create_wallet_new-Leads :
      (input : CreateWalletInput) (owner_id : ℕ) (currency : _)
      → Leads
          (Makes (of_wallet input) sys)
          (create_wallet_new input owner_id currency sys (nothing_staged sys))
  unfolding create_wallet_new ◌>>=◌
  create_wallet_new-Leads input owner_id currency =
      let w = new_wallet sys.next_id sys.now input.owner_type owner_id currency in
      one-Makes (of_wallet input) sys (w, true) _ (omega arith) (insert_wallet w) refl
        (λ sc e.
          subst (λ s. Step (of_wallet input) sys.now sys.next_id sys.store (sys.next_id + 1 + 1) s)
            (sym (insert_wallet-ok w (record { store = sys.store; deferred = [] }) sc e))
            (opens w tt (omega arith) (omega arith)))

  pub create_wallet-StepsTo :
      (input : CreateWalletInput) → StepsTo (of_wallet input) sys (create_wallet input sys)
  unfolding create_wallet create_wallet_work
  create_wallet-StepsTo input =
      with_transaction-StepsTo (of_wallet input) (create_wallet_work input) sys (
        lift-Leads (Makes (of_wallet input) sys) sys _ (assert_id "owner_id" input.owner_id) _
          (λ owner_id e. or_throw-Leads (Makes (of_wallet input) sys) sys _ _ _ _ (λ currency e.
            reads-Leads (Makes (of_wallet input) sys) sys _ _ _ (
              or_existing-Leads (Makes (of_wallet input) sys) sys _ _ _ _
                (λ w e.
                  still-Makes {A = Wallet × Bool} (of_wallet input) sys (w, false)
                    (nothing_staged sys) (omega arith) tt refl)
                (λ e. create_wallet_new-Leads input owner_id currency)))))

  credit_new-Leads :
      (input : CreditInput) (w : Wallet) (k : ℕ) (amount : ℤ)
      → assert_id "wallet_id" input.wallet_id ≡ ok k
      → get k sys.store.wallets ≡ some w
      → positive_amount input.amount_minor ≡ some amount
      → Leads (Makes (of_credit input) sys) (credit_new input w amount sys (nothing_staged sys))
  unfolding credit_new
  credit_new-Leads input w k amount asked here read =
      let tid = sys.next_id in
      let t =
        posting sys.now tid (tid + 1) (tid + 1 + 1) credit_kind input.business_reference w.currency
          (wallet_account w.wallet_id) clearing_external amount none in
      bind-Leads (Makes (of_credit input) sys) sys (nothing_staged sys) _ t _ _
        (transaction-ok credit_kind input.business_reference w.currency (wallet_account w.wallet_id)
          clearing_external amount none sys (nothing_staged sys))
        (unfold ◌>>=◌ in
          one-Makes (of_credit input) sys t _ (omega arith) (insert_transaction t) refl (λ sc e.
            subst (λ s. Step (of_credit input) sys.now tid sys.store (tid + 1 + 1 + 1 + 1 + 1) s)
              (sym (insert_transaction-ok t (record { store = sys.store; deferred = [] }) sc e))
              (credits w k tid (tid + 1) (tid + 1 + 1) input.business_reference amount
                (asked, read, refl) here (omega arith) (omega arith)
                (positive_amount-positive input.amount_minor amount read))))

  -- A credit, with any input, throws and leaves everything as it was, or its reference was posted before and the
  -- stored money stays, or it posts one transaction under a fresh identifier and with the input's
  -- reference: the input's amount, which is positive, on the account of the input's wallet, which is
  -- stored, and its negation on the external account.
  pub credit-StepsTo : (input : CreditInput) → StepsTo (of_credit input) sys (credit input sys)
  unfolding credit credit_work
  credit-StepsTo input = with_transaction-StepsTo (of_credit input) (credit_work input) sys (
      lift-Leads (Makes (of_credit input) sys) sys _ (assert_id "wallet_id" input.wallet_id) _
        (λ wallet_id asked. require_wallet-Leads (Makes (of_credit input) sys) sys _ _ _ (λ w here.
          or_throw-Leads (Makes (of_credit input) sys) sys _ _ _ _ (λ amount read.
            reads-Leads (Makes (of_credit input) sys) sys _ _ _ (
              or_existing-Leads (Makes (of_credit input) sys) sys _ _ _ _
                (λ t found.
                  still-Makes (of_credit input) sys t (nothing_staged sys) (omega arith) (t, found)
                    refl)
                (λ none_yet. credit_new-Leads input w wallet_id amount asked here read))))))
