-- ===== src/Money/Tests.antt =====
-- Runs of the model of src/modules/money at concrete stores and commands.
use wasla_core.Base.Int.{◌+ℤ◌, -ℤ◌}
use wasla_core.Base.Table.{put}
use wasla_core.Platform.Texts.{is_empty_text}
use wasla_core.Platform.Errors.{ok}
use wasla_core.Platform.UnitOfWork.{with_transaction, commit, run_mutations, verify, defer, ◌>>=◌}
use wasla_core.Money.Domain.{
  refund_kind, refundable_amount, LedgerTransaction, capture_kind, clearing_captured, sum_entries,
  assert_balanced, positive_amount, remaining_hold,
}
use wasla_core.Money.Holds.Captures.{
  capture_reference, capture_within, apply_capture_within, capture_new, capture_staged,
  capture_refusal, capture_amount_refusal, captured_row,
}
use wasla_core.Money.Holds.{update_and_post}
use wasla_core.Platform.Ids.{uuid_text}
use wasla_core.Platform.Texts.{is_currency}
use wasla_core.Money.Holds.Voids.{expire_due_authorizations}
use wasla_core.Money.Sweep.{expire_due_authorizations-IsSound}
use wasla_core.Money.Stale.{commit-Agrees}
use wasla_core.Money.Step.Sound.{Agrees}
use wasla_core.Platform.UnitOfWork.{Staged}
use wasla_core.Money.Retry.{capture_retry}
use wasla_core.Money.Service.{transaction, or_existing}
use wasla_core.Money.Store.{
  update_authorization, insert_transaction, defer_ledger_agreement, defer_balance,
  assert_ledger_agreement, find_transaction_by_reference, authorization_refusal,
  authorization_row_refusal, ledger_reference_clash, entries_refusal,
}
use wasla_core.Base.{none, some, ◌≡◌, refl, List, [], ◌∷◌, arith}
use wasla_core.Base.Int.{◌≤ℤ◌, pos, ◌-ℤ◌}
use wasla_core.Base.Sort.{sort}
use wasla_core.Base.{All, true}
use wasla_core.Base.Sums.{sum_of}
use wasla_core.Money.Ages.{
  Exists, ages, age_at, wallet_has, oldest_wallet_age_by_status, oldest_wallet_age_is_least,
}
use wasla_core.Base.Table.{get, values, IsKeyed}
use wasla_core.Platform.Ids.{uuid}
use wasla_core.Money.Domain.{
  Wallet, identity, active, PaymentAuthorization, authorized, credit_kind, wallet_account,
  clearing_external, int,
}
use wasla_core.Money.Holds.Captures.{CaptureInput, capture}
use wasla_core.Money.Holds.Refunds.{
  RefundInput, refund, refund_within, refund_new, refund_staged, refund_refusal, refunded_row,
  refund_reference,
}
use wasla_core.Money.Retry.Refunds.{refund_retry}
use wasla_core.Money.Holds.Voids.{VoidInput, void_authorization}
use wasla_core.Money.Service.{Money, balance_of_wallet, posted_in, held_in, posting}
use wasla_core.Money.Service.Wallets.{CreateWalletInput, create_wallet, CreditInput, credit}
use wasla_core.Money.Service.Authorizing.{expires, AuthorizeInput, authorize}
use wasla_core.Money.Store.{MoneyStore, ledger_sum, transactions, list_authorizations}
use wasla_core.Money.Run.{
  Command, create_wallet_command, credit_command, authorize_command, capture_command,
  refund_command, void_command, wait_command, run, IsSound, run-IsSound, run-BooksBalance,
  entries_total,
}
use wasla_core.Money.Step.Commands.{create_wallet-StepsTo, credit-StepsTo}
use wasla_core.Money.Step.Placing.{authorize-StepsTo}
use wasla_core.Money.Step.Holding.{capture-StepsTo}
use wasla_core.Money.Step.Returning.{refund-StepsTo, void_authorization-StepsTo}
use wasla_core.Money.Step.Leads.{StepsTo}
use wasla_core.Money.Step.{of_wallet, of_credit, of_authorize, of_capture, of_refund, of_void}

abbrev no_money : Money
no_money = record {
  store = record { wallets = []; authorizations = []; ledger = [] };
  outbox = [];
  audit_log = [];
  next_id = 1;
  now = 1000;
}

abbrev wallet_input : CreateWalletInput
wallet_input = record {
  owner_type = identity;
  owner_id = uuid 900;
  currency = "usd";
  correlation_id = "c1";
}

abbrev credit_input : CreditInput
credit_input = record {
  wallet_id = uuid 1;
  amount_minor = int (pos 500);
  business_reference = "topup";
  correlation_id = "c2";
}

abbrev authorize_input : AuthorizeInput
authorize_input = record {
  wallet_id = uuid 1;
  amount_minor = int (pos 300);
  business_reference = "order";
  correlation_id = "c3";
  expires_at = expires 9000;
}

abbrev capture_input : CaptureInput
capture_input = record {
  authorization_id = uuid 20;
  amount_minor = some (int (pos 100));
  capture_reference = some "leg";
  correlation_id = "c4";
}

abbrev refund_input : RefundInput
refund_input = record {
  authorization_id = uuid 20;
  amount_minor = none;
  refund_reference = "back";
  reason = "returned";
  correlation_id = "c5";
}

abbrev void_input : VoidInput
void_input = record { authorization_id = uuid 20; reason = "done"; correlation_id = "c6" }

abbrev commands : List Command
commands =
    create_wallet_command wallet_input
    ∷ credit_command credit_input
    ∷ authorize_command authorize_input
    ∷ wait_command 50
    ∷ capture_command capture_input
    ∷ refund_command refund_input
    ∷ void_command void_input
    ∷ []

no_money-IsSound : IsSound no_money
unfolding balance_of_wallet posted_in held_in transactions list_authorizations get values ledger_sum
    ◌-ℤ◌ sort
no_money-IsSound = record {
  sound = record {
    wallets = record { keyed = tt; below = tt };
    authorizations = record { keyed = tt; below = tt };
    ledger = record { keyed = tt; below = tt };
    shaped = tt;
    balanced = tt;
    agrees = record { captured = λ id. refl; refunded = λ id. refl };
  };
  solvent = λ wallet_id. omega arith;
}

-- A wallet of 500 with a hold of 300, of which 100 were captured.
abbrev wallet : Wallet
wallet = record {
  wallet_id = 1;
  owner_type = identity;
  owner_id = 900;
  currency = "USD";
  status = active;
  created_at = 1000;
}

abbrev hold : PaymentAuthorization
hold = record {
  authorization_id = 20;
  wallet_id = 1;
  amount_minor = pos 300;
  captured_minor = pos 100;
  refunded_minor = pos 0;
  currency = "USD";
  status = authorized;
  business_reference = "order";
  created_at = 1000;
  captured_at = none;
  voided_at = none;
  expires_at = some 9000;
  void_reason = none;
}

abbrev with_hold : Money
with_hold = record no_money {
  store = record {
    wallets = (1, wallet) ∷ [];
    authorizations = (20, hold) ∷ [];
    ledger =
        (
          30,
          posting 1000 30 31 32 credit_kind "topup" "USD" (wallet_account 1) clearing_external
              (pos 500) none,
        )
        ∷ (
          33,
          posting 1000 33 34 35 capture_kind "first" "USD" clearing_captured (wallet_account 1)
              (pos 100) (some 20),
        )
        ∷ [];
  };
  next_id = 40;
}

wallets-IsKeyed : IsKeyed (λ w. w.wallet_id) with_hold.store.wallets
unfolding get
wallets-IsKeyed = (refl, refl, tt)

authorizations-IsKeyed : IsKeyed (λ a. a.authorization_id) with_hold.store.authorizations
unfolding get
authorizations-IsKeyed = (refl, refl, tt)

run-IsSound_example : IsSound (run commands no_money)
run-IsSound_example = run-IsSound commands no_money no_money-IsSound

run-BooksBalance_example :
    sum_of entries_total (values (run commands no_money).store.ledger) ≡ pos 0
run-BooksBalance_example = run-BooksBalance commands no_money no_money-IsSound

create_wallet-StepsTo_example :
    StepsTo (of_wallet wallet_input) no_money (create_wallet wallet_input no_money)
create_wallet-StepsTo_example = create_wallet-StepsTo no_money wallet_input

credit-StepsTo_example : StepsTo (of_credit credit_input) with_hold (credit credit_input with_hold)
credit-StepsTo_example = credit-StepsTo with_hold credit_input

authorize-StepsTo_example :
    StepsTo (of_authorize authorize_input) with_hold (authorize authorize_input with_hold)
authorize-StepsTo_example = authorize-StepsTo with_hold authorize_input

capture-StepsTo_example :
    StepsTo (of_capture capture_input) with_hold (capture capture_input with_hold)
capture-StepsTo_example =
    capture-StepsTo with_hold wallets-IsKeyed authorizations-IsKeyed capture_input

refund-StepsTo_example : StepsTo (of_refund refund_input) with_hold (refund refund_input with_hold)
refund-StepsTo_example =
    refund-StepsTo with_hold wallets-IsKeyed authorizations-IsKeyed refund_input

void_authorization-StepsTo_example :
    StepsTo (of_void void_input) with_hold (void_authorization void_input with_hold)
void_authorization-StepsTo_example =
    void_authorization-StepsTo with_hold wallets-IsKeyed authorizations-IsKeyed void_input

abbrev newer_wallet : Wallet
newer_wallet = record wallet { wallet_id = 2; owner_id = 901; created_at = 9000 }

abbrev two_wallets : MoneyStore
two_wallets = record {
  wallets = (1, wallet) ∷ (2, newer_wallet) ∷ [];
  authorizations = [];
  ledger = [];
}

reported_age : oldest_wallet_age_by_status 11000 two_wallets active ≡ some (pos 2)
unfolding oldest_wallet_age_by_status ages values age_at
reported_age = refl

oldest_wallet_age_is_least_example :
    Exists
      (λ w. (wallet_has w active ≡ true) × (pos 2 ≡ age_at 11000 w.created_at))
      (values two_wallets.wallets)
    × All
        (λ w. wallet_has w active ≡ true → pos 2 ≤ℤ age_at 11000 w.created_at)
        (values two_wallets.wallets)
oldest_wallet_age_is_least_example =
    oldest_wallet_age_is_least 11000 two_wallets active (pos 2) reported_age

abbrev leg : LedgerTransaction
leg =
    posting 1000 40 41 42 capture_kind (capture_reference 20 (some "leg")) "USD" clearing_captured
      (wallet_account 1) (pos 100) (some 20)

captured_leg : (capture capture_input with_hold).0 ≡ ok leg
unfolding capture capture_within apply_capture_within capture_new capture_staged capture_refusal
    capture_amount_refusal captured_row update_and_post update_authorization insert_transaction
    transaction with_transaction commit run_mutations verify defer defer_ledger_agreement
    defer_balance assert_ledger_agreement ledger_sum sum_entries assert_balanced positive_amount
    remaining_hold or_existing get put values find_transaction_by_reference authorization_refusal
    authorization_row_refusal ledger_reference_clash entries_refusal capture_reference uuid_text
    is_currency ◌>>=◌ ◌+ℤ◌ ◌-ℤ◌ -ℤ◌
captured_leg = refl

capture_retry_example :
    ((capture (record capture_input { amount_minor = none }) (capture capture_input with_hold).1).0
      ≡ ok leg)
    × ((capture
          (record capture_input { amount_minor = none })
          (capture capture_input with_hold).1).1.store
        ≡ (capture capture_input with_hold).1.store)
    × ((capture
          (record capture_input { amount_minor = none })
          (capture capture_input with_hold).1).1.outbox
        ≡ (capture capture_input with_hold).1.outbox)
capture_retry_example =
    capture_retry with_hold capture_input leg authorizations-IsKeyed (unfold get in refl)
      captured_leg none

abbrev refund_leg : LedgerTransaction
refund_leg =
    posting 1000 40 41 42 refund_kind (refund_reference 20 "back") "USD" (wallet_account 1)
      clearing_captured (pos 100) (some 20)

refunded_leg : (refund refund_input with_hold).0 ≡ ok refund_leg
unfolding refund refund_within refund_new refund_staged refund_refusal refundable_amount
    refunded_row update_and_post update_authorization insert_transaction transaction
    with_transaction commit run_mutations verify defer defer_ledger_agreement defer_balance
    assert_ledger_agreement ledger_sum sum_entries assert_balanced positive_amount or_existing get
    put values find_transaction_by_reference authorization_refusal authorization_row_refusal
    ledger_reference_clash entries_refusal refund_reference uuid_text is_empty_text is_currency
    ◌>>=◌ ◌+ℤ◌ ◌-ℤ◌ -ℤ◌
refunded_leg = refl

refund_retry_example :
    ((refund (record refund_input { amount_minor = none }) (refund refund_input with_hold).1).0
      ≡ ok refund_leg)
    × ((refund
          (record refund_input { amount_minor = none })
          (refund refund_input with_hold).1).1.store
        ≡ (refund refund_input with_hold).1.store)
    × ((refund
          (record refund_input { amount_minor = none })
          (refund refund_input with_hold).1).1.outbox
        ≡ (refund refund_input with_hold).1.outbox)
refund_retry_example =
    refund_retry with_hold refund_input refund_leg authorizations-IsKeyed (unfold get in refl)
      refunded_leg none

-- A hold that was placed, and whose expiry has passed.
abbrev lapsing : List Command
lapsing =
    create_wallet_command wallet_input
    ∷ credit_command credit_input
    ∷ authorize_command authorize_input
    ∷ wait_command 10000
    ∷ []

expire_due_authorizations-IsSound_example :
    IsSound (expire_due_authorizations "sweep" (run lapsing no_money)).1
expire_due_authorizations-IsSound_example =
    expire_due_authorizations-IsSound "sweep" (run lapsing no_money)
      (run-IsSound lapsing no_money no_money-IsSound)

-- A capture that was prepared from an older read, in which the hold was still whole.
abbrev stale_capture : Staged MoneyStore
stale_capture = record {
  mutations =
      update_and_post (captured_row 1000 (pos 100) (record hold { captured_minor = pos 0 })) leg
      ∷ [];
  events = [];
  audits = [];
  next_id = 43;
}

with_hold-Agrees : Agrees with_hold.store.authorizations with_hold.store.ledger
unfolding get values ledger_sum sum_entries ◌+ℤ◌ ◌-ℤ◌ -ℤ◌
with_hold-Agrees = record { captured = λ id. ground arith; refunded = λ id. ground arith }

commit-Agrees_example :
    Agrees
      (commit leg stale_capture with_hold).1.store.authorizations
      (commit leg stale_capture with_hold).1.store.ledger
commit-Agrees_example =
    commit-Agrees leg (captured_row 1000 (pos 100) (record hold { captured_minor = pos 0 })) leg
      stale_capture with_hold refl (unfold get in refl) (unfold captured_row in refl)
      with_hold-Agrees
