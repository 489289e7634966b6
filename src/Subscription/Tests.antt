-- ===== src/Subscription/Tests.antt =====
-- Examples of the subscriptions' theorems at work.
use wasla_core.Base.{none, some, true, false, ◌≡◌, refl, ◌⊎◌, [], ◌∷◌, arith}
use wasla_core.Base.Int.{pos}
use wasla_core.Base.Table.{get, values, IsKeyed}
use wasla_core.Money.Domain.{int, Wallet, WalletOwnerType, WalletStatus}
use wasla_core.Platform.Errors.{Failure, ok, err}
use wasla_core.Platform.Ids.{uuid}
use wasla_core.Platform.UnitOfWork.{Scope, System, ◌>>=◌, commit, run_mutations, verify}
use wasla_core.Platform.Texts.{trim, is_empty_text, is_currency}
use wasla_core.Subscription.Domain.{
  organization, active, pending, settled, month, active_plan, Plan, PlanGrant, Subscription,
  SubscriptionPeriod, UsageRecord, EntitlementDecision, positive_quantity,
}
use wasla_core.Subscription.Entitlement.{CheckEntitlementInput, check_entitlement, asked_quantity}
use wasla_core.Subscription.Granting.{any, gives, entitles, check_entitlement-allowed}
use wasla_core.Subscription.Metering.{IsTidy, Counted, record_usage-counts_once}
use wasla_core.Subscription.Outcomes.{IsEarlier, IsReport}
use wasla_core.Subscription.Store.{SubscriptionStore, find_period_covering, usage_total, total_of}
use wasla_core.Subscription.Subscribers.{subscription_references, subscription_currency_check}
use wasla_core.Subscription.Periods.{money_agreement, with_period, write_period}
use wasla_core.Subscription.Periods.Disjoint.{IsDisjoint, period_key, write_period-IsDisjoint}
use wasla_core.Subscription.Ending.{CancelInput, cancel_subscription}
use wasla_core.Subscription.Ending.Honoured.{Honoured, cancel-Honoured}
use wasla_core.Subscription.Usage.{RecordUsageInput, record_usage, unset, required_text}

abbrev seats : PlanGrant
seats = record { plan_id = 2; feature_key = "seats"; limit_value = some 10 }

abbrev member : Subscription
member = record {
  subscription_id = 3;
  owner_type = organization;
  owner_id = 5;
  plan_id = 2;
  wallet_id = 6;
  status = active;
  created_at = 100;
  cancelled_at = none;
  cancel_reason = none;
  ended_at = none;
}

abbrev first_period : SubscriptionPeriod
first_period = record {
  period_id = 7;
  subscription_id = 3;
  sequence = 1;
  starts_at = 100;
  ends_at = 1000;
  currency = "EUR";
  amount_minor = 0;
  status = settled;
  authorization_id = none;
  created_at = 100;
  settled_at = some 100;
  uncollectible_reason = none;
}

abbrev four_seats : UsageRecord
four_seats = record {
  usage_id = 8;
  period_id = 7;
  feature_key = "seats";
  quantity = 4;
  usage_reference = "r1";
  recorded_at = 200;
  correlation_id = none;
}

abbrev purse : Wallet
purse = record {
  wallet_id = 6;
  owner_type = WalletOwnerType.organization;
  owner_id = 5;
  currency = "EUR";
  status = WalletStatus.active;
  created_at = 50;
}

abbrev team : Plan
team = record {
  plan_id = 2;
  code = "team";
  name = "Team";
  currency = "EUR";
  amount_minor = 500;
  billing_interval = month;
  interval_count = 1;
  status = active_plan;
  created_at = 50;
  activated_at = some 60;
  retired_at = none;
}

abbrev system : System SubscriptionStore
system = record {
  store = record {
    money = record { wallets = (6, purse) ∷ []; authorizations = []; ledger = [] };
    plans = (2, team) ∷ [];
    grants = seats ∷ [];
    subscriptions = (3, member) ∷ [];
    periods = (7, first_period) ∷ [];
    usage = (8, four_seats) ∷ [];
  };
  outbox = [];
  audit_log = [];
  next_id = 9;
  now = 300;
}

abbrev report : RecordUsageInput
report = record {
  subscription_id = uuid 3;
  feature_key = " seats ";
  quantity = int (pos 2);
  usage_reference = "r2";
  at = unset;
  correlation_id = "c";
}

abbrev question : CheckEntitlementInput
question = record {
  owner_type = organization;
  owner_id = uuid 5;
  feature_key = "seats ";
  quantity = some (int (pos 6));
  at = unset;
}

system-IsTidy : IsTidy system
unfolding get
system-IsTidy = ground arith

record_usage-counts_once_example :
    let r = record_usage report system system in
    IsTidy r.1
    × (((r.1.store ≡ system.store) × ((e : Failure) × (r.0 ≡ err e)))
        ⊎ ((r.1.store ≡ system.store)
            × ((u : UsageRecord) × (r.0 ≡ ok (u, false)) × IsEarlier report system u))
        ⊎ ((u : UsageRecord) × IsReport report system u × Counted system u r))
record_usage-counts_once_example = record_usage-counts_once report system system system-IsTidy

check_entitlement-allowed_example :
    (d : EntitlementDecision) × (check_entitlement question system ≡ ok d)
    × (d.allowed
        ≡ any (gives organization 5 "seats" 6 300 system.store) (values system.store.subscriptions))
check_entitlement-allowed_example =
    check_entitlement-allowed question system 5 6 300 "seats" refl
      (unfold required_text is_empty_text in refl) (unfold asked_quantity in refl) refl

-- The sixth to tenth seats fit, and the reporter's new reference is written.
question_given :
    any (gives organization 5 "seats" 6 300 system.store) (values system.store.subscriptions) ≡ true
unfolding any entitles values usage_total total_of
question_given = refl

report_answer :
    (record_usage report system system).0
    ≡ ok (
      record four_seats {
        usage_id = 9;
        quantity = 2;
        usage_reference = "r2";
        recorded_at = 300;
        correlation_id = some "c";
      },
      true,
    )
unfolding record_usage ◌>>=◌ required_text is_empty_text positive_quantity get values commit
    run_mutations verify
report_answer = refl

abbrev second_period : SubscriptionPeriod
second_period = record first_period {
  period_id = 9;
  sequence = 2;
  starts_at = 1000;
  ends_at = 2000;
  amount_minor = 500;
  status = pending;
  settled_at = none;
}

abbrev before : Scope SubscriptionStore
before = record { store = system.store; deferred = [] }

abbrev after : Scope SubscriptionStore
after = record { store = with_period second_period system.store; deferred = money_agreement 9 ∷ [] }

periods-IsKeyed : IsKeyed period_key before.store.periods
unfolding get
periods-IsKeyed = ground arith

periods-IsDisjoint : IsDisjoint before.store.periods
unfolding get
periods-IsDisjoint i j at p q e d same c c' = ground (arith, e, d)

second_period_written : write_period second_period before ≡ ok after
unfolding write_period is_currency values get
second_period_written = refl

write_period-IsDisjoint_example :
    IsKeyed period_key after.store.periods × IsDisjoint after.store.periods
write_period-IsDisjoint_example =
    write_period-IsDisjoint second_period before after periods-IsKeyed periods-IsDisjoint
      second_period_written

abbrev leave : CancelInput
leave = record { subscription_id = uuid 3; reason = " moving "; correlation_id = "c" }

leave_said : required_text "reason is required" leave.reason ≡ ok "moving"
unfolding required_text is_empty_text
leave_said = refl

moving_not_empty : is_empty_text "moving" ≡ false
unfolding is_empty_text
moving_not_empty = refl

member_stored : get 3 system.store.subscriptions ≡ some member
unfolding get
member_stored = refl

member_covered : find_period_covering 3 300 system.store ≡ some first_period
unfolding find_period_covering values
member_covered = refl

member_referred : subscription_references member system.store ≡ none
unfolding subscription_references get
member_referred = refl

member_billed : subscription_currency_check member system.store ≡ none
unfolding subscription_currency_check get trim
member_billed = refl

cancel-Honoured_example :
    Honoured system member first_period "moving" (cancel_subscription leave system system)
cancel-Honoured_example =
    cancel-Honoured leave system member first_period "moving" refl leave_said moving_not_empty
      member_stored refl member_covered refl member_referred member_billed
