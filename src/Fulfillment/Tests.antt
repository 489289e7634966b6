-- ===== src/Fulfillment/Tests.antt =====
-- Runs of the model of src/modules/fulfillment at a concrete store.
use wasla_core.Fulfillment.Service.Intake.{MarketOrderCreatedPayload, consume_market_order}
use wasla_core.Fulfillment.Service.Jobs.{CancelInput, cancel}
use wasla_core.Fulfillment.Service.Reads.{
  list_financially_inconsistent, list_pending_financial_decision,
}
use wasla_core.Fulfillment.Repeats.{repeat_intake}
use wasla_core.Fulfillment.Unreleased.{cancel-Unreleased}
use wasla_core.Fulfillment.History.Reconciled.{reconciled}
use wasla_core.Fulfillment.Payments.{get_authorization}
use wasla_core.Fulfillment.Domain.{unsettled, coordinating, held}
use wasla_core.Platform.UnitOfWork.{throw}
use wasla_core.Platform.Errors.{plain}
use wasla_core.Money.Service.{or_existing}
use wasla_core.Money.Domain.{positive_amount, assert_balanced, sum_entries}
use wasla_core.Money.Store.{find_transaction_by_reference, ledger_reference_clash, defer_balance}
use wasla_core.Base.Int.{◌+ℤ◌, -ℤ◌}
use wasla_core.Fulfillment.Store.{all_fulfillments, find_by_order_reference}
use wasla_core.Base.Sort.{sort}
use wasla_core.Fulfillment.History.{job_reported}
use wasla_core.Base.{true, ◌⊎◌, Option, none, some, ◌≡◌, refl, [], ◌∷◌}
use wasla_core.Base.Int.{pos, ◌-ℤ◌}
use wasla_core.Base.Table.{get, put, values}
use wasla_core.Eventing.Envelope.{EventEnvelope}
use wasla_core.Fulfillment.Domain.{Fulfillment, cancelled, released}
use wasla_core.Fulfillment.History.{
  Command, order_created, job_accepted, cancels, perform, History, starts, commands, now, before,
}
use wasla_core.Fulfillment.History.Closures.{closed_once, closed_for_good}
use wasla_core.Fulfillment.Moves.MoneyPort.{money_port-IsDiscreet}
use wasla_core.Fulfillment.Payments.{Coordination, FulfillmentPaymentPort, money_port}
use wasla_core.Fulfillment.Turn.{closures, SameClosure}
use wasla_core.Money.Domain.{PaymentAuthorization, authorized, identity, active}
use wasla_core.Platform.Ids.{uuid}
use wasla_core.Platform.UnitOfWork.{◌>>=◌, run_mutations, verify}
use wasla_core.Platform.Texts.{is_empty_text, is_currency}
use wasla_core.Platform.Errors.{ok}
use wasla_core.Money.Store.{
  authorization_refusal, authorization_row_refusal, defer_ledger_agreement, ledger_sum,
}

abbrev hold : PaymentAuthorization
hold = record {
  authorization_id = 7;
  wallet_id = 5;
  amount_minor = pos 300;
  captured_minor = pos 0;
  refunded_minor = pos 0;
  currency = "USD";
  status = authorized;
  business_reference = "order";
  created_at = 10;
  captured_at = none;
  voided_at = none;
  expires_at = none;
  void_reason = none;
}

abbrev before_orders : Coordination
before_orders = record {
  store = record {
    money = record {
      wallets =
          (
            5,
            record {
              wallet_id = 5;
              owner_type = identity;
              owner_id = 900;
              currency = "USD";
              status = active;
              created_at = 5;
            },
          )
          ∷ [];
      authorizations = (7, hold) ∷ [];
      ledger = [];
    };
    organizations = 2 ∷ [];
    fulfillments = [];
  };
  outbox = [];
  audit_log = [];
  next_id = 20;
  now = 1000;
}

abbrev order_event : EventEnvelope
order_event = record {
  event_id = 11;
  event_type = "market.order.created";
  version = 1;
  producer = "market";
  occurred_at = 900;
  correlation_id = "c1";
  causation_id = none;
  entity_type = "order";
  entity_id = 12;
  payload = [];
}

abbrev order_payload : MarketOrderCreatedPayload
order_payload = record {
  order_id = "order-1";
  organization_id = 2;
  requested_service = "delivery";
  payment_authorization_id = some (uuid 7);
}

abbrev order_command : Command
order_command = order_created order_event order_payload

abbrev cancel_command : Command
cancel_command =
    cancels (record { fulfillment_id = 20; reason = "customer left"; correlation_id = "c2" })

abbrev accept_command : Command
accept_command =
    job_accepted order_event (record { fulfillment_id = 20; job_id = "job-1"; accepted_at = 950 })

abbrev port : Option FulfillmentPaymentPort
port = some money_port

abbrev taken : Coordination
taken = (perform port order_command before_orders before_orders).1

abbrev cancelled_once : Coordination
cancelled_once = (perform port cancel_command taken taken).1

-- The cancellation again, by a command that had read the open row.
abbrev cancelled_late : Coordination
cancelled_late = (perform port cancel_command taken cancelled_once).1

abbrev orders : History port (cancelled_late ∷ cancelled_once ∷ taken ∷ before_orders ∷ [])
orders =
    commands cancel_command taken cancelled_once (taken ∷ before_orders ∷ []) (before _ _ (now _)) (
      commands cancel_command taken taken (before_orders ∷ []) (now _) (
        commands order_command before_orders before_orders [] (now _)
          (starts before_orders refl refl)))

abbrev cancelled_order : Fulfillment
cancelled_order = record {
  fulfillment_id = 20;
  organization_id = 2;
  market_order_reference = "order-1";
  move_job_reference = none;
  payment_authorization_id = some 7;
  status = cancelled;
  settlement_state = released;
  created_at = 1000;
  completed_at = some 1000;
  closure_reason = some "customer left";
  executed_after_cancellation_at = none;
  executed_after_cancellation_job_reference = none;
}

late_answer : (perform port cancel_command taken cancelled_once).0 ≡ ok cancelled_order
unfolding get perform values ◌>>=◌ money_port run_mutations verify put is_empty_text
    authorization_refusal authorization_row_refusal is_currency defer_ledger_agreement ledger_sum
    ◌-ℤ◌
late_answer = refl

closed_once_example : closures 20 (values cancelled_late.outbox) ≡ 1
unfolding get perform values ◌>>=◌ money_port run_mutations verify put is_empty_text
    authorization_refusal authorization_row_refusal is_currency defer_ledger_agreement ledger_sum
    ◌-ℤ◌
closed_once_example =
    closed_once port cancelled_late (cancelled_once ∷ taken ∷ before_orders ∷ [])
      money_port-IsDiscreet orders 20

closed_for_good_example :
    (f' : Fulfillment) × (get 20 cancelled_late.store.fulfillments ≡ some f')
    × SameClosure cancelled_order f'
unfolding get perform values ◌>>=◌ money_port run_mutations verify put is_empty_text
    authorization_refusal authorization_row_refusal is_currency defer_ledger_agreement ledger_sum
    ◌-ℤ◌
closed_for_good_example =
    closed_for_good port cancelled_late (cancelled_once ∷ taken ∷ before_orders ∷ [])
      money_port-IsDiscreet orders cancelled_once (before _ _ (now _)) 20 cancelled_order refl refl

repeat_intake_example :
    ((f : Fulfillment) × (find_by_order_reference "order-1" before_orders.store ≡ some f)
      × (perform port order_command before_orders before_orders ≡ (ok f, before_orders)))
    ⊎ ((find_by_order_reference "order-1" before_orders.store ≡ none)
        × (taken.store.fulfillments ≡ before_orders.store.fulfillments))
    ⊎ ((find_by_order_reference "order-1" before_orders.store ≡ none)
        × ((f : Fulfillment) × ((perform port order_command before_orders before_orders).0 ≡ ok f)
            × ((again : EventEnvelope) (read present : Coordination)
                → read.store.fulfillments ≡ taken.store.fulfillments
                → consume_market_order port again order_payload read present ≡ (ok f, present))))
unfolding perform get closures values
repeat_intake_example =
    repeat_intake port order_event order_payload before_orders before_orders money_port-IsDiscreet
      (record {
        sent = record { keyed = tt; below = tt };
        keyed = tt;
        below = tt;
        counted = λ k. refl;
      })

abbrev report_command : Command
report_command =
    job_reported order_event
      (record { fulfillment_id = 20; job_id = "job-1"; delivered = true; completed_at = 990 })

-- A report of the work, by a command that had read the open row.
abbrev reported_late : Coordination
reported_late = (perform port report_command taken cancelled_once).1

abbrev executed_order : Fulfillment
executed_order = record cancelled_order {
  executed_after_cancellation_at = some 990;
  executed_after_cancellation_job_reference = some "job-1";
}

reconciled_example :
    (list_financially_inconsistent (some 2) reported_late ≡ executed_order ∷ [])
    × (list_pending_financial_decision (some 2) reported_late ≡ executed_order ∷ [])
unfolding get perform values ◌>>=◌ money_port run_mutations verify put is_empty_text
    authorization_refusal authorization_row_refusal is_currency defer_ledger_agreement ledger_sum
    ◌-ℤ◌ all_fulfillments sort or_existing find_transaction_by_reference positive_amount
    assert_balanced sum_entries ◌+ℤ◌ -ℤ◌ ledger_reference_clash defer_balance
reconciled_example =
    reconciled port reported_late (cancelled_once ∷ taken ∷ before_orders ∷ [])
      money_port-IsDiscreet
      (commands report_command taken cancelled_once (taken ∷ before_orders ∷ [])
        (before _ _ (now _))
        (commands cancel_command taken taken (before_orders ∷ []) (now _) (
          commands order_command before_orders before_orders [] (now _)
            (starts before_orders refl refl))))
      (some 2)

abbrev unreachable_port : FulfillmentPaymentPort
unreachable_port = record {
  capture_hold_within = λ _ _. throw (plain "money is unreachable");
  void_within = λ _ _ _. throw (plain "money is unreachable");
  get_authorization = get_authorization;
}

abbrev open_order : Fulfillment
open_order = record cancelled_order {
  status = coordinating;
  settlement_state = held;
  completed_at = none;
  closure_reason = none;
}

abbrev cancel_input : CancelInput
cancel_input = record { fulfillment_id = 20; reason = "customer left"; correlation_id = "c2" }

cancel-Unreleased_example :
    (cancel (some unreachable_port) cancel_input taken taken).0
    ≡ ok (record cancelled_order { settlement_state = unsettled })
unfolding get perform values ◌>>=◌ money_port run_mutations verify put is_empty_text
cancel-Unreleased_example =
    (cancel-Unreleased unreachable_port cancel_input taken open_order 7
      (plain "money is unreachable") refl refl refl refl refl refl refl refl).0
