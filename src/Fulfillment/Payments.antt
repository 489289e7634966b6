-- ===== src/Fulfillment/Payments.antt =====
-- src/modules/fulfillment/service.ts: the money module as fulfillment uses it (`FulfillmentPaymentPort`),
-- and how a hold is inspected, settled and released. The work of the port joins the caller's unit of work.
use Prim.Native.String.{◌++◌ as concat}
use package.text.Mathlib.Text.{◌==◌ as str_eq}
use wasla_core.Base.{
  ℕ, String, Option, none, some, Bool, true, false, List, [], ◌∷◌, leb, if◌then◌else◌,
}
use wasla_core.Base.Int.{ℤ, pos, ltb_ℤ}
use wasla_core.Base.Table.{get}
use wasla_core.Base.Values.{text, id}
use wasla_core.Fulfillment.Domain.{
  Fulfillment, SettlementState, unfunded, held, captured, partially_captured, released, unsettled,
}
use wasla_core.Fulfillment.Store.{Core}
use wasla_core.Money.Domain.{PaymentAuthorization, AuthorizationStatus, authorized, voided}
use wasla_core.Money.Holds.Captures.{capture_hold_within}
use wasla_core.Money.Holds.Voids.{void_within}
use wasla_core.Money.Service.{Money, MoneyWork}
use wasla_core.Money.Store.{MoneyStore}
use wasla_core.Platform.Audit.{PendingAuditEntry}
use wasla_core.Platform.Errors.{
  Failure, core, plain, transition_lost, intake_lost, Result, ok, err, not_found,
}
use wasla_core.Platform.Ids.{IdText, uuid, malformed, uuid_text}
use wasla_core.Platform.UnitOfWork.{System, Work, pure, ◌>>=◌}
use wasla_core.Platform.UnitOfWork.Parts.{within, part_of}

abbrev pub Coordination : Type 0
Coordination = System Core

abbrev pub CoreWork : Type 0 → Type 0
CoreWork = Work Core

abbrev pub with_money : MoneyStore → Core → Core
with_money m s = record s { money = m }

-- Work of the money module on a fulfillment's unit of work.
abbrev pub of_money : {A : Type 0} → MoneyWork A → CoreWork A
of_money = within (λ (s : Core). s.money) with_money

-- The state of the money module, as a port that only reads has it.
abbrev pub money_of_core : Coordination → Money
money_of_core = part_of (λ (s : Core). s.money) with_money

pub record FulfillmentPaymentPort : Type 0 where
  pub capture_hold_within : ℕ → String → MoneyWork PaymentAuthorization
  pub void_within : ℕ → String → String → MoneyWork PaymentAuthorization
  pub get_authorization : ℕ → Money → Result PaymentAuthorization

-- `MoneyService.getAuthorization`
unfoldable pub get_authorization : ℕ → Money → Result PaymentAuthorization
get_authorization authorization_id sys = elim (get authorization_id sys.store.authorizations) [
  | none ↦ err (not_found "payment authorization not found")
  | some a ↦ ok a
]

-- The money module as the application wires it.
unfoldable pub money_port : FulfillmentPaymentPort
unfolding capture_hold_within void_within get_authorization
money_port = record {
  capture_hold_within = λ authorization_id correlation_id. capture_hold_within (record {
    authorization_id = uuid authorization_id;
    amount_minor = none;
    capture_reference = none;
    correlation_id = correlation_id;
  });
  void_within = λ authorization_id reason correlation_id. void_within (record {
    authorization_id = uuid authorization_id;
    reason = reason;
    correlation_id = correlation_id;
  });
  get_authorization = get_authorization;
}

-- `err.message`
abbrev pub message_of : Failure → String
message_of (core e) = e.message
message_of (plain message) = message
message_of (transition_lost fulfillment_id) =
    concat "fulfillment " (concat (uuid_text fulfillment_id) " was transitioned concurrently")
message_of (intake_lost reference) = concat "order " (concat reference " was taken up concurrently")

pub record HoldInspection : Type 0 where
  pub usable : Bool
  pub known : Bool
  pub settlement : SettlementState
  pub reason : Option String
  pub captured_minor : Option ℤ

abbrev pub usable_hold : SettlementState → Option ℤ → HoldInspection
usable_hold settlement captured_minor = record {
  usable = true;
  known = true;
  settlement = settlement;
  reason = none;
  captured_minor = captured_minor;
}

abbrev pub refused_hold : SettlementState → String → ℤ → HoldInspection
refused_hold settlement reason captured_minor = record {
  usable = false;
  known = true;
  settlement = settlement;
  reason = some reason;
  captured_minor = some captured_minor;
}

abbrev pub missing_hold : HoldInspection
missing_hold = record {
  usable = false;
  known = false;
  settlement = unfunded;
  reason = some "payment_hold_not_found";
  captured_minor = none;
}

abbrev pub has_expired : ℕ → Option ℕ → Bool
has_expired now none = false
has_expired now (some at) = leb at now

-- What `inspectHold` makes of the authorization that it read.
abbrev pub inspect_status : ℕ → AuthorizationStatus → PaymentAuthorization → HoldInspection
inspect_status now AuthorizationStatus.captured a =
    refused_hold unsettled "payment_hold_already_captured" a.captured_minor
inspect_status now AuthorizationStatus.partially_captured a =
    refused_hold partially_captured "payment_hold_partially_captured" a.captured_minor
inspect_status now voided a = refused_hold released "payment_hold_not_authorized" a.captured_minor
inspect_status now authorized a =
    if has_expired now a.expires_at
    then refused_hold held "payment_hold_expired" a.captured_minor
    else usable_hold held (some a.captured_minor)

abbrev pub inspect_read : ℕ → Result PaymentAuthorization → HoldInspection
inspect_read now (err e) = missing_hold
inspect_read now (ok a) = inspect_status now a.status a

-- The authorization that a reference names; no text that is not a UUID's names one.
abbrev pub look_up : FulfillmentPaymentPort → IdText → Money → Result PaymentAuthorization
look_up port (uuid authorization_id) money = port.get_authorization authorization_id money
look_up port (malformed reference) money = err (not_found "payment authorization not found")

abbrev pub is_blank : IdText → Bool
is_blank (uuid authorization_id) = false
is_blank (malformed reference) = str_eq reference ""

abbrev pub inspect_declared : Option FulfillmentPaymentPort → IdText → Coordination → HoldInspection
inspect_declared none reference sys = usable_hold held none
inspect_declared (some port) reference sys =
    inspect_read sys.now (look_up port reference (money_of_core sys))

-- `inspectHold`
unfoldable pub inspect_hold :
    Option FulfillmentPaymentPort → Option IdText → Coordination → HoldInspection
inspect_hold payments none sys = usable_hold unfunded none
inspect_hold payments (some reference) sys =
    if is_blank reference
    then usable_hold unfunded none
    else inspect_declared payments reference sys

-- Where bringing a hold to its end left the money, and the entries for the audit trail that do not wait
-- for the transaction.
pub record SettlementOutcome : Type 0 where
  pub settlement : SettlementState
  pub captured_minor : Option ℤ
  -- Why a settlement was refused, where it was.
  pub refusal : Option String
  pub recorded : List PendingAuditEntry

abbrev pub no_hold : SettlementOutcome
no_hold = record { settlement = unfunded; captured_minor = none; refusal = none; recorded = [] }

abbrev pub released_hold : PaymentAuthorization → SettlementOutcome
released_hold hold = record {
  settlement = if ltb_ℤ (pos 0) hold.captured_minor then partially_captured else released;
  captured_minor = some hold.captured_minor;
  refusal = none;
  recorded = [];
}

-- The entry that records a hold which could not be released.
abbrev pub inconsistency : Fulfillment → ℕ → String → String → Failure → PendingAuditEntry
inconsistency f hold reason correlation_id e = record {
  action = "fulfillment.settlement_inconsistent";
  entity_type = "fulfillment";
  entity_id = f.fulfillment_id;
  correlation_id = correlation_id;
  metadata =
      ("hold_reference", id hold)
      ∷ ("attempted", text "void")
      ∷ ("release_reason", text reason)
      ∷ ("error", text (message_of e))
      ∷ [];
}

abbrev pub unsettled_hold : PendingAuditEntry → SettlementOutcome
unsettled_hold entry = record {
  settlement = unsettled;
  captured_minor = none;
  refusal = none;
  recorded = entry ∷ [];
}

-- `try { ... } catch`: where the work throws, what it staged is not kept. The source leaves it on the
-- unit of work; the money module makes all its tests before it stages.
abbrev pub attempt : {A B : Type 0} → CoreWork A → (A → B) → (Failure → CoreWork B) → CoreWork B
attempt m f handle sys staged = elim (m sys staged) [
  | ok (a, staged') ↦ ok (f a, staged')
  | err e ↦ handle e sys staged
]

abbrev pub release_with :
    FulfillmentPaymentPort → Fulfillment → ℕ → String → String → CoreWork SettlementOutcome
release_with port f hold reason correlation_id =
    attempt (of_money (port.void_within hold reason correlation_id)) released_hold
      (λ e. pure (unsettled_hold (inconsistency f hold reason correlation_id e)))

-- The port and the hold, where there are both.
abbrev pub with_hold :
    {A : Type 0}
    → Option FulfillmentPaymentPort
    → Option ℕ
    → A
    → (FulfillmentPaymentPort → ℕ → A)
    → A
with_hold none hold otherwise f = otherwise
with_hold (some port) none otherwise f = otherwise
with_hold (some port) (some hold) otherwise f = f port hold

-- `release`
unfoldable pub release :
    Option FulfillmentPaymentPort → Fulfillment → String → String → CoreWork SettlementOutcome
unfolding within
release payments f reason correlation_id =
    with_hold payments f.payment_authorization_id (pure no_hold)
      (λ port hold. release_with port f hold reason correlation_id)

abbrev pub captured_hold : PaymentAuthorization → SettlementOutcome
captured_hold hold = record {
  settlement = elim hold.status [
    | AuthorizationStatus.captured ↦ captured
    | _ ↦ partially_captured
  ];
  captured_minor = some hold.captured_minor;
  refusal = none;
  recorded = [];
}

abbrev pub refused_settlement : Failure → SettlementOutcome → SettlementOutcome
refused_settlement e outcome = record outcome {
  refusal = some (concat "payment_settlement_failed:" (message_of e));
}

-- `settle`
unfoldable pub settle :
    Option FulfillmentPaymentPort → Fulfillment → String → CoreWork SettlementOutcome
unfolding within release
settle payments f correlation_id =
    with_hold payments f.payment_authorization_id (pure no_hold) (λ port hold.
      attempt (of_money (port.capture_hold_within hold correlation_id)) captured_hold (λ e.
        release payments f (concat "settlement_failed:" (message_of e)) correlation_id
        >>= λ outcome. pure (refused_settlement e outcome)))
