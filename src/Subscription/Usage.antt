-- ===== src/Subscription/Usage.antt =====
-- src/modules/subscription/service.ts: `recordUsage`. It reads one state, and its transaction commits on the
-- present one, which other commands may have changed in between.
use wasla_core.Base.{ℕ, String, none, some, Bool, true, false, ◌∷◌, [], if◌then◌else◌}
use wasla_core.Base.Int.{pos}
use wasla_core.Base.Values.{num, text, id}
use wasla_core.Money.Domain.{JsNumber}
use wasla_core.Platform.Audit.{PendingAuditEntry}
use wasla_core.Platform.Errors.{Result, ok, err, invalid, conflict}
use wasla_core.Platform.Ids.{IdText, assert_id}
use wasla_core.Platform.Texts.{trim, is_empty_text}
use wasla_core.Platform.UnitOfWork.{
  System, Work, nothing_staged, finish, pure, throw, lift, reads, or_throw, ◌>>=◌, ◌>>◌, new_id,
  stage, audit,
}
use wasla_core.Subscription.Domain.{SubscriptionPeriod, UsageRecord, positive_quantity}
use wasla_core.Subscription.Store.{
  SubscriptionStore, require_subscription, find_period_covering, find_usage_by_reference,
  insert_usage, is_voided,
}

-- `input.at`: not given, an instant, or a text that `Date` cannot read.
pub data At : Type 0 where
  unset : At
  instant_at : ℕ → At
  unreadable : At

-- `input.at ? new Date(input.at) : this.clock.now()`, and the test on it.
abbrev pub instant_of : At → ℕ → Result ℕ
instant_of unset now = ok now
instant_of (instant_at at) now = ok at
instant_of unreadable now = err (invalid "at is not a valid instant")

-- A text with the spaces taken off, which must not be empty.
unfoldable pub required_text : String → String → Result String
required_text message s = if is_empty_text s then err (invalid message) else ok (trim s)

pub record RecordUsageInput : Type 0 where
  pub subscription_id : IdText
  pub feature_key : String
  pub quantity : JsNumber
  pub usage_reference : String
  pub at : At
  pub correlation_id : String

abbrev pub UsageWork : Type 0 → Type 0
UsageWork = Work SubscriptionStore

abbrev pub usage_entry : ℕ → UsageRecord → String → PendingAuditEntry
usage_entry subscription_id u correlation_id = record {
  action = "subscription.usage_recorded";
  entity_type = "usage_record";
  entity_id = u.usage_id;
  correlation_id = correlation_id;
  metadata =
      ("subscription_id", id subscription_id)
      ∷ ("period_id", id u.period_id)
      ∷ ("feature_key", text u.feature_key)
      ∷ ("quantity", num (pos u.quantity))
      ∷ [];
}

-- The row that is new, staged with its audit entry.
unfoldable pub stage_usage :
    ℕ → SubscriptionPeriod → String → ℕ → String → ℕ → String → UsageWork (UsageRecord × Bool)
unfolding insert_usage
stage_usage subscription_id period feature_key quantity reference at correlation_id = do
  usage_id ← new_id
  let usage : UsageRecord = record {
    usage_id = usage_id;
    period_id = period.period_id;
    feature_key = feature_key;
    quantity = quantity;
    usage_reference = reference;
    recorded_at = at;
    correlation_id = some correlation_id;
  }
  stage (insert_usage usage)
  audit (usage_entry subscription_id usage correlation_id)
  pure (usage, true)

-- What follows the tests on the period: a report that is there already is answered with its row.
unfoldable pub report_usage :
    ℕ → SubscriptionPeriod → String → ℕ → String → ℕ → String → UsageWork (UsageRecord × Bool)
unfolding stage_usage find_usage_by_reference
report_usage subscription_id period feature_key quantity reference at correlation_id = do
  existing ← reads (λ sys. find_usage_by_reference period.period_id feature_key reference sys.store)
  elim existing [
    | some u ↦ pure (u, false)
    | none ↦ stage_usage subscription_id period feature_key quantity reference at correlation_id
  ]

-- The test on the covering period.
abbrev pub unless_voided : {A : Type 0} → SubscriptionPeriod → UsageWork A → UsageWork A
unless_voided period work =
    if is_voided period.status
    then throw (conflict "period was voided and cannot accrue usage")
    else work

unfoldable pub usage_body : RecordUsageInput → UsageWork (UsageRecord × Bool)
unfolding report_usage require_subscription find_period_covering
usage_body input = do
  subscription_id ← lift (assert_id "subscription_id" input.subscription_id)
  feature_key ← lift (required_text "feature_key is required" input.feature_key)
  reference ← lift (required_text "usage_reference is required" input.usage_reference)
  quantity ←
      or_throw (positive_quantity input.quantity) (invalid "quantity must be a positive integer")
  required ← reads (λ sys. require_subscription subscription_id sys.store)
  subscription ← lift required
  now ← reads (λ sys. sys.now)
  at ← lift (instant_of input.at now)
  covering ← reads (λ sys. find_period_covering subscription.subscription_id at sys.store)
  period ← or_throw covering (conflict "no period covers that instant")
  unless_voided period (
      report_usage subscription.subscription_id period feature_key quantity reference at
        input.correlation_id)

-- `recordUsage`; where the report is there already nothing is staged, and an empty commit changes nothing.
unfoldable pub record_usage :
    RecordUsageInput
    → System SubscriptionStore
    → System SubscriptionStore
    → Result (UsageRecord × Bool) × System SubscriptionStore
unfolding usage_body
record_usage input seen sys = finish (usage_body input seen (nothing_staged sys)) sys
