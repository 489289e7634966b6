-- ===== src/Eventing/Envelope.antt =====
-- src/platform/eventing/envelope.ts. Timestamps are milliseconds since the epoch: every one of them
-- is written by `toISOString`, whose texts compare as the instants do.
use wasla_core.Base.{ℕ, String, Option, List}
use wasla_core.Base.Values.{Value}

pub record EventEnvelope : Type 0 where
  pub event_id : ℕ
  pub event_type : String
  pub version : ℕ
  pub producer : String
  pub occurred_at : ℕ
  pub correlation_id : String
  pub causation_id : Option String
  pub entity_type : String
  pub entity_id : ℕ
  pub payload : List (String × Value)

pub record NewEventInput : Type 0 where
  pub event_type : String
  pub version : ℕ
  pub producer : String
  pub occurred_at : ℕ
  pub correlation_id : String
  pub causation_id : Option String
  pub entity_type : String
  pub entity_id : ℕ
  pub payload : List (String × Value)

-- `makeEvent`; the first argument is what `newId` returns.
unfoldable pub make_event : ℕ → NewEventInput → EventEnvelope
make_event new_id input = record {
  event_id = new_id;
  event_type = input.event_type;
  version = input.version;
  producer = input.producer;
  occurred_at = input.occurred_at;
  correlation_id = input.correlation_id;
  causation_id = input.causation_id;
  entity_type = input.entity_type;
  entity_id = input.entity_id;
  payload = input.payload;
}
