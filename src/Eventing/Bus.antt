-- ===== src/Eventing/Bus.antt =====
-- src/platform/eventing/inbox.ts and bus.ts: the inbox of the consumers and `LocalEventBus`. A handler
-- is a function of the event and of a state of its own kind, which stands for all that handlers
-- change; it returns, or throws an error with a message. The calls of one publication run with no
-- others in between.
use text.Mathlib.Text.{◌==◌ as str_eq}
use wasla_core.Base.{
  ℕ, zero, suc, ◌+◌, ltb, ◌==◌, ◌&&◌, String, Option, none, some, Bool, true, false, List, [], ◌∷◌,
  ◌++◌, if◌then◌else◌, length,
}
use wasla_core.Eventing.Envelope.{EventEnvelope}
use wasla_core.Platform.Texts.{is_truthy}
pub mod Delivery
pub mod Publishing

pub record InboxRow : Type 0 where
  pub consumer : String
  pub event_id : ℕ
  pub received_at : ℕ

-- `InMemoryInbox.entries`: a text `consumer::event_id` names one consumer and one identifier.
abbrev pub Inbox : Type 0
Inbox = List InboxRow

abbrev pub is_entry : String → ℕ → InboxRow → Bool
is_entry consumer event_id row = str_eq row.consumer consumer && row.event_id == event_id

-- `seen`
unfoldable pub seen : String → ℕ → Inbox → Bool
seen consumer event_id [] = false
seen consumer event_id (row ∷ rows) =
    if is_entry consumer event_id row then true else seen consumer event_id rows

unfoldable pub claim : ℕ → String → ℕ → Inbox → Bool × Inbox
claim now consumer event_id inbox = if seen consumer event_id inbox then (false, inbox) else (
  true,
  inbox ++ record { consumer = consumer; event_id = event_id; received_at = now } ∷ [],
)

unfoldable pub release : String → ℕ → Inbox → Inbox
release consumer event_id [] = []
release consumer event_id (row ∷ rows) =
    if is_entry consumer event_id row then rows else row ∷ release consumer event_id rows

abbrev pub size : Inbox → ℕ
size inbox = length inbox

pub record Subscription {ℓ} (W : Type ℓ) : Type ℓ where
  pub consumer : String
  pub event_type : String
  pub handler : EventEnvelope → W → Option String × W

pub record DeadLetter : Type 0 where
  pub event : EventEnvelope
  pub consumer : String
  pub error : String
  pub attempts : ℕ

-- `LocalEventBus`, with its inbox and the state that the handlers share.
pub record Bus {ℓ} (W : Type ℓ) : Type ℓ where
  pub subs : List (Subscription W)
  pub dead_letters : List DeadLetter
  pub inbox : Inbox
  pub max_attempts : ℕ
  pub world : W

module _ {ℓ} {W : Type ℓ} where
  abbrev pub subscribe : Subscription W → Bus W → Bus W
  subscribe sub bus = record bus { subs = bus.subs ++ sub ∷ [] }

  abbrev pub bury : Subscription W → EventEnvelope → String → ℕ → Bus W → Bus W
  bury sub event last_error attempts bus = record bus {
    dead_letters =
        bus.dead_letters
        ++ record {
          event = event;
          consumer = sub.consumer;
          error = last_error;
          attempts = attempts;
        }
          ∷ [];
  }

  -- The inbox after a failed attempt, when `left` attempts are left.
  abbrev pub inbox_after_failure : ℕ → Subscription W → EventEnvelope → ℕ → Inbox → Inbox
  inbox_after_failure now sub event left inbox =
      let released = release sub.consumer event.event_id inbox in
      if ltb 0 left then (claim now sub.consumer event.event_id released).1 else released

  -- The loop of `deliver`, with the attempts that are left and those made.
  unfoldable pub attempt :
      ℕ → Subscription W → EventEnvelope → ℕ → ℕ → String → Bus W → Option String × Bus W
  attempt now sub event zero attempts last_error bus =
      (some last_error, bury sub event last_error attempts bus)
  attempt now sub event (suc left) attempts last_error bus =
      let (thrown, w) = sub.handler event bus.world in
      elim thrown [
        | none ↦ (none, record bus { world = w })
        | some message ↦
            attempt now sub event left (attempts + 1) message
              (record bus { world = w; inbox = inbox_after_failure now sub event left bus.inbox })
      ]

  unfoldable pub deliver : ℕ → Subscription W → EventEnvelope → Bus W → Option String × Bus W
  deliver now sub event bus =
      let (claimed, inbox) = claim now sub.consumer event.event_id bus.inbox in
      elim claimed [
        | false ↦ (none, bus)
        | true ↦ attempt now sub event bus.max_attempts 0 "" (record bus { inbox = inbox })
      ]

  abbrev pub note : Subscription W → Option String → List (String × String)
  note sub none = []
  note sub (some message) = if is_truthy (some message) then (sub.consumer, message) ∷ [] else []

  -- The loop of `publish`: who failed, with what.
  unfoldable pub deliver_all :
      ℕ → EventEnvelope → List (Subscription W) → Bus W → List (String × String) × Bus W
  deliver_all now event [] bus = ([], bus)
  deliver_all now event (sub ∷ subs) bus = elim (str_eq sub.event_type event.event_type) [
    | false ↦ deliver_all now event subs bus
    | true ↦
        let (failure, after) = deliver now sub event bus in
        let (failures, last) = deliver_all now event subs after in
        (note sub failure ++ failures, last)
  ]

  -- `publish` of a valid envelope: it throws where some consumer failed.
  abbrev pub publish : ℕ → EventEnvelope → Bus W → List (String × String) × Bus W
  publish now event bus = deliver_all now event bus.subs bus
