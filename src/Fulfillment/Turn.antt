-- ===== src/Fulfillment/Turn.antt =====
-- What src/modules/fulfillment/service.ts promises of one transaction: what becomes of the rows, and which
-- closure events go out with that.
use text.Mathlib.Text.{◌==◌ as str_eq}
use wasla_core.Base.{
  ℕ, ◌+◌, ◌≤◌, ◌<◌, String, Option, none, some, Bool, true, false, ◌&&◌, ◌||◌, ◌≡◌, List, [], ◌∷◌,
  ◌++◌, All, ◌==◌, if◌then◌else◌,
}
use wasla_core.Base.Table.{Table, get, put}
use wasla_core.Eventing.Envelope.{EventEnvelope}
use wasla_core.Eventing.Outbox.{OutboxRecord}
use wasla_core.Fulfillment.Domain.{Fulfillment, is_closed}
pub mod Counts
pub mod Invariant

abbrev pub names_closure : String → Bool
names_closure event_type =
    str_eq event_type "core.fulfillment.cancelled" || str_eq event_type "core.fulfillment.completed"

-- Whether an event says that a fulfillment is closed.
abbrev pub is_closure : ℕ → EventEnvelope → Bool
is_closure id e = names_closure e.event_type && e.entity_id == id

unfoldable pub closures : ℕ → List OutboxRecord → ℕ
closures id [] = 0
closures id (r ∷ rs) = if is_closure id r.event then closures id rs + 1 else closures id rs

-- What a closure settles, and no later command changes.
pub record SameClosure (f f' : Fulfillment) : Type 0 where
  pub status : f'.status ≡ f.status
  pub settlement_state : f'.settlement_state ≡ f.settlement_state
  pub completed_at : f'.completed_at ≡ f.completed_at
  pub closure_reason : f'.closure_reason ≡ f.closure_reason
  pub fulfillment_id : f'.fulfillment_id ≡ f.fulfillment_id

abbrev pub IsOpen : Fulfillment → Type 0
IsOpen f = is_closed f.status ≡ false

abbrev pub IsClosed : Fulfillment → Type 0
IsClosed f = is_closed f.status ≡ true

abbrev pub Quiet : EventEnvelope → Type 0
Quiet e = names_closure e.event_type ≡ false

-- Events with identifiers below a bound that say of no fulfillment that it is closed.
abbrev pub Quiets : ℕ → List EventEnvelope → Type 0
Quiets n es = All (λ e. Quiet e × (e.event_id < n)) es

-- The last event is the closure's, and its identifier is new.
pub record Announces (id n n' : ℕ) (es : List EventEnvelope) : Type 0 where
  pub before : List EventEnvelope
  pub closure : EventEnvelope
  pub events : es ≡ before ++ closure ∷ []
  pub quiet : Quiets closure.event_id before
  pub fresh : n ≤ closure.event_id
  pub used : closure.event_id < n'
  pub named : names_closure closure.event_type ≡ true
  pub about : closure.entity_id ≡ id

-- One transaction that read the rows `seen` and committed on the rows `t`, with the new identifiers
-- between `n` and `n'` and the events `es`.
pub data Turn (seen t : Table Fulfillment) (n n' : ℕ) (es : List EventEnvelope)
    : Table Fulfillment → Type 0 where
  opens :
      (f : Fulfillment)
      → n ≤ f.fulfillment_id
      → f.fulfillment_id < n'
      → IsOpen f
      → Quiets n' es
      → Turn seen t n n' es (put f.fulfillment_id f t)
  refuses :
      (f : Fulfillment)
      → n ≤ f.fulfillment_id
      → f.fulfillment_id < n'
      → IsClosed f
      → Announces f.fulfillment_id n n' es
      → Turn seen t n n' es (put f.fulfillment_id f t)
  dispatches :
      (old f : Fulfillment)
      → get f.fulfillment_id t ≡ some old
      → IsOpen old
      → IsOpen f
      → Quiets n' es
      → Turn seen t n n' es (put f.fulfillment_id f t)
  closes :
      (old f : Fulfillment)
      → get f.fulfillment_id t ≡ some old
      → IsOpen old
      → IsClosed f
      → Announces f.fulfillment_id n n' es
      → Turn seen t n n' es (put f.fulfillment_id f t)
  -- A fact is noted on a closed row as it stands.
  marks :
      (old f : Fulfillment)
      → get f.fulfillment_id t ≡ some old
      → IsClosed old
      → SameClosure old f
      → Quiets n' es
      → Turn seen t n n' es (put f.fulfillment_id f t)
  -- A fact is noted on a closed row as it was read.
  traces :
      (k : ℕ) (old f : Fulfillment)
      → get k seen ≡ some old
      → IsClosed old
      → SameClosure old f
      → Quiets n' es
      → Turn seen t n n' es (put f.fulfillment_id f t)
