-- ===== src/Fulfillment/Moves/Bodies.antt =====
-- src/modules/fulfillment/service.ts: what the bodies of its transactions stage.
use wasla_core.Base.{
  ℕ, ◌+◌, ◌≤◌, ◌<◌, String, Option, none, some, Bool, true, false, ◌≡◌, refl, sym, ap, subst, ◌∙◌,
  if◌then◌else◌, List, [], ◌∷◌, ◌++◌, arith,
}
use wasla_core.Base.Int.{ℤ}
use wasla_core.Base.Values.{Value}
use wasla_core.Platform.Ids.{uuid_text}
use wasla_core.Eventing.Envelope.{EventEnvelope, make_event}
use wasla_core.Fulfillment.Domain.{Fulfillment}
use wasla_core.Fulfillment.Moves.{Prepared, EndsWith}
use wasla_core.Fulfillment.Payments.{Coordination, CoreWork, SettlementOutcome}
use wasla_core.Fulfillment.Service.{
  Body, emit_closure, cancelled_payload, completed_payload, emit_event,
}
use wasla_core.Fulfillment.Store.{Core, CoreScope, is_cancelled}
use wasla_core.Fulfillment.Turn.{Quiets, IsClosed, Announces, Quiets, names_closure}
use wasla_core.Platform.Errors.{Result, ok}
use wasla_core.Platform.Audit.{PendingAuditEntry}
use wasla_core.Platform.UnitOfWork.{stage, audit, pure, ◌>>◌, Staged, ◌>>=◌, Unit₀}
use wasla_core.Fulfillment.Moves.Settling.{Settles, blank, OnlyMoney}

-- An event that a body has emitted, and where it stands.
pub record Emitted (event_type : String) (id : ℕ) (work : CoreWork Unit₀) (seen : Coordination)
    (staged : Staged Core) : Type 0 where
  pub event : EventEnvelope
  pub result :
      work seen staged
      ≡ ok
          (tt, record staged { events = staged.events ++ event ∷ []; next_id = staged.next_id + 1 })
  pub typed : event.event_type ≡ event_type
  pub about : event.entity_id ≡ id
  pub event_id : event.event_id ≡ staged.next_id

pub emit_event-Emitted :
    (event_type correlation_id : String) (causation_id : Option ℕ) (id : ℕ)
    (payload : List (String × Value)) (seen : Coordination) (staged : Staged Core)
    → Emitted event_type id
        (emit_event event_type correlation_id causation_id id payload)
        seen
        staged
unfolding emit_event make_event ◌>>=◌
emit_event-Emitted event_type correlation_id causation_id id payload seen staged = record {
  event = make_event staged.next_id (record {
    event_type = event_type;
    version = 1;
    producer = "wasla-core";
    occurred_at = seen.now;
    correlation_id = correlation_id;
    causation_id = elim causation_id [ none ↦ none | some cause ↦ some (uuid_text cause) ];
    entity_type = "fulfillment";
    entity_id = id;
    payload = payload;
  });
  result = refl;
  typed = refl;
  about = refl;
  event_id = refl;
}

pub emit_closure-Emitted :
    (f : Fulfillment) (correlation_id : String) (causation_id : Option ℕ) (amount : Option ℤ)
    (seen : Coordination) (staged : Staged Core)
    → (event_type : String) × (names_closure event_type ≡ true)
      × Emitted event_type f.fulfillment_id
          (emit_closure f correlation_id causation_id amount)
          seen
          staged
emit_closure-Emitted f correlation_id causation_id amount seen staged =
    by_status (is_cancelled f.status)
  where
    by_status :
        (b : Bool)
        → (event_type : String) × (names_closure event_type ≡ true)
          × Emitted event_type f.fulfillment_id
              (if b
                then emit_event "core.fulfillment.cancelled" correlation_id causation_id
                    f.fulfillment_id
                    (cancelled_payload f amount)
                else emit_event "core.fulfillment.completed" correlation_id causation_id
                    f.fulfillment_id
                    (completed_payload f amount))
              seen
              staged
    by_status true = (_, refl, emit_event-Emitted "core.fulfillment.cancelled" _ _ _ _ seen staged)
    by_status false = (_, refl, emit_event-Emitted "core.fulfillment.completed" _ _ _ _ seen staged)

-- What is staged behind the money module's work.
pub then_mutation :
    (n : ℕ) (staged staged' : Staged Core) (m : CoreScope → Result CoreScope)
    → OnlyMoney n staged
    → staged'.mutations ≡ staged.mutations ++ m ∷ []
    → EndsWith m staged'
then_mutation n staged staged' m only e = record {
  of_money = only.of_money;
  mutations = e ∙ ap (λ ms. ms ++ m ∷ []) only.mutations;
}

pub then_closure :
    (n id : ℕ) (staged staged' : Staged Core) (e : EventEnvelope)
    → OnlyMoney n staged
    → staged'.events ≡ staged.events ++ e ∷ []
    → e.event_id ≡ staged.next_id
    → staged.next_id < staged'.next_id
    → names_closure e.event_type ≡ true
    → e.entity_id ≡ id
    → Announces id n staged'.next_id staged'.events
then_closure n id staged staged' e only es new used named about = record {
  before = staged.events;
  closure = e;
  events = es;
  quiet = subst (λ k. Quiets k staged.events) (sym new) only.quiet;
  fresh = omega (arith, only.later, new);
  used = omega (arith, new, used);
  named = named;
  about = about;
}

-- What every closure stages: a mutation, the closure's event and an audit entry.
abbrev pub close_by :
    (CoreScope → Result CoreScope)
    → Fulfillment
    → SettlementOutcome
    → String
    → Option ℕ
    → PendingAuditEntry
    → Body
close_by m closed outcome correlation_id causation_id entry =
    stage m
    >> (emit_closure closed correlation_id causation_id outcome.captured_minor
        >> (audit entry >> pure (closed, outcome.recorded)))

closure_step :
    (m : CoreScope → Result CoreScope) (closed : Fulfillment) (outcome : SettlementOutcome)
    (correlation_id : String) (causation_id : Option ℕ) (entry : PendingAuditEntry)
    (seen : Coordination) (n : ℕ) (staged : Staged Core)
    → OnlyMoney n staged
    → (staged' : Staged Core) × (close_by m closed outcome correlation_id causation_id entry seen
          staged
        ≡ ok ((closed, outcome.recorded), staged'))
      × EndsWith m staged'
      × (n ≤ staged'.next_id)
      × Announces closed.fulfillment_id n staged'.next_id staged'.events
unfolding ◌>>=◌
closure_step m closed outcome correlation_id causation_id entry seen n staged only =
    let staged₁ : Staged Core = record staged { mutations = staged.mutations ++ m ∷ [] } in
    let (event_type, named, e) =
      emit_closure-Emitted closed correlation_id causation_id outcome.captured_minor seen staged₁ in
    let staged₂ : Staged Core = record staged₁ {
      events = staged.events ++ e.event ∷ [];
      next_id = staged.next_id + 1;
      audits = staged.audits ++ entry ∷ [];
    } in
    (
      staged₂,
      ground (arith, e.result),
      then_mutation n staged staged₂ m only refl,
      omega (arith, only.later),
      then_closure n closed.fulfillment_id staged staged₂ e.event only refl e.event_id (omega arith)
          (ap names_closure e.typed ∙ named) e.about,
    )

-- What a closure ends with: the closed row, announced last.
abbrev pub ClosesRow : (Fulfillment → Type 0) → Fulfillment → ℕ → ℕ → List EventEnvelope → Type 0
ClosesRow P row n n' es = IsClosed row × P row × Announces row.fulfillment_id n n' es

-- A body that settles the hold and then stages the closure that comes of it.
pub settled_closure :
    (m : Fulfillment → CoreScope → Result CoreScope) (work : CoreWork SettlementOutcome)
    (k : SettlementOutcome → Body) (row_of : SettlementOutcome → Fulfillment)
    (correlation_id : String) (causation_id : Option ℕ)
    (entry : SettlementOutcome → PendingAuditEntry) (seen : Coordination) (n : ℕ)
    (P : Fulfillment → Type 0)
    → Settles work seen n
    → ((o : SettlementOutcome) (staged : Staged Core)
        → k o seen staged
          ≡ close_by (m (row_of o)) (row_of o) o correlation_id causation_id (entry o) seen staged)
    → ((o : SettlementOutcome) → IsClosed (row_of o))
    → ((o : SettlementOutcome) → P (row_of o))
    → Prepared (work >>= k) seen n m (λ row n' es. ClosesRow P row n n' es)
unfolding ◌>>=◌
settled_closure m work k row_of correlation_id causation_id entry seen n P
      (outcome, staged, result, only) same closed key =
    let (staged', stages, ends, later, announces) =
      closure_step (m (row_of outcome)) (row_of outcome) outcome correlation_id causation_id
        (entry outcome) seen n staged only in
    record {
      row = row_of outcome;
      recorded = outcome.recorded;
      staged = staged';
      result = ground (arith, result, same outcome staged, stages);
      ends = ends;
      later = later;
      out = (closed outcome, key outcome, announces);
    }

-- A body that stages one mutation and emits one event that is no closure.
pub noted :
    (row : Fulfillment) (m : Fulfillment → CoreScope → Result CoreScope)
    (event_type correlation_id : String) (causation_id : Option ℕ) (id : ℕ)
    (payload : List (String × Value)) (entry : PendingAuditEntry) (seen : Coordination) (n : ℕ)
    → names_closure event_type ≡ false
    → Prepared
        (stage (m row)
          >> (emit_event event_type correlation_id causation_id id payload
              >> (audit entry >> pure (row, []))))
        seen
        n
        m
        (λ row' n' es. (row' ≡ row) × Quiets n' es)
unfolding ◌>>=◌
noted row m event_type correlation_id causation_id id payload entry seen n quiet =
    let staged : Staged Core = record (blank n) { mutations = m row ∷ [] } in
    let e = emit_event-Emitted event_type correlation_id causation_id id payload seen staged in
    record {
      row = row;
      recorded = [];
      staged = record staged { events = e.event ∷ []; next_id = n + 1; audits = entry ∷ [] };
      result = ground (arith, e.result);
      ends = record { of_money = []; mutations = refl };
      later = omega arith;
      out = (refl, ((ap names_closure e.typed ∙ quiet, omega (arith, e.event_id)), tt));
    }

-- A body that stages one mutation and emits nothing.
pub noted_quietly :
    (row : Fulfillment) (m : Fulfillment → CoreScope → Result CoreScope) (entry : PendingAuditEntry)
    (seen : Coordination) (n : ℕ)
    → Prepared
        (stage (m row) >> (audit entry >> pure (row, [])))
        seen
        n
        m
        (λ row' n' es. (row' ≡ row) × Quiets n' es)
unfolding ◌>>=◌
noted_quietly row m entry seen n = record {
  row = row;
  recorded = [];
  staged = record (blank n) { mutations = m row ∷ []; audits = entry ∷ [] };
  result = refl;
  ends = record { of_money = []; mutations = refl };
  later = omega arith;
  out = (refl, tt);
}
