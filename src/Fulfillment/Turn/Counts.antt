-- ===== src/Fulfillment/Turn/Counts.antt =====
-- The outbox of src/platform/eventing/outbox.ts as the events of a transaction are appended to it: how many
-- closures of a fulfillment it holds.
use wasla_core.Base.{
  ℕ, ◌+◌, ◌≤◌, ◌<◌, none, false, ◌≡◌, refl, sym, ap, subst, ◌∙◌, inl, inr, List, [], ◌∷◌, ◌++◌,
  arith, ◌==◌, if◌then◌else◌, Option-cases,
}
use wasla_core.Base.Table.{
  get, values, values-put_new, IsKeyed, IsKeyed-put, AllBelow, AllBelow-put, AllBelow-le, get-above,
}
use wasla_core.Eventing.Envelope.{EventEnvelope}
use wasla_core.Eventing.Outbox.{Rows, OutboxRecord, append, id_of, new_row}
use wasla_core.Platform.UnitOfWork.{append_all}
use wasla_core.Fulfillment.Turn.{Announces, Quiets, closures, is_closure}

closures-append :
    (id : ℕ) (rs : List OutboxRecord) (r : OutboxRecord)
    → closures id (rs ++ r ∷ []) ≡ closures id rs + (if is_closure id r.event then 1 else 0)
unfolding closures
closures-append id [] r = ground arith
closures-append id (x ∷ rs) r = ground (arith, closures-append id rs r)

-- The rows stand under their events' identifiers, all below the next new one.
pub record Sent (n : ℕ) (rows : Rows) : Type 0 where
  pub keyed : IsKeyed id_of rows
  pub below : AllBelow id_of n rows

pub Sent-le : (n m : ℕ) (rows : Rows) → n ≤ m → Sent n rows → Sent m rows
Sent-le n m rows le s = record { keyed = s.keyed; below = AllBelow-le id_of n m rows le s.below }

append-new :
    (id now : ℕ) (e : EventEnvelope) (rows : Rows)
    → get e.event_id rows ≡ none
    → closures id (values (append e now rows))
      ≡ closures id (values rows) + (if is_closure id e then 1 else 0)
unfolding append
append-new id now e rows h = ground (
  arith,
  h,
  ap (closures id) (values-put_new e.event_id (new_row e now) rows h),
  closures-append id (values rows) (new_row e now),
)

append-quiet :
    (id now : ℕ) (e : EventEnvelope) (rows : Rows)
    → is_closure id e ≡ false
    → closures id (values (append e now rows)) ≡ closures id (values rows)
unfolding append
append-quiet id now e rows quiet = elim (Option-cases (get e.event_id rows)) [
  | inl new ↦ ground (arith, append-new id now e rows new, new)
  | inr (old, there) ↦ ground (arith, there)
]

append-Sent :
    (n n' now : ℕ) (e : EventEnvelope) (rows : Rows)
    → n ≤ n'
    → e.event_id < n'
    → Sent n rows
    → Sent n' (append e now rows)
unfolding append
append-Sent n n' now e rows le lt s = elim (Option-cases (get e.event_id rows)) [
  | inl new ↦ rw new (record {
    keyed = IsKeyed-put id_of (new_row e now) rows s.keyed;
    below = AllBelow-put id_of n' (new_row e now) rows lt (AllBelow-le id_of n n' rows le s.below);
  })
  | inr (old, there) ↦
      rw there (record { keyed = s.keyed; below = AllBelow-le id_of n n' rows le s.below })
]

pub append_all-quiet :
    (id n n' now : ℕ) (es : List EventEnvelope) (rows : Rows)
    → n ≤ n'
    → Quiets n' es
    → Sent n rows
    → (closures id (values (append_all now es rows)) ≡ closures id (values rows))
      × Sent n' (append_all now es rows)
unfolding append_all
append_all-quiet id n n' now [] rows le q s =
    (refl, record { keyed = s.keyed; below = AllBelow-le id_of n n' rows le s.below })
append_all-quiet id n n' now (e ∷ es) rows le q s =
    let rest =
      append_all-quiet id n' n' now es (append e now rows) (omega arith) q.1
        (append-Sent n n' now e rows le q.0.1 s) in
    (rest.0 ∙ append-quiet id now e rows (ground (arith, q.0.0)), rest.1)

append_all-append :
    (now : ℕ) (es : List EventEnvelope) (e : EventEnvelope) (rows : Rows)
    → append_all now (es ++ e ∷ []) rows ≡ append e now (append_all now es rows)
unfolding append_all
append_all-append now [] e rows = refl
append_all-append now (x ∷ es) e rows = append_all-append now es e (append x now rows)

-- A closure that is announced is counted once, for its fulfillment alone.
pub append_all-announced :
    (id k n n' now : ℕ) (es : List EventEnvelope) (rows : Rows)
    → Announces id n n' es
    → Sent n rows
    → (closures k (values (append_all now es rows))
        ≡ closures k (values rows) + (if id == k then 1 else 0))
      × Sent n' (append_all now es rows)
append_all-announced id k n n' now es rows a s =
    let before = append_all-quiet k n a.closure.event_id now a.before rows a.fresh a.quiet s in
    let sent = append_all now a.before rows in
    let split =
      ap (λ xs. append_all now xs rows) a.events ∙ append_all-append now a.before a.closure rows in
    let new =
      get-above id_of a.closure.event_id a.closure.event_id sent before.1.keyed before.1.below
        (omega arith) in
    (
      ap (λ rs. closures k (values rs)) split
          ∙ ground (arith, append-new k now a.closure sent new, before.0, a.named, a.about),
      subst (Sent n') (sym split)
          (append-Sent a.closure.event_id n' now a.closure sent (omega arith) a.used before.1),
    )
