-- ===== src/Eventing/Outbox/Finality.antt =====
-- A published row stays published, whatever the workers do.
use wasla_core.Base.{ℕ, ◌≤◌, none, some, true, ◌≡◌, ◌≢◌, List, [], ◌∷◌, arith, All, is_some}
use wasla_core.Base.Table.{get, put, get-put, values-get, AllRows-get}
use wasla_core.Eventing.Envelope.{EventEnvelope}
use wasla_core.Eventing.Fencing.{Fence}
use wasla_core.Eventing.Outbox.Ops.{
  Op, append_op, claim_op, reclaim_op, published_op, failed_op, dead_op, revive_op, apply, run,
}
use wasla_core.Eventing.Outbox.Rules.{claim_rule, reclaim_rule, acknowledge_rule, revive_rule}
use wasla_core.Eventing.Outbox.Invariant.{IsStore, Admits, apply-IsStore, RuleAbiding}
use wasla_core.Eventing.Outbox.{
  OutboxRecord, Rows, id_of, append, new_row, claim_due, claimed_row, reclaim_expired,
  reclaimed_row, acknowledge, published_row, failed_row, dead_row, revive, revived_row, published,
}

-- Acknowledgements come from workers that hold a claim, and appended events are well formed.
abbrev pub IsWorkerCall : Op → Type 0
IsWorkerCall (append_op event now) = 1 ≤ event.version
IsWorkerCall (published_op event_id fence) = is_some fence ≡ true
IsWorkerCall (failed_op event_id fence error at) = is_some fence ≡ true
IsWorkerCall (dead_op event_id fence error) = is_some fence ≡ true
IsWorkerCall _ = Unit

module _ (event_id : ℕ) (kept : OutboxRecord) (final : kept.status ≡ published) where
  -- The row is the published row that it was, to its last field.
  abbrev Kept : Rows → Type 0
  Kept rows = get event_id rows ≡ some kept

  -- A write to a row that is not the published one.
  put-Kept :
      (r v : OutboxRecord) (k : ℕ) (rows rows' : Rows)
      → get k rows ≡ some r
      → Kept rows
      → r.status ≢ published
      → Kept rows'
      → Kept (put k v rows')
  put-Kept r v k rows rows' e h ne h' = ground (arith, get-put k event_id v rows')

  module _ (rows : Rows) (s : IsStore rows) (h : Kept rows) where
    claim_due-Kept :
        (now limit lease_ms token : ℕ) → Kept (claim_due now limit lease_ms token rows).rows
    claim_due-Kept now limit lease_ms token =
        claim_rule Kept (λ r. get (id_of r) rows ≡ some r) now limit lease_ms token rows
          (λ r rows' e c h'.
            put-Kept r (claimed_row now lease_ms token r) (id_of r) rows rows' e h (ground arith)
              h')
          (values-get id_of rows s.keyed) h

    reclaim_expired-Kept :
        (now max_reclaims limit : ℕ) → Kept (reclaim_expired now max_reclaims limit rows).rows
    reclaim_expired-Kept now max_reclaims limit =
        reclaim_rule Kept (λ r. get (id_of r) rows ≡ some r) now max_reclaims limit rows
          (λ r rows' e c h'.
            put-Kept r (reclaimed_row now max_reclaims r) (id_of r) rows rows' e h (ground arith)
              h')
          (values-get id_of rows s.keyed) h

    -- A published row is under no claim.
    unclaimed : kept.claim_token ≡ none
    unclaimed = ground (arith, AllRows-get RuleAbiding event_id kept rows s.ruled h)

    acknowledge-Kept :
        (k : ℕ) (fence : Fence) (change : OutboxRecord → OutboxRecord)
        → is_some fence ≡ true
        → Kept (acknowledge k fence change rows).1
    acknowledge-Kept k fence change held =
        acknowledge_rule Kept k fence change rows
          (λ r e f. ground (arith, unclaimed, get-put k event_id (change r) rows)) h

    revive-Kept : (k now : ℕ) → Kept (revive k now rows).1
    revive-Kept k now =
        revive_rule Kept k now rows
          (λ r e d. put-Kept r (revived_row now r) k rows rows e h (ground arith) h) h

    append-Kept : (event : EventEnvelope) (now : ℕ) → Kept (append event now rows)
    unfolding append
    append-Kept event now = ground (arith, get-put event.event_id event_id (new_row event now) rows)

    apply-Kept : (op : Op) → IsWorkerCall op → Kept (apply op rows)
    unfolding apply
    apply-Kept (append_op event now) _ = append-Kept event now
    apply-Kept (claim_op now limit lease_ms token) _ = claim_due-Kept now limit lease_ms token
    apply-Kept (reclaim_op now max_reclaims limit) _ = reclaim_expired-Kept now max_reclaims limit
    apply-Kept (published_op k fence) held = acknowledge-Kept k fence published_row held
    apply-Kept (failed_op k fence error at) held =
        acknowledge-Kept k fence (failed_row error at) held
    apply-Kept (dead_op k fence error) held = acknowledge-Kept k fence (dead_row error) held
    apply-Kept (revive_op k now) _ = revive-Kept k now

worker-Admits : (op : Op) → IsWorkerCall op → Admits op
worker-Admits (append_op event now) v = v
worker-Admits _ v = tt

-- In a well-formed outbox a published row never changes again, to its last field, under any
-- schedule of appends, claims, reclaims, revivals and acknowledgements by workers that present the
-- token of some claim: no event goes back to the queue after it was published.
pub published_row_is_final :
    (event_id : ℕ) (kept : OutboxRecord)
    → kept.status ≡ published
    → (ops : List Op) (rows : Rows) → All IsWorkerCall ops
    → IsStore rows
    → get event_id rows ≡ some kept
    → get event_id (run ops rows) ≡ some kept
unfolding run
published_row_is_final event_id kept final [] rows w s h = h
published_row_is_final event_id kept final (op ∷ ops) rows w s h =
    published_row_is_final event_id kept final ops (apply op rows) w.1
      (apply-IsStore op rows (worker-Admits op w.0) s)
      (apply-Kept event_id kept final rows s h op w.0)
