-- ===== src/Eventing/Outbox/Invariant.antt =====
-- What every operation of the outbox keeps: rows stand under their events' identifiers, each
-- identifier once, and every row satisfies the schema's checks.
use wasla_core.Base.{ℕ, ◌≤◌, some, true, ◌≡◌, refl, sym, subst, ◌∙◌, List, [], ◌∷◌, arith, All}
use wasla_core.Base.Table.{
  get, put, AllRows, AllRows-put, AllRows-get, AllRows-values, IsKeyed, IsKeyed-put,
}
use wasla_core.Eventing.Envelope.{EventEnvelope}
use wasla_core.Eventing.Fencing.{Fence}
use wasla_core.Eventing.Outbox.Ops.{
  Op, append_op, claim_op, reclaim_op, published_op, failed_op, dead_op, revive_op, apply, run,
}
use wasla_core.Eventing.Outbox.Rules.{claim_rule, reclaim_rule, acknowledge_rule, revive_rule}
use wasla_core.Eventing.Outbox.{
  claimed_row, published_row, failed_row, dead_row, revived_row, new_row, OutboxRecord, Rows, id_of,
  row_rules, append, claim_due, reclaimed_row, reclaim_expired, acknowledge, mark_published,
  mark_failed, mark_dead, revive,
}

abbrev pub RuleAbiding : OutboxRecord → Type 0
RuleAbiding r = row_rules r ≡ true

pub record IsStore (rows : Rows) : Type 0 where
  pub keyed : IsKeyed id_of rows
  pub ruled : AllRows RuleAbiding rows

put-IsStore :
    (r : OutboxRecord) (rows : Rows) → RuleAbiding r → IsStore rows → IsStore (put (id_of r) r rows)
put-IsStore r rows ok s = record {
  keyed = IsKeyed-put id_of r rows s.keyed;
  ruled = AllRows-put RuleAbiding (id_of r) r rows ok s.ruled;
}

-- The row found under an identifier is that event's row.
get-id_of :
    (k : ℕ) (r : OutboxRecord) (rows : Rows)
    → IsKeyed id_of rows
    → get k rows ≡ some r
    → k ≡ id_of r
unfolding get
get-id_of k r [] h e = cc
get-id_of k r ((j, w) ∷ rows) h e = ground (arith, get-id_of k r rows h.2)

abbrev pub Admits : Op → Type 0
Admits (append_op event now) = 1 ≤ event.version
Admits _ = Unit

append-IsStore :
    (event : EventEnvelope) (now : ℕ) (rows : Rows)
    → 1 ≤ event.version
    → IsStore rows
    → IsStore (append event now rows)
unfolding append
append-IsStore event now rows v s = ground (arith, put-IsStore (new_row event now) rows)

module _ (rows : Rows) (s : IsStore rows) where
  claim_due-IsStore :
      (now limit lease_ms token : ℕ) → IsStore (claim_due now limit lease_ms token rows).rows
  claim_due-IsStore now limit lease_ms token =
      claim_rule IsStore RuleAbiding now limit lease_ms token rows
        (λ r rows' ok c h. put-IsStore (claimed_row now lease_ms token r) rows' (ground arith) h)
        (AllRows-values RuleAbiding rows s.ruled) s

  reclaim_expired-IsStore :
      (now max_reclaims limit : ℕ) → IsStore (reclaim_expired now max_reclaims limit rows).rows
  reclaim_expired-IsStore now max_reclaims limit =
      reclaim_rule IsStore RuleAbiding now max_reclaims limit rows
        (λ r rows' ok c h.
          unfold reclaimed_row in
          put-IsStore (reclaimed_row now max_reclaims r) rows' (ground arith) h)
        (AllRows-values RuleAbiding rows s.ruled) s

  acknowledge-IsStore :
      (event_id : ℕ) (fence : Fence) (change : OutboxRecord → OutboxRecord)
      → ((r : OutboxRecord) → RuleAbiding r → RuleAbiding (change r) × (id_of (change r) ≡ id_of r))
      → IsStore (acknowledge event_id fence change rows).1
  acknowledge-IsStore event_id fence change keep =
      acknowledge_rule IsStore event_id fence change rows
        (λ r e f.
          let (ok, same) = keep r (AllRows-get RuleAbiding event_id r rows s.ruled e) in
          subst (λ k. IsStore (put k (change r) rows))
            (same ∙ sym (get-id_of event_id r rows s.keyed e)) (put-IsStore (change r) rows ok s))
        s

  revive-IsStore : (event_id now : ℕ) → IsStore (revive event_id now rows).1
  revive-IsStore event_id now =
      revive_rule IsStore event_id now rows
        (λ r e d.
          let ok = AllRows-get RuleAbiding event_id r rows s.ruled e in
          rw (get-id_of event_id r rows s.keyed e)
            (put-IsStore (revived_row now r) rows (ground arith) s))
        s

pub apply-IsStore : (op : Op) (rows : Rows) → Admits op → IsStore rows → IsStore (apply op rows)
unfolding apply mark_published mark_failed mark_dead
apply-IsStore (append_op event now) rows v s = append-IsStore event now rows v s
apply-IsStore (claim_op now limit lease_ms token) rows _ s =
    claim_due-IsStore rows s now limit lease_ms token
apply-IsStore (reclaim_op now max_reclaims limit) rows _ s =
    reclaim_expired-IsStore rows s now max_reclaims limit
apply-IsStore (published_op event_id fence) rows _ s =
    acknowledge-IsStore rows s event_id fence published_row (λ r ok. (ground arith, refl))
apply-IsStore (failed_op event_id fence error at) rows _ s =
    acknowledge-IsStore rows s event_id fence (failed_row error at) (λ r ok. (ground arith, refl))
apply-IsStore (dead_op event_id fence error) rows _ s =
    acknowledge-IsStore rows s event_id fence (dead_row error) (λ r ok. (ground arith, refl))
apply-IsStore (revive_op event_id now) rows _ s = revive-IsStore rows s event_id now

-- After any calls by writers, workers and operators, in any order and with any fences, every row of
-- a well-formed outbox stands under its event's identifier, no event has two rows, and every
-- row satisfies the schema's checks, provided that appended events have a version of at least 1.
pub run-IsStore :
    (ops : List Op) (rows : Rows) → All Admits ops → IsStore rows → IsStore (run ops rows)
unfolding run
run-IsStore [] rows v s = s
run-IsStore (op ∷ ops) rows v s = run-IsStore ops (apply op rows) v.1 (apply-IsStore op rows v.0 s)
