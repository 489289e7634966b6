-- ===== src/Eventing/Outbox/Rules.antt =====
-- How to show that an operation of the outbox keeps a property of the rows: one rule for each way to
-- write, over any property.
use wasla_core.Base.{ℕ, some, true, false, ◌≡◌, arith, All, Option-cases, inl, inr}
use wasla_core.Base.Table.{get, put, values}
use wasla_core.Base.Sort.{All-sort}
use wasla_core.Base.Loops.{for_each_inv, flow_state}
use wasla_core.Eventing.Fencing.{Fence, is_fenced}
use wasla_core.Eventing.Outbox.{
  OutboxRecord, Rows, id_of, compare_due, in_due_order, is_claimable, claimed_row, claim_round,
  claim_due, Claim, is_abandoned, reclaimed_row, Reclaim, reclaim_round, reclaim_expired,
  acknowledge, dead, revived_row, revive,
}

module _ {ℓ} (I : Rows → Type ℓ) where
  module _ (Q : OutboxRecord → Type 0) where
    due-All : (rows : Rows) → All Q (values rows) → All Q (in_due_order (values rows))
    unfolding in_due_order
    due-All rows q = All-sort compare_due Q (values rows) q

    -- A claim writes a claimed copy of rows that were there and passed its tests.
    pub claim_rule :
        (now limit lease_ms token : ℕ) (rows : Rows)
        → ((r : OutboxRecord) (rows : Rows)
            → Q r
            → is_claimable now r ≡ true
            → I rows
            → I (put (id_of r) (claimed_row now lease_ms token r) rows))
        → All Q (values rows)
        → I rows
        → I (claim_due now limit lease_ms token rows).rows
    unfolding claim_due
    claim_rule now limit lease_ms token rows keep q h =
        for_each_inv (λ (c : Claim). I c.rows) Q (claim_round now limit lease_ms token) round
          (in_due_order (values rows)) _ (due-All rows q) h
      where
        round :
            (r : OutboxRecord) (c : Claim)
            → Q r
            → I c.rows
            → I (flow_state (claim_round now limit lease_ms token r c)).rows
        round r c qr h = unfold claim_round in ground (arith, keep r c.rows qr)

    -- A reclaim writes a recovered copy of abandoned rows that were there.
    pub reclaim_rule :
        (now max_reclaims limit : ℕ) (rows : Rows)
        → ((r : OutboxRecord) (rows : Rows)
            → Q r
            → is_abandoned now r ≡ true
            → I rows
            → I (put (id_of r) (reclaimed_row now max_reclaims r) rows))
        → All Q (values rows)
        → I rows
        → I (reclaim_expired now max_reclaims limit rows).rows
    unfolding reclaim_expired
    reclaim_rule now max_reclaims limit rows keep q h =
        for_each_inv (λ (s : Reclaim). I s.rows) Q (reclaim_round now max_reclaims limit) round
          (in_due_order (values rows)) _ (due-All rows q) h
      where
        round :
            (r : OutboxRecord) (s : Reclaim)
            → Q r
            → I s.rows
            → I (flow_state (reclaim_round now max_reclaims limit r s)).rows
        round r s qr h = unfold reclaim_round in ground (arith, keep r s.rows qr)

  -- An acknowledgement that is applied writes the row that was there, changed.
  pub acknowledge_rule :
      (event_id : ℕ) (fence : Fence) (change : OutboxRecord → OutboxRecord) (rows : Rows)
      → ((r : OutboxRecord)
          → get event_id rows ≡ some r
          → is_fenced r.claim_token fence ≡ false
          → I (put event_id (change r) rows))
      → I rows
      → I (acknowledge event_id fence change rows).1
  acknowledge_rule event_id fence change rows keep h = elim (Option-cases (get event_id rows)) [
    | inl e ↦ ground arith
    | inr (r, e) ↦ ground (arith, keep r)
  ]

  pub revive_rule :
      (event_id now : ℕ) (rows : Rows)
      → ((r : OutboxRecord)
          → get event_id rows ≡ some r
          → r.status ≡ dead
          → I (put event_id (revived_row now r) rows))
      → I rows
      → I (revive event_id now rows).1
  unfolding revive
  revive_rule event_id now rows keep h = elim (Option-cases (get event_id rows)) [
    | inl e ↦ ground arith
    | inr (r, e) ↦ ground (arith, keep r)
  ]
