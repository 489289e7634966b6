-- ===== src/Eventing/Outbox/Budget.antt =====
-- The budget of abandonments that bounds how often `reclaimExpired` recovers one row.
use wasla_core.Base.{
  ℕ, ◌+◌, ◌-◌, ◌≤◌, Bool, true, false, not, ◌&&◌, Option, none, some, ◌≡◌, ◌≢◌, refl, List, [], ◌∷◌,
  arith, All, if◌then◌else◌, is_some, ◌⊎◌, inl, inr,
}
use wasla_core.Base.Table.{get, put, get-put, values-get}
use wasla_core.Eventing.Fencing.{Fence}
use wasla_core.Eventing.Outbox.Invariant.{Admits, IsStore, apply-IsStore}
use wasla_core.Eventing.Outbox.Ops.{
  Op, append_op, claim_op, reclaim_op, published_op, failed_op, dead_op, revive_op, apply, run,
}
use wasla_core.Eventing.Outbox.Rules.{claim_rule, reclaim_rule, acknowledge_rule, revive_rule}
use wasla_core.Eventing.Outbox.{
  OutboxRecord, Rows, id_of, is_pending, is_abandoned, append, new_row, claimed_row, reclaimed_row,
  reclaim_expired, acknowledge, published_row, failed_row, dead_row, revived_row, mark_published,
  mark_failed, mark_dead,
}

-- Whether a row waits under somebody's claim.
abbrev pub is_held : Option OutboxRecord → Bool
is_held none = false
is_held (some r) = is_pending r.status && is_some r.claimed_at

-- Whether the call is a reclaim pass that takes the row from who held it.
abbrev pub recovers : ℕ → Op → Rows → Bool
unfolding apply
recovers k (reclaim_op now m limit) rows =
    is_held (get k rows) && not (is_held (get k (reclaim_expired now m limit rows).rows))
recovers k _ rows = false

-- How many passes of a schedule take the row from who held it.
abbrev pub recoveries : ℕ → List Op → Rows → ℕ
recoveries k [] rows = 0
recoveries k (op ∷ ops) rows =
    (if recovers k op rows then 1 else 0) + recoveries k ops (apply op rows)

module _ (max_reclaims k : ℕ) where
  -- How often a row can still be recovered: the times its counter leaves, then once more, when it is
  -- given up. An event without a row has yet to be appended.
  abbrev pub left : Option OutboxRecord → ℕ
  left none = max_reclaims + 1
  left (some r) = if is_pending r.status then max_reclaims - r.reclaims + 1 else 0

  -- Every reclaim pass has the same budget, and no operator revives the row.
  abbrev pub Unattended : Op → Type 0
  Unattended (reclaim_op now m limit) = m ≡ max_reclaims
  Unattended (revive_op id now) = id ≢ k
  Unattended _ = Unit

  module _ (rows : Rows) where
    -- Rows in which the row has no more recoveries left than here.
    abbrev NoMore : Rows → Type 0
    NoMore rows' = left (get k rows') ≤ left (get k rows)

    put-NoMore :
        (j : ℕ) (r v : OutboxRecord) (rows' : Rows)
        → get j rows ≡ some r
        → left (some v) ≤ left (some r)
        → NoMore rows'
        → NoMore (put j v rows')
    put-NoMore j r v rows' e le h = ground (arith, get-put j k v rows')

    acknowledge-NoMore :
        (id : ℕ) (fence : Fence) (change : OutboxRecord → OutboxRecord)
        → ((r : OutboxRecord) → left (some (change r)) ≤ left (some r))
        → NoMore (acknowledge id fence change rows).1
    acknowledge-NoMore id fence change less =
        acknowledge_rule NoMore id fence change rows
          (λ r e f. put-NoMore id r (change r) rows e (less r) (omega arith)) (omega arith)

    -- What a pass does to one row: nothing, or it recovers it where it is abandoned.
    abbrev Passed : ℕ → Rows → Type 0
    Passed now rows' =
        (get k rows' ≡ get k rows)
        ⊎ ((r : OutboxRecord) × (get k rows ≡ some r)
            × (is_abandoned now r ≡ true)
            × (get k rows' ≡ some (reclaimed_row now max_reclaims r)))

    put-Passed :
        (now : ℕ) (r : OutboxRecord) (rows' : Rows)
        → get (id_of r) rows ≡ some r
        → is_abandoned now r ≡ true
        → Passed now rows'
        → Passed now (put (id_of r) (reclaimed_row now max_reclaims r) rows')
    put-Passed now r rows' e a h =
        ground (arith, get-put (id_of r) k (reclaimed_row now max_reclaims r) rows')

    spent_by_recovery :
        (now : ℕ) (r : OutboxRecord)
        → is_abandoned now r ≡ true
        → 1 + left (some (reclaimed_row now max_reclaims r)) ≤ left (some r)
    unfolding reclaimed_row
    spent_by_recovery now r a = ground arith

    -- A pass that takes the row from who held it spends one recovery.
    spent_by_pass :
        (now : ℕ) (rows' : Rows)
        → Passed now rows'
        → (if is_held (get k rows) && not (is_held (get k rows')) then 1 else 0)
            + left (get k rows')
          ≤ left (get k rows)
    spent_by_pass now rows' (inl same) = ground arith
    spent_by_pass now rows' (inr (r, e, a, done)) = ground (arith, spent_by_recovery now r a)

  nothing_spent : {n m : ℕ} → n ≤ m → 0 + n ≤ m
  nothing_spent h = omega (arith, h)

  left-apply :
      (op : Op) (rows : Rows)
      → IsStore rows
      → Unattended op
      → (if recovers k op rows then 1 else 0) + left (get k (apply op rows)) ≤ left (get k rows)
  unfolding apply append mark_published mark_failed mark_dead
  left-apply (append_op event now) rows s u =
      ground (arith, get-put event.event_id k (new_row event now) rows)
  left-apply (claim_op now limit lease_ms token) rows s u = nothing_spent (
      claim_rule (NoMore rows) (λ r. get (id_of r) rows ≡ some r) now limit lease_ms token rows
        (λ r rows' e c h.
          put-NoMore rows (id_of r) r (claimed_row now lease_ms token r) rows' e (omega arith) h)
        (values-get id_of rows s.keyed) (omega arith))
  left-apply (reclaim_op now m limit) rows s same = rw same (
      spent_by_pass rows now (reclaim_expired now max_reclaims limit rows).rows (
        reclaim_rule (Passed rows now) (λ r. get (id_of r) rows ≡ some r) now max_reclaims limit
          rows (put-Passed rows now) (values-get id_of rows s.keyed) (inl refl)))
  left-apply (published_op id fence) rows s u =
      nothing_spent (acknowledge-NoMore rows id fence published_row (λ r. omega arith))
  left-apply (failed_op id fence error at) rows s u =
      nothing_spent (acknowledge-NoMore rows id fence (failed_row error at) (λ r. omega arith))
  left-apply (dead_op id fence error) rows s u =
      nothing_spent (acknowledge-NoMore rows id fence (dead_row error) (λ r. omega arith))
  left-apply (revive_op id now) rows s other = nothing_spent (
      revive_rule (NoMore rows) id now rows
        (λ r e d. ground (arith, other, get-put id k (revived_row now r) rows)) (omega arith))

  -- Under any schedule of appends, claims, acknowledgements and reclaim passes, in any order and
  -- with any fences, where the passes share `max_reclaims`, appended events have a version of at
  -- least 1 and no operator revives the row, the passes take a well-formed outbox's row from who
  -- held it at most as often as `left` says of its counter before, less what `left` says of it
  -- after: once more than the budget leaves for a row that waits, never for a published or a dead
  -- one, and a row that still waits afterwards has spent only part of it.
  pub recoveries-run :
      (ops : List Op) (rows : Rows)
      → All Admits ops
      → All Unattended ops
      → IsStore rows
      → recoveries k ops rows + left (get k (run ops rows)) ≤ left (get k rows)
  unfolding run
  recoveries-run [] rows v u s = omega arith
  recoveries-run (op ∷ ops) rows v u s =
      let first = left-apply op rows s u.0 in
      let rest = recoveries-run ops (apply op rows) v.1 u.1 (apply-IsStore op rows v.0 s) in
      omega (arith, first, rest)
