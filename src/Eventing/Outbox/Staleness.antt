-- ===== src/Eventing/Outbox/Staleness.antt =====
-- What a claim token protects: a worker whose claim was taken away can record nothing on the row, and
-- a published row stays published.
use wasla_core.Base.{
  ℕ, none, some, false, ◌≡◌, ◌≢◌, List, [], ◌∷◌, arith, All, All-every, Option-cases, inl, inr,
}
use wasla_core.Base.Table.{get, put, get-put, values}
use wasla_core.Eventing.Reclaim.{LastError}
use wasla_core.Eventing.Outbox.Ops.{
  Op, append_op, claim_op, reclaim_op, published_op, failed_op, dead_op, revive_op, apply, run,
}
use wasla_core.Eventing.Outbox.Rules.{claim_rule, reclaim_rule, acknowledge_rule, revive_rule}
use wasla_core.Eventing.Outbox.{
  OutboxRecord, Rows, id_of, append, new_row, claimed_row, reclaimed_row, acknowledge,
  mark_published, published_row, mark_failed, failed_row, mark_dead, dead_row, revived_row,
}

-- The token is not handed out again.
abbrev pub NotReissued : ℕ → Op → Type 0
NotReissued token (claim_op now limit lease_ms t) = t ≢ token
NotReissued token _ = Unit

module _ (token event_id : ℕ) where
  -- The claim that the token stands for is not the one that the row is under.
  abbrev pub NotHeld : Rows → Type 0
  NotHeld rows = (r : OutboxRecord) → get event_id rows ≡ some r → r.claim_token ≢ some token

  put-NotHeld :
      (k : ℕ) (v : OutboxRecord) (rows : Rows)
      → v.claim_token ≢ some token
      → NotHeld rows
      → NotHeld (put k v rows)
  put-NotHeld k v rows free h r e = ground (arith, get-put k event_id v rows, h r)

  pub apply-NotHeld :
      (op : Op) (rows : Rows) → NotReissued token op → NotHeld rows → NotHeld (apply op rows)
  unfolding apply append
  apply-NotHeld (append_op event now) rows _ h =
      ground (arith, put-NotHeld event.event_id (new_row event now) rows)
  apply-NotHeld (claim_op now limit lease_ms t) rows other h =
      claim_rule NotHeld (λ _. Unit {0}) now limit lease_ms t rows
        (λ r rows' _ c h'.
          put-NotHeld (id_of r) (claimed_row now lease_ms t r) rows' (λ e. other (ground arith)) h')
        (All-every (λ _. Unit {0}) (λ _. tt) (values rows)) h
  apply-NotHeld (reclaim_op now max_reclaims limit) rows _ h =
      reclaim_rule NotHeld (λ _. Unit {0}) now max_reclaims limit rows
        (λ r rows' _ c h'.
          put-NotHeld (id_of r) (reclaimed_row now max_reclaims r) rows'
            (unfold reclaimed_row in λ e. cc) h')
        (All-every (λ _. Unit {0}) (λ _. tt) (values rows)) h
  apply-NotHeld (published_op id fence) rows _ h =
      acknowledge_rule NotHeld id fence published_row rows
        (λ r e f. put-NotHeld id (published_row r) rows (λ e. cc) h) h
  apply-NotHeld (failed_op id fence error at) rows _ h =
      acknowledge_rule NotHeld id fence (failed_row error at) rows
        (λ r e f. put-NotHeld id (failed_row error at r) rows (λ e. cc) h) h
  apply-NotHeld (dead_op id fence error) rows _ h =
      acknowledge_rule NotHeld id fence (dead_row error) rows
        (λ r e f. put-NotHeld id (dead_row error r) rows (λ e. cc) h) h
  apply-NotHeld (revive_op id now) rows _ h =
      revive_rule NotHeld id now rows (λ r e f. put-NotHeld id (revived_row now r) rows (λ e. cc) h)
        h

  pub run-NotHeld :
      (ops : List Op) (rows : Rows)
      → All (NotReissued token) ops
      → NotHeld rows
      → NotHeld (run ops rows)
  unfolding run
  run-NotHeld [] rows fresh h = h
  run-NotHeld (op ∷ ops) rows fresh h =
      run-NotHeld ops (apply op rows) fresh.1 (apply-NotHeld op rows fresh.0 h)

  refused :
      (change : OutboxRecord → OutboxRecord) (rows : Rows)
      → NotHeld rows
      → acknowledge event_id (some token) change rows ≡ (false, rows)
  refused change rows h = elim (Option-cases (get event_id rows)) [
    | inl e ↦ ground arith
    | inr (r, e) ↦ ground (arith, h r e)
  ]

  -- After the worker's own acknowledgement, applied or refused, the row is not under its claim.
  pub acknowledge-NotHeld :
      (change : OutboxRecord → OutboxRecord) (rows : Rows)
      → ((r : OutboxRecord) → (change r).claim_token ≡ none)
      → NotHeld (acknowledge event_id (some token) change rows).1
  acknowledge-NotHeld change rows frees r e = elim (Option-cases (get event_id rows)) [
    | inl absent ↦ ground arith
    | inr (old, found) ↦ ground (arith, frees old, get-put event_id event_id (change old) rows)
  ]

  -- Once a row is not under a worker's claim, whatever calls follow, as long as no later claim is
  -- given the same token, none of the worker's three acknowledgements is applied, and each leaves
  -- the store as it was.
  pub stale_acknowledgement :
      (ops : List Op) (rows : Rows) (error : LastError) (at : ℕ)
      → All (NotReissued token) ops
      → NotHeld rows
      → let later = run ops rows in
        (mark_published event_id (some token) later ≡ (false, later))
        × (mark_failed event_id (some token) error at later ≡ (false, later))
        × (mark_dead event_id (some token) error later ≡ (false, later))
  unfolding mark_published mark_failed mark_dead
  stale_acknowledgement ops rows error at fresh h =
      let still = run-NotHeld ops rows fresh h in
      (
        refused published_row (run ops rows) still,
        refused (failed_row error at) (run ops rows) still,
        refused (dead_row error) (run ops rows) still,
      )
