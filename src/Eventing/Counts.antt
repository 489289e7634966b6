-- ===== src/Eventing/Counts.antt =====
-- src/platform/eventing/queue-counts.ts (`tallyByStatus`), on the rows and the statuses of the outbox.
use wasla_core.Base.{
  ℕ, ◌+◌, ◌≤◌, ◌≡◌, List, [], ◌∷◌, arith, ltb, leb, length, filter, if◌then◌else◌, is_some,
}
use wasla_core.Base.Table.{values}
use wasla_core.Eventing.Outbox.{
  OutboxRecord, OutboxStatus, Rows, pending, published, dead, is_pending, is_abandoned,
}

pub record QueueCounts : Type 0 where
  pub pending_rows : ℕ
  pub published_rows : ℕ
  pub dead_rows : ℕ
  pub retrying : ℕ
  pub in_flight : ℕ
  pub abandoned : ℕ

abbrev bump_status : OutboxStatus → QueueCounts → QueueCounts
bump_status pending c = record c { pending_rows = c.pending_rows + 1 }
bump_status published c = record c { published_rows = c.published_rows + 1 }
bump_status dead c = record c { dead_rows = c.dead_rows + 1 }

abbrev bump_retrying : OutboxRecord → QueueCounts → QueueCounts
bump_retrying r c = if ltb 0 r.attempts then record c { retrying = c.retrying + 1 } else c

abbrev bump_held : ℕ → OutboxRecord → QueueCounts → QueueCounts
bump_held now r c =
    if is_some r.claimed_at
    then (if leb r.next_attempt_at now
        then record c { abandoned = c.abandoned + 1 }
        else record c { in_flight = c.in_flight + 1 })
    else c

abbrev count_row : ℕ → OutboxRecord → QueueCounts → QueueCounts
count_row now r c =
    if is_pending r.status
    then bump_held now r (bump_retrying r (bump_status r.status c))
    else bump_status r.status c

unfoldable pub tally : ℕ → List OutboxRecord → QueueCounts → QueueCounts
tally now [] c = c
tally now (r ∷ rs) c = tally now rs (count_row now r c)

abbrev no_counts : QueueCounts
no_counts = record {
  pending_rows = 0;
  published_rows = 0;
  dead_rows = 0;
  retrying = 0;
  in_flight = 0;
  abandoned = 0;
}

-- `counts` of the outbox
unfoldable pub tally_by_status : ℕ → Rows → QueueCounts
tally_by_status now rows = tally now (values rows) no_counts

abbrev total : QueueCounts → ℕ
total c = c.pending_rows + c.published_rows + c.dead_rows

tally-total :
    (now : ℕ) (rs : List OutboxRecord) (c : QueueCounts)
    → total (tally now rs c) ≡ total c + length rs
unfolding tally
tally-total now [] c = omega arith
tally-total now (r ∷ rs) c = ground (arith, tally-total now rs (count_row now r c))

tally-abandoned :
    (now : ℕ) (rs : List OutboxRecord) (c : QueueCounts)
    → (tally now rs c).abandoned ≡ c.abandoned + length (filter (is_abandoned now) rs)
unfolding tally
tally-abandoned now [] c = omega arith
tally-abandoned now (r ∷ rs) c = ground (arith, tally-abandoned now rs (count_row now r c))

tally-held :
    (now : ℕ) (rs : List OutboxRecord) (c : QueueCounts)
    → c.in_flight + c.abandoned ≤ c.pending_rows
    → (tally now rs c).in_flight + (tally now rs c).abandoned ≤ (tally now rs c).pending_rows
unfolding tally
tally-held now [] c h = h
tally-held now (r ∷ rs) c h = tally-held now rs (count_row now r c) (ground arith)

-- The counts by status add up to the number of rows, `abandoned` is the number of rows that a reclaim
-- pass at that instant finds abandoned, and rows in flight or abandoned are among the pending ones.
pub tally_by_status_adds_up :
    (now : ℕ) (rows : Rows)
    → let c = tally_by_status now rows in
      (c.pending_rows + c.published_rows + c.dead_rows ≡ length (values rows))
      × (c.abandoned ≡ length (filter (is_abandoned now) (values rows)))
      × (c.in_flight + c.abandoned ≤ c.pending_rows)
unfolding tally_by_status
tally_by_status_adds_up now rows =
    let all = tally-total now (values rows) no_counts in
    let lost = tally-abandoned now (values rows) no_counts in
    (omega (arith, all), omega (arith, lost), tally-held now (values rows) no_counts (omega arith))
