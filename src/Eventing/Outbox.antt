-- ===== src/Eventing/Outbox.antt =====
-- src/platform/eventing/outbox.ts (`InMemoryOutbox`) and queue-order.ts. A store is a table of rows
-- under their events' identifiers; `now` and the fresh claim token are arguments. `putRow` refuses a
-- row that breaks `row_rules`; the operations write rows that all satisfy them.
pub mod Rules
pub mod Ops
pub mod Invariant
pub mod Staleness
pub mod Finality
pub mod Claims
pub mod Budget
pub mod Recovery
use Prim.Native.Nat.{compare, Ordering}
use wasla_core.Base.{
  ℕ, ◌+◌, Option, none, some, Bool, true, false, not, ◌&&◌, ◌||◌, List, [], ◌∷◌, ◌++◌, leb,
  if◌then◌else◌, is_some, length,
}
use wasla_core.Base.Table.{Table, get, put, values}
use wasla_core.Base.Sort.{sort, then_by}
use wasla_core.Base.Loops.{Flow, next, break, for_each}
use wasla_core.Eventing.Envelope.{EventEnvelope}
use wasla_core.Eventing.Fencing.{Fence, is_fenced}
use wasla_core.Eventing.Reclaim.{
  ReclaimOutcome, reclaim_exhausted, LastError, reclaimed_error, reclaim_exhausted_error,
}

pub data OutboxStatus : Type 0 where
  pending published dead : OutboxStatus

pub record OutboxRecord : Type 0 where
  pub event : EventEnvelope
  pub created_at : ℕ
  pub status : OutboxStatus
  pub attempts : ℕ
  pub last_error : Option LastError
  pub next_attempt_at : ℕ
  pub claimed_at : Option ℕ
  pub reclaims : ℕ
  pub claim_token : Option ℕ

abbrev pub Rows : Type 0
Rows = Table OutboxRecord

abbrev pub id_of : OutboxRecord → ℕ
id_of r = r.event.event_id

abbrev pub is_pending : OutboxStatus → Bool
is_pending pending = true
is_pending _ = false

abbrev pub is_dead : OutboxStatus → Bool
is_dead dead = true
is_dead _ = false

-- `ROW_RULES.outbox`: the version, a claim only on pending work, a token only under a claim.
abbrev pub row_rules : OutboxRecord → Bool
row_rules r =
    leb 1 r.event.version
    && (not (is_some r.claimed_at) || is_pending r.status)
    && (not (is_some r.claim_token) || is_some r.claimed_at)

-- The comparator of `inDueOrder`.
unfoldable pub compare_due : OutboxRecord → OutboxRecord → Ordering
unfolding then_by
compare_due left right =
    then_by (compare left.next_attempt_at right.next_attempt_at)
      (then_by (compare left.created_at right.created_at) (compare (id_of left) (id_of right)))

unfoldable pub in_due_order : List OutboxRecord → List OutboxRecord
in_due_order rows = sort compare_due rows

abbrev pub new_row : EventEnvelope → ℕ → OutboxRecord
new_row event now = record {
  event = event;
  created_at = now;
  status = pending;
  attempts = 0;
  reclaims = 0;
  last_error = none;
  next_attempt_at = now;
  claimed_at = none;
  claim_token = none;
}

unfoldable pub append : EventEnvelope → ℕ → Rows → Rows
append event now rows =
    if is_some (get event.event_id rows) then rows else put event.event_id (new_row event now) rows

-- The three tests of the loop in `claimDue`.
abbrev pub is_claimable : ℕ → OutboxRecord → Bool
is_claimable now r = is_pending r.status && not (is_some r.claimed_at) && leb r.next_attempt_at now

abbrev pub claimed_row : ℕ → ℕ → ℕ → OutboxRecord → OutboxRecord
claimed_row now lease_ms token r = record r {
  next_attempt_at = now + lease_ms;
  claimed_at = some now;
  claim_token = some token;
}

-- What a claim has handed out so far, and the rows as it has left them.
pub record Claim : Type 0 where
  pub due : List OutboxRecord
  pub rows : Rows

unfoldable pub claim_round : ℕ → ℕ → ℕ → ℕ → OutboxRecord → Claim → Flow Claim
claim_round now limit lease_ms token r c =
    let claimed = claimed_row now lease_ms token r in
    let c' : Claim = record { due = c.due ++ claimed ∷ []; rows = put (id_of r) claimed c.rows } in
    if is_claimable now r then (if leb limit (length c'.due) then break c' else next c') else next c

unfoldable pub claim_due : ℕ → ℕ → ℕ → ℕ → Rows → Claim
claim_due now limit lease_ms token rows =
    for_each (claim_round now limit lease_ms token) (in_due_order (values rows))
      (record { due = []; rows = rows })

-- A held row whose lease has run out.
abbrev pub is_abandoned : ℕ → OutboxRecord → Bool
is_abandoned now r = is_pending r.status && is_some r.claimed_at && leb r.next_attempt_at now

unfoldable pub reclaimed_row : ℕ → ℕ → OutboxRecord → OutboxRecord
reclaimed_row now max_reclaims r =
    let reclaims = r.reclaims + 1 in
    let exhausted = reclaim_exhausted r.reclaims max_reclaims in
    record r {
      reclaims = reclaims;
      status = if exhausted then dead else r.status;
      claimed_at = none;
      claim_token = none;
      next_attempt_at = if exhausted then r.next_attempt_at else now;
      last_error =
          if exhausted
          then some (reclaim_exhausted_error reclaims r.attempts)
          else some (reclaimed_error reclaims r.attempts);
    }

pub record Reclaim : Type 0 where
  pub outcome : ReclaimOutcome
  pub rows : Rows

abbrev pub count_reclaim : Bool → ReclaimOutcome → ReclaimOutcome
count_reclaim true o = record o { dead = o.dead + 1 }
count_reclaim false o = record o { reclaimed = o.reclaimed + 1 }

unfoldable pub reclaim_round : ℕ → ℕ → ℕ → OutboxRecord → Reclaim → Flow Reclaim
reclaim_round now max_reclaims limit r s =
    if leb limit (s.outcome.reclaimed + s.outcome.dead)
    then break s
    else if is_abandoned now r
    then next (record {
      outcome = count_reclaim (reclaim_exhausted r.reclaims max_reclaims) s.outcome;
      rows = put (id_of r) (reclaimed_row now max_reclaims r) s.rows;
    })
    else next s

unfoldable pub reclaim_expired : ℕ → ℕ → ℕ → Rows → Reclaim
reclaim_expired now max_reclaims limit rows =
    for_each (reclaim_round now max_reclaims limit) (in_due_order (values rows))
      (record { outcome = record { reclaimed = 0; dead = 0 }; rows = rows })

-- Writes of a list of rows, each under its identifier.
abbrev pub put_all : List OutboxRecord → Rows → Rows
put_all [] rows = rows
put_all (r ∷ rs) rows = put_all rs (put (id_of r) r rows)

-- An acknowledgement: refused when there is no row, or its claim is not the caller's.
abbrev pub acknowledge : ℕ → Fence → (OutboxRecord → OutboxRecord) → Rows → Bool × Rows
acknowledge event_id fence change rows = elim (get event_id rows) [
  | none ↦ (false, rows)
  | some r ↦
      if is_fenced r.claim_token fence then (false, rows) else (true, put event_id (change r) rows)
]

abbrev pub published_row : OutboxRecord → OutboxRecord
published_row r = record r {
  status = published;
  last_error = none;
  claimed_at = none;
  claim_token = none;
}

unfoldable pub mark_published : ℕ → Fence → Rows → Bool × Rows
mark_published event_id fence = acknowledge event_id fence published_row

abbrev pub failed_row : LastError → ℕ → OutboxRecord → OutboxRecord
failed_row error next_attempt_at r = record r {
  attempts = r.attempts + 1;
  last_error = some error;
  next_attempt_at = next_attempt_at;
  claimed_at = none;
  claim_token = none;
}

unfoldable pub mark_failed : ℕ → Fence → LastError → ℕ → Rows → Bool × Rows
mark_failed event_id fence error next_attempt_at =
    acknowledge event_id fence (failed_row error next_attempt_at)

abbrev pub dead_row : LastError → OutboxRecord → OutboxRecord
dead_row error r = record r {
  attempts = r.attempts + 1;
  status = dead;
  last_error = some error;
  claimed_at = none;
  claim_token = none;
}

unfoldable pub mark_dead : ℕ → Fence → LastError → Rows → Bool × Rows
mark_dead event_id fence error = acknowledge event_id fence (dead_row error)

abbrev pub revived_row : ℕ → OutboxRecord → OutboxRecord
revived_row now r = record r {
  status = pending;
  next_attempt_at = now;
  claimed_at = none;
  claim_token = none;
  reclaims = 0;
}

unfoldable pub revive : ℕ → ℕ → Rows → Bool × Rows
revive event_id now rows = elim (get event_id rows) [
  | none ↦ (false, rows)
  | some r ↦
      if is_dead r.status then (true, put event_id (revived_row now r) rows) else (false, rows)
]
