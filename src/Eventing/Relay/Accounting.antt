-- ===== src/Eventing/Relay/Accounting.antt =====
-- What a pass of the relay counts, and what it leaves behind.
use wasla_core.Base.{
  ℕ, ◌+◌, ◌*◌, ◌^◌, String, Option, none, some, Bool, true, false, ◌≡◌, refl, ◌∙◌, List, [], ◌∷◌,
  arith, All, All-of_map, length, leb,
}
use wasla_core.Base.Loops.{for_each}
use wasla_core.Eventing.Envelope.{EventEnvelope}
use wasla_core.Eventing.Reclaim.{message}
use wasla_core.Eventing.Outbox.Ops.{Op, published_op, failed_op, dead_op, apply, run}
use wasla_core.Eventing.Outbox.Claims.{claim_due_lem}
use wasla_core.Eventing.Outbox.Staleness.{
  NotHeld, NotReissued, run-NotHeld, apply-NotHeld, acknowledge-NotHeld,
}
use wasla_core.Eventing.Outbox.{
  OutboxRecord, Rows, id_of, claim_due, reclaim_expired, published_row, dead_row, failed_row,
  claimed_row,
}
use wasla_core.Eventing.Relay.{
  PublisherResult, Settings, World, Pass, after_failure, relay_one, relay_round, drain_once,
}

-- The rows that the pass claimed and has dealt with.
abbrev settled : PublisherResult → ℕ
settled p = p.published + p.failed + p.dead + p.fenced

module _ (cfg : Settings) (world : World) (now : ℕ) where
  relay_one-settled :
      (r : OutboxRecord) (s : Pass)
      → settled (relay_one cfg world now r s).result ≡ settled s.result + 1
  unfolding relay_one after_failure
  relay_one-settled r s = ground arith

  for_each-settled :
      (rs : List OutboxRecord) (s : Pass)
      → settled (for_each (relay_round cfg world now) rs s).result ≡ settled s.result + length rs
  unfolding for_each relay_round
  for_each-settled [] s = omega arith
  for_each-settled (r ∷ rs) s =
      omega (arith, for_each-settled rs (relay_one cfg world now r s), relay_one-settled r s)

  -- Every row that a pass claims is counted exactly once, as published, failed, dead or fenced,
  -- whatever the bus answers and whatever other processes do meanwhile.
  pub drain_once_accounts :
      (limit token : ℕ) (rows : Rows)
      → let p = (drain_once cfg world now limit token rows).result in
        let found = (reclaim_expired now cfg.max_reclaims limit rows).rows in
        p.published + p.failed + p.dead + p.fenced
        ≡ length (claim_due now limit 30000 token found).due
  unfolding drain_once
  drain_once_accounts limit token rows =
      for_each-settled
        (claim_due now limit 30000 token (reclaim_expired now cfg.max_reclaims limit rows).rows).due
        _
      ∙ omega arith

-- The acknowledgement that the relay makes of a row, by what the bus answered.
module _ (cfg : Settings) (now : ℕ) (r : OutboxRecord) where
  abbrev failure_reply : String → Bool → Op
  failure_reply error true = dead_op (id_of r) r.claim_token (message error)
  failure_reply error false =
      failed_op (id_of r) r.claim_token (message error) (now + cfg.base_backoff_ms * 2 ^ r.attempts)

  abbrev reply : Option String → Op
  reply none = published_op (id_of r) r.claim_token
  reply (some error) = failure_reply error (leb cfg.max_attempts (r.attempts + 1))

  reply_cases {ℓ} :
      (P : Op → Type ℓ)
      → P (published_op (id_of r) r.claim_token)
      → ((error : String) (last : Bool) → P (failure_reply error last))
      → (answer : Option String) → P (reply answer)
  reply_cases P done failed none = done
  reply_cases P done failed (some error) = failed error (leb cfg.max_attempts (r.attempts + 1))

  relay_one-rows :
      (world : World) (s : Pass)
      → (relay_one cfg world now r s).rows
        ≡ apply (reply (world.publish r.event)) (run (world.meanwhile r.event) s.rows)
  unfolding relay_one after_failure apply
  relay_one-rows world s = ground arith

  module _ (token : ℕ) where
    reply-NotReissued : (answer : Option String) → NotReissued token (reply answer)
    reply-NotReissued = reply_cases (NotReissued token) tt failed
      where
        failed : (error : String) (last : Bool) → NotReissued token (failure_reply error last)
        failed error true = tt
        failed error false = tt

    -- The row is under the pass's claim no more.
    reply-NotHeld :
        (answer : Option String) (rows : Rows)
        → r.claim_token ≡ some token
        → NotHeld token (id_of r) (apply (reply answer) rows)
    unfolding apply
    reply-NotHeld answer rows mine =
        reply_cases (λ op. NotHeld token (id_of r) (apply op rows))
          (rw mine (acknowledge-NotHeld token (id_of r) published_row rows (λ _. refl))) failed
          answer
      where
        failed :
            (error : String) (last : Bool)
            → NotHeld token (id_of r) (apply (failure_reply error last) rows)
        failed error true =
            rw mine
              (acknowledge-NotHeld token (id_of r) (dead_row (message error)) rows (λ _. refl))
        failed error false = rw mine (
            acknowledge-NotHeld token (id_of r)
              (failed_row (message error) (now + cfg.base_backoff_ms * 2 ^ r.attempts)) rows
              (λ _. refl))

-- A pass whose claim has a token that no other claim is given.
module _ (cfg : Settings) (world : World) (now token : ℕ)
    (fresh : (e : EventEnvelope) → All (NotReissued token) (world.meanwhile e)) where
  relay_one-keeps :
      (k : ℕ) (r : OutboxRecord) (s : Pass)
      → NotHeld token k s.rows
      → NotHeld token k (relay_one cfg world now r s).rows
  relay_one-keeps k r s h =
      let answer = world.publish r.event in
      rw (relay_one-rows cfg now r world s) (
        apply-NotHeld token k (reply cfg now r answer) (run (world.meanwhile r.event) s.rows)
          (reply-NotReissued cfg now r token answer)
          (run-NotHeld token k (world.meanwhile r.event) s.rows (fresh r.event) h))

  relay_one-frees :
      (r : OutboxRecord) (s : Pass)
      → r.claim_token ≡ some token
      → NotHeld token (id_of r) (relay_one cfg world now r s).rows
  relay_one-frees r s mine = rw (relay_one-rows cfg now r world s) (
      reply-NotHeld cfg now r token (world.publish r.event) (run (world.meanwhile r.event) s.rows)
        mine)

  for_each-keeps :
      (k : ℕ) (rs : List OutboxRecord) (s : Pass)
      → NotHeld token k s.rows
      → NotHeld token k (for_each (relay_round cfg world now) rs s).rows
  unfolding for_each relay_round
  for_each-keeps k [] s h = h
  for_each-keeps k (r ∷ rs) s h =
      for_each-keeps k rs (relay_one cfg world now r s) (relay_one-keeps k r s h)

  for_each-frees :
      (rs : List OutboxRecord) (s : Pass)
      → All (λ r. r.claim_token ≡ some token) rs
      → All (λ r. NotHeld token (id_of r) (for_each (relay_round cfg world now) rs s).rows) rs
  unfolding for_each relay_round
  for_each-frees [] s mine = tt
  for_each-frees (r ∷ rs) s mine = (
    for_each-keeps (id_of r) rs (relay_one cfg world now r s) (relay_one-frees r s mine.0),
    for_each-frees rs (relay_one cfg world now r s) mine.1,
  )

  due-token :
      (limit lease_ms : ℕ) (rows : Rows)
      → All (λ r. r.claim_token ≡ some token) (claim_due now limit lease_ms token rows).due
  due-token limit lease_ms rows =
      rw claim_due_lem (
        All-of_map (λ r. r.claim_token ≡ some token) (claimed_row now lease_ms token) (λ _. refl) _)

  -- When a pass ends, none of the rows that it claimed is still under its claim, whatever the bus
  -- answered and whatever others did meanwhile: each was acknowledged, or had been taken away. The
  -- claim's token must not be given to another claim.
  pub drain_once_releases :
      (limit : ℕ) (rows : Rows)
      → let found = (reclaim_expired now cfg.max_reclaims limit rows).rows in
        All
          (λ r. NotHeld token (id_of r) (drain_once cfg world now limit token rows).rows)
          (claim_due now limit 30000 token found).due
  unfolding drain_once
  drain_once_releases limit rows =
      let found = (reclaim_expired now cfg.max_reclaims limit rows).rows in
      for_each-frees (claim_due now limit 30000 token found).due _ (due-token limit 30000 found)
