-- ===== src/Eventing/Relay.antt =====
-- src/platform/eventing/publisher.ts (`OutboxPublisher.drainOnce`). What the bus and the fan-outs
-- answer for an event, and what other processes do to the outbox while the event is on the bus, are
-- parameters; metrics are left out.
pub mod Accounting
use wasla_core.Base.{
  ℕ, ◌+◌, ◌*◌, ◌^◌, String, Option, none, some, Bool, true, false, List, leb, if◌then◌else◌,
}
use wasla_core.Base.Loops.{Flow, next, for_each}
use wasla_core.Eventing.Envelope.{EventEnvelope}
use wasla_core.Eventing.Reclaim.{message}
use wasla_core.Eventing.Outbox.Ops.{Op, run}
use wasla_core.Eventing.Outbox.{
  OutboxRecord, Rows, id_of, claim_due, reclaim_expired, mark_published, mark_failed, mark_dead,
}

pub record PublisherResult : Type 0 where
  pub published : ℕ
  pub failed : ℕ
  pub dead : ℕ
  pub reclaimed : ℕ
  pub reclaim_exhausted : ℕ
  pub fenced : ℕ

pub record Settings : Type 0 where
  pub max_attempts : ℕ
  pub base_backoff_ms : ℕ
  pub max_reclaims : ℕ

pub record World : Type 0 where
  -- The message with which `bus.publish` or a fan-out throws, if one does.
  pub publish : EventEnvelope → Option String
  -- The calls that others make of the outbox before the acknowledgement.
  pub meanwhile : EventEnvelope → List Op

pub record Pass : Type 0 where
  pub result : PublisherResult
  pub rows : Rows

-- `if (!applied) throw new FencedError(...)`, and the catch block that counts it.
abbrev pub after_publish : Bool × Rows → PublisherResult → Pass
after_publish (true, rows) result = record {
  result = record result { published = result.published + 1 };
  rows = rows;
}
after_publish (false, rows) result = record {
  result = record result { fenced = result.fenced + 1 };
  rows = rows;
}

module _ (cfg : Settings) (world : World) (now : ℕ) where
  -- The catch block for an error that is no fence: the acknowledgement's answer is not read.
  unfoldable pub after_failure : OutboxRecord → String → Rows → PublisherResult → Pass
  after_failure r error rows result =
      if leb cfg.max_attempts (r.attempts + 1)
      then record {
        result = record result { dead = result.dead + 1 };
        rows = (mark_dead (id_of r) r.claim_token (message error) rows).1;
      }
      else record {
        result = record result { failed = result.failed + 1 };
        rows =
            (mark_failed (id_of r) r.claim_token (message error)
              (now + cfg.base_backoff_ms * 2 ^ r.attempts) rows).1;
      }

  unfoldable pub relay_one : OutboxRecord → Pass → Pass
  relay_one r s =
      let rows = run (world.meanwhile r.event) s.rows in
      elim (world.publish r.event) [
        | none ↦ after_publish (mark_published (id_of r) r.claim_token rows) s.result
        | some error ↦ after_failure r error rows s.result
      ]

  unfoldable pub relay_round : OutboxRecord → Pass → Flow Pass
  relay_round r s = next (relay_one r s)

  -- `drainOnce`; `token` is the fresh token of its claim, and the lease is the default.
  unfoldable pub drain_once : ℕ → ℕ → Rows → Pass
  drain_once limit token rows =
      let reclaim = reclaim_expired now cfg.max_reclaims limit rows in
      let claim = claim_due now limit 30000 token reclaim.rows in
      for_each relay_round claim.due (record {
        result = record {
          published = 0;
          failed = 0;
          dead = 0;
          reclaimed = reclaim.outcome.reclaimed;
          reclaim_exhausted = reclaim.outcome.dead;
          fenced = 0;
        };
        rows = claim.rows;
      })
