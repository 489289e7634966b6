-- ===== src/Eventing/Tests.antt =====
-- Runs of the models of src/platform/eventing at concrete rows and schedules.
use text.Mathlib.Text.{◌==◌ as str_eq}
use wasla_core.Base.{
  zero, String, Option, suc, true, ap, subst, ℕ, none, some, false, ◌≡◌, ◌≢◌, refl, List, [], ◌∷◌,
  map, max, take, filter, length, All, arith, ◌+◌, ◌≤◌,
}
use wasla_core.Platform.Texts.{is_truthy}
use wasla_core.Eventing.Bus.{Bus, publish, seen, deliver_all, deliver, attempt, claim, release}
use wasla_core.Eventing.Bus.Publishing.{publish_again}
use wasla_core.Base.Sort.{sort, insert, then_by}
use wasla_core.Eventing.Outbox.{dead}
use wasla_core.Eventing.Counts.{tally_by_status, tally_by_status_adds_up}
use wasla_core.Eventing.Revival.{
  OutboxRevivalSelection, select_dead, matches_filters, matches_outbox_revival,
  compare_revival_position,
}
use wasla_core.Eventing.Revival.Pages.{select_dead_resumes}
use wasla_core.Base.Table.{get, values}
use wasla_core.Eventing.Envelope.{EventEnvelope}
use wasla_core.Eventing.Reclaim.{message}
use wasla_core.Eventing.Outbox.{
  OutboxRecord, Rows, id_of, pending, published, in_due_order, is_claimable, claimed_row, claim_due,
  reclaim_expired, reclaimed_row, is_abandoned, put_all, mark_published, mark_failed, mark_dead,
}
use wasla_core.Eventing.Outbox.Ops.{
  Op, append_op, claim_op, reclaim_op, published_op, failed_op, dead_op, revive_op, run,
}
use wasla_core.Eventing.Outbox.Claims.{claim_due_lem, claim_due_exclusive}
use wasla_core.Eventing.Outbox.Finality.{published_row_is_final}
use wasla_core.Eventing.Outbox.Invariant.{IsStore, run-IsStore}
use wasla_core.Eventing.Outbox.Recovery.{reclaim_expired_lem, gives_up, goes_on}
use wasla_core.Eventing.Outbox.Budget.{recoveries, left, recoveries-run}
use wasla_core.Eventing.Outbox.Staleness.{NotHeld, stale_acknowledgement}
use wasla_core.Eventing.Relay.{Settings, World, drain_once}
use wasla_core.Eventing.Relay.Accounting.{drain_once_accounts, drain_once_releases}

abbrev event_of : ℕ → EventEnvelope
event_of n = record {
  event_id = n;
  event_type = "core.wallet.created";
  version = 1;
  producer = "wasla-core";
  occurred_at = 5;
  correlation_id = "c";
  causation_id = none;
  entity_type = "wallet";
  entity_id = 9;
  payload = [];
}

abbrev waiting_row : OutboxRecord
waiting_row = record {
  event = event_of 1;
  created_at = 10;
  status = pending;
  attempts = 0;
  last_error = none;
  next_attempt_at = 10;
  claimed_at = none;
  reclaims = 0;
  claim_token = none;
}

abbrev held_row : OutboxRecord
held_row = record waiting_row {
  event = event_of 2;
  next_attempt_at = 20;
  claimed_at = some 12;
  claim_token = some 7;
  reclaims = 1;
}

abbrev sent_row : OutboxRecord
sent_row = record waiting_row { event = event_of 3; status = published }

abbrev three_rows : Rows
three_rows = (1, waiting_row) ∷ (2, held_row) ∷ (3, sent_row) ∷ []

three_rows-IsStore : IsStore three_rows
three_rows-IsStore = record {
  keyed = unfold get in (refl, refl, (refl, refl, (refl, refl, tt)));
  ruled = (refl, (refl, (refl, tt)));
}

abbrev schedule : List Op
schedule =
    append_op (event_of 4) 15
    ∷ claim_op 30 2 30000 8
    ∷ reclaim_op 40 3 100
    ∷ published_op 1 (some 8)
    ∷ failed_op 4 (some 8) (message "bus") 99
    ∷ dead_op 2 (some 7) (message "bus")
    ∷ revive_op 2 60
    ∷ []

abbrev relay : Settings
relay = record { max_attempts = 5; base_backoff_ms = 1000; max_reclaims = 3 }

-- A worker claims the row, loses it to a second pass and comes late.
abbrev schedule_of_pass : List Op
schedule_of_pass =
    append_op (event_of 4) 15
    ∷ claim_op 70 2 100 8
    ∷ reclaim_op 200 1 100
    ∷ failed_op 2 (some 8) (message "bus") 99
    ∷ revive_op 4 210
    ∷ []

-- The bus refuses everything, and another relay reclaims meanwhile.
abbrev outage : World
outage = record { publish = λ e. some "down"; meanwhile = λ e. reclaim_op 100000 3 10 ∷ [] }

run-IsStore_example : IsStore (run schedule three_rows)
run-IsStore_example =
    run-IsStore schedule three_rows (omega arith, (tt, (tt, (tt, (tt, (tt, (tt, tt)))))))
      three_rows-IsStore

claim_due_lem_example : claim_due 30 2 30000 8 three_rows ≡ record {
  due =
      map
        (claimed_row 30 30000 8)
        (take (max 2 1) (filter (is_claimable 30) (in_due_order (values three_rows))));
  rows =
      put_all
        (map
          (claimed_row 30 30000 8)
          (take (max 2 1) (filter (is_claimable 30) (in_due_order (values three_rows)))))
        three_rows;
}
claim_due_lem_example = claim_due_lem 30 2 30000 8 three_rows

claim_due_exclusive_example :
    All
      (λ a.
        All
          (λ b. id_of a ≢ id_of b)
          (claim_due 31 5 30000 9 (claim_due 30 2 30000 8 three_rows).rows).due)
      (claim_due 30 2 30000 8 three_rows).due
claim_due_exclusive_example =
    claim_due_exclusive 30 2 30000 8 31 5 30000 9 three_rows three_rows-IsStore

not_held : NotHeld 6 2 three_rows
not_held r e = unfold get in ground arith

stale_acknowledgement_example :
    (mark_published 2 (some 6) (run schedule three_rows) ≡ (false, run schedule three_rows))
    × (mark_failed 2 (some 6) (message "late") 50 (run schedule three_rows)
        ≡ (false, run schedule three_rows))
    × (mark_dead 2 (some 6) (message "late") (run schedule three_rows)
        ≡ (false, run schedule three_rows))
stale_acknowledgement_example =
    stale_acknowledgement 6 2 schedule three_rows (message "late") 50
      (tt, (omega arith, (tt, (tt, (tt, (tt, (tt, tt))))))) not_held

published_row_is_final_example : get 3 (run schedule three_rows) ≡ some sent_row
published_row_is_final_example =
    published_row_is_final 3 sent_row refl schedule three_rows
      (omega arith, (tt, (tt, (refl, (refl, (refl, (tt, tt))))))) three_rows-IsStore
      (unfold get in refl)

reclaim_expired_lem_example : reclaim_expired 40 3 100 three_rows ≡ record {
  outcome = record {
    reclaimed = length (
        filter
          (goes_on 40 3 100)
          (take 100 (filter (is_abandoned 40) (in_due_order (values three_rows)))));
    dead = length (
        filter
          (gives_up 40 3 100)
          (take 100 (filter (is_abandoned 40) (in_due_order (values three_rows)))));
  };
  rows =
      put_all
        (map
          (reclaimed_row 40 3)
          (take 100 (filter (is_abandoned 40) (in_due_order (values three_rows)))))
        three_rows;
}
reclaim_expired_lem_example = reclaim_expired_lem 40 3 100 three_rows

recoveries-run_example :
    recoveries 2 (reclaim_op 60 1 100 ∷ schedule_of_pass) three_rows
      + left 1 2 (get 2 (run (reclaim_op 60 1 100 ∷ schedule_of_pass) three_rows))
    ≤ left 1 2 (get 2 three_rows)
recoveries-run_example =
    recoveries-run 1 2 (reclaim_op 60 1 100 ∷ schedule_of_pass) three_rows
      (tt, (omega arith, (tt, (tt, (tt, (tt, tt))))))
      (refl, (tt, (tt, (refl, (tt, (omega arith, tt)))))) three_rows-IsStore

drain_once_accounts_example :
    let p = (drain_once relay outage 50 10 8 three_rows).result in
    p.published + p.failed + p.dead + p.fenced
    ≡ length (claim_due 50 10 30000 8 (reclaim_expired 50 3 10 three_rows).rows).due
drain_once_accounts_example = drain_once_accounts relay outage 50 10 8 three_rows

drain_once_releases_example :
    All
      (λ r. NotHeld 8 (id_of r) (drain_once relay outage 50 10 8 three_rows).rows)
      (claim_due 50 10 30000 8 (reclaim_expired 50 3 10 three_rows).rows).due
drain_once_releases_example = drain_once_releases relay outage 50 8 (λ e. (tt, tt)) 10 three_rows

abbrev dead_one : OutboxRecord
dead_one = record waiting_row { event = event_of 5; status = dead }

abbrev dead_two : OutboxRecord
dead_two = record waiting_row { event = event_of 6; status = dead }

abbrev two_dead : Rows
two_dead = (6, dead_two) ∷ (1, waiting_row) ∷ (5, dead_one) ∷ []

abbrev first_page : OutboxRevivalSelection
first_page = record {
  event_ids = none;
  event_types = none;
  producer = some "wasla-core";
  entity_type = none;
  entity_id = none;
  occurred_from = none;
  occurred_to = none;
  after = none;
  limit = 1;
}

first_selected : select_dead first_page two_dead ≡ dead_one ∷ []
unfolding select_dead matches_filters matches_outbox_revival compare_revival_position sort insert
    values then_by
first_selected = refl

select_dead_resumes_example :
    All
      (λ b. All (λ a. a ≢ b) (select_dead first_page two_dead))
      (select_dead (record first_page { after = some (5, 5) }) two_dead)
select_dead_resumes_example =
    select_dead_resumes first_page two_dead two_dead [] dead_one first_selected

tally_by_status_adds_up_example :
    let c = tally_by_status 40 three_rows in
    (c.pending_rows + c.published_rows + c.dead_rows ≡ length (values three_rows))
    × (c.abandoned ≡ length (filter (is_abandoned 40) (values three_rows)))
    × (c.in_flight + c.abandoned ≤ c.pending_rows)
tally_by_status_adds_up_example = tally_by_status_adds_up 40 three_rows

-- A handler that is busy at first, and one that has nothing to do.
abbrev busy_once : EventEnvelope → ℕ → Option String × ℕ
busy_once event zero = (some "busy", 1)
busy_once event (suc n) = (none, suc (suc n))

abbrev idle : EventEnvelope → ℕ → Option String × ℕ
idle event n = (none, n)

abbrev bus : Bus ℕ
bus = record {
  subs =
      record { consumer = "move"; event_type = "core.wallet.created"; handler = busy_once }
      ∷ record { consumer = "market"; event_type = "core.wallet.closed"; handler = idle }
      ∷ record { consumer = "market"; event_type = "core.wallet.created"; handler = idle }
      ∷ [];
  dead_letters = [];
  inbox = [];
  max_attempts = 3;
  world = 0;
}

abbrev delivered : Bus ℕ
delivered = record bus {
  world = 2;
  inbox =
      record { consumer = "move"; event_id = 1; received_at = 7 }
      ∷ record { consumer = "market"; event_id = 1; received_at = 7 }
      ∷ [];
}

published_once : publish 7 (event_of 1) bus ≡ ([], delivered)
unfolding deliver_all deliver attempt claim release seen
published_once = refl

busy_once-Told :
    (e : EventEnvelope) (w : ℕ) (text : String)
    → (busy_once e w).0 ≡ some text
    → is_truthy (some text) ≡ true
busy_once-Told e zero text h = subst (λ o. is_truthy o ≡ true) h refl
busy_once-Told e (suc n) text h = cc

idle-Told :
    (e : EventEnvelope) (w : ℕ) (text : String)
    → (idle e w).0 ≡ some text
    → is_truthy (some text) ≡ true
idle-Told e w text h = cc

publish_again_example :
    All
      (λ sub.
        str_eq sub.event_type (event_of 1).event_type ≡ true
        → seen sub.consumer 1 (publish 7 (event_of 1) bus).1.inbox ≡ true)
      bus.subs
    × (publish 9 (event_of 1) (publish 7 (event_of 1) bus).1 ≡ ([], (publish 7 (event_of 1) bus).1))
publish_again_example =
    publish_again 7 9 (event_of 1) bus (busy_once-Told, (idle-Told, (idle-Told, tt))) (omega arith)
      (ap (λ r. r.0) published_once)
