-- ===== src/Eventing/Delivery/Worker/Accounting.antt =====
-- src/platform/eventing/delivery.ts: what a pass of the delivery worker counts, and that it never throws.
use wasla_core.Base.{
  ℕ, ◌+◌, Bool, true, false, ◌≡◌, refl, ap, ◌∙◌, List, [], ◌∷◌, arith, All, length,
}
use wasla_core.Base.Table.{get}
use wasla_core.Eventing.Delivery.{EventDelivery, DeliveryStore, claim_due, reclaim_expired}
use wasla_core.Eventing.Delivery.Worker.{
  Settings, World, Pass, DeliveryWorkerResult, Verdict, suppress, bury, deliver, retry, judge,
  after_ack, count_ack, deliver_one, deliver_all, drain_once,
}
use wasla_core.Platform.Errors.{ok}
use wasla_core.Eventing.Delivery.Rules.{
  AreRuled, HeldBy, verdict-AreRuled, claim_due-AreRuled, reclaim_expired-AreRuled,
}

-- What the other processes do to the store keeps the table's rules, as `putRow` has every write do.
abbrev pub KeepsRules : (EventDelivery → DeliveryStore → DeliveryStore) → Type 0
KeepsRules act =
    (d : EventDelivery) (store : DeliveryStore)
    → AreRuled store.deliveries
    → AreRuled (act d store).deliveries

-- The claimed deliveries that the pass has dealt with.
abbrev settled : DeliveryWorkerResult → ℕ
settled r = r.delivered + r.failed + r.dead + r.fenced + r.suppressed

module _ (cfg : Settings) (world : World) (now token : ℕ) (first : KeepsRules world.before)
    (later : KeepsRules world.meanwhile) where
  deliver_one-total :
      (d : EventDelivery) (s : Pass)
      → HeldBy token d
      → AreRuled s.store.deliveries
      → (s' : Pass) × (deliver_one cfg world now d s ≡ ok s')
        × (settled s'.result ≡ settled s.result + 1)
        × AreRuled s'.store.deliveries
  unfolding deliver_one
  deliver_one-total d s held ruled =
      let read = world.before d s.store in
      let verdict = judge cfg world now d (get d.subscription_id read.subscriptions) in
      let store = world.meanwhile d read in
      let (applied, rows, answer, kept) =
        verdict-AreRuled cfg world now d token verdict store.deliveries held
          (later d read (first d s.store ruled)) in
      (
        record {
          result = count_ack cfg world now applied verdict s.result;
          store = record store { deliveries = rows };
        },
        ap (after_ack cfg world now verdict s.result store) answer,
        counted applied verdict s.result,
        kept,
      )
    where
      counted :
          (applied : Bool) (v : Verdict) (r : DeliveryWorkerResult)
          → settled (count_ack cfg world now applied v r) ≡ settled r + 1
      counted false v r = omega arith
      counted true (suppress reason) r = omega arith
      counted true (bury error status) r = omega arith
      counted true (deliver status) r = omega arith
      counted true (retry error status) r = omega arith

  deliver_all-total :
      (ds : List EventDelivery) (s : Pass)
      → All (HeldBy token) ds
      → AreRuled s.store.deliveries
      → (s' : Pass) × (deliver_all cfg world now ds s ≡ ok s')
        × (settled s'.result ≡ settled s.result + length ds)
        × AreRuled s'.store.deliveries
  unfolding deliver_all
  deliver_all-total [] s held ruled = (s, refl, omega arith, ruled)
  deliver_all-total (d ∷ ds) s (held, rest) ruled =
      let (s', ran, counted, kept) = deliver_one-total d s held ruled in
      let (s'', others, all_counted, kept') = deliver_all-total ds s' rest kept in
      (s'', ground (arith, ran, others), omega (arith, counted, all_counted), kept')

-- From deliveries that the table's rules admit, and where what other processes do keeps the rules, a pass of
-- the delivery worker never throws, whatever the endpoints answer; it counts every delivery that it claimed
-- exactly once, as delivered, failed, dead, fenced or suppressed, and the rules hold of what it leaves.
pub drain_once_total :
    (cfg : Settings) (world : World) (now limit token : ℕ) (store : DeliveryStore)
    → KeepsRules world.before
    → KeepsRules world.meanwhile
    → AreRuled store.deliveries
    → let found = (reclaim_expired now cfg.max_reclaims limit store.deliveries).rows in
      (p : Pass) × (drain_once cfg world now limit token store ≡ ok p)
      × (p.result.delivered + p.result.failed + p.result.dead + p.result.fenced
            + p.result.suppressed
          ≡ length (claim_due now limit 30000 token found).due)
      × AreRuled p.store.deliveries
unfolding drain_once
drain_once_total cfg world now limit token store first later ruled =
    let found = reclaim_expired now cfg.max_reclaims limit store.deliveries in
    let claim = claim_due now limit 30000 token found.rows in
    let (held, kept) =
      claim_due-AreRuled now limit 30000 token found.rows
        (reclaim_expired-AreRuled now cfg.max_reclaims limit store.deliveries ruled) in
    let (p, ran, counted, left) =
      deliver_all-total cfg world now token first later claim.due _ held kept in
    (p, ran, counted ∙ omega arith, left)
