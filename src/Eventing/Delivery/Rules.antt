-- ===== src/Eventing/Delivery/Rules.antt =====
-- src/platform/eventing/delivery.ts: the calls of the store keep the rules of its table.
use wasla_core.Base.{
  ℕ, ◌+◌, ◌*◌, ◌^◌, Option, none, some, Bool, true, false, ◌≡◌, refl, inl, inr, List, [], ◌∷◌,
  arith, All, All-take, filter, Bool-cases, Option-cases, is_some,
}
use wasla_core.Base.Loops.{for_each_inv, flow_state}
use wasla_core.Base.Sort.{All-sort}
use wasla_core.Base.Table.{get, put, values, AllRows, AllRows-put, AllRows-get, AllRows-values}
use wasla_core.Eventing.Delivery.{
  EventDelivery, Deliveries, Reclaim, row_rules, is_claimable, claimed_row, claim_all, claim_due,
  is_abandoned, reclaimed_row, reclaim_round, reclaim_expired, acknowledge, delivered_row,
  failed_row, dead_row, suppressed_row, mark_delivered, mark_failed, mark_dead, mark_suppressed,
  in_due_order, compare_due,
}
use wasla_core.Eventing.Delivery.Worker.{
  Settings, World, Verdict, suppress, bury, deliver, retry, acknowledge_verdict,
}
use wasla_core.Eventing.Fencing.{is_fenced}
use wasla_core.Eventing.Reclaim.{reclaim_exhausted}
use wasla_core.Platform.Errors.{ok}

abbrev pub RuleAbiding : EventDelivery → Type 0
RuleAbiding d = row_rules d ≡ true

-- Every row is one that the table's rules admit.
abbrev pub AreRuled : Deliveries → Type 0
AreRuled rows = AllRows RuleAbiding rows

-- A change that keeps the rules on a row that is held.
abbrev KeepsHeld : (EventDelivery → EventDelivery) → Type 0
KeepsHeld change =
    (d : EventDelivery) → RuleAbiding d → is_some d.claim_token ≡ true → RuleAbiding (change d)

held_token :
    (held : Option ℕ) (token : ℕ) → is_fenced held (some token) ≡ false → is_some held ≡ true
held_token none token h = cc
held_token (some t) token h = refl

-- An acknowledgement under a token is answered, and leaves rows that the rules admit.
pub acknowledge-AreRuled :
    (delivery_id token : ℕ) (change : EventDelivery → EventDelivery) (rows : Deliveries)
    → KeepsHeld change
    → AreRuled rows
    → (applied : Bool) × (rows' : Deliveries) × (acknowledge delivery_id (some token) change rows
        ≡ ok (applied, rows'))
      × AreRuled rows'
acknowledge-AreRuled delivery_id token change rows keeps ruled =
    elim (Option-cases (get delivery_id rows)) [
      | inl missing ↦ (false, rows, ground (arith, missing), ruled)
      | inr (d, there) ↦ elim (Bool-cases (is_fenced d.claim_token (some token))) [
        | inl fenced ↦ (false, rows, ground (arith, there, fenced), ruled)
        | inr mine ↦
            let own = AllRows-get RuleAbiding delivery_id d rows ruled there in
            let held = held_token d.claim_token token mine in
            let kept : RuleAbiding (change d) = keeps d own held in
            (
              true,
              put delivery_id (change d) rows,
              ground (arith, there, mine, kept),
              AllRows-put RuleAbiding delivery_id (change d) rows kept ruled,
            )
      ]
    ]

pub verdict-AreRuled :
    (cfg : Settings) (world : World) (now : ℕ) (d : EventDelivery) (token : ℕ) (v : Verdict)
    (rows : Deliveries)
    → d.claim_token ≡ some token
    → AreRuled rows
    → (applied : Bool) × (rows' : Deliveries) × (acknowledge_verdict cfg world now d v rows
        ≡ ok (applied, rows'))
      × AreRuled rows'
unfolding acknowledge_verdict mark_suppressed mark_dead mark_delivered mark_failed
verdict-AreRuled cfg world now d token (suppress reason) rows held ruled = rw held (
    acknowledge-AreRuled d.delivery_id token (suppressed_row reason) rows (λ x own h. ground arith)
      ruled)
verdict-AreRuled cfg world now d token (bury error status) rows held ruled = rw held (
    acknowledge-AreRuled d.delivery_id token (dead_row error status) rows (λ x own h. ground arith)
      ruled)
verdict-AreRuled cfg world now d token (deliver status) rows held ruled = rw held (
    acknowledge-AreRuled d.delivery_id token (delivered_row now status) rows
      (λ x own h. ground arith) ruled)
verdict-AreRuled cfg world now d token (retry error status) rows held ruled = rw held (
    acknowledge-AreRuled d.delivery_id token
      (failed_row error status (now + cfg.base_backoff_ms * 2 ^ d.attempts)) rows
      (λ x own h. ground arith) ruled)

abbrev pub HeldBy : ℕ → EventDelivery → Type 0
HeldBy token d = d.claim_token ≡ some token

-- A claim hands out rows under its token, and leaves rows that the rules admit.
claim_all-AreRuled :
    (now lease_ms token : ℕ) (ds : List EventDelivery) (rows : Deliveries)
    → All (λ d. RuleAbiding d × (is_claimable now d ≡ true)) ds
    → AreRuled rows
    → All (HeldBy token) (claim_all now lease_ms token ds rows).due
      × AreRuled (claim_all now lease_ms token ds rows).rows
unfolding claim_all
claim_all-AreRuled now lease_ms token [] rows h ruled = (tt, ruled)
claim_all-AreRuled now lease_ms token (d ∷ ds) rows ((own, free), h) ruled =
    let claimed = claimed_row now lease_ms token d in
    let (held, kept) =
      claim_all-AreRuled now lease_ms token ds (put d.delivery_id claimed rows) h
        (AllRows-put RuleAbiding d.delivery_id claimed rows (ground (arith, own, free)) ruled) in
    ((refl, held), kept)

filter-All :
    (p : EventDelivery → Bool) (ds : List EventDelivery)
    → All RuleAbiding ds
    → All (λ d. RuleAbiding d × (p d ≡ true)) (filter p ds)
filter-All p [] h = tt
filter-All p (d ∷ ds) h = ground (arith, filter-All p ds h.1)

pub claim_due-AreRuled :
    (now limit lease_ms token : ℕ) (rows : Deliveries)
    → AreRuled rows
    → All (HeldBy token) (claim_due now limit lease_ms token rows).due
      × AreRuled (claim_due now limit lease_ms token rows).rows
unfolding claim_due in_due_order
claim_due-AreRuled now limit lease_ms token rows ruled =
    claim_all-AreRuled now lease_ms token _ rows
      (All-take _ limit _ (
        All-sort compare_due _ _
          (filter-All (is_claimable now) (values rows) (AllRows-values RuleAbiding rows ruled))))
      ruled

reclaimed-RuleAbiding :
    (now max_reclaims : ℕ) (d : EventDelivery)
    → RuleAbiding d
    → is_abandoned now d ≡ true
    → RuleAbiding (reclaimed_row now max_reclaims d)
unfolding reclaimed_row
reclaimed-RuleAbiding now max_reclaims d own left =
    elim (Bool-cases (reclaim_exhausted d.reclaims max_reclaims)) [
      | inl spent ↦ ground (arith, own, left, spent)
      | inr more ↦ ground (arith, own, left, more)
    ]

pub reclaim_expired-AreRuled :
    (now max_reclaims limit : ℕ) (rows : Deliveries)
    → AreRuled rows
    → AreRuled (reclaim_expired now max_reclaims limit rows).rows
unfolding reclaim_expired in_due_order
reclaim_expired-AreRuled now max_reclaims limit rows ruled =
    for_each_inv (λ (s : Reclaim). AreRuled s.rows) RuleAbiding
      (reclaim_round now max_reclaims limit) round (in_due_order (values rows)) _
      (All-sort compare_due RuleAbiding (values rows) (AllRows-values RuleAbiding rows ruled)) ruled
  where
    round :
        (d : EventDelivery) (s : Reclaim)
        → RuleAbiding d
        → AreRuled s.rows
        → AreRuled (flow_state (reclaim_round now max_reclaims limit d s)).rows
    round d s own kept =
        unfold reclaim_round in
        ground (
          arith,
          reclaimed-RuleAbiding now max_reclaims d own,
          AllRows-put RuleAbiding d.delivery_id (reclaimed_row now max_reclaims d) s.rows,
          kept,
        )
