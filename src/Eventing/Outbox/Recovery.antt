-- ===== src/Eventing/Outbox/Recovery.antt =====
-- What `reclaimExpired` recovers, and the budget of abandonments that bounds it.
use wasla_core.Base.{
  ℕ, zero, suc, ◌+◌, Bool, true, false, not, ◌≡◌, refl, ◌∙◌, List, [], ◌∷◌, map, arith, length,
  take, filter, Bool-cases, inl, inr,
}
use wasla_core.Base.Table.{put, values}
use wasla_core.Base.Loops.{for_each}
use wasla_core.Eventing.Reclaim.{ReclaimOutcome, reclaim_exhausted}
use wasla_core.Eventing.Outbox.{
  OutboxRecord, Rows, id_of, in_due_order, is_abandoned, reclaimed_row, Reclaim, reclaim_round,
  reclaim_expired, put_all, count_reclaim,
}

-- A pass counts each row that it treats once.
counted :
    (over : Bool) (o : ReclaimOutcome)
    → (count_reclaim over o).reclaimed + (count_reclaim over o).dead ≡ o.reclaimed + o.dead + 1
counted true o = omega arith
counted false o = omega arith

module _ (now max_reclaims limit : ℕ) where
  -- Whether this abandonment of the row is one too many.
  abbrev pub gives_up : OutboxRecord → Bool
  gives_up r = reclaim_exhausted r.reclaims max_reclaims

  abbrev pub goes_on : OutboxRecord → Bool
  goes_on r = not (reclaim_exhausted r.reclaims max_reclaims)

  abbrev expired : ℕ → List OutboxRecord → List OutboxRecord
  expired n xs = take n (filter (is_abandoned now) xs)

  -- The outcome and the rows once the given rows have been treated.
  abbrev treated : List OutboxRecord → Reclaim → Reclaim
  treated [] s = s
  treated (r ∷ rs) s = treated rs (record {
    outcome = count_reclaim (gives_up r) s.outcome;
    rows = put (id_of r) (reclaimed_row now max_reclaims r) s.rows;
  })

  for_each-reclaim_round :
      (xs : List OutboxRecord) (k : ℕ) (s : Reclaim)
      → s.outcome.reclaimed + s.outcome.dead + k ≡ limit
      → for_each (reclaim_round now max_reclaims limit) xs s ≡ treated (expired k xs) s
  unfolding for_each reclaim_round
  for_each-reclaim_round [] zero s room = refl
  for_each-reclaim_round [] (suc k) s room = refl
  for_each-reclaim_round (x ∷ xs) zero s room = ground arith
  for_each-reclaim_round (x ∷ xs) (suc k) s room =
      let s' : Reclaim = record {
        outcome = count_reclaim (gives_up x) s.outcome;
        rows = put (id_of x) (reclaimed_row now max_reclaims x) s.rows;
      } in
      ground (
        arith,
        for_each-reclaim_round xs (suc k) s room,
        for_each-reclaim_round xs k s',
        counted (gives_up x) s.outcome,
      )

  id_of-reclaimed_row : (r : OutboxRecord) → id_of (reclaimed_row now max_reclaims r) ≡ id_of r
  unfolding reclaimed_row
  id_of-reclaimed_row r = refl

  treated_lem :
      (found : List OutboxRecord) (s : Reclaim)
      → treated found s ≡ record {
        outcome = record {
          reclaimed = s.outcome.reclaimed + length (filter goes_on found);
          dead = s.outcome.dead + length (filter gives_up found);
        };
        rows = put_all (map (reclaimed_row now max_reclaims) found) s.rows;
      }
  treated_lem [] s = ground arith
  treated_lem (x ∷ xs) s =
      let rows = put (id_of x) (reclaimed_row now max_reclaims x) s.rows in
      elim (Bool-cases (gives_up x)) [
        | inl over ↦
            let s' : Reclaim = record {
              outcome = record s.outcome { dead = s.outcome.dead + 1 };
              rows = rows;
            } in
            rw over (treated_lem xs s' ∙ ground (arith, id_of-reclaimed_row x))
        | inr under ↦
            let s' : Reclaim = record {
              outcome = record s.outcome { reclaimed = s.outcome.reclaimed + 1 };
              rows = rows;
            } in
            rw under (treated_lem xs s' ∙ ground (arith, id_of-reclaimed_row x))
      ]

  -- A reclaim pass treats the first `limit` abandoned rows in due order and no others: it counts
  -- those past the budget of abandonments as dead and the rest as reclaimed, and changes each of
  -- them as `reclaimed_row` says.
  pub reclaim_expired_lem :
      (rows : Rows)
      → let found = take limit (filter (is_abandoned now) (in_due_order (values rows))) in
        reclaim_expired now max_reclaims limit rows ≡ record {
          outcome = record {
            reclaimed = length (filter goes_on found);
            dead = length (filter gives_up found);
          };
          rows = put_all (map (reclaimed_row now max_reclaims) found) rows;
        }
  unfolding reclaim_expired
  reclaim_expired_lem rows =
      let start : Reclaim = record { outcome = record { reclaimed = 0; dead = 0 }; rows = rows } in
      for_each-reclaim_round (in_due_order (values rows)) limit start (omega arith)
      ∙ treated_lem (expired limit (in_due_order (values rows))) start
      ∙ ground arith
