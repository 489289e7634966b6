-- ===== src/Eventing/Outbox/Claims.antt =====
-- What `claimDue` hands out: the due rows that come first, each to one worker.
use mathlib.Core.List.{append_assoc, append-nil}
use wasla_core.Base.{
  ℕ, zero, suc, ◌+◌, ◌-◌, max, some, true, false, ◌≡◌, ◌≢◌, refl, ap, List, [], ◌∷◌, ◌++◌, map,
  arith, All, All-append, All-map, All-every, is_some, length, length-append, take, filter,
  Bool-cases, ◌==◌, inl, inr,
}
use wasla_core.Base.Table.{get, put, get-put, get-put_self, values, values-get, IsKeyed}
use wasla_core.Base.Sort.{All-sort}
use wasla_core.Base.Loops.{for_each, for_each_inv, flow_state}
use wasla_core.Eventing.Outbox.Invariant.{IsStore, apply-IsStore}
use wasla_core.Eventing.Outbox.Ops.{claim_op, apply}
use wasla_core.Eventing.Outbox.{
  OutboxRecord, Rows, id_of, compare_due, in_due_order, is_claimable, claimed_row, claim_round,
  claim_due, Claim, put_all,
}

module _ (now limit lease_ms token : ℕ) where
  abbrev taken : ℕ → List OutboxRecord → List OutboxRecord
  taken n xs = map (claimed_row now lease_ms token) (take n (filter (is_claimable now) xs))

  for_each-claim_round :
      (xs : List OutboxRecord) (k : ℕ) (c : Claim)
      → length c.due + suc k ≡ max limit 1
      → for_each (claim_round now limit lease_ms token) xs c
        ≡ record { due = c.due ++ taken (suc k) xs; rows = put_all (taken (suc k) xs) c.rows }
  unfolding for_each claim_round
  for_each-claim_round [] k c room = ground (arith, append-nil c.due)
  for_each-claim_round (x ∷ xs) zero c room = ground (
    arith,
    length-append c.due (claimed_row now lease_ms token x ∷ []),
    for_each-claim_round xs zero c room,
  )
  for_each-claim_round (x ∷ xs) (suc k) c room =
      let x' = claimed_row now lease_ms token x in
      ground (
        arith,
        length-append c.due (x' ∷ []),
        for_each-claim_round xs (suc k) c room,
        for_each-claim_round xs k
            (record { due = c.due ++ x' ∷ []; rows = put (id_of x) x' c.rows }),
        append_assoc c.due (x' ∷ []) (taken (suc k) xs),
      )

  -- A claim hands out the first `limit` due rows in due order, or the first one when `limit` is 0,
  -- each under the new lease and token, and changes no row but those.
  pub claim_due_lem :
      (rows : Rows)
      → let due =
          map
            (claimed_row now lease_ms token)
            (take (max limit 1) (filter (is_claimable now) (in_due_order (values rows)))) in
        claim_due now limit lease_ms token rows ≡ record { due = due; rows = put_all due rows }
  unfolding claim_due
  claim_due_lem rows =
      let e : max limit 1 ≡ suc (max limit 1 - 1) = omega arith in
      rw e (
        for_each-claim_round (in_due_order (values rows)) (max limit 1 - 1)
          (record { due = []; rows = rows }) (omega arith))

-- The row is there and a worker holds it.
abbrev IsHeld : Rows → ℕ → Type 0
IsHeld rows k = (r : OutboxRecord) × (get k rows ≡ some r) × (is_some r.claimed_at ≡ true)

-- The row is there and nobody held it.
abbrev IsFree : Rows → ℕ → Type 0
IsFree rows k = (r : OutboxRecord) × (get k rows ≡ some r) × (is_some r.claimed_at ≡ false)

module _ (now limit lease_ms token : ℕ) where
  IsHeld-put :
      (r : OutboxRecord) (rows : Rows) (k : ℕ)
      → IsHeld rows k
      → IsHeld (put (id_of r) (claimed_row now lease_ms token r) rows) k
  IsHeld-put r rows k (a, e, h) = elim (Bool-cases (id_of r == k)) [
    | inl same ↦ (
      claimed_row now lease_ms token r,
      ground (arith, get-put (id_of r) k (claimed_row now lease_ms token r) rows),
      refl,
    )
    | inr other ↦
        (a, ground (arith, get-put (id_of r) k (claimed_row now lease_ms token r) rows), h)
  ]

  abbrev AllHeld : Claim → Type 0
  AllHeld c = All (λ a. IsHeld c.rows (id_of a)) c.due

  hand_out-AllHeld :
      (r : OutboxRecord) (c : Claim)
      → AllHeld c
      → AllHeld (record {
        due = c.due ++ claimed_row now lease_ms token r ∷ [];
        rows = put (id_of r) (claimed_row now lease_ms token r) c.rows;
      })
  hand_out-AllHeld r c h =
      let r' = claimed_row now lease_ms token r in
      let rows' = put (id_of r) r' c.rows in
      All-append (λ a. IsHeld rows' (id_of a)) c.due (r' ∷ [])
        (All-map (λ a. IsHeld c.rows (id_of a)) (λ a. IsHeld rows' (id_of a))
          (λ a. IsHeld-put r c.rows (id_of a)) c.due h)
        ((r', get-put_self (id_of r) r' c.rows, refl), tt)

  -- Everything that a claim handed out is held in the rows that it leaves.
  due-IsHeld : (rows : Rows) → AllHeld (claim_due now limit lease_ms token rows)
  unfolding claim_due
  due-IsHeld rows =
      for_each_inv AllHeld (λ _. Unit {0}) (claim_round now limit lease_ms token) round
        (in_due_order (values rows)) _
        (All-every (λ _. Unit {0}) (λ _. tt) (in_due_order (values rows))) tt
    where
      round :
          (r : OutboxRecord) (c : Claim)
          → Unit {0}
          → AllHeld c
          → AllHeld (flow_state (claim_round now limit lease_ms token r c))
      round r c _ h = unfold claim_round in ground (arith, hand_out-AllHeld r c)

  module _ (rows : Rows) where
    abbrev AllFree : Claim → Type 0
    AllFree c = All (λ b. IsFree rows (id_of b)) c.due

    hand_out-AllFree :
        (r : OutboxRecord) (due : List OutboxRecord)
        → get (id_of r) rows ≡ some r
        → is_claimable now r ≡ true
        → All (λ b. IsFree rows (id_of b)) due
        → All (λ b. IsFree rows (id_of b)) (due ++ claimed_row now lease_ms token r ∷ [])
    hand_out-AllFree r due e c h =
        All-append (λ b. IsFree rows (id_of b)) due (claimed_row now lease_ms token r ∷ []) h
          ((r, e, ground arith), tt)

    -- Everything that a claim hands out was free in the rows that it found.
    due-IsFree : IsKeyed id_of rows → AllFree (claim_due now limit lease_ms token rows)
    unfolding claim_due in_due_order
    due-IsFree keyed =
        for_each_inv AllFree (λ r. get (id_of r) rows ≡ some r)
          (claim_round now limit lease_ms token) round (in_due_order (values rows)) _
          (All-sort compare_due (λ r. get (id_of r) rows ≡ some r) (values rows)
            (values-get id_of rows keyed))
          tt
      where
        round :
            (r : OutboxRecord) (c : Claim)
            → get (id_of r) rows ≡ some r
            → AllFree c
            → AllFree (flow_state (claim_round now limit lease_ms token r c))
        round r c e h = unfold claim_round in ground (arith, hand_out-AllFree r c.due e)

held_ne_free : (rows : Rows) (a b : ℕ) → IsHeld rows a → IsFree rows b → a ≢ b
held_ne_free rows a b (x, ex, hx) (y, ey, hy) same = ground (arith, ap (λ k. get k rows) same)

-- Two claims with no acknowledgement or reclaim between them hand out no row twice, whatever their
-- times, limits, leases and tokens.
pub claim_due_exclusive :
    (now limit lease_ms token now' limit' lease_ms' token' : ℕ) (rows : Rows)
    → IsStore rows
    → let first = claim_due now limit lease_ms token rows in
      let second = claim_due now' limit' lease_ms' token' first.rows in
      All (λ a. All (λ b. id_of a ≢ id_of b) second.due) first.due
unfolding apply
claim_due_exclusive now limit lease_ms token now' limit' lease_ms' token' rows s =
    let first = claim_due now limit lease_ms token rows in
    let second = claim_due now' limit' lease_ms' token' first.rows in
    let free =
      due-IsFree now' limit' lease_ms' token' first.rows
        (apply-IsStore (claim_op now limit lease_ms token) rows tt s).keyed in
    All-map (λ a. IsHeld first.rows (id_of a)) (λ a. All (λ b. id_of a ≢ id_of b) second.due)
      (λ a h.
        All-map (λ b. IsFree first.rows (id_of b)) (λ b. id_of a ≢ id_of b)
          (λ b f. held_ne_free first.rows (id_of a) (id_of b) h f) second.due free)
      first.due (due-IsHeld now limit lease_ms token rows)
