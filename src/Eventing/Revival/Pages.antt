-- ===== src/Eventing/Revival/Pages.antt =====
-- src/platform/eventing/outbox.ts (`selectDead`): what a page of dead rows holds, and why a resumed
-- selection repeats nothing.
use Prim.Native.Nat.{Ordering}
use wasla_core.Base.{
  ℕ, zero, suc, some, Bool, true, false, ◌&&◌, ◌≡◌, ◌≢◌, sym, ap, subst, ◌∙◌, List, [], ◌∷◌, ◌++◌,
  arith, All, All-map, filter, take,
}
use wasla_core.Base.Sort.{sort, IsSorted, sort-IsSorted, All-sort}
use wasla_core.Base.Table.{values}
use wasla_core.Eventing.Outbox.{OutboxRecord, Rows, id_of}
use wasla_core.Eventing.Revival.{
  OutboxRevivalSelection, is_after, matches_filters, matches_outbox_revival,
  compare_revival_position, select_dead,
}

position_total :
    (x y : OutboxRecord)
    → compare_revival_position x y ≡ Ordering.gt
    → compare_revival_position y x ≢ Ordering.gt
unfolding compare_revival_position
position_total x y h k = ground arith

position_trans :
    (x y z : OutboxRecord)
    → compare_revival_position x y ≢ Ordering.gt
    → compare_revival_position y z ≢ Ordering.gt
    → compare_revival_position x z ≢ Ordering.gt
unfolding compare_revival_position
position_trans x y z h k g = ground arith

position_self : (x : OutboxRecord) → compare_revival_position x x ≢ Ordering.gt
unfolding compare_revival_position
position_self x g = ground arith

-- What a resumed selection matches comes behind its cursor.
match_last : (a b : Bool) → (a && b) ≡ true → b ≡ true
match_last true b h = h
match_last false b h = cc

after-gt :
    (x b : OutboxRecord)
    → is_after b.event.occurred_at (id_of b) x.event.occurred_at (id_of x) ≡ true
    → compare_revival_position b x ≡ Ordering.gt
unfolding compare_revival_position is_after
after-gt x b h = ground arith

resumed : OutboxRevivalSelection → OutboxRecord → OutboxRevivalSelection
resumed selection x = record selection { after = some (x.event.occurred_at, id_of x) }

match_after :
    (selection : OutboxRevivalSelection) (x b : OutboxRecord)
    → matches_outbox_revival (resumed selection x) b ≡ true
    → compare_revival_position b x ≡ Ordering.gt
unfolding matches_outbox_revival resumed
match_after selection x b h =
    after-gt x b (match_last (matches_filters (resumed selection x) b) _ h)

module _ {ℓ} {A : Type ℓ} where
  filter-All : (p : A → Bool) (xs : List A) → All (λ x. p x ≡ true) (filter p xs)
  filter-All p [] = tt
  filter-All p (x ∷ xs) = ground (arith, filter-All p xs)

  All-take {κ} : (P : A → Type κ) (n : ℕ) (xs : List A) → All P xs → All P (take n xs)
  All-take P zero xs h = tt
  All-take P (suc n) [] h = tt
  All-take P (suc n) (x ∷ xs) h = (h.0, All-take P n xs h.1)

IsSorted-take :
    (n : ℕ) (xs : List OutboxRecord)
    → IsSorted compare_revival_position xs
    → IsSorted compare_revival_position (take n xs)
IsSorted-take zero xs h = tt
IsSorted-take (suc n) [] h = tt
IsSorted-take (suc n) (x ∷ xs) h =
    (All-take (λ y. compare_revival_position x y ≢ Ordering.gt) n xs h.0, IsSorted-take n xs h.1)

select_dead-IsSorted :
    (selection : OutboxRevivalSelection) (rows : Rows)
    → IsSorted compare_revival_position (select_dead selection rows)
unfolding select_dead
select_dead-IsSorted selection rows =
    IsSorted-take selection.limit
      (sort compare_revival_position (filter (matches_outbox_revival selection) (values rows)))
      (sort-IsSorted compare_revival_position position_total position_trans
        (filter (matches_outbox_revival selection) (values rows)))

select_dead-All :
    (selection : OutboxRevivalSelection) (rows : Rows)
    → All (λ b. matches_outbox_revival selection b ≡ true) (select_dead selection rows)
unfolding select_dead
select_dead-All selection rows =
    All-take (λ b. matches_outbox_revival selection b ≡ true) selection.limit _
      (All-sort compare_revival_position (λ b. matches_outbox_revival selection b ≡ true)
        (filter (matches_outbox_revival selection) (values rows))
        (filter-All (matches_outbox_revival selection) (values rows)))

-- The rows of a sorted page do not come behind its last.
before_last :
    (init : List OutboxRecord) (x : OutboxRecord)
    → IsSorted compare_revival_position (init ++ x ∷ [])
    → All (λ a. compare_revival_position a x ≢ Ordering.gt) (init ++ x ∷ [])
before_last [] x h = (position_self x, tt)
before_last (a ∷ init) x h = (at_end init h.0, before_last init x h.1)
  where
    at_end :
        (xs : List OutboxRecord)
        → All (λ y. compare_revival_position a y ≢ Ordering.gt) (xs ++ x ∷ [])
        → compare_revival_position a x ≢ Ordering.gt
    at_end [] k = k.0
    at_end (y ∷ xs) k = at_end xs k.1

-- A page of dead rows that ends in `x`, and the page that is selected with the same filters from the
-- position of `x` on, of any later state of the outbox, have no row in common.
pub select_dead_resumes :
    (selection : OutboxRevivalSelection) (rows later : Rows) (init : List OutboxRecord)
    (x : OutboxRecord)
    → select_dead selection rows ≡ init ++ x ∷ []
    → All
        (λ b. All (λ a. a ≢ b) (select_dead selection rows))
        (select_dead (record selection { after = some (x.event.occurred_at, id_of x) }) later)
unfolding resumed
select_dead_resumes selection rows later init x e =
    let next = resumed selection x in
    let page = subst (All (λ a. compare_revival_position a x ≢ Ordering.gt)) (sym e) (
      before_last init x
        (subst (IsSorted compare_revival_position) e (select_dead-IsSorted selection rows))) in
    All-map (λ b. matches_outbox_revival next b ≡ true)
      (λ b. All (λ a. a ≢ b) (select_dead selection rows))
      (λ b m.
        All-map (λ a. compare_revival_position a x ≢ Ordering.gt) (λ a. a ≢ b)
          (λ a n same.
            n (ap (λ r. compare_revival_position r x) same ∙ match_after selection x b m))
          (select_dead selection rows) page)
      (select_dead next later) (select_dead-All next later)
