-- ===== src/Money/Sweep.antt =====
-- src/modules/money/service.ts (`expireDueAuthorizations`): the sweep of the expired holds, of which each
-- is closed in a transaction of its own.
use wasla_core.Base.{
  ℕ, String, none, some, Bool, true, ◌≡◌, ◌≢◌, inl, inr, sym, subst, ◌∙◌, List, [], ◌∷◌, arith, All,
  filter, All-filter, Bool-cases,
}
use wasla_core.Base.Sort.{sort, insert, All-insert, All-sort}
use wasla_core.Base.Table.{Table, get, values, get-put, IsKeyed, values-get}
use wasla_core.Platform.UnitOfWork.{with_transaction, commit, run_mutations, ◌>>=◌}
use wasla_core.Platform.Errors.{Result-cases}
use wasla_core.Money.Domain.{PaymentAuthorization, authorized}
use wasla_core.Money.Holds.Voids.{
  closed_row, apply_void_within, expire_each, expire_due_authorizations,
}
use wasla_core.Money.Run.{IsSound, StepsTo-IsSound}
use wasla_core.Money.Service.{Money, is_lapsed}
use wasla_core.Money.Store.{update_authorization, all_authorizations, compare_created}
use wasla_core.Money.Store.Writes.{update_authorization-ok}
use wasla_core.Money.Step.{of_sweep}
use wasla_core.Money.Step.Holding.{is_authorized-true}
use wasla_core.Money.Step.Leads.{begin, with_transaction-StepsTo}
use wasla_core.Money.Step.Returning.{apply_void_within-Leads}

-- The row is stored as it is, and open.
abbrev IsOpen : Table PaymentAuthorization → PaymentAuthorization → Type 0
IsOpen t a = (get a.authorization_id t ≡ some a) × (a.status ≡ authorized)

-- No identifier occurs twice.
abbrev AreDistinct : List PaymentAuthorization → Type 0
AreDistinct [] = Unit
AreDistinct (a ∷ rest) = All (λ b. a.authorization_id ≢ b.authorization_id) rest × AreDistinct rest

-- A void writes its own row, or nothing.
void-rows :
    (a : PaymentAuthorization) (reason correlation_id : _) (sys : Money) (k : ℕ)
    → a.authorization_id ≢ k
    → get k
        (with_transaction (apply_void_within a reason correlation_id) sys).1.store.authorizations
      ≡ get k sys.store.authorizations
unfolding with_transaction commit run_mutations apply_void_within ◌>>=◌ closed_row
void-rows a reason correlation_id sys k other =
    elim (Result-cases (update_authorization (closed_row sys.now reason a) (begin sys))) [
      | inl (sc, e) ↦
          let written =
            (update_authorization-ok (closed_row sys.now reason a) (begin sys) sc e).1 in
          ground (
            arith,
            e,
            written,
            get-put a.authorization_id k (closed_row sys.now reason a) sys.store.authorizations,
          )
      | inr (f, e) ↦ ground (arith, e)
    ]

void-IsSound :
    (a : PaymentAuthorization) (reason correlation_id : _) (sys : Money)
    → IsSound sys
    → IsOpen sys.store.authorizations a
    → IsSound (with_transaction (apply_void_within a reason correlation_id) sys).1
void-IsSound a reason correlation_id sys k (here, open_) =
    StepsTo-IsSound of_sweep sys _
      (with_transaction-StepsTo of_sweep (apply_void_within a reason correlation_id) sys (
        apply_void_within-Leads sys k.sound.wallets.keyed k.sound.authorizations.keyed of_sweep a
          a.authorization_id reason correlation_id tt here open_))
      k

expire_each-IsSound :
    (correlation_id : _) (due : List PaymentAuthorization) (sys : Money)
    → IsSound sys
    → All (IsOpen sys.store.authorizations) due
    → AreDistinct due
    → IsSound (expire_each correlation_id due sys).1
unfolding expire_each
expire_each-IsSound correlation_id [] sys k all distinct = k
expire_each-IsSound correlation_id (a ∷ rest) sys k all distinct =
    let after = with_transaction (apply_void_within a "expired" correlation_id) sys in
    let first = void-IsSound a "expired" correlation_id sys k all.0 in
    let still = All-map-both rest distinct.0 all.1 in
    let others = expire_each-IsSound correlation_id rest after.1 first still distinct.1 in
    ground (arith, first, others)
  where
    All-map-both :
        (xs : List PaymentAuthorization)
        → All (λ b. a.authorization_id ≢ b.authorization_id) xs
        → All (IsOpen sys.store.authorizations) xs
        → All
            (IsOpen
              (with_transaction
                (apply_void_within a "expired" correlation_id)
                sys).1.store.authorizations)
            xs
    All-map-both [] d h = tt
    All-map-both (b ∷ xs) d h = (
      (void-rows a "expired" correlation_id sys b.authorization_id d.0 ∙ h.0.0, h.0.1),
      All-map-both xs d.1 h.1,
    )

-- Distinct identifiers survive a filter and a sort, and a keyed table has them.
AreDistinct-filter :
    (p : PaymentAuthorization → Bool) (xs : List PaymentAuthorization)
    → AreDistinct xs
    → AreDistinct (filter p xs)
AreDistinct-filter p [] h = tt
AreDistinct-filter p (x ∷ xs) h = ground (
  arith,
  AreDistinct-filter p xs h.1,
  All-filter (λ b. x.authorization_id ≢ b.authorization_id) p xs h.0,
)

insert-AreDistinct :
    (x : PaymentAuthorization) (ys : List PaymentAuthorization)
    → All (λ b. x.authorization_id ≢ b.authorization_id) ys
    → AreDistinct ys
    → AreDistinct (insert compare_created x ys)
unfolding insert
insert-AreDistinct x [] h d = (tt, tt)
insert-AreDistinct x (y ∷ ys) h d =
    let rest = insert-AreDistinct x ys h.1 d.1 in
    let before =
      All-insert compare_created (λ b. y.authorization_id ≢ b.authorization_id) x ys
        (λ e. h.0 (sym e)) d.0 in
    ground (arith, rest, before)

sort-AreDistinct :
    (xs : List PaymentAuthorization) → AreDistinct xs → AreDistinct (sort compare_created xs)
unfolding sort
sort-AreDistinct [] h = tt
sort-AreDistinct (x ∷ xs) h =
    insert-AreDistinct x (sort compare_created xs)
      (All-sort compare_created (λ b. x.authorization_id ≢ b.authorization_id) xs h.0)
      (sort-AreDistinct xs h.1)

missing-All :
    (k : ℕ) (t : Table PaymentAuthorization)
    → IsKeyed (λ a. a.authorization_id) t
    → get k t ≡ none
    → All (λ b. k ≢ b.authorization_id) (values t)
unfolding get values
missing-All k [] h e = tt
missing-All k ((j, a) ∷ t) h e = ground (arith, missing-All k t h.2)

values-AreDistinct :
    (t : Table PaymentAuthorization) → IsKeyed (λ a. a.authorization_id) t → AreDistinct (values t)
unfolding values
values-AreDistinct [] h = tt
values-AreDistinct ((k, a) ∷ t) h = (
  subst (λ j. All (λ b. j ≢ b.authorization_id) (values t)) h.0 (missing-All k t h.2 h.1),
  values-AreDistinct t h.2,
)

lapsed-open : (now : ℕ) (a : PaymentAuthorization) → is_lapsed now a ≡ true → a.status ≡ authorized
lapsed-open now a h = ground (arith, is_authorized-true a.status)

lapsed-All :
    (now : ℕ) (t : Table PaymentAuthorization) (xs : List PaymentAuthorization)
    → All (λ a. get a.authorization_id t ≡ some a) xs
    → All (IsOpen t) (filter (is_lapsed now) xs)
lapsed-All now t [] h = tt
lapsed-All now t (x ∷ xs) h = elim (Bool-cases (is_lapsed now x)) [
  | inl e ↦ ground (arith, e, lapsed-All now t xs h.1, lapsed-open now x e)
  | inr e ↦ ground (arith, e, lapsed-All now t xs h.1)
]

-- From a sound state, a sweep of the expired holds, however many there are and wherever it stops, leaves
-- a sound state.
pub expire_due_authorizations-IsSound :
    (correlation_id : String) (sys : Money)
    → IsSound sys
    → IsSound (expire_due_authorizations correlation_id sys).1
unfolding expire_due_authorizations all_authorizations
expire_due_authorizations-IsSound correlation_id sys k =
    let keyed = k.sound.authorizations.keyed in
    let stored_rows = values-get (λ a. a.authorization_id) sys.store.authorizations keyed in
    let ordered = sort compare_created (values sys.store.authorizations) in
    expire_each-IsSound correlation_id (filter (is_lapsed sys.now) ordered) sys k
      (lapsed-All sys.now sys.store.authorizations ordered (
        All-sort compare_created (λ a. get a.authorization_id sys.store.authorizations ≡ some a)
          (values sys.store.authorizations) stored_rows))
      (AreDistinct-filter (is_lapsed sys.now) ordered (
        sort-AreDistinct (values sys.store.authorizations)
          (values-AreDistinct sys.store.authorizations keyed)))
