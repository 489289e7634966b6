-- ===== src/Subscription/Periods/Disjoint.antt =====
-- src/modules/subscription/repository.ts: that no two periods of a subscription cover one instant.
use wasla_core.Base.{ℕ, some, Bool, true, false, ◌≡◌, sym, subst, [], ◌∷◌, is_some, arith}
use wasla_core.Base.Table.{Table, get, put, values, get-put, IsKeyed, IsKeyed-put, get-keyed}
use wasla_core.Money.Store.{find}
use wasla_core.Platform.Errors.{ok}
use wasla_core.Platform.UnitOfWork.{Scope, defer}
use wasla_core.Subscription.Domain.{SubscriptionPeriod, period_covers}
use wasla_core.Subscription.Periods.{overlaps, write_period, with_period}
use wasla_core.Subscription.Store.{SubscriptionStore}

abbrev pub period_key : SubscriptionPeriod → ℕ
period_key p = p.period_id

-- Of the periods of a subscription, at most one covers an instant.
abbrev pub IsDisjoint : Table SubscriptionPeriod → Type 0
IsDisjoint t =
    (i j at : ℕ) (p q : SubscriptionPeriod)
    → get i t ≡ some p
    → get j t ≡ some q
    → p.subscription_id ≡ q.subscription_id
    → period_covers p at ≡ true
    → period_covers q at ≡ true
    → i ≡ j

-- What a search misses is in no row.
missed-get {ℓ} :
    {V : Type ℓ} (f : V → Bool) (t : Table V) (k : ℕ) (v : V)
    → is_some (find f (values t)) ≡ false
    → get k t ≡ some v
    → f v ≡ false
unfolding values get
missed-get f [] k v h e = ground (arith, e)
missed-get f ((j, w) ∷ t) k v h e = ground (arith, h, e, missed-get f t k v)

write_period-ok :
    (p : SubscriptionPeriod) (sc sc' : Scope SubscriptionStore)
    → write_period p sc ≡ ok sc'
    → (is_some (find (overlaps p) (values sc.store.periods)) ≡ false)
      × (sc'.store ≡ with_period p sc.store)
unfolding write_period defer
write_period-ok p sc sc' h = ground arith

put-IsDisjoint :
    (p : SubscriptionPeriod) (t : Table SubscriptionPeriod)
    → IsKeyed period_key t
    → IsDisjoint t
    → is_some (find (overlaps p) (values t)) ≡ false
    → IsDisjoint (put p.period_id p t)
put-IsDisjoint p t keyed apart h i j at x y e d same c c' =
    let hit_i = missed-get (overlaps p) t i x h in
    let hit_j = missed-get (overlaps p) t j y h in
    let at_i = get-put p.period_id i p t in
    let at_j = get-put p.period_id j p t in
    let key_i = get-keyed period_key i x t keyed in
    let key_j = get-keyed period_key j y t keyed in
    let old = apart i j at x y in
    ground (arith, e, d, same, c, c', hit_i, hit_j, at_i, at_j, key_i, key_j, old)

-- In a table whose rows stand under their identifiers and where at most one period of a subscription covers an
-- instant, a write of a period that the store accepts leaves both so.
pub write_period-IsDisjoint :
    (p : SubscriptionPeriod) (sc sc' : Scope SubscriptionStore)
    → IsKeyed period_key sc.store.periods
    → IsDisjoint sc.store.periods
    → write_period p sc ≡ ok sc'
    → IsKeyed period_key sc'.store.periods × IsDisjoint sc'.store.periods
write_period-IsDisjoint p sc sc' keyed apart h =
    let (free, done) = write_period-ok p sc sc' h in
    subst (λ (s : SubscriptionStore). IsKeyed period_key s.periods × IsDisjoint s.periods)
      (sym done)
      (
        IsKeyed-put period_key p sc.store.periods keyed,
        put-IsDisjoint p sc.store.periods keyed apart free,
      )
