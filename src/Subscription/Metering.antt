-- ===== src/Subscription/Metering.antt =====
-- src/modules/subscription/service.ts: what `recordUsage` adds to the usage of a period.
use text.Mathlib.TextPositions.{eq_refl}
use wasla_core.Base.{
  ℕ, ◌+◌, ◌≤◌, String, none, some, true, false, ◌≡◌, refl, sym, ap, subst, ◌∙◌, ◌⊎◌, inl, inr, List,
  [], ◌∷◌, ◌++◌, is_some, arith, if◌then◌else◌,
}
use wasla_core.Base.Table.{
  Table, put, values, values-put_new, AllBelow, AllBelow-put, AllBelow-le, IsKeyed, IsKeyed-put,
  get-above,
}
use wasla_core.Money.Retry.{find-append}
use wasla_core.Money.Store.{find}
use wasla_core.Platform.Errors.{Failure, ok, err}
use wasla_core.Platform.UnitOfWork.{System, nothing_staged}
use wasla_core.Subscription.Domain.{UsageRecord}
use wasla_core.Subscription.Store.{
  SubscriptionStore, find_usage_by_reference, usage_total, total_of, is_metered, is_reported,
  is_usage_clash,
}
use wasla_core.Subscription.Usage.{RecordUsageInput, record_usage, usage_body}
use wasla_core.Subscription.Outcomes.{
  Answer, Written, Outcome, IsEarlier, IsReport, told-Outcome, body-Told, with_usage,
}

total-append :
    (period_id : ℕ) (feature_key : String) (us : List UsageRecord) (u : UsageRecord) (n : ℕ)
    → total_of period_id feature_key (us ++ u ∷ []) n
      ≡ total_of period_id feature_key us n
        + (if is_metered period_id feature_key u then u.quantity else 0)
unfolding total_of
total-append period_id feature_key [] u n = ground arith
total-append period_id feature_key (x ∷ us) u n =
    total-append period_id feature_key us u
      (if is_metered period_id feature_key x then n + x.quantity else n)

abbrev pub usage_key : UsageRecord → ℕ
usage_key u = u.usage_id

-- No other row has the key of a row with a new identifier, so none has it.
unclashed-free :
    (u : UsageRecord) (t : Table UsageRecord)
    → AllBelow usage_key u.usage_id t
    → is_some (find (is_usage_clash u) (values t)) ≡ false
    → find (is_reported u.period_id u.feature_key u.usage_reference) (values t) ≡ none
unfolding values
unclashed-free u [] b h = refl
unclashed-free u ((k, x) ∷ t) b h = ground (arith, b.0, unclashed-free u t b.1)

reported_self : (u : UsageRecord) → is_reported u.period_id u.feature_key u.usage_reference u ≡ true
reported_self u = ground (arith, eq_refl u.feature_key, eq_refl u.usage_reference)

-- The identifiers of the usage records: each row under its own, and all below the next.
abbrev pub IsTidy : System SubscriptionStore → Type 0
IsTidy sys = IsKeyed usage_key sys.store.usage × AllBelow usage_key sys.next_id sys.store.usage

-- What a new record changes.
abbrev pub Counted : System SubscriptionStore → UsageRecord → Answer → Type 0
Counted sys u r =
    (r.0 ≡ ok (u, true))
    × (find_usage_by_reference u.period_id u.feature_key u.usage_reference sys.store ≡ none)
    × (find_usage_by_reference u.period_id u.feature_key u.usage_reference r.1.store ≡ some u)
    × ((period_id : ℕ) (feature_key : String)
        → usage_total period_id feature_key r.1.store
          ≡ usage_total period_id feature_key sys.store
            + (if is_metered period_id feature_key u then u.quantity else 0))

tidy_of :
    (n m : ℕ) (s s' : SubscriptionStore)
    → s' ≡ s
    → n ≤ m
    → IsKeyed usage_key s.usage
    → AllBelow usage_key n s.usage
    → IsKeyed usage_key s'.usage × AllBelow usage_key m s'.usage
tidy_of n m s s' same le keyed below =
    subst (λ x. IsKeyed usage_key x.usage × AllBelow usage_key m x.usage) (sym same)
      (keyed, AllBelow-le usage_key n m s.usage le below)

module _ (sys : System SubscriptionStore) (tidy : IsTidy sys) (u : UsageRecord)
    (own : u.usage_id ≡ sys.next_id) where
  Written-IsTidy : (r : Answer) → Written sys u r → IsTidy r.1
  Written-IsTidy r w =
      let m = r.1.next_id in
      tidy_of m m (with_usage u sys.store) r.1.store w.3 (omega arith)
        (IsKeyed-put usage_key u sys.store.usage tidy.0)
        (AllBelow-put usage_key m u sys.store.usage w.1
          (AllBelow-le usage_key sys.next_id m sys.store.usage (omega (arith, own, w.1)) tidy.1))

  new_rows : values (put u.usage_id u sys.store.usage) ≡ values sys.store.usage ++ u ∷ []
  new_rows = values-put_new u.usage_id u sys.store.usage (
      get-above usage_key sys.next_id u.usage_id sys.store.usage tidy.0 tidy.1 (omega (arith, own)))

  Written-Counted : (r : Answer) → Written sys u r → Counted sys u r
  unfolding find_usage_by_reference usage_total
  Written-Counted r w =
      let none_yet =
        unclashed-free u sys.store.usage
          (subst (λ n. AllBelow usage_key n sys.store.usage) (sym own) tidy.1) w.2 in
      let rows : values r.1.store.usage ≡ values sys.store.usage ++ u ∷ [] =
        ap (λ (s : SubscriptionStore). values s.usage) w.3 ∙ new_rows in
      (
        w.0,
        none_yet,
        ap (find (is_reported u.period_id u.feature_key u.usage_reference)) rows
            ∙ find-append (is_reported u.period_id u.feature_key u.usage_reference)
                (values sys.store.usage) u none_yet (reported_self u),
        λ period_id feature_key.
            ap (λ us. total_of period_id feature_key us 0) rows
            ∙ total-append period_id feature_key (values sys.store.usage) u 0,
      )

-- A report of usage, whatever state it read, keeps the identifiers in order, and is refused with no row changed,
-- or answers the record that the read state has under the report's period, feature and reference with no row
-- changed, or answers a new record: its period is the one that covers the report's instant in the state
-- read, its feature, reference and quantity are the report's, none had that key, it is what a search for
-- the key finds, and of all totals only its period's for its feature grows, by the quantity.
pub record_usage-counts_once :
    (input : RecordUsageInput) (seen sys : System SubscriptionStore)
    → IsTidy sys
    → let r = record_usage input seen sys in
      IsTidy r.1
      × (((r.1.store ≡ sys.store) × ((e : Failure) × (r.0 ≡ err e)))
          ⊎ ((r.1.store ≡ sys.store)
              × ((u : UsageRecord) × (r.0 ≡ ok (u, false)) × IsEarlier input seen u))
          ⊎ ((u : UsageRecord) × IsReport input seen u × Counted sys u r))
unfolding record_usage Outcome
record_usage-counts_once input seen sys tidy =
    let r = record_usage input seen sys in
    let kept = tidy_of sys.next_id r.1.next_id sys.store r.1.store in
    elim (told-Outcome input seen sys (usage_body input seen (nothing_staged sys))
      (body-Told input seen sys)) [
        | inl ((same, next), thrown) ↦ (kept same next tidy.0 tidy.1, inl (same, thrown))
        | inr (inl ((same, next), earlier)) ↦
            (kept same next tidy.0 tidy.1, inr (inl (same, earlier)))
        | inr (inr (u, own, report, done)) ↦ (
          Written-IsTidy sys tidy u own r done,
          inr (inr (u, report, Written-Counted sys tidy u own r done)),
        )
      ]
