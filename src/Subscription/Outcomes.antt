-- ===== src/Subscription/Outcomes.antt =====
-- src/modules/subscription/service.ts: what `recordUsage` comes to, as its body and its commit decide it.
use wasla_core.Base.{
  ℕ, ◌<◌, ◌≤◌, String, Option, none, some, Bool, true, false, ◌≡◌, refl, ◌⊎◌, inl, inr, [], ◌∷◌,
  is_some, arith, Bool-cases,
}
use wasla_core.Base.Table.{get, put, values}
use wasla_core.Money.Store.{find}
use wasla_core.Platform.Errors.{Failure, Result, ok, err, Result-cases}
use wasla_core.Platform.Ids.{assert_id}
use wasla_core.Platform.UnitOfWork.{
  System, Staged, Scope, nothing_staged, finish, commit, run_mutations, verify, pure, reads, lift,
  or_throw, ◌>>=◌,
}
use wasla_core.Subscription.Domain.{
  Subscription, SubscriptionPeriod, UsageRecord, positive_quantity,
}
use wasla_core.Subscription.Store.{
  SubscriptionStore, find_usage_by_reference, find_period_covering, require_subscription,
  insert_usage, is_usage_clash, is_voided,
}
use wasla_core.Subscription.Usage.{
  RecordUsageInput, usage_body, report_usage, stage_usage, unless_voided, UsageWork, required_text,
  instant_of,
}

-- How a report reads in a state: the period that it falls in, the key and the quantity under which it counts,
-- and its instant.
pub record Reads (input : RecordUsageInput) (seen : System SubscriptionStore)
    (period : SubscriptionPeriod) (feature_key reference : String) (quantity at : ℕ) : Type 0 where
  pub k : ℕ
  pub subscription : Subscription
  pub named : assert_id "subscription_id" input.subscription_id ≡ ok k
  pub known : get k seen.store.subscriptions ≡ some subscription
  pub featured : required_text "feature_key is required" input.feature_key ≡ ok feature_key
  pub referred : required_text "usage_reference is required" input.usage_reference ≡ ok reference
  pub counted : positive_quantity input.quantity ≡ some quantity
  pub timed : instant_of input.at seen.now ≡ ok at
  pub covered : find_period_covering subscription.subscription_id at seen.store ≡ some period
  pub valid : is_voided period.status ≡ false

-- A record that is the report's.
abbrev pub IsReport : RecordUsageInput → System SubscriptionStore → UsageRecord → Type 0
IsReport input seen u =
    (period : SubscriptionPeriod) × Reads input seen period u.feature_key u.usage_reference
      u.quantity u.recorded_at
    × (u.period_id ≡ period.period_id)
    × (u.correlation_id ≡ some input.correlation_id)

-- A record that was there under the report's key.
abbrev pub IsEarlier : RecordUsageInput → System SubscriptionStore → UsageRecord → Type 0
IsEarlier input seen u =
    (period : SubscriptionPeriod) × (feature_key : String) × (reference : String) × (quantity : ℕ)
    × (at : ℕ) × Reads input seen period feature_key reference quantity at
    × (find_usage_by_reference period.period_id feature_key reference seen.store ≡ some u)

-- What the body says: a refusal, a row that is there, or a new row to write.
pub data Told (input : RecordUsageInput) (seen sys : System SubscriptionStore)
    : Result ((UsageRecord × Bool) × Staged SubscriptionStore) → Type 0 where
  refused : (e : Failure) → Told input seen sys (err e)
  known :
      (u : UsageRecord)
      → IsEarlier input seen u
      → Told input seen sys (ok ((u, false), nothing_staged sys))
  fresh :
      (u : UsageRecord) (staged : Staged SubscriptionStore)
      → IsReport input seen u
      → u.usage_id ≡ sys.next_id
      → sys.next_id < staged.next_id
      → staged.mutations ≡ insert_usage u ∷ []
      → Told input seen sys (ok ((u, true), staged))

module _ (input : RecordUsageInput) (seen sys : System SubscriptionStore) where
  lift-Told :
      {A : Type 0} (r : Result A) (k : A → UsageWork (UsageRecord × Bool))
      → ((a : A) → r ≡ ok a → Told input seen sys (k a seen (nothing_staged sys)))
      → Told input seen sys ((lift r >>= k) seen (nothing_staged sys))
  unfolding ◌>>=◌
  lift-Told (ok a) k h = h a refl
  lift-Told (err e) k h = refused e

  or_throw-Told :
      {A : Type 0} (o : Option A) (e : Failure) (k : A → UsageWork (UsageRecord × Bool))
      → ((a : A) → o ≡ some a → Told input seen sys (k a seen (nothing_staged sys)))
      → Told input seen sys ((or_throw o e >>= k) seen (nothing_staged sys))
  unfolding ◌>>=◌
  or_throw-Told none e k h = refused e
  or_throw-Told (some a) e k h = h a refl

  reads-Told :
      {A : Type 0} (f : System SubscriptionStore → A) (k : A → UsageWork (UsageRecord × Bool))
      → Told input seen sys (k (f seen) seen (nothing_staged sys))
      → Told input seen sys ((reads f >>= k) seen (nothing_staged sys))
  unfolding ◌>>=◌
  reads-Told f k h = h

  module _ (subscription_id : ℕ) (period : SubscriptionPeriod) (feature_key : String) (quantity : ℕ)
      (reference : String) (at : ℕ)
      (read : Reads input seen period feature_key reference quantity at) where
    stage-Told : Told input seen sys (
        stage_usage subscription_id period feature_key quantity reference at input.correlation_id
          seen
          (nothing_staged sys))
    unfolding stage_usage ◌>>=◌
    stage-Told = fresh _ _ (period, read, refl, refl) refl (omega arith) refl

    known-Told :
        (existing : Option UsageRecord)
        → find_usage_by_reference period.period_id feature_key reference seen.store ≡ existing
        → Told input seen sys (
            (elim existing as (λ _. UsageWork (UsageRecord × Bool)) [
              | some u ↦ pure (u, false)
              | none ↦
                  stage_usage subscription_id period feature_key quantity reference at
                    input.correlation_id
            ])
              seen
              (nothing_staged sys))
    known-Told none found = stage-Told
    known-Told (some u) found = known u (period, feature_key, reference, quantity, at, read, found)

    report-Told : Told input seen sys (
        report_usage subscription_id period feature_key quantity reference at input.correlation_id
          seen
          (nothing_staged sys))
    unfolding report_usage ◌>>=◌
    report-Told =
        known-Told (find_usage_by_reference period.period_id feature_key reference seen.store) refl

  unless_voided-Told :
      (period : SubscriptionPeriod) (work : UsageWork (UsageRecord × Bool))
      → (is_voided period.status ≡ false → Told input seen sys (work seen (nothing_staged sys)))
      → Told input seen sys (unless_voided period work seen (nothing_staged sys))
  unless_voided-Told period work h = elim (Bool-cases (is_voided period.status)) [
    | inl gone ↦ rw gone (refused _)
    | inr kept ↦ rw kept (h kept)
  ]

  require-ok :
      (k : ℕ) (s : Subscription)
      → require_subscription k seen.store ≡ ok s
      → get k seen.store.subscriptions ≡ some s
  unfolding require_subscription
  require-ok k s h = ground arith

  pub body-Told : Told input seen sys (usage_body input seen (nothing_staged sys))
  unfolding usage_body
  body-Told = lift-Told _ _ (λ k named. lift-Told _ _ (λ feature_key featured.
      lift-Told _ _ (λ reference referred. or_throw-Told _ _ _ (λ quantity counted. reads-Told _ _ (
        lift-Told _ _ (λ subscription required. reads-Told _ _ (
          lift-Told _ _ (λ at timed. reads-Told _ _ (
            or_throw-Told _ _ _ (λ period covered. unless_voided-Told period _ (λ valid.
              report-Told subscription.subscription_id period feature_key quantity reference at
                (record {
                  k = k;
                  subscription = subscription;
                  named = named;
                  known = require-ok k subscription required;
                  featured = featured;
                  referred = referred;
                  counted = counted;
                  timed = timed;
                  covered = covered;
                  valid = valid;
                }))))))))))))

abbrev pub with_usage : UsageRecord → SubscriptionStore → SubscriptionStore
with_usage u s = record s { usage = put u.usage_id u s.usage }

insert_usage-ok :
    (u : UsageRecord) (sc sc' : Scope SubscriptionStore)
    → insert_usage u sc ≡ ok sc'
    → (is_some (find (is_usage_clash u) (values sc.store.usage)) ≡ false)
      × (sc' ≡ record sc { store = with_usage u sc.store })
unfolding insert_usage
insert_usage-ok u sc sc' h = ground arith

abbrev pub Answer : Type 0
Answer = Result (UsageRecord × Bool) × System SubscriptionStore

abbrev pub Written : System SubscriptionStore → UsageRecord → Answer → Type 0
Written sys u r =
    (r.0 ≡ ok (u, true))
    × (u.usage_id < r.1.next_id)
    × (is_some (find (is_usage_clash u) (values sys.store.usage)) ≡ false)
    × (r.1.store ≡ with_usage u sys.store)

abbrev pub Unchanged : System SubscriptionStore → Answer → Type 0
Unchanged sys r = (r.1.store ≡ sys.store) × (sys.next_id ≤ r.1.next_id)

abbrev start : System SubscriptionStore → Scope SubscriptionStore
start sys = record { store = sys.store; deferred = [] }

module _ (u : UsageRecord) (staged : Staged SubscriptionStore) (sys : System SubscriptionStore)
    (writes : staged.mutations ≡ insert_usage u ∷ []) where
  abbrev answer : Answer
  answer = commit {A = UsageRecord × Bool} (u, true) staged sys

  refused-Unchanged :
      (e : Failure)
      → insert_usage u (start sys) ≡ err e
      → Unchanged sys answer × ((f : Failure) × (answer.0 ≡ err f))
  unfolding commit run_mutations
  refused-Unchanged e h = (ground (arith, writes, h), (e, ground (arith, writes, h)))

  inserted-Written :
      u.usage_id < staged.next_id
      → (sc : Scope SubscriptionStore) → insert_usage u (start sys) ≡ ok sc
      → Written sys u answer
  unfolding commit run_mutations verify
  inserted-Written above sc h =
      let (free, put_) = insert_usage-ok u (start sys) sc h in
      ground (arith, writes, h, put_, free, above)

  commit-Written :
      u.usage_id < staged.next_id
      → (Unchanged sys answer × ((f : Failure) × (answer.0 ≡ err f))) ⊎ Written sys u answer
  commit-Written above = elim (Result-cases (insert_usage u (start sys))) [
    | inl (sc, h) ↦ inr (inserted-Written above sc h)
    | inr (e, h) ↦ inl (refused-Unchanged e h)
  ]

-- A report is refused, was counted before, or writes a new row that is the report's.
unfoldable pub Outcome :
    RecordUsageInput → System SubscriptionStore → System SubscriptionStore → Answer → Type 0
Outcome input seen sys r =
    (Unchanged sys r × ((e : Failure) × (r.0 ≡ err e)))
    ⊎ (Unchanged sys r × ((u : UsageRecord) × (r.0 ≡ ok (u, false)) × IsEarlier input seen u))
    ⊎ ((u : UsageRecord) × (u.usage_id ≡ sys.next_id) × IsReport input seen u × Written sys u r)

pub told-Outcome :
    (input : RecordUsageInput) (seen sys : System SubscriptionStore)
    (t : Result ((UsageRecord × Bool) × Staged SubscriptionStore))
    → Told input seen sys t
    → Outcome input seen sys (finish t sys)
unfolding commit run_mutations verify Outcome
told-Outcome input seen sys t (refused e) = inl ((refl, omega arith), (e, refl))
told-Outcome input seen sys t (known u earlier) =
    inr (inl ((refl, omega arith), (u, refl, earlier)))
told-Outcome input seen sys t (fresh u staged report own next writes) =
    elim (commit-Written u staged sys writes (omega (arith, own, next))) [
      | inl (same, thrown) ↦ inl (same, thrown)
      | inr done ↦ inr (inr (u, own, report, done))
    ]
