-- ===== src/Fulfillment/Moves/Settling.antt =====
-- src/modules/fulfillment/service.ts: releasing and settling a hold never throws, and stages nothing but the
-- money module's work.
use Prim.Native.String.{◌++◌ as concat}
use wasla_core.Base.{
  ℕ, ◌≤◌, String, Option, none, some, ◌≡◌, refl, ◌⊎◌, inl, inr, List, [], arith, map,
}
use wasla_core.Fulfillment.Domain.{Fulfillment}
use wasla_core.Fulfillment.Payments.{
  Coordination, CoreWork, FulfillmentPaymentPort, SettlementOutcome, of_money, release,
  release_with, settle, with_money, attempt, with_hold, no_hold, refused_settlement, released_hold,
  captured_hold, unsettled_hold, inconsistency, message_of,
}
use wasla_core.Fulfillment.Store.{Core}
use wasla_core.Fulfillment.Turn.{Quiets}
use wasla_core.Money.Service.{Money, MoneyWork}
use wasla_core.Money.Store.{MoneyStore}
use wasla_core.Platform.Errors.{Failure, Result, ok, err, Result-cases}
use wasla_core.Platform.UnitOfWork.{Staged, Scope, ◌>>=◌, pure}
use wasla_core.Platform.UnitOfWork.Parts.{within, mutate_part, part_of, add_part}

abbrev pub blank : {S : Type 0} → ℕ → Staged S
blank n = record { mutations = []; events = []; audits = []; next_id = n }

-- Work of the money module whose events say of no fulfillment that it is closed.
abbrev pub Discreet : {A : Type 0} → MoneyWork A → Type 0
Discreet {A = A} m =
    (sys : Money) (n : ℕ) (a : A) (more : Staged MoneyStore)
    → m sys (blank n) ≡ ok (a, more)
    → (n ≤ more.next_id) × Quiets more.next_id more.events

pub record IsDiscreet (port : FulfillmentPaymentPort) : Type 0 where
  pub capture :
      (hold : ℕ) (correlation_id : String) → Discreet (port.capture_hold_within hold correlation_id)
  pub void :
      (hold : ℕ) (reason correlation_id : String)
      → Discreet (port.void_within hold reason correlation_id)

abbrev pub AreDiscreet : Option FulfillmentPaymentPort → Type 0
AreDiscreet none = Unit
AreDiscreet (some port) = IsDiscreet port

-- Nothing but the money module's work is staged.
pub record OnlyMoney (n : ℕ) (staged : Staged Core) : Type 0 where
  pub of_money : List (Scope MoneyStore → Result (Scope MoneyStore))
  pub mutations : staged.mutations ≡ map (mutate_part (λ (s : Core). s.money) with_money) of_money
  pub quiet : Quiets staged.next_id staged.events
  pub later : n ≤ staged.next_id

-- Work that does not throw.
abbrev pub Settles : CoreWork SettlementOutcome → Coordination → ℕ → Type 0
Settles work seen n =
    (outcome : SettlementOutcome) × (staged : Staged Core) × (work seen (blank n)
      ≡ ok (outcome, staged))
    × OnlyMoney n staged

pub blank-OnlyMoney : (n : ℕ) → OnlyMoney n (blank n)
blank-OnlyMoney n = record { of_money = []; mutations = refl; quiet = tt; later = omega arith }

of_money-cases :
    {A : Type 0} (m : MoneyWork A) (seen : Coordination) (n : ℕ)
    → Discreet m
    → ((a : A) × (staged : Staged Core) × (of_money m seen (blank n) ≡ ok (a, staged))
        × OnlyMoney n staged)
      ⊎ ((e : Failure) × (of_money m seen (blank n) ≡ err e))
unfolding within
of_money-cases m seen n d =
    elim (Result-cases (m (part_of (λ (s : Core). s.money) with_money seen) (blank n))) [
      | inl ((a, more), e) ↦
          let (later, quiet) = d (part_of (λ (s : Core). s.money) with_money seen) n a more e in
          inl (
            a,
            add_part (λ (s : Core). s.money) with_money more (blank n),
            ground (arith, e),
            record { of_money = more.mutations; mutations = refl; quiet = quiet; later = later },
          )
      | inr (f, e) ↦ inr (f, ground (arith, e))
    ]

attempt-Settles :
    {A : Type 0} (m : MoneyWork A) (f : A → SettlementOutcome)
    (handle : Failure → CoreWork SettlementOutcome) (seen : Coordination) (n : ℕ)
    → Discreet m
    → ((e : Failure) → Settles (handle e) seen n)
    → Settles (attempt (of_money m) f handle) seen n
attempt-Settles m f handle seen n d h = elim (of_money-cases m seen n d) [
  | inl (a, staged, e, only) ↦ (f a, staged, ground (arith, e), only)
  | inr (x, e) ↦
      let (outcome, staged, result, only) = h x in
      (outcome, staged, ground (arith, e, result), only)
]

pub release-Settles :
    (payments : Option FulfillmentPaymentPort) (f : Fulfillment) (reason correlation_id : String)
    (seen : Coordination) (n : ℕ)
    → AreDiscreet payments
    → Settles (release payments f reason correlation_id) seen n
unfolding release
release-Settles payments f reason correlation_id seen n d =
    by_hold payments f.payment_authorization_id d
  where
    by_hold :
        (payments : Option FulfillmentPaymentPort) (hold : Option ℕ)
        → AreDiscreet payments
        → Settles
            (with_hold payments hold
              (pure no_hold)
              (λ port hold. release_with port f hold reason correlation_id))
            seen
            n
    by_hold none hold d = (no_hold, blank n, refl, blank-OnlyMoney n)
    by_hold (some port) none d = (no_hold, blank n, refl, blank-OnlyMoney n)
    by_hold (some port) (some hold) d =
        attempt-Settles (port.void_within hold reason correlation_id) released_hold
          (λ e. pure (unsettled_hold (inconsistency f hold reason correlation_id e))) seen n
          (d.void hold reason correlation_id)
          (λ e. (
            unsettled_hold (inconsistency f hold reason correlation_id e),
            blank n,
            refl,
            blank-OnlyMoney n,
          ))

answer-Settles :
    (work : CoreWork SettlementOutcome) (g : SettlementOutcome → SettlementOutcome)
    (seen : Coordination) (n : ℕ)
    → Settles work seen n
    → Settles (work >>= λ outcome. pure (g outcome)) seen n
unfolding ◌>>=◌
answer-Settles work g seen n (outcome, staged, result, only) =
    (g outcome, staged, ground (arith, result), only)

pub settle-Settles :
    (payments : Option FulfillmentPaymentPort) (f : Fulfillment) (correlation_id : String)
    (seen : Coordination) (n : ℕ)
    → AreDiscreet payments
    → Settles (settle payments f correlation_id) seen n
unfolding settle
settle-Settles payments f correlation_id seen n d = by_hold payments f.payment_authorization_id d
  where
    refuse : Failure → CoreWork SettlementOutcome
    refuse e =
        release payments f (concat "settlement_failed:" (message_of e)) correlation_id
        >>= λ outcome. pure (refused_settlement e outcome)

    by_hold :
        (port : Option FulfillmentPaymentPort) (hold : Option ℕ)
        → AreDiscreet port
        → Settles
            (with_hold port hold (pure no_hold) (λ port hold.
              attempt
                (of_money (port.capture_hold_within hold correlation_id))
                captured_hold
                refuse))
            seen
            n
    by_hold none hold p = (no_hold, blank n, refl, blank-OnlyMoney n)
    by_hold (some port) none p = (no_hold, blank n, refl, blank-OnlyMoney n)
    by_hold (some port) (some hold) p =
        attempt-Settles (port.capture_hold_within hold correlation_id) captured_hold refuse seen n
          (p.capture hold correlation_id)
          (λ e.
            answer-Settles
              (release payments f (concat "settlement_failed:" (message_of e)) correlation_id)
              (refused_settlement e) seen n
              (release-Settles payments f (concat "settlement_failed:" (message_of e))
                correlation_id seen n d))
