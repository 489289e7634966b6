-- ===== src/Eventing/Bus/Publishing.antt =====
-- src/platform/eventing/bus.ts: `publish`, and an event that is published again.
use text.Mathlib.Text.{◌==◌ as str_eq}
use wasla_core.Base.{
  ℕ, ◌<◌, String, Option, none, some, Bool, true, false, ◌≡◌, refl, inl, inr, ap, sym, subst, ◌∙◌,
  List, [], ◌∷◌, ◌++◌, All, arith,
}
use wasla_core.Eventing.Bus.{Bus, Subscription, deliver, deliver_all, note, publish, seen}
use wasla_core.Eventing.Bus.Delivery.{
  Tells, own, seen_cases, deliver-seen, deliver-settings, deliver-keeps, deliver-Seen, deliver-Told,
}
use wasla_core.Eventing.Envelope.{EventEnvelope}
use wasla_core.Platform.Texts.{is_truthy}

append_nil_left : (xs ys : List (String × String)) → xs ++ ys ≡ [] → (xs ≡ []) × (ys ≡ [])
append_nil_left [] ys h = (refl, h)
append_nil_left (x ∷ xs) ys h = cc

module _ {ℓ} {W : Type ℓ} (now : ℕ) (event : EventEnvelope) where
  abbrev IsFor : Subscription W → Type 0
  IsFor sub = str_eq sub.event_type event.event_type ≡ true

  -- A subscription that the event concerns is done with it.
  abbrev IsDone : Bus W → Subscription W → Type 0
  IsDone bus sub = IsFor sub → own now sub event bus.inbox ≡ true

  deliver_all-settings :
      (subs : List (Subscription W)) (bus : Bus W)
      → ((deliver_all now event subs bus).1.subs ≡ bus.subs)
        × ((deliver_all now event subs bus).1.max_attempts ≡ bus.max_attempts)
  unfolding deliver_all
  deliver_all-settings [] bus = (refl, refl)
  deliver_all-settings (sub ∷ subs) bus = ground (
    arith,
    deliver-settings now sub event bus,
    deliver_all-settings subs bus,
    deliver_all-settings subs (deliver now sub event bus).1,
  )

  deliver_all-keeps :
      (c : String) (k : ℕ) (subs : List (Subscription W)) (bus : Bus W)
      → seen c k bus.inbox ≡ true
      → seen c k (deliver_all now event subs bus).1.inbox ≡ true
  unfolding deliver_all
  deliver_all-keeps c k [] bus h = h
  deliver_all-keeps c k (sub ∷ subs) bus h =
      elim (seen_cases (str_eq sub.event_type event.event_type)) [
        | inl matching ↦ ground (
          arith,
          matching,
          deliver_all-keeps c k subs (deliver now sub event bus).1
              (deliver-keeps now sub event c k bus h),
        )
        | inr other ↦ ground (arith, other, deliver_all-keeps c k subs bus h)
      ]

  note-none :
      (sub : Subscription W) (bus : Bus W)
      → Tells sub
      → 0 < bus.max_attempts
      → note sub (deliver now sub event bus).0 ≡ []
      → (deliver now sub event bus).0 ≡ none
  note-none sub bus told p h =
      by_failure (deliver now sub event bus).0 (deliver-Told now sub event told bus p) h
    where
      by_failure :
          (o : Option String)
          → ((message : String) → o ≡ some message → is_truthy (some message) ≡ true)
          → note sub o ≡ []
          → o ≡ none
      by_failure none t h = refl
      by_failure (some message) t h = ground (arith, t message refl)

  deliver_all-for :
      (sub : Subscription W) (subs : List (Subscription W)) (bus : Bus W)
      → IsFor sub
      → let after = (deliver now sub event bus).1 in
        deliver_all now event (sub ∷ subs) bus ≡ (
          note sub (deliver now sub event bus).0 ++ (deliver_all now event subs after).0,
          (deliver_all now event subs after).1,
        )
  unfolding deliver_all
  deliver_all-for sub subs bus h = ground (arith, h)

  deliver_all-other :
      (sub : Subscription W) (subs : List (Subscription W)) (bus : Bus W)
      → str_eq sub.event_type event.event_type ≡ false
      → deliver_all now event (sub ∷ subs) bus ≡ deliver_all now event subs bus
  unfolding deliver_all
  deliver_all-other sub subs bus h = ground (arith, h)

  deliver_all-Done :
      (subs : List (Subscription W)) (bus : Bus W)
      → All Tells subs
      → 0 < bus.max_attempts
      → (deliver_all now event subs bus).0 ≡ []
      → All (IsDone (deliver_all now event subs bus).1) subs
  unfolding deliver_all
  deliver_all-Done [] bus told p h = tt
  deliver_all-Done (sub ∷ subs) bus told p h =
      elim (seen_cases (str_eq sub.event_type event.event_type)) [
        | inl matching ↦
            let after = (deliver now sub event bus).1 in
            let (told_here, told_later) =
              append_nil_left (note sub (deliver now sub event bus).0)
                (deliver_all now event subs after).0
                (ap (λ r. r.0) (sym (deliver_all-for sub subs bus matching)) ∙ h) in
            subst (λ r. All (IsDone r.1) (sub ∷ subs)) (sym (deliver_all-for sub subs bus matching))
              (
                (λ is_for.
                    deliver_all-keeps sub.consumer event.event_id subs after
                      (deliver-Seen now sub event bus (note-none sub bus told.0 p told_here))),
                deliver_all-Done subs after told.1
                    (subst (λ n. 0 < n) (sym (deliver-settings now sub event bus).1) p) told_later,
              )
        | inr other ↦
            subst (λ r. All (IsDone r.1) (sub ∷ subs)) (sym (deliver_all-other sub subs bus other))
              (
                (λ is_for. absurd_text other is_for),
                deliver_all-Done subs bus told.1 p
                    (ap (λ r. r.0) (sym (deliver_all-other sub subs bus other)) ∙ h),
              )
      ]
    where
      absurd_text : {b c : Bool} → b ≡ false → b ≡ true → c ≡ true
      absurd_text x y = cc

  deliver_all-again :
      (subs : List (Subscription W)) (bus : Bus W)
      → All (IsDone bus) subs
      → deliver_all now event subs bus ≡ ([], bus)
  unfolding deliver_all
  deliver_all-again [] bus h = refl
  deliver_all-again (sub ∷ subs) bus h =
      elim (seen_cases (str_eq sub.event_type event.event_type)) [
        | inl matching ↦ ground (
          arith,
          matching,
          deliver-seen now sub event bus (h.0 matching),
          deliver_all-again subs bus h.1,
        )
        | inr other ↦ ground (arith, other, deliver_all-again subs bus h.1)
      ]

-- Where handlers throw errors with messages and there is an attempt to make: a publication that reports
-- no failure has every consumer of the event in the inbox, and publishing the event again, whenever,
-- runs no handler, changes nothing and reports no failure.
pub publish_again {ℓ} :
    {W : Type ℓ} (now later : ℕ) (event : EventEnvelope) (bus : Bus W)
    → All Tells bus.subs
    → 0 < bus.max_attempts
    → (publish now event bus).0 ≡ []
    → let after = (publish now event bus).1 in
      All
        (λ sub.
          str_eq sub.event_type event.event_type ≡ true
          → seen sub.consumer event.event_id after.inbox ≡ true)
        bus.subs
      × (publish later event after ≡ ([], after))
publish_again now later event bus told p h =
    let done = deliver_all-Done now event bus.subs bus told p h in
    let after = (publish now event bus).1 in
    (
      done,
      subst (λ subs. deliver_all later event subs after ≡ ([], after))
          (sym (deliver_all-settings now event bus.subs bus).0)
          (deliver_all-again later event bus.subs after done),
    )
