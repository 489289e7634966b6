-- ===== src/Eventing/Bus/Delivery.antt =====
-- src/platform/eventing/bus.ts: what a delivery to one consumer does to the inbox.
use text.Mathlib.TextPositions.{eq_refl}
use text.Mathlib.TextEquality.{eq_iff}
use wasla_core.Base.{
  ℕ, zero, suc, ◌+◌, ◌<◌, String, Option, none, some, Bool, true, false, ◌≡◌, refl, ◌⊎◌, inl, inr,
  ap, sym, ◌∙◌, [], ◌∷◌, ◌++◌, arith,
}
use wasla_core.Eventing.Bus.{
  Bus, Inbox, InboxRow, Subscription, attempt, claim, deliver, is_entry, release, seen,
  inbox_after_failure,
}
use wasla_core.Eventing.Envelope.{EventEnvelope}
use wasla_core.Platform.Texts.{is_truthy}

seen-claimed :
    (now : ℕ) (consumer : String) (event_id : ℕ) (inbox : Inbox)
    → seen consumer event_id
        (inbox ++ record { consumer = consumer; event_id = event_id; received_at = now } ∷ [])
      ≡ true
unfolding seen
seen-claimed now consumer event_id [] = ground (arith, eq_refl consumer)
seen-claimed now consumer event_id (row ∷ rows) =
    ground (arith, seen-claimed now consumer event_id rows)

seen-append :
    (consumer : String) (event_id : ℕ) (inbox more : Inbox)
    → seen consumer event_id inbox ≡ true
    → seen consumer event_id (inbox ++ more) ≡ true
unfolding seen
seen-append consumer event_id [] more h = cc
seen-append consumer event_id (row ∷ rows) more h =
    ground (arith, seen-append consumer event_id rows more)

claim-Seen :
    (now : ℕ) (consumer : String) (event_id : ℕ) (inbox : Inbox)
    → seen consumer event_id (claim now consumer event_id inbox).1 ≡ true
unfolding claim
claim-Seen now consumer event_id inbox = ground (arith, seen-claimed now consumer event_id inbox)

claim-keeps :
    (now : ℕ) (consumer c : String) (event_id e : ℕ) (inbox : Inbox)
    → seen c e inbox ≡ true
    → seen c e (claim now consumer event_id inbox).1 ≡ true
unfolding claim
claim-keeps now consumer c event_id e inbox h = ground (
  arith,
  seen-append c e inbox
      (record { consumer = consumer; event_id = event_id; received_at = now } ∷ []) h,
)

-- No row stands for both of two keys.
abbrev Differs : String → ℕ → String → ℕ → Type 0
Differs c e consumer event_id =
    (row : InboxRow) → is_entry consumer event_id row ≡ true → is_entry c e row ≡ false

entry_key :
    (consumer : String) (event_id : ℕ) (row : InboxRow)
    → is_entry consumer event_id row ≡ true
    → (row.consumer ≡ consumer) × (row.event_id ≡ event_id)
entry_key consumer event_id row h = ((eq_iff row.consumer consumer).0 (ground arith), ground arith)

seen-Differs :
    (c consumer : String) (e event_id : ℕ) (inbox : Inbox)
    → seen c e inbox ≡ true
    → seen consumer event_id inbox ≡ false
    → Differs c e consumer event_id
seen-Differs c consumer e event_id inbox there free row own =
    by_test (is_entry c e row) (λ h. entry_key c e row h)
  where
    by_test : (b : Bool) → (b ≡ true → (row.consumer ≡ c) × (row.event_id ≡ e)) → b ≡ false
    by_test false h = refl
    by_test true h =
        let (c_eq, e_eq) = h refl in let (k_eq, i_eq) = entry_key consumer event_id row own in cc

release-keeps :
    (c consumer : String) (e event_id : ℕ) (inbox : Inbox)
    → Differs c e consumer event_id
    → seen c e inbox ≡ true
    → seen c e (release consumer event_id inbox) ≡ true
unfolding seen release
release-keeps c consumer e event_id [] d h = cc
release-keeps c consumer e event_id (row ∷ rows) d h =
    ground (arith, release-keeps c consumer e event_id rows d, d row)

thrown_cases : (o : Option String) → (o ≡ none) ⊎ ((message : String) × (o ≡ some message))
thrown_cases none = inl refl
thrown_cases (some message) = inr (message, refl)

pub seen_cases : (b : Bool) → (b ≡ true) ⊎ (b ≡ false)
seen_cases true = inl refl
seen_cases false = inr refl

-- Whatever the handler throws has a message that is not empty.
abbrev pub Tells {ℓ} : {W : Type ℓ} → Subscription W → Type ℓ
Tells {W = W} sub =
    (e : EventEnvelope) (w : W) (message : String)
    → (sub.handler e w).0 ≡ some message
    → is_truthy (some message) ≡ true

module _ {ℓ} {W : Type ℓ} (now : ℕ) (sub : Subscription W) (event : EventEnvelope) where
  abbrev pub own : Inbox → Bool
  own inbox = seen sub.consumer event.event_id inbox

  inbox_after_failure-Seen :
      (left : ℕ) (inbox : Inbox)
      → 0 < left
      → own (inbox_after_failure now sub event left inbox) ≡ true
  inbox_after_failure-Seen left inbox p = ground (
    arith,
    claim-Seen now sub.consumer event.event_id (release sub.consumer event.event_id inbox),
  )

  inbox_after_failure-keeps :
      (c : String) (k : ℕ)
      → Differs c k sub.consumer event.event_id
      → (left : ℕ) (inbox : Inbox) → seen c k inbox ≡ true
      → seen c k (inbox_after_failure now sub event left inbox) ≡ true
  inbox_after_failure-keeps c k d left inbox h =
      let kept = release-keeps c sub.consumer k event.event_id inbox d h in
      ground (
        arith,
        kept,
        claim-keeps now sub.consumer c event.event_id k (release sub.consumer event.event_id inbox)
            kept,
      )

  -- A delivery that reports no failure leaves the consumer in the inbox.
  attempt-Seen :
      (left attempts : ℕ) (last_error : String) (bus : Bus W)
      → (0 < left → own bus.inbox ≡ true)
      → (attempt now sub event left attempts last_error bus).0 ≡ none
      → own (attempt now sub event left attempts last_error bus).1.inbox ≡ true
  unfolding attempt
  attempt-Seen zero attempts last_error bus h e = cc
  attempt-Seen (suc left) attempts last_error bus h e =
      let w = (sub.handler event bus.world).1 in
      let inbox = inbox_after_failure now sub event left bus.inbox in
      elim (thrown_cases (sub.handler event bus.world).0) [
        | inl returned ↦ ground (arith, returned, h (omega arith))
        | inr (message, thrown) ↦ ground (
          arith,
          thrown,
          attempt-Seen left (attempts + 1) message (record bus { world = w; inbox = inbox })
              (inbox_after_failure-Seen left bus.inbox),
        )
      ]

  attempt-keeps :
      (c : String) (k : ℕ)
      → Differs c k sub.consumer event.event_id
      → (left attempts : ℕ) (last_error : String) (bus : Bus W) → seen c k bus.inbox ≡ true
      → seen c k (attempt now sub event left attempts last_error bus).1.inbox ≡ true
  unfolding attempt
  attempt-keeps c k d zero attempts last_error bus h = h
  attempt-keeps c k d (suc left) attempts last_error bus h =
      let w = (sub.handler event bus.world).1 in
      let inbox = inbox_after_failure now sub event left bus.inbox in
      elim (thrown_cases (sub.handler event bus.world).0) [
        | inl returned ↦ ground (arith, returned, h)
        | inr (message, thrown) ↦ ground (
          arith,
          thrown,
          attempt-keeps c k d left (attempts + 1) message (record bus { world = w; inbox = inbox })
              (inbox_after_failure-keeps c k d left bus.inbox h),
        )
      ]

  -- Where handlers throw messages that are not empty, a failure has one too.
  pub attempt-Told :
      Tells sub
      → (left attempts : ℕ) (last_error : String) (bus : Bus W)
      → (left ≡ 0 → is_truthy (some last_error) ≡ true)
      → (message : String) → (attempt now sub event left attempts last_error bus).0 ≡ some message
      → is_truthy (some message) ≡ true
  unfolding attempt
  attempt-Told told zero attempts last_error bus h message e = ground (arith, h refl)
  attempt-Told told (suc left) attempts last_error bus h message e =
      let w = (sub.handler event bus.world).1 in
      let inbox = inbox_after_failure now sub event left bus.inbox in
      elim (thrown_cases (sub.handler event bus.world).0) [
        | inl returned ↦ ground (arith, returned)
        | inr (text, thrown) ↦
            attempt-Told told left (attempts + 1) text (record bus { world = w; inbox = inbox })
              (λ z. told event bus.world text thrown) message (ground (arith, thrown))
      ]

  pub attempt-settings :
      (left attempts : ℕ) (last_error : String) (bus : Bus W)
      → let after = (attempt now sub event left attempts last_error bus).1 in
        (after.subs ≡ bus.subs) × (after.max_attempts ≡ bus.max_attempts)
  unfolding attempt
  attempt-settings zero attempts last_error bus = (refl, refl)
  attempt-settings (suc left) attempts last_error bus =
      let w = (sub.handler event bus.world).1 in
      let inbox = inbox_after_failure now sub event left bus.inbox in
      elim (thrown_cases (sub.handler event bus.world).0) [
        | inl returned ↦ ground (arith, returned)
        | inr (message, thrown) ↦ ground (
          arith,
          thrown,
          attempt-settings left (attempts + 1) message (record bus { world = w; inbox = inbox }),
        )
      ]

  abbrev pub claimed : Bus W → Bus W
  claimed bus = record bus { inbox = (claim now sub.consumer event.event_id bus.inbox).1 }

  -- A consumer in the inbox is passed over, and any other is attempted.
  pub deliver-seen : (bus : Bus W) → own bus.inbox ≡ true → deliver now sub event bus ≡ (none, bus)
  unfolding deliver claim
  deliver-seen bus h = ground arith

  pub deliver-new :
      (bus : Bus W)
      → own bus.inbox ≡ false
      → deliver now sub event bus ≡ attempt now sub event bus.max_attempts 0 "" (claimed bus)
  unfolding deliver claim
  deliver-new bus h = ground arith

  pub deliver-settings :
      (bus : Bus W)
      → let after = (deliver now sub event bus).1 in
        (after.subs ≡ bus.subs) × (after.max_attempts ≡ bus.max_attempts)
  deliver-settings bus = elim (seen_cases (own bus.inbox)) [
    | inl there ↦ rw (deliver-seen bus there) (refl, refl)
    | inr free ↦ rw (deliver-new bus free) (attempt-settings bus.max_attempts 0 "" (claimed bus))
  ]

  pub deliver-keeps :
      (c : String) (k : ℕ) (bus : Bus W)
      → seen c k bus.inbox ≡ true
      → seen c k (deliver now sub event bus).1.inbox ≡ true
  deliver-keeps c k bus h = elim (seen_cases (own bus.inbox)) [
    | inl there ↦ rw (deliver-seen bus there) h
    | inr free ↦ rw (deliver-new bus free) (
        attempt-keeps c k (seen-Differs c sub.consumer k event.event_id bus.inbox h free)
          bus.max_attempts 0 "" (claimed bus)
          (claim-keeps now sub.consumer c event.event_id k bus.inbox h))
  ]

  pub deliver-Seen :
      (bus : Bus W)
      → (deliver now sub event bus).0 ≡ none
      → own (deliver now sub event bus).1.inbox ≡ true
  deliver-Seen bus e = elim (seen_cases (own bus.inbox)) [
    | inl there ↦ rw (deliver-seen bus there) there
    | inr free ↦ rw (deliver-new bus free) (
        attempt-Seen bus.max_attempts 0 "" (claimed bus)
          (λ p. claim-Seen now sub.consumer event.event_id bus.inbox)
          (ap (λ r. r.0) (sym (deliver-new bus free)) ∙ e))
  ]

  -- A failure of a delivery is told, where there is an attempt to make.
  pub deliver-Told :
      Tells sub
      → (bus : Bus W) → 0 < bus.max_attempts
      → (message : String) → (deliver now sub event bus).0 ≡ some message
      → is_truthy (some message) ≡ true
  deliver-Told told bus p message e = elim (seen_cases (own bus.inbox)) [
    | inl there ↦ ground (arith, e, deliver-seen bus there)
    | inr free ↦
        attempt-Told told bus.max_attempts 0 "" (claimed bus) (λ z. absurd (omega (arith, z, p)))
          message (ap (λ r. r.0) (sym (deliver-new bus free)) ∙ e)
  ]
