-- ===== src/Fulfillment/Turn/Invariant.antt =====
-- Turns of src/modules/fulfillment/service.ts, one after the other: each fulfillment that is closed was
-- announced once, and what is closed stays as it was closed.
use wasla_core.Base.{
  ℕ, ◌+◌, ◌≤◌, ◌<◌, Option, none, some, ◌≡◌, refl, sym, ap, subst, ◌∙◌, inl, inr, List, arith, ◌==◌,
  ==_iff, if◌then◌else◌, Bool-cases,
}
use wasla_core.Base.Table.{
  Table, get, put, values, get-put, IsKeyed, IsKeyed-put, get-keyed, AllBelow, AllBelow-put,
  AllBelow-le, get-above, below_bound,
}
use wasla_core.Eventing.Envelope.{EventEnvelope}
use wasla_core.Eventing.Outbox.{Rows}
use wasla_core.Platform.UnitOfWork.{append_all}
use wasla_core.Fulfillment.Domain.{Fulfillment, is_closed}
use wasla_core.Fulfillment.Store.{rules_refusal}
use wasla_core.Fulfillment.Turn.{
  Turn, opens, refuses, dispatches, closes, marks, traces, SameClosure, IsClosed, Announces, Quiets,
  closures,
}
use wasla_core.Fulfillment.Turn.Counts.{Sent, append_all-quiet, append_all-announced}

abbrev pub fulfillment_key : Fulfillment → ℕ
fulfillment_key f = f.fulfillment_id

abbrev pub closed_count : Option Fulfillment → ℕ
closed_count none = 0
closed_count (some f) = if is_closed f.status then 1 else 0

-- The rows, the next identifier and the outbox of a state in which every closure went out once.
pub record Tidy (n : ℕ) (t : Table Fulfillment) (outbox : Rows) : Type 0 where
  pub sent : Sent n outbox
  pub keyed : IsKeyed fulfillment_key t
  pub below : AllBelow fulfillment_key n t
  pub counted : (k : ℕ) → closures k (values outbox) ≡ closed_count (get k t)

-- Every row is one that the table's rules admit.
abbrev pub IsRuled : Table Fulfillment → Type 0
IsRuled t = (k : ℕ) (f : Fulfillment) → get k t ≡ some f → rules_refusal f ≡ none

-- Whatever is closed in the first is closed in the second, in the same way.
abbrev pub Older : Table Fulfillment → Table Fulfillment → Type 0
Older seen t =
    (k : ℕ) (f : Fulfillment)
    → get k seen ≡ some f
    → IsClosed f
    → (f' : Fulfillment) × (get k t ≡ some f') × SameClosure f f'

same_closure : (f : Fulfillment) → SameClosure f f
same_closure f = record {
  status = refl;
  settlement_state = refl;
  completed_at = refl;
  closure_reason = refl;
  fulfillment_id = refl;
}

pub Older-refl : (t : Table Fulfillment) → Older t t
Older-refl t k f h c = (f, h, same_closure f)

SameClosure-trans : (f g h : Fulfillment) → SameClosure f g → SameClosure g h → SameClosure f h
SameClosure-trans f g h p q = record {
  status = q.status ∙ p.status;
  settlement_state = q.settlement_state ∙ p.settlement_state;
  completed_at = q.completed_at ∙ p.completed_at;
  closure_reason = q.closure_reason ∙ p.closure_reason;
  fulfillment_id = q.fulfillment_id ∙ p.fulfillment_id;
}

pub Older-trans : (s t u : Table Fulfillment) → Older s t → Older t u → Older s u
Older-trans s t u a b k f h c =
    let (g, there, same) = a k f h c in
    let (g', there', same') = b k g there (ap is_closed same.status ∙ c) in
    (g', there', SameClosure-trans f g g' same same')

put-Older :
    (f : Fulfillment) (t : Table Fulfillment)
    → ((old : Fulfillment) → get f.fulfillment_id t ≡ some old → IsClosed old → SameClosure old f)
    → Older t (put f.fulfillment_id f t)
put-Older f t keep k old here c = elim (Bool-cases (f.fulfillment_id == k)) [
  | inl same ↦ (
    f,
    ground (arith, get-put f.fulfillment_id k f t, same),
    keep old (ground (arith, same, here)) c,
  )
  | inr other ↦ (old, ground (arith, get-put f.fulfillment_id k f t, other, here), same_closure old)
]

stored_same :
    (t : Table Fulfillment) (old old' f : Fulfillment)
    → get f.fulfillment_id t ≡ some old
    → get f.fulfillment_id t ≡ some old'
    → SameClosure old f
    → SameClosure old' f
stored_same t old old' f h h' same = subst (λ o. SameClosure o f) (one old old' (sym h ∙ h')) same
  where
    one : (a b : Fulfillment) → some a ≡ some b → a ≡ b
    one a b e = cc

module _ (n n' : ℕ) (es : List EventEnvelope) (seen t : Table Fulfillment) (outbox : Rows)
    (le : n ≤ n') (tidy : Tidy n t outbox) (read : IsKeyed fulfillment_key seen)
    (older : Older seen t) where
  -- The row that a trace was read from, as it is now.
  traced-Same :
      (k : ℕ) (old f : Fulfillment)
      → get k seen ≡ some old
      → IsClosed old
      → SameClosure old f
      → (g : Fulfillment) × (get f.fulfillment_id t ≡ some g) × SameClosure g f × IsClosed g
  traced-Same k old f here c same =
      let (g, there, kept) = older k old here c in
      let key = get-keyed fulfillment_key k old seen read here in
      (
        g,
        subst (λ j. get j t ≡ some g) (key ∙ sym same.fulfillment_id) there,
        record {
          status = same.status ∙ sym kept.status;
          settlement_state = same.settlement_state ∙ sym kept.settlement_state;
          completed_at = same.completed_at ∙ sym kept.completed_at;
          closure_reason = same.closure_reason ∙ sym kept.closure_reason;
          fulfillment_id = same.fulfillment_id ∙ sym kept.fulfillment_id;
        },
        ap is_closed kept.status ∙ c,
      )

  new_row-free : (k : ℕ) → n ≤ k → get k t ≡ none
  new_row-free k h = get-above fulfillment_key n k t tidy.keyed tidy.below h

  -- What is closed stays as it was closed.
  pub Turn-Older : (t' : Table Fulfillment) → Turn seen t n n' es t' → Older t t'
  Turn-Older _ (opens f fresh lt o q) =
      put-Older f t (λ old h c. ground (arith, new_row-free f.fulfillment_id fresh))
  Turn-Older _ (refuses f fresh lt c a) =
      put-Older f t (λ old h c. ground (arith, new_row-free f.fulfillment_id fresh))
  Turn-Older _ (dispatches old f here o o' q) = put-Older f t (λ old' h c. ground (arith, here, o))
  Turn-Older _ (closes old f here o c a) = put-Older f t (λ old' h c. ground (arith, here, o))
  Turn-Older _ (marks old f here c same q) =
      put-Older f t (λ old' h c. stored_same t old old' f here h same)
  Turn-Older _ (traces k old f here c same q) =
      let (g, there, kept, closed) = traced-Same k old f here c same in
      put-Older f t (λ old' h c'. stored_same t g old' f there h kept)

  -- A row is written, and `m` closures of it go out.
  put-Tidy :
      (f : Fulfillment) (m : ℕ) (outbox' : Rows)
      → f.fulfillment_id < n'
      → ((k : ℕ)
          → (closures k (values outbox')
              ≡ closures k (values outbox) + (if f.fulfillment_id == k then m else 0))
            × Sent n' outbox')
      → closed_count (some f) ≡ closed_count (get f.fulfillment_id t) + m
      → Tidy n' (put f.fulfillment_id f t) outbox'
  put-Tidy f m outbox' lt out count = record {
    sent = (out 0).1;
    keyed = IsKeyed-put fulfillment_key f t tidy.keyed;
    below =
        AllBelow-put fulfillment_key n' f t lt (AllBelow-le fulfillment_key n n' t le tidy.below);
    counted = λ k. elim (Bool-cases (f.fulfillment_id == k)) [
      | inl same ↦
          let here : f.fulfillment_id ≡ k = (==_iff f.fulfillment_id k).0 same in
          (out k).0
          ∙ ground (
            arith,
            same,
            tidy.counted k,
            count,
            get-put f.fulfillment_id k f t,
            ap (λ j. closed_count (get j t)) here,
          )
      | inr other ↦
          (out k).0 ∙ ground (arith, other, tidy.counted k, get-put f.fulfillment_id k f t)
    ];
  }

  quiet_out :
      (f : Fulfillment) (now : ℕ)
      → Quiets n' es
      → (k : ℕ)
      → (closures k (values (append_all now es outbox))
          ≡ closures k (values outbox) + (if f.fulfillment_id == k then 0 else 0))
        × Sent n' (append_all now es outbox)
  quiet_out f now q k =
      let out = append_all-quiet k n n' now es outbox le q tidy.sent in
      (ground (arith, out.0), out.1)

  announced_out :
      (f : Fulfillment) (now : ℕ)
      → Announces f.fulfillment_id n n' es
      → (k : ℕ)
      → (closures k (values (append_all now es outbox))
          ≡ closures k (values outbox) + (if f.fulfillment_id == k then 1 else 0))
        × Sent n' (append_all now es outbox)
  announced_out f now a k = append_all-announced f.fulfillment_id k n n' now es outbox a tidy.sent

  stored_below : (k : ℕ) (old : Fulfillment) → get k t ≡ some old → k < n'
  stored_below k old h =
      let key = get-keyed fulfillment_key k old t tidy.keyed h in
      let below = below_bound fulfillment_key n k old t tidy.below h in omega (arith, key, below)

  -- Every closure of the outbox goes with a closed row, one to one.
  pub Turn-Tidy :
      (now : ℕ) (t' : Table Fulfillment)
      → Turn seen t n n' es t'
      → Tidy n' t' (append_all now es outbox)
  Turn-Tidy now _ (opens f fresh lt o q) =
      put-Tidy f 0 _ lt (quiet_out f now q) (ground (arith, new_row-free f.fulfillment_id fresh, o))
  Turn-Tidy now _ (refuses f fresh lt c a) =
      put-Tidy f 1 _ lt (announced_out f now a)
        (ground (arith, new_row-free f.fulfillment_id fresh, c))
  Turn-Tidy now _ (dispatches old f here o o' q) =
      put-Tidy f 0 _ (stored_below f.fulfillment_id old here) (quiet_out f now q)
        (ground (arith, here, o, o'))
  Turn-Tidy now _ (closes old f here o c a) =
      put-Tidy f 1 _ (stored_below f.fulfillment_id old here) (announced_out f now a)
        (ground (arith, here, o, c))
  Turn-Tidy now _ (marks old f here c same q) =
      put-Tidy f 0 _ (stored_below f.fulfillment_id old here) (quiet_out f now q)
        (ground (arith, here, c, ap is_closed same.status))
  Turn-Tidy now _ (traces k old f here c same q) =
      let (g, there, kept, closed) = traced-Same k old f here c same in
      put-Tidy f 0 _ (stored_below f.fulfillment_id g there) (quiet_out f now q)
        (ground (arith, there, closed, ap is_closed kept.status))
