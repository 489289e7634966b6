-- ===== src/Platform/UnitOfWork/Parts/Kept.antt =====
-- src/platform/eventing/unit-of-work.ts: what a module's work on another's unit of work leaves alone.
use wasla_core.Base.{◌≡◌, refl, ◌∙◌, arith, inl, inr, List, [], ◌∷◌, ◌++◌, map}
use wasla_core.Platform.Errors.{Result, ok, Result-cases}
use wasla_core.Platform.UnitOfWork.{Check, Scope, defer, run_mutations}
use wasla_core.Platform.UnitOfWork.Parts.{defer_parts, mutate_part, check_part}

defer-store : {T : Type 0} (c : Check T) (sc : Scope T) → (defer c sc).store ≡ sc.store
unfolding defer
defer-store c sc = ground arith

module _ {S T : Type 0} (part : T → S) (with_part : S → T → T) where
  defer_parts-store :
      (cs : List (Check S)) (sc : Scope T) → (defer_parts part with_part cs sc).store ≡ sc.store
  unfolding defer_parts
  defer_parts-store [] sc = refl
  defer_parts-store (c ∷ cs) sc =
      defer_parts-store cs (defer (check_part part with_part c) sc)
      ∙ defer-store (check_part part with_part c) sc

  -- A mutation of the part that succeeds succeeded on the part alone.
  pub mutate_part-ok :
      (m : Scope S → Result (Scope S)) (sc sc' : Scope T)
      → mutate_part part with_part m sc ≡ ok sc'
      → (done : Scope S) × (m (record { store = part sc.store; deferred = [] }) ≡ ok done)
        × (sc'.store ≡ with_part done.store sc.store)
  unfolding mutate_part
  mutate_part-ok m sc sc' h =
      elim (Result-cases (m (record { store = part sc.store; deferred = [] }))) [
        | inl (done, e) ↦ (
          done,
          e,
          ground (
            arith,
            e,
            defer_parts-store done.deferred (record sc { store = with_part done.store sc.store }),
          ),
        )
        | inr (f, e) ↦ absurd (ground (arith, e))
      ]

  -- Work on the part, then a mutation of the whole: the whole's own rows are as they were when its
  -- mutation runs.
  module _ {V : Type 0} (own : T → V) (apart : (s : S) (t : T) → own (with_part s t) ≡ own t) where
    mutate_part-keeps :
        (m : Scope S → Result (Scope S)) (sc sc' : Scope T)
        → mutate_part part with_part m sc ≡ ok sc'
        → own sc'.store ≡ own sc.store
    unfolding mutate_part
    mutate_part-keeps m sc sc' h =
        elim (Result-cases (m (record { store = part sc.store; deferred = [] }))) [
          | inl (done, e) ↦ ground (
            arith,
            e,
            defer_parts-store done.deferred (record sc { store = with_part done.store sc.store }),
            apart done.store sc.store,
          )
          | inr (f, e) ↦ ground (arith, e)
        ]

    pub run_parts-keeps :
        (ms : List (Scope S → Result (Scope S))) (m : Scope T → Result (Scope T)) (sc sc' : Scope T)
        → run_mutations (map (mutate_part part with_part) ms ++ m ∷ []) sc ≡ ok sc'
        → (mid : Scope T) × (own mid.store ≡ own sc.store) × (m mid ≡ ok sc')
    unfolding run_mutations
    run_parts-keeps [] m sc sc' h = (sc, refl, ground arith)
    run_parts-keeps (x ∷ ms) m sc sc' h = elim (Result-cases (mutate_part part with_part x sc)) [
      | inl (done, e) ↦
          let (mid, kept, last) = run_parts-keeps ms m done sc' (ground (arith, e)) in
          (mid, kept ∙ mutate_part-keeps x sc done e, last)
      | inr (f, e) ↦ ground (arith, e)
    ]
