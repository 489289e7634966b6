-- ===== src/Base/Sort.antt =====
-- `Array.sort` with a comparator: a stable sort, here by insertion.
use Prim.Native.Nat.{suc, Ordering}
use mathlib.Core.Path.{◌≡◌}
use mathlib.Core.Logic.{◌≢◌}
use native.Mathlib.Omega.{arith}
use mathlib.Core.List.{List, [], ◌∷◌}
use wasla_core.Base.Lists.{All, All-map, length}

-- `left || right` on the results of comparators, where 0 is falsy.
unfoldable pub then_by : Ordering → Ordering → Ordering
then_by Ordering.lt o = Ordering.lt
then_by Ordering.eq o = o
then_by Ordering.gt o = Ordering.gt

module _ {ℓ} {A : Type ℓ} (compare : A → A → Ordering) where
  unfoldable pub insert : A → List A → List A
  insert x [] = x ∷ []
  insert x (y ∷ ys) = elim (compare x y) [ Ordering.gt ↦ y ∷ insert x ys | _ ↦ x ∷ y ∷ ys ]

  unfoldable pub sort : List A → List A
  unfolding insert
  sort [] = []
  sort (x ∷ xs) = insert x (sort xs)

  pub length-sort : (xs : List A) → length (sort xs) ≡ length xs
  unfolding sort
  length-sort [] = omega arith
  length-sort (x ∷ xs) = omega (arith, length-insert x (sort xs), length-sort xs)
    where
      length-insert : (x : A) (ys : List A) → length (insert x ys) ≡ suc (length ys)
      length-insert x [] = omega arith
      length-insert x (y ∷ ys) = ground (arith, length-insert x ys)

  module _ {κ} (P : A → Type κ) where
    pub All-insert : (x : A) (ys : List A) → P x → All P ys → All P (insert x ys)
    unfolding insert
    All-insert x [] p h = (p, tt)
    All-insert x (y ∷ ys) p h = ground (arith, All-insert x ys p h.1)

    -- Sorting keeps what holds of every element.
    pub All-sort : (xs : List A) → All P xs → All P (sort xs)
    unfolding sort
    All-sort [] h = tt
    All-sort (x ∷ xs) h = All-insert x (sort xs) h.0 (All-sort xs h.1)

  -- No element stands behind one that it should precede.
  abbrev pub IsSorted : List A → Type ℓ
  IsSorted [] = Unit
  IsSorted (x ∷ xs) = All (λ y. compare x y ≢ Ordering.gt) xs × IsSorted xs

  module _ (total : (x y : A) → compare x y ≡ Ordering.gt → compare y x ≢ Ordering.gt)
      (trans : (x y z : A)
        → compare x y ≢ Ordering.gt
        → compare y z ≢ Ordering.gt
        → compare x z ≢ Ordering.gt) where
    precedes-All :
        (x y : A) (ys : List A)
        → compare x y ≢ Ordering.gt
        → All (λ z. compare y z ≢ Ordering.gt) ys
        → All (λ z. compare x z ≢ Ordering.gt) ys
    precedes-All x y ys h =
        All-map (λ z. compare y z ≢ Ordering.gt) (λ z. compare x z ≢ Ordering.gt)
          (λ z. trans x y z h) ys

    insert-IsSorted : (x : A) (ys : List A) → IsSorted ys → IsSorted (insert x ys)
    unfolding insert
    insert-IsSorted x [] h = (tt, tt)
    insert-IsSorted x (y ∷ ys) h = ground (
      arith,
      precedes-All x y ys,
      total x y,
      insert-IsSorted x ys h.1,
      All-insert (λ z. compare y z ≢ Ordering.gt) x ys,
    )

    pub sort-IsSorted : (xs : List A) → IsSorted (sort xs)
    unfolding sort
    sort-IsSorted [] = tt
    sort-IsSorted (x ∷ xs) = insert-IsSorted x (sort xs) (sort-IsSorted xs)
