-- ===== src/Base/Table.antt =====
-- A JavaScript `Map` keyed by identifiers: entries in insertion order, and `set` on a key that is
-- there replaces its value in place.
use Prim.Native.Nat.{ℕ, ◌≤◌, ◌<◌}
use mathlib.Core.Path.{◌≡◌, refl}
use mathlib.Core.Option.{Option, none, some}
use mathlib.Core.List.{List, [], ◌∷◌, ◌++◌}
use native.Mathlib.Omega.{arith}
use wasla_core.Base.Tests.{◌==◌, if◌then◌else◌}
use wasla_core.Base.Lists.{All, All-map}

abbrev pub Table {ℓ} : Type ℓ → Type ℓ
Table V = List (ℕ × V)

module _ {ℓ} {V : Type ℓ} where
  -- `map.get(key)`
  unfoldable pub get : ℕ → Table V → Option V
  get k [] = none
  get k ((j, v) ∷ t) = if j == k then some v else get k t

  -- `map.set(key, value)`
  unfoldable pub put : ℕ → V → Table V → Table V
  put k v [] = (k, v) ∷ []
  put k v ((j, w) ∷ t) = if j == k then (j, v) ∷ t else (j, w) ∷ put k v t

  -- `map.delete(key)`
  unfoldable pub delete : ℕ → Table V → Table V
  delete k [] = []
  delete k ((j, w) ∷ t) = if j == k then t else (j, w) ∷ delete k t

  -- `[...map.values()]`
  unfoldable pub values : Table V → List V
  values [] = []
  values ((j, v) ∷ t) = v ∷ values t

  pub get-put :
      (k j : ℕ) (v : V) (t : Table V) → get j (put k v t) ≡ (if k == j then some v else get j t)
  unfolding get put
  get-put k j v [] = ground arith
  get-put k j v ((i, w) ∷ t) = ground (arith, get-put k j v t)

  pub get-put_self : (k : ℕ) (v : V) (t : Table V) → get k (put k v t) ≡ some v
  unfolding get put
  get-put_self k v [] = ground arith
  get-put_self k v ((i, w) ∷ t) = ground (arith, get-put_self k v t)

  -- A write to a new key is undone by deleting the key.
  pub delete-put_new : (k : ℕ) (v : V) (t : Table V) → get k t ≡ none → delete k (put k v t) ≡ t
  unfolding get put delete
  delete-put_new k v [] h = ground arith
  delete-put_new k v ((i, w) ∷ t) h = ground (arith, delete-put_new k v t)

  -- A write to an old key is undone by writing the old value, at its old position.
  pub put-put_old : (k : ℕ) (v w : V) (t : Table V) → get k t ≡ some w → put k w (put k v t) ≡ t
  unfolding get put
  put-put_old k v w [] h = cc
  put-put_old k v w ((i, x) ∷ t) h = ground (arith, put-put_old k v w t)

  pub values-put_new :
      (k : ℕ) (v : V) (t : Table V) → get k t ≡ none → values (put k v t) ≡ values t ++ v ∷ []
  unfolding get put values
  values-put_new k v [] h = refl
  values-put_new k v ((i, w) ∷ t) h = ground (arith, values-put_new k v t)

module _ {ℓ κ} {V : Type ℓ} (P : V → Type κ) where
  -- Every stored value has the property.
  abbrev pub AllRows : Table V → Type κ
  AllRows [] = Unit
  AllRows ((k, v) ∷ t) = P v × AllRows t

  pub AllRows-put : (k : ℕ) (v : V) (t : Table V) → P v → AllRows t → AllRows (put k v t)
  unfolding put
  AllRows-put k v [] p h = (p, tt)
  AllRows-put k v ((i, w) ∷ t) p h = ground (arith, AllRows-put k v t p h.1)

  pub AllRows-get : (k : ℕ) (v : V) (t : Table V) → AllRows t → get k t ≡ some v → P v
  unfolding get
  AllRows-get k v [] h e = cc
  AllRows-get k v ((i, w) ∷ t) h e = ground (arith, AllRows-get k v t h.1)

  pub AllRows-values : (t : Table V) → AllRows t → All P (values t)
  unfolding values
  AllRows-values [] h = tt
  AllRows-values ((i, w) ∷ t) h = (h.0, AllRows-values t h.1)

module _ {ℓ} {V : Type ℓ} (id_of : V → ℕ) where
  -- Every value stands under its own identifier, and no identifier occurs twice.
  abbrev pub IsKeyed : Table V → Type ℓ
  IsKeyed [] = Unit
  IsKeyed ((k, v) ∷ t) = (k ≡ id_of v) × (get k t ≡ none) × IsKeyed t

  pub get-keyed : (k : ℕ) (v : V) (t : Table V) → IsKeyed t → get k t ≡ some v → k ≡ id_of v
  unfolding get
  get-keyed k v [] h e = cc
  get-keyed k v ((j, w) ∷ t) h e = ground (arith, get-keyed k v t h.2)

  -- Every identifier is below a bound, from which on keys are free.
  abbrev pub AllBelow : ℕ → Table V → Type 0
  AllBelow n [] = Unit
  AllBelow n ((k, v) ∷ t) = id_of v < n × AllBelow n t

  pub AllBelow-put :
      (n : ℕ) (v : V) (t : Table V) → id_of v < n → AllBelow n t → AllBelow n (put (id_of v) v t)
  unfolding put
  AllBelow-put n v [] p h = (p, tt)
  AllBelow-put n v ((i, w) ∷ t) p h = ground (arith, AllBelow-put n v t p h.1)

  pub AllBelow-le : (n m : ℕ) (t : Table V) → n ≤ m → AllBelow n t → AllBelow m t
  AllBelow-le n m [] p h = tt
  AllBelow-le n m ((i, w) ∷ t) p h = (omega arith, AllBelow-le n m t p h.1)

  pub below_bound : (n k : ℕ) (v : V) (t : Table V) → AllBelow n t → get k t ≡ some v → id_of v < n
  unfolding get
  below_bound n k v [] b e = cc
  below_bound n k v ((j, w) ∷ t) b e = ground (arith, below_bound n k v t b.1)

  pub get-above : (n k : ℕ) (t : Table V) → IsKeyed t → AllBelow n t → n ≤ k → get k t ≡ none
  unfolding get
  get-above n k [] h b p = refl
  get-above n k ((j, w) ∷ t) h b p = ground (arith, get-above n k t h.2 b.1)

  pub IsKeyed-put : (v : V) (t : Table V) → IsKeyed t → IsKeyed (put (id_of v) v t)
  unfolding put
  IsKeyed-put v [] h = (refl, unfold get in refl, tt)
  IsKeyed-put v ((i, w) ∷ t) h = ground (arith, IsKeyed-put v t h.2, get-put (id_of v) i v t)

  get-cons_below :
      (i : ℕ) (w : V) (t : Table V)
      → get i t ≡ none
      → (v : V) → get (id_of v) t ≡ some v
      → get (id_of v) ((i, w) ∷ t) ≡ some v
  unfolding get
  get-cons_below i w t fresh v e = ground arith

  -- What `values` lists is what `get` finds.
  pub values-get : (t : Table V) → IsKeyed t → All (λ v. get (id_of v) t ≡ some v) (values t)
  unfolding values
  values-get [] h = tt
  values-get ((i, w) ∷ t) h = (
    unfold get in ground arith,
    All-map (λ v. get (id_of v) t ≡ some v) (λ v. get (id_of v) ((i, w) ∷ t) ≡ some v)
        (get-cons_below i w t h.1) (values t) (values-get t h.2),
  )
