-- ===== src/Base/Sums.antt =====
-- Sums of signed integers over lists and tables, as the `reduce` calls of the modules take them.
use wasla_core.Base.{
  ℕ, All, none, some, Bool, ◌≡◌, refl, List, [], ◌∷◌, arith, filter, if◌then◌else◌,
}
use wasla_core.Base.Int.{ℤ, pos, ◌≤ℤ◌, ◌+ℤ◌, int_laws}
use wasla_core.Base.Table.{Table, get, put, values}
use wasla_core.Base.Sort.{insert, sort}
use Prim.Native.Nat.{Ordering}

module _ {ℓ} {A : Type ℓ} where
  unfoldable pub sum_of : (A → ℤ) → List A → ℤ
  sum_of f [] = pos 0
  sum_of f (x ∷ xs) = f x +ℤ sum_of f xs

  pub sum-filter :
      (f : A → ℤ) (p : A → Bool) (xs : List A)
      → sum_of f (filter p xs) ≡ sum_of (λ x. if p x then f x else pos 0) xs
  unfolding sum_of
  sum-filter f p [] = refl
  sum-filter f p (x ∷ xs) = grind (int_laws, sum-filter f p xs)

  sum-insert :
      (f : A → ℤ) (compare : A → A → Ordering) (x : A) (xs : List A)
      → sum_of f (insert compare x xs) ≡ f x +ℤ sum_of f xs
  unfolding sum_of insert
  sum-insert f compare x [] = refl
  sum-insert f compare x (y ∷ ys) = grind (int_laws, sum-insert f compare x ys)

  -- A sum does not depend on the order.
  pub sum-sort :
      (f : A → ℤ) (compare : A → A → Ordering) (xs : List A)
      → sum_of f (sort compare xs) ≡ sum_of f xs
  unfolding sum_of sort
  sum-sort f compare [] = refl
  sum-sort f compare (x ∷ xs) =
      grind (int_laws, sum-insert f compare x (sort compare xs), sum-sort f compare xs)

  pub sum-ext : (f g : A → ℤ) (xs : List A) → ((x : A) → f x ≡ g x) → sum_of f xs ≡ sum_of g xs
  unfolding sum_of
  sum-ext f g [] h = refl
  sum-ext f g (x ∷ xs) h = ground (arith, h x, sum-ext f g xs h)

  pub sum-zero : (f : A → ℤ) (xs : List A) → ((x : A) → f x ≡ pos 0) → sum_of f xs ≡ pos 0
  unfolding sum_of
  sum-zero f [] h = refl
  sum-zero f (x ∷ xs) h = grind (int_laws, h x, sum-zero f xs h)

  pub sum-mono {κ} :
      (P : A → Type κ) (f g : A → ℤ)
      → ((x : A) → P x → f x ≤ℤ g x)
      → (xs : List A) → All P xs
      → sum_of f xs ≤ℤ sum_of g xs
  unfolding sum_of
  sum-mono P f g h [] all = omega arith
  sum-mono P f g h (x ∷ xs) all = grind (int_laws, h x all.0, sum-mono P f g h xs all.1)

  -- A write to a new key adds its value's part, and a write to an old one exchanges it.
  pub sum-put_new :
      (f : A → ℤ) (k : ℕ) (v : A) (t : Table A)
      → get k t ≡ none
      → sum_of f (values (put k v t)) ≡ sum_of f (values t) +ℤ f v
  unfolding sum_of get put values
  sum-put_new f k v [] h = grind int_laws
  sum-put_new f k v ((j, w) ∷ t) h = grind (int_laws, sum-put_new f k v t)

  pub sum-put_old :
      (f : A → ℤ) (k : ℕ) (v w : A) (t : Table A)
      → get k t ≡ some w
      → sum_of f (values (put k v t)) +ℤ f w ≡ sum_of f (values t) +ℤ f v
  unfolding sum_of get put values
  sum-put_old f k v w [] h = cc
  sum-put_old f k v w ((j, x) ∷ t) h = grind (int_laws, sum-put_old f k v w t)
