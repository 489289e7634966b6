-- ===== src/Base/Loops.antt =====
-- `for (const x of xs) { ... }` with `continue` and `break`, as a function over the loop's state.
use mathlib.Core.List.{List, [], ◌∷◌}
use wasla_core.Base.Lists.{All}

-- What one round says: go on to the next element, or leave the loop.
pub data Flow {ℓ} (S : Type ℓ) : Type ℓ where
  next : S → Flow S
  break : S → Flow S

abbrev pub flow_state {ℓ} : {S : Type ℓ} → Flow S → S
flow_state (next s) = s
flow_state (break s) = s

unfoldable pub for_each {ℓ κ} : {A : Type ℓ} {S : Type κ} → (A → S → Flow S) → List A → S → S
for_each body [] s = s
for_each body (x ∷ xs) s = elim (body x s) [ next s' ↦ for_each body xs s' | break s' ↦ s' ]

follow {ℓ μ} :
    {S : Type ℓ} (P : S → Type μ) (k : S → S)
    → ((s : S) → P s → P (k s))
    → (f : Flow S) → P (flow_state f)
    → P (elim f [ next s ↦ k s | break s ↦ s ])
follow P k keep (next s) h = keep s h
follow P k keep (break s) h = h

-- An invariant that every round keeps holds when the loop is left.
pub for_each_inv {ℓ κ μ ν} :
    {A : Type ℓ} {S : Type κ} (P : S → Type μ) (Q : A → Type ν) (body : A → S → Flow S)
    → ((x : A) (s : S) → Q x → P s → P (flow_state (body x s)))
    → (xs : List A) (s : S) → All Q xs
    → P s
    → P (for_each body xs s)
unfolding for_each
for_each_inv P Q body keep [] s q h = h
for_each_inv P Q body keep (x ∷ xs) s q h =
    follow P (for_each body xs) (λ s' h'. for_each_inv P Q body keep xs s' q.1 h') (body x s)
      (keep x s q.0 h)
