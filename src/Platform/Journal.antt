-- ===== src/Platform/Journal.antt =====
-- The undo journal of src/platform/persistence/transaction.ts (`MemoryJournal`, `journalMapWrite`),
-- over one map: what a rolled back transaction leaves is what it found.
use wasla_core.Base.{
  ℕ, none, some, ◌≡◌, refl, List, [], ◌∷◌, arith, Option-cases, inl, inr, ap, ◌∙◌,
}
use wasla_core.Base.Table.{Table, get, put, delete, delete-put_new, put-put_old}

-- The inverse of a write: put the old value back, or delete the key.
pub data Inverse {ℓ} (V : Type ℓ) : Type ℓ where
  restore : ℕ → V → Inverse V
  remove : ℕ → Inverse V

-- The journal's stack, last write first, with the map that the writes have reached.
pub record Journal {ℓ} (V : Type ℓ) : Type ℓ where
  pub undo : List (Inverse V)
  pub map : Table V

module _ {ℓ} {V : Type ℓ} where
  unfoldable pub invert : ℕ → Table V → Inverse V
  invert key map = elim (get key map) [ none ↦ remove key | some previous ↦ restore key previous ]

  -- `journalMapWrite(scope, map, key); map.set(key, value)`
  unfoldable pub write : Journal V → ℕ × V → Journal V
  write j (key, value) = record { undo = invert key j.map ∷ j.undo; map = put key value j.map }

  unfoldable pub write_all : Journal V → List (ℕ × V) → Journal V
  write_all j [] = j
  write_all j (w ∷ ws) = write_all (write j w) ws

  unfoldable pub apply_inverse : Inverse V → Table V → Table V
  apply_inverse (restore key previous) map = put key previous map
  apply_inverse (remove key) map = delete key map

  -- `rollback`
  unfoldable pub unwind : List (Inverse V) → Table V → Table V
  unwind [] map = map
  unwind (i ∷ is) map = unwind is (apply_inverse i map)

  abbrev pub rollback : Journal V → Table V
  rollback j = unwind j.undo j.map

  apply_inverse-put :
      (key : ℕ) (value : V) (map : Table V)
      → apply_inverse (invert key map) (put key value map) ≡ map
  unfolding apply_inverse invert
  apply_inverse-put key value map = elim (Option-cases (get key map)) [
    | inl absent ↦ ground (arith, delete-put_new key value map)
    | inr (old, found) ↦ ground (arith, put-put_old key value old map)
  ]

  rollback-write : (j : Journal V) (w : ℕ × V) → rollback (write j w) ≡ rollback j
  unfolding unwind write
  rollback-write j (key, value) = ap (unwind j.undo) (apply_inverse-put key value j.map)

  -- Rolling a journal back, after any writes to any keys, gives the map that a rollback before those
  -- writes would have given: with an empty journal, the map that the transaction found, its order of
  -- entries included.
  pub rollback-write_all :
      (j : Journal V) (ws : List (ℕ × V)) → rollback (write_all j ws) ≡ rollback j
  unfolding write_all
  rollback-write_all j [] = refl
  rollback-write_all j (w ∷ ws) = rollback-write_all (write j w) ws ∙ rollback-write j w
