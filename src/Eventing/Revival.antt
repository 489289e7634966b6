-- ===== src/Eventing/Revival.antt =====
-- src/platform/eventing/revival.ts and `selectDead` of outbox.ts: which dead rows an operator revives, page
-- by page. The bounds of a selection are instants, as every stored `occurred_at` is.
pub mod Pages
use text.Mathlib.Text.{◌==◌ as str_eq}
use Prim.Native.Nat.{compare, Ordering}
use wasla_core.Base.{
  ℕ, String, Option, none, some, Bool, true, false, not, ◌&&◌, ◌||◌, List, [], ◌∷◌, ltb, leb, ◌==◌,
  if◌then◌else◌, filter, take,
}
use wasla_core.Base.Sort.{sort, then_by}
use wasla_core.Base.Table.{values}
use wasla_core.Eventing.Outbox.{OutboxRecord, Rows, id_of, is_dead}

pub record OutboxRevivalSelection : Type 0 where
  pub event_ids : Option (List ℕ)
  pub event_types : Option (List String)
  pub producer : Option String
  pub entity_type : Option String
  pub entity_id : Option ℕ
  pub occurred_from : Option ℕ
  pub occurred_to : Option ℕ
  pub after : Option (ℕ × ℕ)
  pub limit : ℕ

abbrev pub includes {ℓ} : {A : Type ℓ} → (A → A → Bool) → List A → A → Bool
includes eq [] x = false
includes eq (y ∷ ys) x = eq y x || includes eq ys x

-- A filter that is not given admits everything.
abbrev pub unless_given {ℓ} : {A : Type ℓ} → Option A → (A → Bool) → Bool
unless_given none p = true
unless_given (some a) p = p a

-- `isAfter`
unfoldable pub is_after : ℕ → ℕ → ℕ → ℕ → Bool
is_after primary secondary cursor_primary cursor_secondary =
    if not (primary == cursor_primary)
    then ltb cursor_primary primary
    else ltb cursor_secondary secondary

abbrev pub after_cursor : OutboxRecord → Option (ℕ × ℕ) → Bool
after_cursor r none = true
after_cursor r (some (occurred_at, event_id)) =
    is_after r.event.occurred_at (id_of r) occurred_at event_id

-- `matchesOutboxRevival`, but for its cursor.
unfoldable pub matches_filters : OutboxRevivalSelection → OutboxRecord → Bool
matches_filters selection r =
    is_dead r.status
    && unless_given selection.event_ids (λ ids. includes (λ a b. a == b) ids (id_of r))
    && unless_given selection.event_types (λ types. includes str_eq types r.event.event_type)
    && unless_given selection.producer (λ producer. str_eq r.event.producer producer)
    && unless_given selection.entity_type (λ entity_type. str_eq r.event.entity_type entity_type)
    && unless_given selection.entity_id (λ entity_id. r.event.entity_id == entity_id)
    && unless_given selection.occurred_from (λ at. leb at r.event.occurred_at)
    && unless_given selection.occurred_to (λ at. leb r.event.occurred_at at)

unfoldable pub matches_outbox_revival : OutboxRevivalSelection → OutboxRecord → Bool
unfolding matches_filters
matches_outbox_revival selection r = matches_filters selection r && after_cursor r selection.after

-- `compareRevivalPosition`
unfoldable pub compare_revival_position : OutboxRecord → OutboxRecord → Ordering
unfolding then_by
compare_revival_position a b =
    then_by (compare a.event.occurred_at b.event.occurred_at) (compare (id_of a) (id_of b))

-- `selectDead`
unfoldable pub select_dead : OutboxRevivalSelection → Rows → List OutboxRecord
unfolding is_after matches_outbox_revival compare_revival_position
select_dead selection rows =
    take selection.limit
      (sort compare_revival_position (filter (matches_outbox_revival selection) (values rows)))
