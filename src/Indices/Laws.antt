-- ===== src/Indices/Laws.antt =====
-- The filters of the index table, its totals and its detail panel.
use text.Mathlib.Text.{◌==◌ as str_eq}
use text.Mathlib.TextEquality.{eq_iff}
use text.Mathlib.TextPositions.{eq_refl}
use mathlib.Core.List.{Memᴰ}
use elastic_ops.Prelude.{
  true, false, not, none, some, List, [], ◌∷◌, ◌≡◌, ◌≢◌, ◌↔◌, ◌⊎◌, refl, arith, filter,
  find?_of_mem,
}
use elastic_ops.Prelude.Text.{starts_with}
use elastic_ops.Prelude.Order.{negate}
use elastic_ops.Prelude.Locale.{Locale}
use elastic_ops.Api.Es.{AnalyzedIndex, ShardInfo}
use elastic_ops.Indices.{Page, is_selected, filtered_indices, selected_data, shard_order, click_row}

module _ (locale : Locale) where
  -- Hiding the system indices removes exactly the rows whose name starts with a dot, and no text
  -- filter brings one back.
  pub filtered_indices_hides_system :
      (p : Page) (indices : List AnalyzedIndex)
      → filtered_indices locale (record p { show_system = false }) indices
        ≡ filter
            (λ i. not (starts_with i.name "."))
            (filtered_indices locale (record p { show_system = true }) indices)
  unfolding filtered_indices
  filtered_indices_hides_system p [] = refl
  filtered_indices_hides_system p (i ∷ is) = ground (arith, filtered_indices_hides_system p is)

-- The comparator of the shard table answers the two orders of a pair with opposite signs exactly when
-- the shard numbers differ or one of the two is a primary and the other is not. So for two replicas
-- of one shard it is no comparator, and their order is up to the engine.
pub shard_order_flip_iff :
    (a b : ShardInfo)
    → (shard_order b a ≡ negate (shard_order a b))
      ↔ ((a.shard ≢ b.shard) ⊎ (str_eq a.prirep "p" ≢ str_eq b.prirep "p"))
unfolding shard_order
shard_order_flip_iff a b = ground arith

-- The detail panel shows an index of the snapshot that has the selected name, and a click on a row
-- that is not selected opens the panel on an index of that name; a second click closes it.
pub click_row_selects :
    (idx : AnalyzedIndex) (p : Page) (indices : List AnalyzedIndex)
    → is_selected p.selected_index idx.name ≡ false
    → Memᴰ idx indices
    → ((shown : AnalyzedIndex) × (selected_data (click_row idx p) indices ≡ some shown)
        × (shown.name ≡ idx.name))
      × ((click_row idx (click_row idx p)).selected_index ≡ none)
unfolding selected_data click_row
click_row_selects idx p indices h m =
    let (shown, e, named) = find?_of_mem (λ i. str_eq i.name idx.name) m (eq_refl idx.name) in
    ((shown, rw h e, (eq_iff shown.name idx.name).0 named), rw h (rw (eq_refl idx.name)))
