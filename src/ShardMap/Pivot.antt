-- ===== src/ShardMap/Pivot.antt =====
-- `nodeMatchesFilter`, `PivotMode` and `PivotRow` of frontend/src/pages/ShardMap.tsx.
pub mod Laws
use text.Mathlib.Text.{◌==◌ as str_eq}
use elastic_ops.Prelude.{
  ℕ, ◌+◌, ◌*◌, ◌/◌, ltb, leb, String, Bool, true, false, not, ◌&&◌, ◌||◌, Option, none, some, List,
  [], ◌∷◌, ◌++◌, if◌then◌else◌, get_or, length,
}
use elastic_ops.Prelude.Text.{truthy, includes}
use elastic_ops.Prelude.Locale.{Locale}
use elastic_ops.Api.Es.{
  PivotData, PivotNode, node, Children, nil, cons, PivotNodeAgg, PivotColumn, PivotTree,
}

module _ (locale : Locale) (f : String) where
  unfoldable mutual
    pub node_matches : PivotNode → Bool
    node_matches (node d children) =
        let below = children_match children in
        if not (truthy f) then true else if includes (locale.lower d.key) f then true else below

    -- `node.children.some(…)`
    pub children_match : Children → Bool
    children_match nil = false
    children_match (cons c cs) = node_matches c || children_match cs

  -- `filter ? children.filter(…) : children`, for one child.
  abbrev pub is_visible : PivotNode → Bool
  is_visible c = if truthy f then node_matches c else true

-- The set of expanded keys.
pub has : String → List String → Bool
has k [] = false
has k (j ∷ js) = str_eq j k || has k js

delete : String → List String → List String
delete k [] = []
delete k (j ∷ js) = if str_eq j k then delete k js else j ∷ delete k js

unfoldable pub toggle : String → List String → List String
unfolding has delete
toggle k expanded = if has k expanded then delete k expanded else k ∷ expanded

-- A click on a label: a leaf does nothing.
unfoldable pub click_label : PivotNode → List String → List String
click_label (node d nil) expanded = expanded
click_label (node d (cons c cs)) expanded = toggle d.key expanded

-- The rows from top to bottom.
module _ (locale : Locale) (f : String) (expanded : List String) where
  unfoldable mutual
    pub rows_of : PivotNode → List PivotData
    rows_of (node d children) =
        let below = rows_below children in d ∷ (if has d.key expanded then below else [])

    pub rows_below : Children → List PivotData
    rows_below nil = []
    rows_below (cons c cs) = (if is_visible locale f c then rows_of c else []) ++ rows_below cs

unfoldable pub pivot_rows : Locale → String → List String → PivotTree → List PivotData
pivot_rows locale filter_text expanded tree =
    rows_below locale (locale.lower filter_text) expanded tree.roots

-- `new Map(…)` filled in order, then `perNode.get(col.name)`: the last aggregate of a node counts.
unfoldable pub agg_of : String → List PivotNodeAgg → Option PivotNodeAgg
agg_of name [] = none
agg_of name (a ∷ rest) = elim (agg_of name rest) [
  | some b ↦ some b
  | none ↦ if str_eq a.node name then some a else none
]

unfoldable pub cell_size : PivotData → PivotColumn → ℕ
unfolding agg_of
cell_size d col = elim (agg_of col.name d.per_node) [ none ↦ 0 | some a ↦ a.size ]

-- `Math.max(0.08, intensity * 0.6)` as a fraction, for `size > 0`; the intensity is 0 where the
-- tree's largest cell is 0.
unfoldable pub opacity : ℕ → ℕ → ℕ × ℕ
opacity max_cell_size size =
    if ltb 0 max_cell_size && ltb (8 * max_cell_size) (60 * size)
    then (60 * size, 100 * max_cell_size)
    else (8, 100)

abbrev label_width : ℕ
label_width = 340

unfoldable pub total_width : PivotTree → ℕ
total_width tree = label_width + length tree.data_nodes * 100
