-- ===== src/ShardMap.antt =====
-- frontend/src/pages/ShardMap.tsx: the shard map page and its grid. The pivot, the detail panel and
-- the rebalance panel are children. Row virtualisation (react-virtual) only picks which rows are
-- mounted, and is left out.
pub mod Cells
pub mod Pivot
pub mod Detail
pub mod Rebalance
pub mod Shown
use Prim.Native.String.{◌++◌}
use text.Mathlib.Text.{◌==◌ as str_eq}
use elastic_ops.Prelude.{
  ℕ, ◌+◌, ◌*◌, ltb, String, Bool, true, false, not, ◌&&◌, Option, none, some, List, [], ◌∷◌, map,
  if◌then◌else◌, get_or, filter, length,
}
use elastic_ops.Prelude.Text.{truthy, includes}
use elastic_ops.Prelude.Locale.{Locale}
use elastic_ops.Api.Clusters.{Cluster}
use elastic_ops.Api.Es.{
  ShardCell, ShardMapColumn, ShardMapRow, ShardMapGrid, PivotTree, RebalanceSuggestion, Children,
}

pub data Mode : Type 0 where
  grid pivot : Mode

pub data NodeFilter : Type 0 where
  all hot warm : NodeFilter

pub record SelectedShard : Type 0 where
  pub index : String
  pub shard : ℕ
  pub prirep : String
  pub node : String
  pub state : String
  pub store : ℕ
  pub docs : ℕ
  pub segments_count : ℕ

abbrev pub node_col_width : ℕ
node_col_width = 100

abbrev pub index_col_width : ℕ
index_col_width = 280

abbrev pub in_tier : NodeFilter → ShardMapColumn → Bool
in_tier hot n = str_eq n.tier "hot"
in_tier warm n = str_eq n.tier "warm"
in_tier all n = true

unfoldable pub grid_columns : NodeFilter → ShardMapGrid → List ShardMapColumn
grid_columns f g = filter (in_tier f) g.data_nodes

unfoldable pub grid_rows : Locale → String → ShardMapGrid → List ShardMapRow
grid_rows locale text g =
    let f = locale.lower text in
    if truthy f then filter (λ i. includes (locale.lower i.index) f) g.indices else g.indices

unfoldable pub total_width : NodeFilter → ShardMapGrid → ℕ
unfolding grid_columns
total_width f g = index_col_width + length (grid_columns f g) * node_col_width

unfoldable pub cell_key : String → String → String
cell_key index node = index ++ " " ++ node

find_cell : String → List (String × List ShardCell) → Option (List ShardCell)
find_cell k [] = none
find_cell k ((j, c) ∷ rest) = if str_eq j k then some c else find_cell k rest

-- `grid.cells[`${idx.index} ${node.name}`] ?? []`
unfoldable pub cell_shards : ShardMapGrid → ShardMapRow → ShardMapColumn → List ShardCell
unfolding cell_key find_cell
cell_shards g idx node = get_or (find_cell (cell_key idx.index node.name) g.cells) []

-- A click on a chip.
unfoldable pub select_chip : ShardMapRow → ShardMapColumn → ShardCell → SelectedShard
select_chip idx node s = record {
  index = idx.index;
  shard = s.shard;
  prirep = s.prirep;
  node = node.name;
  state = s.state;
  store = s.store;
  docs = s.docs;
  segments_count = s.segments_count;
}

unfoldable pub chips : ShardMapGrid → ShardMapRow → ShardMapColumn → List SelectedShard
unfolding cell_shards select_chip
chips g idx node = map (select_chip idx node) (cell_shards g idx node)

-- What the page shows: the view of the mode, and whether the rebalance panel is under it.
pub data Content : Type 0 where
  select_a_cluster : Content
  query_error pending : Mode → Content
  grid_mode : ShardMapGrid → Content
  pivot_mode : PivotTree → Content

-- `gridError` and `pivotError` are `isError` of the two queries.
unfoldable pub content :
    Option Cluster → Mode → Option ShardMapGrid → Bool → Option PivotTree → Bool → Content
content none m g grid_error p pivot_error = select_a_cluster
content (some c) grid (some g) grid_error p pivot_error = grid_mode g
content (some c) grid none grid_error p pivot_error =
    if grid_error then query_error grid else pending grid
content (some c) pivot g grid_error (some p) pivot_error = pivot_mode p
content (some c) pivot g grid_error none pivot_error =
    if pivot_error then query_error pivot else pending pivot

-- `read_only` is undefined on a cluster of an old backend, which counts as false.
abbrev pub read_only : Cluster → Bool
read_only c = get_or c.read_only false

unfoldable pub shows_rebalance : Cluster → List RebalanceSuggestion → Bool
shows_rebalance c suggestions = not (read_only c) && ltb 0 (length suggestions)

pub record Page : Type 0 where
  pub mode : Mode
  pub filter_text : String
  pub node_filter : NodeFilter
  pub selected_shard : Option SelectedShard

unfoldable pub initial : Page
initial = record { mode = grid; filter_text = ""; node_filter = all; selected_shard = none }

pub data Event : Type 0 where
  sets_mode : Mode → Event
  edits_filter : String → Event
  selects_nodes : NodeFilter → Event
  clicks_chip : ShardMapRow → ShardMapColumn → ShardCell → Event
  closes_panel : Event

-- The tier filter is offered in grid mode only, and so are the chips.
unfoldable pub step : Event → Page → Page
unfolding select_chip
step (sets_mode m) p = record p { mode = m }
step (edits_filter v) p = record p { filter_text = v }
step (selects_nodes f) p = elim p.mode [ grid ↦ record p { node_filter = f } | pivot ↦ p ]
step (clicks_chip idx node s) p = elim p.mode [
  | grid ↦ record p { selected_shard = some (select_chip idx node s) }
  | pivot ↦ p
]
step closes_panel p = record p { selected_shard = none }
