-- ===== src/Examples/Shards.antt =====
-- The grid and the pivot on a small shard map.

use mathlib.Core.List.{Memᴰ}
use elastic_ops.Prelude.{String, Bool, true, false, List, [], ◌∷◌, ◌≡◌, ◌↔◌, refl, get_or}
use elastic_ops.Prelude.Locale.{code_points}
use elastic_ops.Api.Es.{
  ShardCell, ShardMapGrid, ShardMapRow, ShardMapColumn, PivotData, PivotNode, node, nil, cons,
  PivotTree,
}
use elastic_ops.ShardMap.{cell_shards}
use elastic_ops.ShardMap.Cells.{Group, keyed, find_group, cell_shards_by_group}
use elastic_ops.ShardMap.Pivot.{pivot_rows}
use elastic_ops.ShardMap.Pivot.Laws.{Shows, pivot_rows_iff}

abbrev cell : ShardCell
cell = record {
  shard = 0;
  prirep = "p";
  state = "STARTED";
  store = 5;
  docs = 1;
  segments_count = 1;
}

abbrev row : ShardMapRow
row = record { index = "logs"; pri_store_size = 5; health = "green" }

abbrev column : ShardMapColumn
column = record { name = "n1"; short = "n1"; tier = "hot"; disk_used_percent = 50 }

abbrev groups : List Group
groups = ("logs", "n1", cell ∷ []) ∷ []

abbrev small_grid : ShardMapGrid
small_grid = record { data_nodes = column ∷ []; indices = row ∷ []; cells = keyed groups }

cell_shards_by_group_example :
    cell_shards small_grid row column ≡ get_or (find_group "logs" "n1" groups) []
cell_shards_by_group_example =
    cell_shards_by_group small_grid row column groups refl refl (refl, tt)

abbrev data_of : String → Bool → PivotData
data_of k leaf = record {
  key = k;
  label = k;
  depth = 0;
  total_size = 5;
  total_docs = 1;
  shard_count = 1;
  index_count = 1;
  per_node = [];
  is_leaf = leaf;
}

abbrev logs : PivotNode
logs = node (data_of "logs" false) (cons (node (data_of "logs-1" true) nil) nil)

abbrev tree : PivotTree
tree = record { separator = "-"; data_nodes = []; max_cell_size = 5; roots = cons logs nil }

pivot_rows_iff_example :
    Memᴰ (data_of "logs-1" true) (pivot_rows code_points "1" ("logs" ∷ []) tree)
    ↔ Shows code_points "1" ("logs" ∷ []) (data_of "logs-1" true) tree.roots
pivot_rows_iff_example = pivot_rows_iff code_points "1" ("logs" ∷ []) tree (data_of "logs-1" true)
