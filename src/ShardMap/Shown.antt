-- ===== src/ShardMap/Shown.antt =====
-- What frontend/src/pages/ShardMap.tsx shows beside the pivot: the footer, the head of the columns, the
-- chips of a cell and the panel of a shard with the job that relocates it. `upper` is `toUpperCase`.
use Prim.Native.String.{◌++◌}
use text.Mathlib.Text.{◌==◌ as str_eq}
use elastic_ops.Prelude.{
  ℕ, ◌+◌, ltb, String, Bool, false, not, Option, none, some, List, [], ◌∷◌, if◌then◌else◌, get_or,
  length, map,
}
use elastic_ops.Prelude.Text.{show, truthy}
use elastic_ops.Format.{format_bytes, disk_color}
use elastic_ops.Api.Jobs.{Job}
use elastic_ops.Api.Es.{
  ClusterHealth, ShardMapGrid, ShardMapColumn, ShardMapRow, ShardCell, PivotTree, Children, nil,
  cons,
}
use elastic_ops.ShardMap.{Mode, grid, pivot, NodeFilter, SelectedShard, grid_columns, cell_shards}

cluster_status : (String → String) → Option ClusterHealth → String
cluster_status upper none = "UNKNOWN"
cluster_status upper (some h) = upper h.status

roots_count : Children → ℕ
roots_count nil = 0
roots_count (cons n ns) = 1 + roots_count ns

rows_of : Mode → Option ShardMapGrid → Option PivotTree → ℕ
rows_of grid (some g) p = length g.indices
rows_of grid none p = 0
rows_of pivot g (some p) = roots_count p.roots
rows_of pivot g none = 0

columns_of : Option ShardMapGrid → ℕ
columns_of none = 0
columns_of (some g) = length g.data_nodes

abbrev in_mode : Mode → String → String → String
in_mode grid a b = a
in_mode pivot a b = b

unfoldable pub footer :
    (String → String)
    → Mode
    → Option ShardMapGrid
    → Option PivotTree
    → Option ClusterHealth
    → List String
unfolding cluster_status rows_of roots_count columns_of
footer upper m g p health =
    in_mode m "Grid Mode" "Pivot Mode"
    ∷ (show (rows_of m g p) ++ in_mode m " indices" " groups")
    ∷ (show (columns_of g) ++ " data nodes")
    ∷ ("CLUSTER: " ++ cluster_status upper health)
    ∷ []

-- The head of a column: the name, and the color and the width of the disk bar.
unfoldable pub column_head : ShardMapColumn → String × String × ℕ
unfolding disk_color
column_head n = (n.short, disk_color n.disk_used_percent, n.disk_used_percent)

unfoldable pub column_heads : NodeFilter → ShardMapGrid → List (String × String × ℕ)
unfolding grid_columns column_head
column_heads f g = map column_head (grid_columns f g)

unfoldable pub row_head : (ℕ → ℕ) → ShardMapRow → String × String
unfolding format_bytes
row_head log_floor i = (i.index, format_bytes log_floor i.pri_store_size)

-- The color and the title of a chip.
unfoldable pub chip_mark : (ℕ → ℕ) → ShardMapRow → ShardCell → String × String
unfolding format_bytes
chip_mark log_floor i s = (
  if str_eq s.prirep "p" then "bg-eo-amber" else "border border-eo-cream/60",
  i.index
      ++ "["
      ++ show s.shard
      ++ "] "
      ++ (if str_eq s.prirep "p" then "primary" else "replica")
      ++ " "
      ++ format_bytes log_floor s.store,
)

unfoldable pub chip_marks :
    (ℕ → ℕ) → ShardMapGrid → ShardMapRow → ShardMapColumn → List (String × String)
unfolding cell_shards chip_mark
chip_marks log_floor g i n = map (chip_mark log_floor i) (cell_shards g i n)

-- `ShardDetailPanel`: the head and the metrics, each with whether it stands out.
unfoldable pub panel_head : SelectedShard → String × String × String
panel_head s =
    (s.index, "Shard #" ++ show s.shard, if str_eq s.prirep "p" then "Primary" else "Replica")

unfoldable pub metrics : (ℕ → ℕ) → SelectedShard → List (String × String × Bool)
unfolding format_bytes
metrics log_floor s =
    ("State", s.state, not (str_eq s.state "STARTED"))
    ∷ ("Node", s.node, false)
    ∷ ("Size", format_bytes log_floor s.store, false)
    ∷ ("Docs", show s.docs, false)
    ∷ ("Segments", show s.segments_count, ltb 10 s.segments_count)
    ∷ []

-- The box of the tracked job: its colors, its head, and the line under it.
pub record JobBox : Type 0 where
  pub box : String
  pub head : String
  pub status : String
  pub status_color : String
  pub line : Option String

abbrev by_status : Job → String → String → String → String
by_status j executing completed rest =
    if str_eq j.status "executing"
    then executing
    else if str_eq j.status "completed"
    then completed
    else rest

progress_line : Option String → Option String
progress_line none = none
progress_line (some p) = if truthy p then some ("Relocating: " ++ p) else none

unfoldable pub job_line : Job → Option String
unfolding progress_line
job_line j =
    if str_eq j.status "executing"
    then progress_line j.progress
    else if str_eq j.status "completed"
    then some "Relocation completed."
    else if str_eq j.status "failed"
    then some (get_or j.error_message "Relocation failed.")
    else none

unfoldable pub job_box : Job → JobBox
unfolding job_line
job_box j = record {
  box =
      by_status j "bg-eo-amber/10 border-eo-amber/30" "bg-eo-sage/10 border-eo-sage/30"
        "bg-eo-brick/10 border-eo-brick/30";
  head = "Job #" ++ show j.id;
  status = j.status;
  status_color = by_status j "text-eo-amber" "text-eo-sage" "text-eo-brick";
  line = job_line j;
}
