-- ===== src/Nodes/Shown.antt =====
-- What frontend/src/pages/Nodes.tsx shows beside the table: the cards of the roles, and the panel of the
-- selected node. `tie_up` decides the decimal ties of `toFixed(1)`.
use Prim.Native.String.{◌++◌}
use text.Mathlib.Text.{◌==◌ as str_eq}
use elastic_ops.Prelude.{
  ℕ, ltb, String, Bool, false, not, Option, none, some, List, [], ◌∷◌, if◌then◌else◌, get_or,
  length, map, min,
}
use elastic_ops.Prelude.Text.{show}
use elastic_ops.Format.{format_bytes, format_percent, disk_color}
use elastic_ops.Api.Clusters.{Cluster}
use elastic_ops.Api.Jobs.{Job}
use elastic_ops.Api.Es.{NodeInfoEx, ShardInfo}
use elastic_ops.Nodes.{master_nodes, data_nodes, coord_nodes, top_shards, drain_job}

-- What the page shows: `!activeCluster`, `!nodes && nodesError`, else the table.
pub data Content : Type 0 where
  select_a_cluster query_error : Content
  table : List NodeInfoEx → Content

unfoldable pub content : Option Cluster → Option (List NodeInfoEx) → Bool → Content
content none nodes is_error = select_a_cluster
content (some c) none is_error = if is_error then query_error else table []
content (some c) (some nodes) is_error = table nodes

unfoldable pub role_cards : List NodeInfoEx → List (String × ℕ)
unfolding master_nodes data_nodes coord_nodes
role_cards nodes =
    ("Master Nodes", length (master_nodes nodes))
    ∷ ("Data Nodes", length (data_nodes nodes))
    ∷ ("Coordinator Nodes", length (coord_nodes nodes))
    ∷ []

-- `DetailMetric`, with the width and the color of its bar.
pub record Metric : Type 0 where
  pub label : String
  pub text : String
  pub sub : String
  pub bar : Option (ℕ × String)

module _ (tie_up : ℕ → ℕ → Bool) (log_floor : ℕ → ℕ) where
  unfoldable pub detail_metrics : NodeInfoEx → List ShardInfo → List Metric
  unfolding format_percent format_bytes disk_color
  detail_metrics n shards =
      record {
        label = "Disk Usage";
        text = format_percent tie_up n.disk_used_percent;
        sub = format_bytes log_floor n.disk_used ++ " / " ++ format_bytes log_floor n.disk_total;
        bar = some (min n.disk_used_percent 10000, disk_color n.disk_used_percent);
      }
      ∷ record {
        label = "Heap Usage";
        text = format_percent tie_up n.heap_percent;
        sub = format_bytes log_floor n.heap_current ++ " / " ++ format_bytes log_floor n.heap_max;
        bar = some (min n.heap_percent 10000, "bg-eo-amber");
      }
      ∷ record { label = "Shards"; text = show (length shards); sub = "on this node"; bar = none }
      ∷ record { label = "Segments"; text = show n.segments_count; sub = "total"; bar = none }
      ∷ []

pub record ShardRow : Type 0 where
  pub index : String
  pub shard : String
  pub role : String
  pub segments : String
  pub segments_class : String
  pub size : String

unfoldable pub shard_row : (ℕ → ℕ) → ShardInfo → ShardRow
unfolding format_bytes
shard_row log_floor s = record {
  index = s.index;
  shard = show s.shard;
  role = if str_eq s.prirep "p" then "P" else "R";
  segments = show s.segments_count;
  segments_class = if ltb 10 s.segments_count then "text-eo-terracotta" else "";
  size = format_bytes log_floor s.store;
}

unfoldable pub shard_rows : (ℕ → ℕ) → List ShardInfo → List ShardRow
unfolding top_shards shard_row
shard_rows log_floor shards = map (shard_row log_floor) (top_shards shards)

-- The drain controls of the selected node, with the drain that runs on it: none on a read-only cluster.
unfoldable pub drain_controls :
    Cluster → NodeInfoEx → Option (List Job) → Option (String × Option Job)
unfolding drain_job
drain_controls c n jobs =
    if not (get_or c.read_only false) then some (n.name, drain_job n.name jobs) else none
