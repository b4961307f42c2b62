-- ===== src/Examples/Drains.antt =====
-- The node page and the overview on concrete inputs.
use elastic_ops.Prelude.{ℕ, String, Option, none, some, List, [], ◌∷◌}
use elastic_ops.Api.Es.{NodeInfo, NodeInfoEx, OverviewData}
use elastic_ops.Table.{desc}
use elastic_ops.Nodes
use elastic_ops.Nodes.{disk, filtered_nodes, sorted_nodes, compare_by, disk_bar_color}
use elastic_ops.Nodes.Drain
use elastic_ops.Nodes.Drain.{opened, arms, confirms, node_shown, run, step, drain_call}
use elastic_ops.Nodes.Drain.Laws.{Sends, step-Sends}

abbrev controls : Drain.State
controls = opened "n1" none

abbrev armed : Drain.State
armed = run (arms ∷ []) controls

step-Sends_example : Sends armed confirms (step confirms armed).sent
step-Sends_example = step-Sends confirms armed

abbrev node_of : String → ℕ → NodeInfo
node_of n percent = record {
  name = n;
  role = "d";
  ip = "10.0.0.1";
  version = "8";
  disk_total = 10;
  disk_used = 5;
  disk_used_percent = percent;
  heap_max = 4;
  heap_current = 2;
  heap_percent = 5000;
  cpu = 1;
  load_1m = 1;
  segments_count = 1;
}

abbrev extended : NodeInfo → NodeInfoEx
extended n = record { base = n; shard_count = 1; tier = "hot" }

abbrev page : Nodes.Page
page = record {
  selected_node = none;
  filter_text = "";
  role_filter = "hot";
  sorting = record { key = disk; dir = desc };
}

abbrev nodes : Option (List NodeInfoEx)
nodes = some (extended (node_of "a" 50) ∷ extended (node_of "b" 90) ∷ [])

abbrev overview : OverviewData
overview = record {
  health = record {
    cluster_name = "c";
    status = "green";
    number_of_nodes = 3;
    number_of_data_nodes = 3;
    active_primary_shards = 1;
    active_shards = 1;
    relocating_shards = 0;
    initializing_shards = 0;
    unassigned_shards = 0;
  };
  index_count = 1;
  nodes = node_of "a" 10 ∷ node_of "b" 30 ∷ node_of "c" 20 ∷ [];
  recoveries = [];
  storage_breakdown = [];
  node_role_counts = record { master = 1; data_count = 3; coord = 0; ingest = 0; other = 0 };
}
