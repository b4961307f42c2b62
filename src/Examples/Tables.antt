-- ===== src/Examples/Tables.antt =====
-- The index table on a small snapshot.

use elastic_ops.Prelude.{ℕ, String, true, false, none, List, [], ◌∷◌, ◌≡◌, filter}
use elastic_ops.Prelude.Locale.{code_points}
use elastic_ops.Api.Es.{AnalyzedIndex}
use elastic_ops.Table.{desc}
use elastic_ops.Indices
use elastic_ops.Indices.{
  name, size, filtered_indices, sorted_indices, compare_by, click_row, selected_data, shard_order,
  click_header,
}
use elastic_ops.Indices.Sorted.{passes, InOrder, level, sorted_indices-InOrder}
use mathlib.Core.List.{Perm}

abbrev index_of : String → ℕ → AnalyzedIndex
index_of n bytes = record {
  name = n;
  health = "green";
  status = "open";
  pri_count = 1;
  rep_count = 1;
  doc_count = 4;
  pri_store_bytes = bytes;
  store_bytes = bytes;
  avg_shard_size_gb = 0;
  max_shard_size_gb = 0;
  max_segments_per_shard = 1;
  shard_size_cv = 0;
  opportunities = [];
  opportunity_count = 0;
  wasted_shards = 0;
}

abbrev snapshot : List AnalyzedIndex
snapshot = index_of "b" 2 ∷ index_of ".sys" 9 ∷ index_of "a" 2 ∷ []

abbrev by_size : Indices.Page
by_size = record {
  selected_index = none;
  filter_text = "";
  show_system = true;
  problems_only = false;
  sorting = record { key = size; dir = desc };
}

sorted_indices-InOrder_example :
    Perm
      (sorted_indices code_points by_size snapshot)
      (filter (passes code_points by_size) snapshot)
    × InOrder code_points desc size (sorted_indices code_points by_size snapshot)
    × ((a : AnalyzedIndex)
        → filter (level code_points size a) (sorted_indices code_points by_size snapshot)
          ≡ filter (level code_points size a) (filter (passes code_points by_size) snapshot))
sorted_indices-InOrder_example = sorted_indices-InOrder code_points by_size snapshot
