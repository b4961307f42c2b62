-- ===== src/Api/Es.antt =====
-- frontend/src/api/es.ts: the payloads of the snapshot endpoints. Counts and sizes are natural
-- numbers; `disk_used_percent`, `heap_percent`, `load_1m` and the sizes in GB are hundredths; `data` of the role counts is `data_count`.
use elastic_ops.Prelude.{ℕ, String, Bool, Option, List}

pub record ClusterHealth : Type 0 where
  pub cluster_name : String
  pub status : String
  pub number_of_nodes : ℕ
  pub number_of_data_nodes : ℕ
  pub active_primary_shards : ℕ
  pub active_shards : ℕ
  pub relocating_shards : ℕ
  pub initializing_shards : ℕ
  pub unassigned_shards : ℕ

pub record NodeInfo : Type 0 where
  pub name : String
  pub role : String
  pub ip : String
  pub version : String
  pub disk_total : ℕ
  pub disk_used : ℕ
  pub disk_used_percent : ℕ
  pub heap_max : ℕ
  pub heap_current : ℕ
  pub heap_percent : ℕ
  pub cpu : ℕ
  pub load_1m : ℕ
  pub segments_count : ℕ

pub record IndexInfo : Type 0 where
  pub health : String
  pub status : String
  pub index : String
  pub pri : ℕ
  pub rep : ℕ
  pub docs_count : ℕ
  pub store_size : ℕ
  pub pri_store_size : ℕ

pub record ShardInfo : Type 0 where
  pub index : String
  pub shard : ℕ
  pub prirep : String
  pub state : String
  pub docs : ℕ
  pub store : ℕ
  pub node : Option String
  pub segments_count : ℕ

pub record RecoveryInfo : Type 0 where
  pub index : String
  pub shard : ℕ
  pub source_node : String
  pub target_node : String
  pub bytes_total : ℕ
  pub bytes_recovered : ℕ
  pub bytes_percent : String

pub record StorageGroup : Type 0 where
  pub name : String
  pub size_bytes : ℕ

pub record NodeRoleCounts : Type 0 where
  pub master : ℕ
  pub data_count : ℕ
  pub coord : ℕ
  pub ingest : ℕ
  pub other : ℕ

pub record OverviewData : Type 0 where
  pub health : ClusterHealth
  pub index_count : ℕ
  pub nodes : List NodeInfo
  pub recoveries : List RecoveryInfo
  pub storage_breakdown : List StorageGroup
  pub node_role_counts : NodeRoleCounts

pub record SnapshotMeta : Type 0 where
  pub fetched_at : String
  pub stale_seconds : ℕ
  pub next_poll_in : Option ℕ

pub record NodeInfoEx : Type 0 where
  pub base : NodeInfo
  pub open base use *
  pub shard_count : ℕ
  pub tier : String

pub record ShardCell : Type 0 where
  pub shard : ℕ
  pub prirep : String
  pub state : String
  pub store : ℕ
  pub docs : ℕ
  pub segments_count : ℕ

pub record ShardMapColumn : Type 0 where
  pub name : String
  pub short : String
  pub tier : String
  pub disk_used_percent : ℕ

pub record ShardMapRow : Type 0 where
  pub index : String
  pub pri_store_size : ℕ
  pub health : String

pub record ShardMapGrid : Type 0 where
  pub data_nodes : List ShardMapColumn
  pub indices : List ShardMapRow
  pub cells : List (String × (List ShardCell))

pub record PivotNodeAgg : Type 0 where
  pub node : String
  pub shard_count : ℕ
  pub size : ℕ

pub record PivotColumn : Type 0 where
  pub name : String
  pub short : String
  pub disk_used_percent : ℕ

pub record Opportunity : Type 0 where
  pub type : String
  pub severity : String
  pub detail : String
  pub wasted_shards : ℕ
  pub target_shards : ℕ

pub record AnalyzedIndex : Type 0 where
  pub name : String
  pub health : String
  pub status : String
  pub pri_count : ℕ
  pub rep_count : ℕ
  pub doc_count : ℕ
  pub pri_store_bytes : ℕ
  pub store_bytes : ℕ
  pub avg_shard_size_gb : ℕ
  pub max_shard_size_gb : ℕ
  pub max_segments_per_shard : ℕ
  pub shard_size_cv : ℕ
  pub opportunities : List Opportunity
  pub opportunity_count : ℕ
  pub wasted_shards : ℕ

pub record AnalysisData : Type 0 where
  pub total_indices : ℕ
  pub total_with_opportunities : ℕ
  pub total_wasted_shards : ℕ
  pub indices : List AnalyzedIndex

pub record ClusterSettings : Type 0 where
  pub persistent : List (String × String)
  pub transient : List (String × String)
  pub defaults : List (String × String)

pub record UnassignedShard : Type 0 where
  pub index : String
  pub shard : ℕ
  pub prirep : String
  pub state : String
  pub reason : Option String
  pub at : Option String
  pub for : Option String
  pub details : Option String

pub record RebalanceSuggestion : Type 0 where
  pub index : String
  pub shard : ℕ
  pub from_node : String
  pub to_node : String
  pub size_bytes : ℕ

-- The envelope of every read: `data` is the payload.
pub record Cached (T : Type 0) : Type 0 where
  pub payload : T
  pub fetched_at : String
  pub stale_seconds : ℕ
  pub next_poll_in : Option ℕ

-- `pickMeta`
unfoldable pub pick_meta : {T : Type 0} → Cached T → SnapshotMeta
pick_meta r = record {
  fetched_at = r.fetched_at;
  stale_seconds = r.stale_seconds;
  next_poll_in = r.next_poll_in;
}

-- A node of the pivot tree. Its fields beside the children stand in a record.
pub record PivotData : Type 0 where
  pub key : String
  pub label : String
  pub depth : ℕ
  pub total_size : ℕ
  pub total_docs : ℕ
  pub shard_count : ℕ
  pub index_count : ℕ
  pub per_node : List PivotNodeAgg
  pub is_leaf : Bool

mutual
  pub data PivotNode : Type 0 where
    node : PivotData → Children → PivotNode

  pub data Children : Type 0 where
    nil : Children
    cons : PivotNode → Children → Children

pub record PivotTree : Type 0 where
  pub separator : String
  pub data_nodes : List PivotColumn
  pub max_cell_size : ℕ
  pub roots : Children
