-- ===== src/Api/Jobs.antt =====
-- frontend/src/api/jobs.ts: the payloads of the job endpoints.
use elastic_ops.Prelude.{ℕ, String, Option}

pub record Job : Type 0 where
  pub id : ℕ
  pub run_id : ℕ
  pub cluster_id : ℕ
  pub index_name : String
  pub job_type : String
  pub tier : ℕ
  pub severity : String
  pub detail : String
  pub current_shards : ℕ
  pub target_shards : ℕ
  pub current_replicas : ℕ
  pub pri_store_bytes : ℕ
  pub doc_count : ℕ
  pub estimated_savings_shards : ℕ
  pub status : String
  pub approved_at : Option String
  pub executed_at : Option String
  pub completed_at : Option String
  pub task_id : Option String
  pub error_message : Option String
  pub created_at : String
  pub progress : Option String
  pub node_name : Option String
  pub target_index : Option String
  pub shard_number : Option ℕ
  pub from_node : Option String
  pub to_node : Option String

pub record JobSummary : Type 0 where
  pub total : ℕ
  pub pending : ℕ
  pub approved : ℕ
  pub queued : ℕ
  pub executing : ℕ
  pub completed : ℕ
  pub failed : ℕ
  pub cancelled : ℕ
  pub rejected : ℕ

pub record ExecuteAllResult : Type 0 where
  pub queued : ℕ
  pub skipped : ℕ

pub record JobConcurrency : Type 0 where
  pub max_concurrent : ℕ
