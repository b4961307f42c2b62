-- ===== src/Backend/Jobs/Create.antt =====
-- backend/routes/jobs.py: the handlers that create a job and queue it at once. The identifiers and the times
-- that the database gives are arguments.
use elastic_ops.Prelude.{
  ℕ, String, Bool, true, false, Option, none, some, List, [], ◌∷◌, ◌++◌, if◌then◌else◌,
}
use elastic_ops.Api.Jobs.{Job}
use elastic_ops.Backend.Jobs.{Answer, done, refused, ClusterRow, writable_or}
use elastic_ops.Backend.Drain.{Disk, Stored, preflight}

pub record Given : Type 0 where
  pub id : ℕ
  pub run_id : ℕ
  pub now : String

-- A row of the table with the defaults of its columns (backend/models/job.py), queued.
unfoldable pub new_job : Given → ℕ → String → String → Job
new_job given cluster_id job_type index_name = record {
  id = given.id;
  run_id = given.run_id;
  cluster_id = cluster_id;
  index_name = index_name;
  job_type = job_type;
  tier = 0;
  severity = "low";
  detail = "";
  current_shards = 0;
  target_shards = 0;
  current_replicas = 0;
  pri_store_bytes = 0;
  doc_count = 0;
  estimated_savings_shards = 0;
  status = "queued";
  approved_at = none;
  executed_at = some given.now;
  completed_at = none;
  task_id = none;
  error_message = none;
  created_at = given.now;
  progress = some "queued";
  node_name = none;
  target_index = none;
  shard_number = none;
  from_node = none;
  to_node = none;
}

unfoldable pub drain_job : Given → ℕ → String → Job
unfolding new_job
drain_job given c node = record (new_job given c "drain_node" "") { node_name = some node }

unfoldable pub promote_job : Given → ℕ → (source target alias : String) → Bool → Job
unfolding new_job
promote_job given c source target alias delete_source =
    record (new_job given c "promote_index" source) {
      node_name = some alias;
      target_index = some target;
      from_node = if delete_source then some "delete" else none;
    }

unfoldable pub reindex_job : Given → ℕ → (source dest : String) → Job
unfolding new_job
reindex_job given c source dest = record (new_job given c "reindex" source) {
  target_index = some dest;
}

unfoldable pub relocate_job : Given → ℕ → String → ℕ → (from_node to_node : String) → Job
unfolding new_job
relocate_job given c index shard from_node to_node =
    record (new_job given c "relocate_shard" index) {
      shard_number = some shard;
      from_node = some from_node;
      to_node = some to_node;
      node_name = some to_node;
    }

-- `db.add(job)`, and the job is handed to the runner.
abbrev pub added : Job → List Job → Answer
added job rows = done (rows ++ job ∷ []) (job.id ∷ []) []

-- What the preflight of a drain says, over the nodes and the shards that Elasticsearch lists.
abbrev pub if_safe : Bool × String → Answer → Answer
if_safe (true, reason) answer = answer
if_safe (false, reason) answer = refused 400 reason

unfoldable pub drain_node :
    Option ClusterRow → List Disk → List Stored → Given → ℕ → String → List Job → Answer
unfolding writable_or drain_job
drain_node cluster nodes shards given c node rows =
    writable_or cluster
      (if_safe (preflight node nodes shards) (added (drain_job given c node) rows))

unfoldable pub promote_index :
    Option ClusterRow → Given → ℕ → (source target alias : String) → Bool → List Job → Answer
unfolding writable_or promote_job
promote_index cluster given c source target alias delete_source rows =
    writable_or cluster (added (promote_job given c source target alias delete_source) rows)

unfoldable pub reindex : Option ClusterRow → Given → ℕ → (source dest : String) → List Job → Answer
unfolding writable_or reindex_job
reindex cluster given c source dest rows =
    writable_or cluster (added (reindex_job given c source dest) rows)

unfoldable pub relocate_shard :
    Option ClusterRow → Given → ℕ → String → ℕ → (from_node to_node : String) → List Job → Answer
unfolding writable_or relocate_job
relocate_shard cluster given c index shard from_node to_node rows =
    writable_or cluster (added (relocate_job given c index shard from_node to_node) rows)
