-- ===== src/Examples/Forms.antt =====
-- The forms of the index actions and of the relocation on concrete events.
use elastic_ops.Prelude.{String, true, false, none, some, List, [], ◌∷◌, ◌≡◌, ◌+◌, ◌≤◌, length, All}
use elastic_ops.Api.Client.{throw, error}
use elastic_ops.Api.Jobs.{Job}
use elastic_ops.Api.Es.{RebalanceSuggestion}
use elastic_ops.ShardMap.{SelectedShard}
use elastic_ops.ShardMap.Detail
use elastic_ops.ShardMap.Detail.{opened, selects_target, arms, confirms, shard_shown, relocate_done}
use elastic_ops.ShardMap.Detail.Laws.{Moves, relocations_sound, read_only_sends_nothing}
use elastic_ops.ShardMap.Rebalance
use elastic_ops.ShardMap.Rebalance.{clicks, settles, settlements, in_flight, one_in_flight}
use elastic_ops.Indices.Actions.{
  State, shows, reindexing, opens, edits_dest, starts_reindex, run, initial, step,
}
use elastic_ops.Indices.Actions.Requests.{ActionSends, step-ActionSends}

abbrev filled : State
filled = run (opens reindexing ∷ edits_dest " new " ∷ shows "old" ∷ []) (initial "logs")

step-ActionSends_example : ActionSends filled starts_reindex (step starts_reindex filled).sent
step-ActionSends_example = step-ActionSends starts_reindex filled

abbrev first_shard : SelectedShard
first_shard = record {
  index = "logs";
  shard = 0;
  prirep = "p";
  node = "n1";
  state = "STARTED";
  store = 10;
  docs = 1;
  segments_count = 1;
}

abbrev nodes : List String
nodes = "n1" ∷ "n2" ∷ []

abbrev relocates : List Detail.Event
relocates = selects_target "n2" ∷ arms ∷ confirms ∷ []

relocations_sound_example : All Moves (Detail.run relocates (opened first_shard nodes false)).sent
relocations_sound_example = relocations_sound first_shard nodes false relocates

read_only_sends_nothing_example : (Detail.run relocates (opened first_shard nodes true)).sent ≡ []
read_only_sends_nothing_example = read_only_sends_nothing first_shard nodes relocates

abbrev pub job : Job
job = record {
  id = 7;
  run_id = 1;
  cluster_id = 1;
  index_name = "logs";
  job_type = "relocate";
  tier = 1;
  severity = "low";
  detail = "";
  current_shards = 1;
  target_shards = 1;
  current_replicas = 0;
  pri_store_bytes = 10;
  doc_count = 1;
  estimated_savings_shards = 0;
  status = "executing";
  approved_at = none;
  executed_at = none;
  completed_at = none;
  task_id = none;
  error_message = none;
  created_at = "";
  progress = none;
  node_name = none;
  target_index = none;
  shard_number = some 0;
  from_node = some "n1";
  to_node = some "n2";
}

abbrev suggestion : RebalanceSuggestion
suggestion = record { index = "logs"; shard = 0; from_node = "n1"; to_node = "n2"; size_bytes = 10 }

abbrev clicks_twice : List Rebalance.Event
clicks_twice = clicks suggestion ∷ clicks suggestion ∷ settles (throw (error "-")) ∷ []

one_in_flight_example :
    (length (Rebalance.run clicks_twice Rebalance.initial).sent
      ≡ settlements clicks_twice Rebalance.initial
        + in_flight (Rebalance.run clicks_twice Rebalance.initial))
    × (in_flight (Rebalance.run clicks_twice Rebalance.initial) ≤ 1)
one_in_flight_example = one_in_flight clicks_twice
