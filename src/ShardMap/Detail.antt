-- ===== src/ShardMap/Detail.antt =====
-- `ShardDetailPanel` of frontend/src/pages/ShardMap.tsx: relocating the selected shard in two steps.
-- A click on a control that is disabled or not shown does nothing. `sent` records the calls.
pub mod Laws
use text.Mathlib.Text.{◌==◌ as str_eq}
use elastic_ops.Prelude.{
  ℕ, ltb, ◌==◌, String, Bool, true, false, not, ◌&&◌, ◌||◌, Option, none, some, List, [], ◌∷◌,
  if◌then◌else◌, get_or, filter, find?, any,
}
use elastic_ops.Prelude.Text.{truthy}
use elastic_ops.Api.Client.{Result, ok, throw}
use elastic_ops.Api.Jobs.{Job}
use elastic_ops.Api.Mutation.{Mutation, idle, pending, is_pending, settled}
use elastic_ops.ShardMap.{SelectedShard}

-- The body of `useRelocateShard`.
pub record Relocation : Type 0 where
  pub index : String
  pub shard : ℕ
  pub from_node : String
  pub to_node : String

pub record State : Type 0 where
  pub shard : SelectedShard
  pub data_node_names : List String
  pub read_only : Bool
  pub target_node : String
  pub confirming : Bool
  pub relocated_job : Option ℕ
  pub relocate : Mutation
  pub sent : List Relocation

-- The panel when it opens on a shard.
unfoldable pub opened : SelectedShard → List String → Bool → State
opened shard names read_only = record {
  shard = shard;
  data_node_names = names;
  read_only = read_only;
  target_node = "";
  confirming = false;
  relocated_job = none;
  relocate = idle;
  sent = [];
}

-- `dataNodeNames.filter((n) => n !== shard.node)`
unfoldable pub other_nodes : State → List String
other_nodes s = filter (λ n. not (str_eq n s.shard.node)) s.data_node_names

-- The dependencies of the effect that clears the panel.
abbrev pub same_place : SelectedShard → SelectedShard → Bool
same_place a b = str_eq a.index b.index && a.shard == b.shard && str_eq a.node b.node

unfoldable pub show_shard : SelectedShard → State → State
show_shard shard s =
    if same_place s.shard shard
    then record s { shard = shard }
    else record s { shard = shard; relocated_job = none; target_node = ""; confirming = false }

unfoldable pub tracked_job : State → Option (List Job) → Option Job
tracked_job s jobs = elim s.relocated_job [
  | none ↦ none
  | some id ↦ find? (λ j. j.id == id) (get_or jobs [])
]

abbrev pub relocation : State → Relocation
relocation s = record {
  index = s.shard.index;
  shard = s.shard.shard;
  from_node = s.shard.node;
  to_node = s.target_node;
}

unfoldable pub handle_relocate : State → State
handle_relocate s =
    if not (truthy s.target_node)
    then s
    else record s { relocate = pending; sent = relocation s ∷ s.sent }

unfoldable pub relocate_settles : Result Job → State → State
relocate_settles (ok job) s = record s {
  relocate = settled (ok job);
  relocated_job = some job.id;
  confirming = false;
  target_node = "";
}
relocate_settles (throw f) s = record s { relocate = settled {A = Job} (throw f) }

pub data Event : Type 0 where
  shard_shown : SelectedShard → Event
  nodes_change : List String → Event
  selects_target : String → Event
  arms confirms cancels : Event
  relocate_done : Result Job → Event

abbrev when : Bool → State → State → State
when b t s = if b then t else s

-- The `<select>` offers the other nodes; "Relocate Shard" arms, "Confirm relocate?" sends.
unfoldable pub step : Event → State → State
unfolding show_shard handle_relocate relocate_settles other_nodes
step (shard_shown shard) s = show_shard shard s
step (nodes_change names) s = record s { data_node_names = names }
step (selects_target n) s =
    when (not s.read_only && not (is_pending s.relocate) && any (λ m. str_eq m n) (other_nodes s))
      (record s { target_node = n; confirming = false }) s
step arms s =
    when
      (not s.read_only
        && not s.confirming
        && not (not (truthy s.target_node) || is_pending s.relocate))
      (record s { confirming = true }) s
step confirms s =
    when (not s.read_only && s.confirming && not (is_pending s.relocate)) (handle_relocate s) s
step cancels s =
    when (not s.read_only && s.confirming && not (is_pending s.relocate))
      (record s { confirming = false }) s
step (relocate_done r) s = when (is_pending s.relocate) (relocate_settles r s) s

unfoldable pub run : List Event → State → State
run [] s = s
run (e ∷ es) s = run es (step e s)

-- The metrics that are highlighted.
unfoldable pub highlights_state : SelectedShard → Bool
highlights_state s = not (str_eq s.state "STARTED")

unfoldable pub highlights_segments : SelectedShard → Bool
highlights_segments s = ltb 10 s.segments_count
