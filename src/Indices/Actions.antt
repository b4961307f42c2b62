-- ===== src/Indices/Actions.antt =====
-- `IndexOperatorActions` of frontend/src/pages/Indices.tsx: the reindex and promote forms of the
-- index that the detail panel shows. The panel gives the component no key, so that another index in the panel
-- leaves the forms as they are. A click on a control that is disabled or not shown does nothing. `sent` records the calls.
pub mod Requests
use text.Mathlib.Text.{◌==◌ as str_eq}
use elastic_ops.Prelude.{String, Bool, true, false, not, ◌&&◌, ◌||◌, List, [], ◌∷◌, if◌then◌else◌}
use elastic_ops.Prelude.Text.{truthy, trim}
use elastic_ops.Api.Client.{Result, ok, throw}
use elastic_ops.Api.Jobs.{Job}
use elastic_ops.Api.Mutation.{Mutation, idle, pending, is_pending, settled}

pub data Panel : Type 0 where
  closed reindexing promoting : Panel

abbrev pub same_panel : Panel → Panel → Bool
same_panel closed closed = true
same_panel reindexing reindexing = true
same_panel promoting promoting = true
same_panel _ _ = false

pub data Call : Type 0 where
  reindex_call : (source dest : String) → Call
  promote_call : (source target alias : String) (delete_source : Bool) → Call

-- `index_name` is the property `indexName`.
pub record State : Type 0 where
  pub index_name : String
  pub panel : Panel
  pub reindex_dest : String
  pub reindex : Mutation
  pub promote_target : String
  pub promote_alias : String
  pub promote_delete : Bool
  pub promote : Mutation
  pub sent : List Call

unfoldable pub initial : String → State
initial index_name = record {
  index_name = index_name;
  panel = closed;
  reindex_dest = "";
  reindex = idle;
  promote_target = "";
  promote_alias = "";
  promote_delete = false;
  promote = idle;
  sent = [];
}

unfoldable pub open_panel : Panel → State → State
open_panel p s = record s {
  panel = if same_panel s.panel p then closed else p;
  reindex = idle;
  promote = idle;
}

-- `disabled` of "Start Reindex" and of "Promote".
abbrev pub reindex_disabled : State → Bool
reindex_disabled s = not (truthy (trim s.reindex_dest)) || is_pending s.reindex

abbrev pub promote_disabled : State → Bool
promote_disabled s =
    not (truthy (trim s.promote_target))
    || not (truthy (trim s.promote_alias))
    || is_pending s.promote

unfoldable pub handle_reindex : State → State
handle_reindex s = if not (truthy (trim s.reindex_dest)) then s else record s {
  reindex = pending;
  sent = reindex_call s.index_name (trim s.reindex_dest) ∷ s.sent;
}

unfoldable pub handle_promote : State → State
handle_promote s =
    if not (truthy (trim s.promote_target)) || not (truthy (trim s.promote_alias))
    then s
    else record s {
      promote = pending;
      sent =
          promote_call s.index_name (trim s.promote_target) (trim s.promote_alias) s.promote_delete
          ∷ s.sent;
    }

-- The callbacks of a call that has settled while its mutation is observed.
unfoldable pub reindex_settles : Result Job → State → State
reindex_settles (ok job) s = record s {
  reindex = settled (ok job);
  reindex_dest = "";
  panel = closed;
}
reindex_settles (throw f) s = record s { reindex = settled {A = Job} (throw f) }

unfoldable pub promote_settles : Result Job → State → State
promote_settles (ok job) s = record s {
  promote = settled (ok job);
  promote_target = "";
  promote_alias = "";
  promote_delete = false;
  panel = closed;
}
promote_settles (throw f) s = record s { promote = settled {A = Job} (throw f) }

-- `shows`: the detail panel turns to another index.
pub data Event : Type 0 where
  shows : String → Event
  opens : Panel → Event
  edits_dest edits_target edits_alias : String → Event
  edits_delete : Bool → Event
  starts_reindex starts_promote cancels : Event
  reindex_done promote_done : Result Job → Event

abbrev when : Bool → (State → State) → State → State
when b f s = if b then f s else s

unfoldable pub step : Event → State → State
unfolding open_panel handle_reindex handle_promote reindex_settles promote_settles
step (shows name) s = record s { index_name = name }
step (opens closed) s = s
step (opens p) s = open_panel p s
step (edits_dest v) s =
    when (same_panel s.panel reindexing && not (is_pending s.reindex))
      (λ t. record t { reindex_dest = v }) s
step (edits_target v) s =
    when (same_panel s.panel promoting && not (is_pending s.promote))
      (λ t. record t { promote_target = v }) s
step (edits_alias v) s =
    when (same_panel s.panel promoting && not (is_pending s.promote))
      (λ t. record t { promote_alias = v }) s
step (edits_delete v) s =
    when (same_panel s.panel promoting && not (is_pending s.promote))
      (λ t. record t { promote_delete = v }) s
step starts_reindex s =
    when (same_panel s.panel reindexing && not (reindex_disabled s)) handle_reindex s
step starts_promote s =
    when (same_panel s.panel promoting && not (promote_disabled s)) handle_promote s
step cancels s =
    when
      (same_panel s.panel reindexing && not (is_pending s.reindex)
        || same_panel s.panel promoting && not (is_pending s.promote))
      (λ t. record t { panel = closed }) s
step (reindex_done r) s = when (is_pending s.reindex) (reindex_settles r) s
step (promote_done r) s = when (is_pending s.promote) (promote_settles r) s

unfoldable pub run : List Event → State → State
run [] s = s
run (e ∷ es) s = run es (step e s)
