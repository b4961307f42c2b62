-- ===== src/Nodes/Drain.antt =====
-- `DrainControls` of frontend/src/pages/Nodes.tsx: draining the selected node in two steps, and
-- cancelling a drain that runs. The page passes the node and its running drain job; the state of the
-- controls is kept while some node is selected. A click on a control that is disabled or not shown
-- does nothing. `sent` records the calls.
pub mod Laws
use elastic_ops.Prelude.{
  ℕ, String, Bool, true, false, not, ◌&&◌, Option, none, some, List, [], ◌∷◌, if◌then◌else◌,
  is_some,
}
use elastic_ops.Api.Json.{Json, str}
use elastic_ops.Api.Client.{Failure, Result, ok, throw, api_error}
use elastic_ops.Api.Jobs.{Job}
use elastic_ops.Api.Mutation.{Mutation, idle, pending, is_pending, settled}

pub data Call : Type 0 where
  drain_call : String → Call
  cancel_call : ℕ → Call

pub record State : Type 0 where
  pub node_name : String
  pub drain_job : Option Job
  pub confirming : Bool
  pub error : Option Json
  pub drain : Mutation
  pub cancel : Mutation
  pub sent : List Call

-- The controls when they are first shown.
unfoldable pub opened : String → Option Job → State
opened node_name drain_job = record {
  node_name = node_name;
  drain_job = drain_job;
  confirming = false;
  error = none;
  drain = idle;
  cancel = idle;
  sent = [];
}

unfoldable pub handle_drain : State → State
handle_drain s = record s { error = none; drain = pending; sent = drain_call s.node_name ∷ s.sent }

-- `err instanceof ApiError ? err.detail : "Drain failed"`
unfoldable pub drain_error : Failure → Json
drain_error (api_error status detail) = detail
drain_error _ = str "Drain failed"

unfoldable pub drain_settles : Result Json → State → State
unfolding drain_error
drain_settles (ok j) s = record s { drain = settled (ok j); confirming = false }
drain_settles (throw f) s = record s {
  drain = settled {A = Json} (throw f);
  confirming = false;
  error = some (drain_error f);
}

unfoldable pub handle_undrain : Job → State → State
handle_undrain job s = record s { cancel = pending; sent = cancel_call job.id ∷ s.sent }

pub data Event : Type 0 where
  node_shown : String → Option Job → Event
  arms confirms cancels undrains : Event
  drain_done cancel_done : Result Json → Event

-- With a running drain, only "Undrain" is shown.
unfoldable pub step : Event → State → State
unfolding handle_drain drain_settles handle_undrain
step (node_shown n job) s = record s { node_name = n; drain_job = job }
step arms s =
    if not (is_some s.drain_job) && not s.confirming
    then record s { error = none; confirming = true }
    else s
step confirms s =
    if not (is_some s.drain_job) && s.confirming && not (is_pending s.drain)
    then handle_drain s
    else s
step cancels s =
    if not (is_some s.drain_job) && s.confirming && not (is_pending s.drain)
    then record s { confirming = false }
    else s
step undrains s = elim s.drain_job [
  | none ↦ s
  | some job ↦ if is_pending s.cancel then s else handle_undrain job s
]
step (drain_done r) s = if is_pending s.drain then drain_settles r s else s
step (cancel_done r) s = if is_pending s.cancel then record s { cancel = settled r } else s

unfoldable pub run : List Event → State → State
run [] s = s
run (e ∷ es) s = run es (step e s)
