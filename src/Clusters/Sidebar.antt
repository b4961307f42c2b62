-- ===== src/Clusters/Sidebar.antt =====
-- `ClusterSelector` of frontend/src/components/layout/Sidebar.tsx as a step function on events, with the
-- toggle of the sidebar (layout/AppLayout.tsx). The dialog is a child; here it is the cluster that it is
-- shown for. An event on a control that is disabled or not shown leaves the state as it is.
pub mod Laws
use elastic_ops.Prelude.{
  ℕ, Bool, false, not, ◌&&◌, ◌||◌, Option, none, List, [], ◌∷◌, if◌then◌else◌, is_some,
}
use elastic_ops.Api.Json.{Json}
use elastic_ops.Api.Client.{Result}
use elastic_ops.Api.Clusters.{Cluster}
use elastic_ops.Api.Mutation.{is_pending}
use elastic_ops.Clusters.{
  Selector, open_add, open_edit, handle_remove, remove_settles, set_active_cluster_id,
  active_cluster,
}

pub record Sidebar : Type 0 where
  pub manual_collapsed : Bool
  pub auto_collapse : Bool
  pub is_admin : Bool
  pub clusters : List Cluster
  pub at_click : List Cluster
  pub selector : Selector

-- `autoCollapse || manualCollapsed`
abbrev pub collapsed : Sidebar → Bool
collapsed s = s.auto_collapse || s.manual_collapsed

abbrev pub active : Sidebar → Option Cluster
active s = active_cluster s.selector.context.active_id s.clusters

-- `editing ? activeCluster : null`, where the dialog is open
unfoldable pub dialog_cluster : Sidebar → Option Cluster
dialog_cluster s = if s.selector.editing then active s else none

-- The edit and the remove button are shown.
abbrev pub shows_edit : Sidebar → Bool
shows_edit s = not (collapsed s) && is_some (active s) && s.is_admin

pub data Event : Type 0 where
  toggles adds edits closes : Event
  chooses : ℕ → Event
  removes : (confirmed : Bool) → Event
  delete_done : Result Json → Event
  clusters_arrive : List Cluster → Event

unfoldable pub step : Event → Sidebar → Sidebar
unfolding open_add open_edit handle_remove remove_settles
step toggles s = record s { manual_collapsed = not s.manual_collapsed }
step adds s = record s { selector = open_add s.selector }
step edits s = if shows_edit s then record s { selector = open_edit s.selector } else s
step closes s = record s { selector = record s.selector { dialog_open = false } }
step (chooses n) s =
    if not (collapsed s)
    then record s {
      selector = record s.selector { context = set_active_cluster_id n s.selector.context };
    }
    else s
step (removes confirmed) s =
    if shows_edit s && not (is_pending s.selector.delete)
    then record s {
      at_click = s.clusters;
      selector = handle_remove (active s) confirmed s.is_admin s.selector;
    }
    else s
step (delete_done r) s =
    if is_pending s.selector.delete
    then record s { selector = remove_settles s.at_click r s.selector }
    else s
step (clusters_arrive l) s = record s { clusters = l }

unfoldable pub run : List Event → Sidebar → Sidebar
unfolding step
run [] s = s
run (e ∷ es) s = run es (step e s)
