-- ===== src/Examples/Bars.antt =====
-- The sidebar, the top bar and a row of the users on concrete inputs.
use elastic_ops.Prelude.{arith, ℕ, true, false, none, some, List, [], ◌∷◌, ◌≡◌}
use elastic_ops.Api.Mutation.{idle}
use elastic_ops.Clusters.Sidebar
use elastic_ops.Clusters.Sidebar.Laws.{Deletes, step-Deletes}
use elastic_ops.TopBar.Header
use elastic_ops.Users.{UserDetail, toggles}
use elastic_ops.Users.Row
use elastic_ops.Users.Selection.{selected_of, toggle, toggle_all, IsOnce, clicks_on_sets}
use elastic_ops.Users.Row.Laws.{RowSends, step-RowSends}
use elastic_ops.Examples.Pages.{cluster, clusters, context}

abbrev sidebar : Sidebar.Sidebar
sidebar = record {
  manual_collapsed = false;
  auto_collapse = false;
  is_admin = true;
  clusters = clusters;
  at_click = [];
  selector = record {
    context = context;
    dialog_open = false;
    editing = false;
    delete = idle;
    removed_id = 0;
    sent = [];
  };
}

step-Deletes_example :
    Deletes sidebar
      (Sidebar.removes true)
      (Sidebar.step (Sidebar.removes true) sidebar).selector.sent
step-Deletes_example = step-Deletes (Sidebar.removes true) sidebar

abbrev bar : Header.State
bar = record {
  now = 0;
  context = context;
  cluster = some (cluster 1);
  health = none;
  meta = some (record { fetched_at = ""; stale_seconds = 0; next_poll_in = none });
  refresh = idle;
  sent = 0;
  path = none;
}

abbrev user : UserDetail
user = record {
  base = record { id = 2; email = "u@x"; name = "u"; role = "user"; is_active = true };
  cluster_ids = 1 ∷ [];
  created_at = "-";
}

abbrev row : Row.Row
row = Row.mounted none user

step-RowSends_example : RowSends row Row.sets_active (Row.step Row.sets_active row).sent
step-RowSends_example = step-RowSends Row.sets_active row

abbrev pressed : List ℕ
pressed = 2 ∷ 1 ∷ 2 ∷ []

once : IsOnce (1 ∷ [])
once i = ground arith

clicks_on_sets_example :
    IsOnce (toggles pressed (1 ∷ []))
    × (selected_of (toggles pressed (1 ∷ [])) ≡ toggle_all pressed (selected_of (1 ∷ [])))
    × (toggle 1 (toggle 2 (selected_of (1 ∷ []))) ≡ toggle 2 (toggle 1 (selected_of (1 ∷ []))))
    × (toggle 1 (toggle 1 (selected_of (toggles pressed (1 ∷ []))))
        ≡ selected_of (toggles pressed (1 ∷ [])))
clicks_on_sets_example = clicks_on_sets pressed (1 ∷ []) 1 2 (selected_of (1 ∷ [])) once
