-- ===== src/Users/Dialogs.antt =====
-- `EditAccessDialog` and `InviteDialog` of frontend/src/pages/Users.tsx. `sent` records the calls. The
-- browser's own validation is not modelled.
use elastic_ops.Prelude.{
  ℕ, String, Bool, true, false, Option, none, some, List, [], ◌∷◌, if◌then◌else◌,
}
use elastic_ops.Api.Json.{Json}
use elastic_ops.Api.Client.{Failure, Result, ok, throw}
use elastic_ops.Api.Mutation.{Mutation, idle, pending, is_pending, settled}
use elastic_ops.Users.{UserDetail, toggle_cluster}

-- `error` is `none` for the empty text, else `err.message`.
pub record AccessDialog : Type 0 where
  pub is_open : Bool
  pub user_id : ℕ
  pub selected_clusters : List ℕ
  pub error : Option Failure
  pub update : Mutation
  pub sent : List (ℕ × List ℕ)

unfoldable pub access_opened : UserDetail → AccessDialog
access_opened user = record {
  is_open = true;
  user_id = user.id;
  selected_clusters = user.cluster_ids;
  error = none;
  update = idle;
  sent = [];
}

pub data AccessEvent : Type 0 where
  toggles_access : ℕ → AccessEvent
  saves cancels_access : AccessEvent
  update_done : Result Json → AccessEvent

access_settles : Result Json → AccessDialog → AccessDialog
access_settles (ok j) d = record d { update = settled (ok j); is_open = false }
access_settles (throw f) d = record d { update = settled {A = Json} (throw f); error = some f }

unfoldable pub access_step : AccessEvent → AccessDialog → AccessDialog
unfolding toggle_cluster access_settles
access_step (toggles_access i) d = record d {
  selected_clusters = toggle_cluster i d.selected_clusters;
}
access_step saves d = if is_pending d.update then d else record d {
  error = none;
  update = pending;
  sent = (d.user_id, d.selected_clusters) ∷ d.sent;
}
access_step cancels_access d = record d { is_open = false }
access_step (update_done r) d = if is_pending d.update then access_settles r d else d

pub record Invitation : Type 0 where
  pub name : String
  pub email : String
  pub password : String
  pub role : String
  pub cluster_ids : List ℕ

pub record InviteDialog : Type 0 where
  pub is_open : Bool
  pub form : Invitation
  pub error : Option Failure
  pub invite : Mutation
  pub sent : List Invitation

unfoldable pub invite_opened : InviteDialog
invite_opened = record {
  is_open = true;
  form = record { name = ""; email = ""; password = ""; role = "user"; cluster_ids = [] };
  error = none;
  invite = idle;
  sent = [];
}

pub data InviteEvent : Type 0 where
  edits_name edits_email edits_password selects_role : String → InviteEvent
  toggles_invited : ℕ → InviteEvent
  invites cancels_invite : InviteEvent
  invite_done : Result Json → InviteEvent

invite_settles : Result Json → InviteDialog → InviteDialog
invite_settles (ok j) d = record d { invite = settled (ok j); is_open = false }
invite_settles (throw f) d = record d { invite = settled {A = Json} (throw f); error = some f }

unfoldable pub invite_step : InviteEvent → InviteDialog → InviteDialog
unfolding toggle_cluster invite_settles
invite_step (edits_name v) d = record d { form = record d.form { name = v } }
invite_step (edits_email v) d = record d { form = record d.form { email = v } }
invite_step (edits_password v) d = record d { form = record d.form { password = v } }
invite_step (selects_role v) d = record d { form = record d.form { role = v } }
invite_step (toggles_invited i) d = record d {
  form = record d.form { cluster_ids = toggle_cluster i d.form.cluster_ids };
}
invite_step invites d =
    if is_pending d.invite
    then d
    else record d { error = none; invite = pending; sent = d.form ∷ d.sent }
invite_step cancels_invite d = record d { is_open = false }
invite_step (invite_done r) d = if is_pending d.invite then invite_settles r d else d

unfoldable pub run_access : List AccessEvent → AccessDialog → AccessDialog
unfolding access_step
run_access [] d = d
run_access (e ∷ es) d = run_access es (access_step e d)
