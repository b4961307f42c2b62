-- ===== src/Users/Row.antt =====
-- `UserRow` and the page of frontend/src/pages/Users.tsx: the cells of a row, its three buttons with their
-- calls, and the dialogs that the page mounts. A click on a control that is disabled or not shown does
-- nothing. `sent` records the calls of the two buttons, and the dialog keeps its own. `local_date` is `toLocaleDateString`.
pub mod Laws
use text.Mathlib.Text.{◌==◌ as str_eq}
use elastic_ops.Prelude.{
  ℕ, ltb, ◌+◌, String, Bool, true, false, not, ◌&&◌, Option, none, some, List, [], ◌∷◌,
  if◌then◌else◌, length, is_some,
}
use elastic_ops.Api.Json.{Json}
use elastic_ops.Api.Client.{Result}
use elastic_ops.Api.Mutation.{Mutation, idle, pending, is_pending, settled}
use elastic_ops.Session.{UserInfo}
use elastic_ops.Users.{UserDetail, Named, cluster_names, is_self}
use elastic_ops.Users.Dialogs.{
  AccessDialog, AccessEvent, access_opened, access_step, InviteDialog, InviteEvent, invite_opened,
  invite_step,
}

-- What the column of the clusters shows.
pub data Access : Type 0 where
  all_clusters no_clusters : Access
  named : List String → Access

abbrev of_names : List String → Access
of_names [] = no_clusters
of_names (n ∷ ns) = named (n ∷ ns)

pub record Cells : Type 0 where
  pub dimmed : Bool
  pub name : String
  pub email : String
  pub role : String
  pub role_class : String
  pub status : String
  pub status_class : String
  pub access : Access
  pub created : String

abbrev is_admin_role : UserDetail → Bool
is_admin_role user = str_eq user.role "admin"

unfoldable pub cells : (String → String) → List Named → UserDetail → Cells
unfolding cluster_names
cells local_date clusters user = record {
  dimmed = not user.is_active;
  name = user.name;
  email = user.email;
  role = user.role;
  role_class =
      if is_admin_role user then "bg-eo-amber/20 text-eo-amber" else "bg-eo-muted/20 text-eo-stone";
  status = if user.is_active then "active" else "inactive";
  status_class =
      if user.is_active then "bg-eo-sage/20 text-eo-sage" else "bg-eo-brick/20 text-eo-brick";
  access = if is_admin_role user then all_clusters else of_names (cluster_names clusters user);
  created = local_date user.created_at;
}

pub data Call : Type 0 where
  set_active_call : (user_id : ℕ) (is_active : Bool) → Call
  delete_call : (user_id : ℕ) → Call

-- `dialog` is the access dialog while it is mounted.
pub record Row : Type 0 where
  pub user : UserDetail
  pub current_user : Option UserInfo
  pub dialog : Option AccessDialog
  pub set_active : Mutation
  pub delete_user : Mutation
  pub sent : List Call

unfoldable pub mounted : Option UserInfo → UserDetail → Row
mounted me user = record {
  user = user;
  current_user = me;
  dialog = none;
  set_active = idle;
  delete_user = idle;
  sent = [];
}

pub data Event : Type 0 where
  edits_access sets_active deletes : Event
  in_dialog : AccessEvent → Event
  active_done delete_done : Result Json → Event
  user_arrives : UserDetail → Event

-- The dialog closes itself through `onClose`, which unmounts it.
while_open : AccessDialog → Option AccessDialog
while_open d = if d.is_open then some d else none

dialog_shown : UserDetail → Option AccessDialog → AccessDialog
unfolding access_opened
dialog_shown user none = access_opened user
dialog_shown user (some d) = d

in_open : AccessEvent → Option AccessDialog → Option AccessDialog
unfolding while_open access_step
in_open e none = none
in_open e (some d) = while_open (access_step e d)

unfoldable pub step : Event → Row → Row
unfolding dialog_shown in_open
step edits_access s =
    if not (is_admin_role s.user)
    then record s { dialog = some (dialog_shown s.user s.dialog) }
    else s
step sets_active s =
    if not (is_self s.current_user s.user) && not (is_pending s.set_active)
    then record s {
      set_active = pending;
      sent = set_active_call s.user.id (not s.user.is_active) ∷ s.sent;
    }
    else s
step deletes s =
    if not (is_admin_role s.user)
    then record s { delete_user = pending; sent = delete_call s.user.id ∷ s.sent }
    else s
step (in_dialog e) s = record s { dialog = in_open e s.dialog }
step (active_done r) s = if is_pending s.set_active then record s { set_active = settled r } else s
step (delete_done r) s =
    if is_pending s.delete_user then record s { delete_user = settled r } else s
step (user_arrives u) s = record s { user = u }

unfoldable pub run : List Event → Row → Row
unfolding step
run [] s = s
run (e ∷ es) s = run es (step e s)

-- The page: the invite dialog while it is mounted.
pub data PageEvent : Type 0 where
  presses_invite : PageEvent
  in_invite : InviteEvent → PageEvent

invite_shown : Option InviteDialog → InviteDialog
unfolding invite_opened
invite_shown none = invite_opened
invite_shown (some d) = d

while_inviting : InviteDialog → Option InviteDialog
while_inviting d = if d.is_open then some d else none

unfoldable pub page_step : PageEvent → Option InviteDialog → Option InviteDialog
unfolding invite_shown while_inviting invite_step
page_step presses_invite o = some (invite_shown o)
page_step (in_invite e) none = none
page_step (in_invite e) (some d) = while_inviting (invite_step e d)
