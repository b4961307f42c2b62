-- ===== src/TopBar/Menu.antt =====
-- `AccountMenu` of frontend/src/components/layout/TopBar.tsx: the menu, the password dialog inside it
-- and the logout. The top bar shows the menu while the tab is signed in; its state starts anew
-- each time.
pub mod Laws
use elastic_ops.Prelude.{Bool, true, false, not, Option, none, some, List, [], ◌∷◌, if◌then◌else◌}
use elastic_ops.Session.{Session, is_authenticated, logout}
use elastic_ops.Account.{PasswordForm, PasswordEvent, password_initial, password_step}

-- `dialog` is the state of the password dialog while it is shown: closing it drops the form, and
-- the callbacks of a call that still runs.
pub record Menu : Type 0 where
  pub opened : Bool
  pub dialog : Option PasswordForm
  pub session : Session

unfoldable pub mounted : Session → Menu
mounted s = record { opened = false; dialog = none; session = s }

pub data Event : Type 0 where
  presses_account presses_outside presses_change presses_logout closes_dialog : Event
  in_dialog : PasswordEvent → Event
  session_becomes : Session → Event

-- A dialog that is shown already stays as it is.
unfoldable show_dialog : Option PasswordForm → PasswordForm
show_dialog none = password_initial
show_dialog (some f) = f

unfoldable edit_dialog : PasswordEvent → Option PasswordForm → Option PasswordForm
edit_dialog _ none = none
edit_dialog e (some f) = some (password_step e f)

-- What the rest of the app does to the session: without one the menu is not shown.
unfoldable under : Session → Menu → Menu
unfolding mounted
under s m = if is_authenticated s then record m { session = s } else mounted s

-- `step` of a menu that is shown
unfoldable pub shown_step : Event → Menu → Menu
unfolding show_dialog edit_dialog under
shown_step presses_account m = record m { opened = not m.opened }
shown_step presses_outside m = record m { opened = false }
shown_step presses_change m =
    if m.opened then record m { dialog = some (show_dialog m.dialog); opened = false } else m
shown_step presses_logout m = if m.opened then under (logout m.session) m else m
shown_step closes_dialog m = record m { dialog = none }
shown_step (in_dialog e) m = record m { dialog = edit_dialog e m.dialog }
shown_step (session_becomes s) m = under s m

unfoldable pub step : Event → Menu → Menu
unfolding shown_step mounted
step (session_becomes s) m = if is_authenticated m.session then under s m else mounted s
step e m = if is_authenticated m.session then shown_step e m else m

unfoldable pub run : List Event → Menu → Menu
unfolding step
run [] m = m
run (e ∷ es) m = run es (step e m)
