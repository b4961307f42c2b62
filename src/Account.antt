-- ===== src/Account.antt =====
-- The forms of frontend/src/pages/Login.tsx and Setup.tsx, and `ChangePasswordDialog` of
-- components/layout/TopBar.tsx. The browser's own validation is not modelled: an event submits the form
-- as it stands. A disabled submit button keeps the form from being submitted. `sent` records the calls.
pub mod Laws
use text.Mathlib.Text.{◌==◌ as str_eq}
use elastic_ops.Prelude.{
  ℕ, String, Bool, true, false, not, ◌&&◌, Option, none, some, List, [], ◌∷◌, if◌then◌else◌,
}
use elastic_ops.Api.Json.{Json}
use elastic_ops.Api.Client.{Failure, Result, ok, throw}
use elastic_ops.Api.Mutation.{Mutation, idle, pending, is_pending, settled}
use elastic_ops.Session.{Session, set_token}
use elastic_ops.Routes.{Route, shows, overview}

-- What stands under a form: nothing, a text, or `err.message`.
pub data Message : Type 0 where
  blank : Message
  fixed : String → Message
  message_of : Failure → Message

-- The form, the session of the tab and the route that it was sent to.
pub record SignIn (F : Type 0) : Type 0 where
  pub form : F
  pub session : Session
  pub navigated : Option Route

pub record LoginForm : Type 0 where
  pub email : String
  pub password : String
  pub error : Message
  pub login : Mutation
  pub sent : List (String × String)

unfoldable pub login_initial : LoginForm
login_initial = record { email = ""; password = ""; error = blank; login = idle; sent = [] }

unfoldable pub login_submit : LoginForm → LoginForm
login_submit f =
    if is_pending f.login
    then f
    else record f { error = blank; login = pending; sent = (f.email, f.password) ∷ f.sent }

-- The token that the backend returns, or what is thrown.
unfoldable pub login_settles : Result String → SignIn LoginForm → SignIn LoginForm
login_settles (ok token) s = record {
  form = record s.form { login = settled (ok token) };
  session = set_token (some token) s.session;
  navigated = some (shows overview);
}
login_settles (throw e) s = record s {
  form = record s.form { login = settled {A = String} (throw e); error = message_of e };
}

pub record SetupForm : Type 0 where
  pub name : String
  pub email : String
  pub password : String
  pub confirm_password : String
  pub error : Message
  pub setup : Mutation
  pub sent : List (String × String × String)

unfoldable pub setup_initial : SetupForm
setup_initial = record {
  name = "";
  email = "";
  password = "";
  confirm_password = "";
  error = blank;
  setup = idle;
  sent = [];
}

unfoldable pub setup_submit : SetupForm → SetupForm
setup_submit f =
    if is_pending f.setup
    then f
    else if not (str_eq f.password f.confirm_password)
    then record f { error = fixed "Passwords do not match" }
    else record f { error = blank; setup = pending; sent = (f.name, f.email, f.password) ∷ f.sent }

unfoldable pub setup_settles : Result String → SignIn SetupForm → SignIn SetupForm
setup_settles (ok token) s = record {
  form = record s.form { setup = settled (ok token) };
  session = set_token (some token) s.session;
  navigated = some (shows overview);
}
setup_settles (throw e) s = record s {
  form = record s.form { setup = settled {A = String} (throw e); error = message_of e };
}

pub record PasswordForm : Type 0 where
  pub current_password : String
  pub new_password : String
  pub confirm_password : String
  pub error : Message
  pub success : Bool
  pub change : Mutation
  pub sent : List (String × String)

unfoldable pub password_initial : PasswordForm
password_initial = record {
  current_password = "";
  new_password = "";
  confirm_password = "";
  error = blank;
  success = false;
  change = idle;
  sent = [];
}

-- The form is not shown after a success.
unfoldable pub password_submit : PasswordForm → PasswordForm
password_submit f =
    if is_pending f.change
    then f
    else if not (str_eq f.new_password f.confirm_password)
    then record f { error = fixed "New passwords do not match" }
    else record f {
      error = blank;
      change = pending;
      sent = (f.current_password, f.new_password) ∷ f.sent;
    }

unfoldable pub password_settles : Result Json → PasswordForm → PasswordForm
password_settles (ok j) f = record f { change = settled (ok j); success = true }
password_settles (throw e) f = record f {
  change = settled {A = Json} (throw e);
  error = message_of e;
}

pub data PasswordEvent : Type 0 where
  edits_current edits_new edits_confirm : String → PasswordEvent
  submits : PasswordEvent
  change_done : Result Json → PasswordEvent

unfoldable pub password_step : PasswordEvent → PasswordForm → PasswordForm
unfolding password_submit password_settles
password_step (edits_current v) f = if f.success then f else record f { current_password = v }
password_step (edits_new v) f = if f.success then f else record f { new_password = v }
password_step (edits_confirm v) f = if f.success then f else record f { confirm_password = v }
password_step submits f = if f.success then f else password_submit f
password_step (change_done r) f = if is_pending f.change then password_settles r f else f
