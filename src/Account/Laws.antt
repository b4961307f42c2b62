-- ===== src/Account/Laws.antt =====
-- What the account forms send, and how they sign in.

use text.Mathlib.TextEquality.{eq_iff}
use elastic_ops.Prelude.{String, true, false, some, [], ◌∷◌, ◌≡◌, ◌⊎◌, refl, arith}
use elastic_ops.Prelude.Text.{truthy}
use elastic_ops.Api.Client.{ok}
use elastic_ops.Api.Mutation.{is_pending}
use elastic_ops.Api.Storage.{get_item, get_item-set_item_self}
use elastic_ops.Api.Client.{token_key}
use elastic_ops.Api.Json.{Json}
use elastic_ops.Api.Operations
use elastic_ops.Api.Operations.{app_invalidates}
use elastic_ops.Session.{set_token, is_authenticated}
use elastic_ops.Routes.{Gate, shows, overview, setup, page, settle, setup_required}
use elastic_ops.Routes.Laws.{settle_total}
use elastic_ops.Account.{SignIn, SetupForm, setup_submit, setup_settles}

-- A submission of the setup form sends the account exactly when the two passwords agree and no call is
-- pending, and nothing otherwise.
pub setup_sends_confirmed :
    (f : SetupForm)
    → ((setup_submit f).sent ≡ f.sent)
      ⊎ ((f.password ≡ f.confirm_password)
          × (is_pending f.setup ≡ false)
          × ((setup_submit f).sent ≡ (f.name, f.email, f.password) ∷ f.sent))
unfolding setup_submit
setup_sends_confirmed f = ground (arith, eq_iff f.password f.confirm_password)

-- A successful setup stores the token, signs the tab in and goes to the overview, which the app then
-- shows, given that the status has loaded and no longer asks for a setup.
pub setup_signs_in :
    (token : String) (s : SignIn SetupForm) (g : Gate)
    → truthy token ≡ true
    → g.is_loading ≡ false
    → setup_required g.status ≡ false
    → g.is_authenticated ≡ is_authenticated (setup_settles (ok token) s).session
    → (get_item token_key (setup_settles (ok token) s).session.storage ≡ some token)
      × ((setup_settles (ok token) s).navigated ≡ some (shows overview))
      × (settle 2 g (shows overview) ≡ some (page overview))
unfolding setup_settles set_token
setup_signs_in token s g t loaded done same = (
  rw t (get_item-set_item_self token_key token s.session.storage),
  refl,
  rw (settle_total 0 g (shows overview)) (rw (loaded, done, same) refl),
)

-- But a setup that succeeds while the cached status still asks for a setup shows the setup form again:
-- the success refetches no query, and the overview that it goes to redirects back.
pub setup_shown_again :
    (token : String) (body : Json) (s : SignIn SetupForm) (g : Gate)
    → g.is_loading ≡ false
    → setup_required g.status ≡ true
    → ((setup_settles (ok token) s).navigated ≡ some (shows overview))
      × (app_invalidates (Operations.setup body) ≡ [])
      × (settle 2 g (shows overview) ≡ some (page setup))
unfolding setup_settles app_invalidates
setup_shown_again token body s g loaded asks =
    (refl, refl, rw (settle_total 0 g (shows overview)) (rw (loaded, asks) refl))
