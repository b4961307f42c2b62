-- ===== src/TopBar/Menu/Laws.antt =====
-- The account menu over sequences of events.

use elastic_ops.Prelude.{true, false, none, List, [], ◌∷◌, ◌≡◌, ◌⊎◌, inr, refl, arith}
use elastic_ops.Api.Storage.{get_item, get_item-remove_item_self}
use elastic_ops.Api.Client.{token_key}
use elastic_ops.Session.{Session, is_authenticated, logout, set_token}
use elastic_ops.TopBar.Menu.{
  Menu, Event, presses_logout, session_becomes, mounted, under, shown_step, step, run,
}

abbrev Guarded : Menu → Type 0
Guarded m = (is_authenticated m.session ≡ true) ⊎ ((m.opened ≡ false) × (m.dialog ≡ none))

under-Guarded : (s : Session) (m : Menu) → Guarded (under s m)
unfolding under mounted
under-Guarded s m = ground arith

step-Guarded : (e : Event) (m : Menu) → Guarded m → Guarded (step e m)
unfolding step shown_step under mounted
step-Guarded (session_becomes s) m v = ground arith
step-Guarded e m v = ground arith

run-Guarded : (es : List Event) (m : Menu) → Guarded m → Guarded (run es m)
unfolding run
run-Guarded [] m v = v
run-Guarded (e ∷ es) m v = run-Guarded es (step e m) (step-Guarded e m v)

-- Whatever the user and the rest of the app do, the menu is open, or its password dialog is shown,
-- only while the tab is signed in.
pub menu_needs_session :
    (s : Session) (es : List Event)
    → (is_authenticated (run es (mounted s)).session ≡ true)
      ⊎ (((run es (mounted s)).opened ≡ false) × ((run es (mounted s)).dialog ≡ none))
unfolding mounted
menu_needs_session s es = run-Guarded es (mounted s) (inr (refl, refl))

-- "Logout" in the open menu leaves no token, in memory or in `localStorage`, and no menu.
pub menu_logout :
    (m : Menu)
    → is_authenticated m.session ≡ true
    → m.opened ≡ true
    → (step presses_logout m ≡ mounted (logout m.session))
      × ((logout m.session).token ≡ none)
      × (get_item token_key (logout m.session).storage ≡ none)
unfolding step shown_step under logout set_token
menu_logout m signed opened =
    (ground arith, refl, get_item-remove_item_self token_key m.session.storage)
