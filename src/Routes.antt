-- ===== src/Routes.antt =====
-- frontend/src/App.tsx and components/layout/AppLayout.tsx, Sidebar.tsx: which page a path shows
-- under the two gates, the layout and the links. The router (react-router) matches a path to a
-- `<Route>`; a model of it starts from the route that was matched.
pub mod Laws
use elastic_ops.Prelude.{
  ℕ, zero, suc, String, Bool, true, false, not, ◌||◌, Option, none, some, List, [], ◌∷◌, ◌++◌,
  if◌then◌else◌, any,
}
use elastic_ops.Prelude.Text.{starts_with}
use elastic_ops.Session.{UserInfo, is_admin}

pub data Page : Type 0 where
  setup login overview shard_map indices nodes jobs rest settings users : Page

-- The `<Route>` elements: a page each, and the root.
pub data Route : Type 0 where
  shows : Page → Route
  root : Route

-- What rendering a route gives: a page, `<Navigate to=… replace />`, or nothing yet.
pub data View : Type 0 where
  page : Page → View
  navigate : Route → View
  blank : View

pub record AuthStatus : Type 0 where
  pub setup_required : Bool
  pub authenticated : Bool
  pub user : Option UserInfo

-- The result of `useAuthStatus` and `isAuthenticated` at a render.
pub record Gate : Type 0 where
  pub is_loading : Bool
  pub status : Option AuthStatus
  pub is_authenticated : Bool

-- `status?.setup_required`
abbrev pub setup_required : Option AuthStatus → Bool
setup_required none = false
setup_required (some s) = s.setup_required

unfoldable pub protected_route : Gate → View → View
protected_route g children =
    if g.is_loading
    then blank
    else if setup_required g.status
    then navigate (shows setup)
    else if not g.is_authenticated
    then navigate (shows login)
    else children

unfoldable pub auth_gate : Gate → View → View
auth_gate g children =
    if g.is_loading
    then blank
    else if setup_required g.status
    then navigate (shows setup)
    else children

unfoldable pub app : Gate → Route → View
unfolding protected_route auth_gate
app g (shows setup) = page setup
app g (shows login) = auth_gate g (page login)
app g root = protected_route g (navigate (shows overview))
app g (shows p) = protected_route g (page p)

-- Follow `<Navigate>` for a number of renders; `none` if it still navigates.
unfoldable pub settle : ℕ → Gate → Route → Option View
settle zero g r = none
settle (suc n) g r = elim (app g r) [
  | page p ↦ some (page p)
  | navigate to ↦ settle n g to
  | blank ↦ some blank
]

-- The links of the sidebar.
abbrev pub nav_items : List Page
nav_items = overview ∷ shard_map ∷ indices ∷ nodes ∷ jobs ∷ []

unfoldable pub bottom_nav_items : Bool → List Page
bottom_nav_items admin = (if admin then users ∷ [] else []) ++ rest ∷ settings ∷ []

-- `AppLayout`: the sidebar is narrow on the shard map whatever the user chose.
abbrev collapsed_pages : List String
collapsed_pages = "/shard-map" ∷ []

unfoldable pub sidebar_width : String → Bool → ℕ
sidebar_width pathname manual =
    if any (λ p. starts_with pathname p) collapsed_pages || manual then 48 else 200
