-- ===== src/Routes/Laws.antt =====
-- No redirect loop, and what each page asks of the session.
use elastic_ops.Prelude.{ℕ, suc, Bool, true, false, some, ◌≡◌, ◌↔◌, ◌⊎◌, refl, arith}
use elastic_ops.Routes.{
  Page, Route, View, Gate, setup, login, overview, shows, root, page, blank, setup_required, app,
  settle,
}

-- What the app shows for a route, stated at once.
abbrev pub shown : Bool → Bool → Bool → Route → View
shown loading needs_setup signed_in (shows setup) = page setup
shown true needs_setup signed_in r = blank
shown false true signed_in r = page setup
shown false false signed_in (shows login) = page login
shown false false false r = page login
shown false false true root = page overview
shown false false true (shows p) = page p

-- Every route settles after at most one redirect, in every state of the session. The Setup route shows
-- Setup in all of them. Any other is blank while the status loads; then it shows Setup until the first
-- account exists; then Login without a token or at the Login route; and else the page asked for, the
-- overview for the root.
pub settle_total :
    (n : ℕ) (g : Gate) (r : Route)
    → settle (suc (suc n)) g r
      ≡ some (shown g.is_loading (setup_required g.status) g.is_authenticated r)
unfolding settle app
settle_total n g (shows setup) = refl
settle_total n g (shows login) = ground arith
settle_total n g root = ground arith
settle_total n g (shows p) = ground arith

shown_iff :
    (l q a : Bool) (r : Route) (p : Page)
    → ¬ ((p ≡ setup) ⊎ (p ≡ login))
    → (some (shown l q a r) ≡ some (page p))
      ↔ ((l ≡ false) × (q ≡ false) × (a ≡ true) × ((r ≡ shows p) ⊎ ((r ≡ root) × (p ≡ overview))))
shown_iff l q a (shows setup) p h = ground arith
shown_iff l q a (shows login) p h = ground arith
shown_iff l q a root p h = ground arith
shown_iff l q a (shows w) p h = ground arith

-- A page other than Setup and Login is shown exactly when it, or the root for Overview, was asked
-- for, the status has loaded, no setup is required and a token is held.
pub page_shown_iff :
    (n : ℕ) (g : Gate) (r : Route) (p : Page)
    → ¬ ((p ≡ setup) ⊎ (p ≡ login))
    → (settle (suc (suc n)) g r ≡ some (page p)) ↔ (
        (g.is_loading ≡ false)
        × (setup_required g.status ≡ false)
        × (g.is_authenticated ≡ true)
        × ((r ≡ shows p) ⊎ ((r ≡ root) × (p ≡ overview))))
page_shown_iff n g r p private =
    rw (settle_total n g r)
      (shown_iff g.is_loading (setup_required g.status) g.is_authenticated r p private)
