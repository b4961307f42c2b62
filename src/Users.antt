-- ===== src/Users.antt =====
-- frontend/src/pages/Users.tsx: the rows of the users, and the dialogs of access and invitation. A
-- click on a control that is disabled or not shown does nothing. `sent` records the calls.
pub mod Access
pub mod Selection
pub mod Dialogs
pub mod Row
use Prim.Native.String.{◌++◌}
use text.Mathlib.Text.{◌==◌ as str_eq}
use elastic_ops.Prelude.{
  ℕ, ◌==◌, String, Bool, true, false, not, ◌&&◌, ◌||◌, Option, none, some, List, [], ◌∷◌,
  ◌++◌ as append, map, if◌then◌else◌, find?, filter, any,
}
use elastic_ops.Prelude.Text.{show}
use elastic_ops.Session.{UserInfo, is_admin}

-- `UserDetail` of api/auth.ts
pub record UserDetail : Type 0 where
  pub base : UserInfo
  pub open base use *
  pub cluster_ids : List ℕ
  pub created_at : String

-- `{ id, name }` of a cluster.
pub record Named : Type 0 where
  pub id : ℕ
  pub name : String

pub data Content : Type 0 where
  admin_access_required query_error : Content
  table : List UserDetail → Content

-- The last argument is `isError`.
unfoldable pub content : Option UserInfo → Option (List UserDetail) → Bool → Content
content user none is_error =
    if not (is_admin user)
    then admin_access_required
    else if is_error
    then query_error
    else table []
content user (some users) is_error =
    if not (is_admin user) then admin_access_required else table users

cluster_name : List Named → ℕ → String
cluster_name clusters i = elim (find? (λ c. c.id == i) clusters) [
  | some c ↦ c.name
  | none ↦ "#" ++ show i
]

unfoldable pub cluster_names : List Named → UserDetail → List String
unfolding cluster_name
cluster_names clusters user = map (cluster_name clusters) user.cluster_ids

-- The buttons of a row.
pub data Button : Type 0 where
  edit_access set_active delete : Button

abbrev pub is_self : Option UserInfo → UserDetail → Bool
is_self none user = false
is_self (some me) user = me.id == user.id

unfoldable pub buttons : Option UserInfo → UserDetail → List Button
buttons me user = append (if not (str_eq user.role "admin") then edit_access ∷ [] else []) (
    append (if not (is_self me user) then set_active ∷ [] else [])
      (if not (str_eq user.role "admin") then delete ∷ [] else []))

-- `toggleCluster` of both dialogs.
abbrev pub includes : ℕ → List ℕ → Bool
includes i l = any (λ j. j == i) l

unfoldable pub toggle_cluster : ℕ → List ℕ → List ℕ
toggle_cluster i prev =
    if includes i prev then filter (λ j. not (j == i)) prev else append prev (i ∷ [])

unfoldable pub toggles : List ℕ → List ℕ → List ℕ
unfolding toggle_cluster
toggles [] l = l
toggles (i ∷ is) l = toggles is (toggle_cluster i l)
