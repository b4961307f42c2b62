-- ===== src/Clusters.antt =====
-- frontend/src/context/ClusterContext.tsx, and the cluster selector of components/layout/Sidebar.tsx.
-- `Number` of a stored text is a parameter. A number of the model is a natural one, or another of
-- which only the text is kept, such as NaN, which equals no identifier.
pub mod Laws
pub mod Dialog
pub mod Sidebar
use elastic_ops.Prelude.{
  ℕ, ◌==◌, String, Bool, true, false, not, ◌&&◌, Option, none, some, List, [], ◌∷◌, if◌then◌else◌,
  find?, head?, filter,
}
use elastic_ops.Prelude.Text.{truthy, show}
use elastic_ops.Api.Json.{Json}
use elastic_ops.Api.Client.{Result, ok, throw}
use elastic_ops.Api.Clusters.{Cluster}
use elastic_ops.Api.Mutation.{Mutation, idle, pending, is_pending, settled}
use elastic_ops.Api.Storage.{Storage, get_item, set_item}

pub data Number : Type 0 where
  natural : ℕ → Number
  other : String → Number

-- `String(n)`
abbrev pub text_of : Number → String
text_of (natural n) = show n
text_of (other t) = t

abbrev pub active_key : String
active_key = "eo_active_cluster"

abbrev pub interval_key : String
interval_key = "eo_refresh_interval"

pub record Context : Type 0 where
  pub active_id : Option Number
  pub refresh_interval : Number
  pub storage : Storage

persist_active : Option Number → Storage → Storage
persist_active none storage = storage
persist_active (some n) storage = set_item active_key (text_of n) storage

persist_interval : Number → Storage → Storage
persist_interval n storage = set_item interval_key (text_of n) storage

module _ (number : String → Number) where
  saved : Option String → Option Number
  saved none = none
  saved (some t) = if truthy t then some (number t) else none

  saved_interval : Option String → Number
  saved_interval none = natural 15000
  saved_interval (some t) = if truthy t then number t else natural 15000

  -- The provider mounts: the state from the storage, then both effects.
  unfoldable pub load : Storage → Context
  unfolding saved saved_interval persist_active persist_interval
  load storage =
      let id = saved (get_item active_key storage) in
      let interval = saved_interval (get_item interval_key storage) in
      record {
        active_id = id;
        refresh_interval = interval;
        storage = persist_interval interval (persist_active id storage);
      }

unfoldable pub set_active_cluster_id : ℕ → Context → Context
unfolding persist_active
set_active_cluster_id n c = record c {
  active_id = some (natural n);
  storage = persist_active (some (natural n)) c.storage;
}

unfoldable pub set_refresh_interval : ℕ → Context → Context
unfolding persist_interval
set_refresh_interval n c = record c {
  refresh_interval = natural n;
  storage = persist_interval (natural n) c.storage;
}

-- `c.id === activeId`
abbrev pub has_id : Option Number → Cluster → Bool
has_id none c = false
has_id (some (natural n)) c = c.id == n
has_id (some (other t)) c = false

abbrev first_of : Option Cluster → Option Cluster → Option Cluster
first_of none b = b
first_of (some a) b = some a

unfoldable pub active_cluster : Option Number → List Cluster → Option Cluster
active_cluster id clusters = first_of (find? (has_id id) clusters) (head? clusters)

-- `ClusterSelector`. `sent` records the deletions.
pub record Selector : Type 0 where
  pub context : Context
  pub dialog_open : Bool
  pub editing : Bool
  pub delete : Mutation
  pub removed_id : ℕ
  pub sent : List ℕ

unfoldable pub open_add : Selector → Selector
open_add s = record s { editing = false; dialog_open = true }

unfoldable pub open_edit : Selector → Selector
open_edit s = record s { editing = true; dialog_open = true }

-- The second argument is what `window.confirm` answers; the button is disabled while a deletion is
-- pending and is shown to an admin.
unfoldable pub handle_remove : Option Cluster → Bool → Bool → Selector → Selector
handle_remove none confirmed admin s = s
handle_remove (some c) confirmed admin s =
    if admin && not (is_pending s.delete) && confirmed
    then record s { delete = pending; removed_id = c.id; sent = c.id ∷ s.sent }
    else s

move_to : Option Cluster → Context → Context
unfolding set_active_cluster_id
move_to none c = c
move_to (some next) c = set_active_cluster_id next.id c

-- `clusters` is the list as it was when the button was clicked.
unfoldable pub remove_settles : List Cluster → Result Json → Selector → Selector
unfolding move_to
remove_settles clusters (ok j) s = record s {
  delete = settled (ok j);
  context = move_to (find? (λ c. not (c.id == s.removed_id)) clusters) s.context;
}
remove_settles clusters (throw f) s = record s { delete = settled {A = Json} (throw f) }

-- The list that the backend sends once the cluster is gone.
abbrev pub without : ℕ → List Cluster → List Cluster
without n clusters = filter (λ c. not (c.id == n)) clusters
