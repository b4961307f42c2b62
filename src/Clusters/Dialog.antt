-- ===== src/Clusters/Dialog.antt =====
-- frontend/src/components/ClusterDialog.tsx: the form that adds or edits a cluster. `sent` records the
-- calls. The browser's own validation is not modelled.
use elastic_ops.Prelude.{
  ℕ, ◌==◌, String, Bool, true, false, ◌||◌, Option, none, some, List, [], ◌∷◌, ◌++◌, if◌then◌else◌,
  get_or, find?, is_some, All, ◌≡◌, refl, ==_iff,
}
use elastic_ops.Prelude.Text.{truthy}
use elastic_ops.Api.Json.{Json}
use elastic_ops.Api.Client.{Failure, Result, ok, throw}
use elastic_ops.Api.Clusters.{Cluster, ClusterCreate}
use elastic_ops.Api.Mutation.{Mutation, pending, is_pending, settled}
use elastic_ops.Api.Operations.{cached_after_create}
use elastic_ops.Clusters.{Context, active_cluster, set_active_cluster_id}

pub data Call : Type 0 where
  create_call : ClusterCreate → Call
  update_call : ℕ → ClusterCreate → Call

pub record Dialog : Type 0 where
  pub is_open : Bool
  pub cluster : Option Cluster
  pub name : String
  pub url : String
  pub username : String
  pub password : String
  pub verify_ssl : Bool
  pub read_only : Bool
  pub is_active : Bool
  pub error : Option Failure
  pub create : Mutation
  pub update : Mutation
  pub sent : List Call

-- The effect on `[open, cluster]`: the fields from the cluster, or those of a new one.
unfoldable pub fill : Option Cluster → Dialog → Dialog
fill none d = record d {
  is_open = true;
  cluster = none;
  name = "";
  url = "";
  username = "";
  password = "";
  verify_ssl = true;
  read_only = false;
  is_active = true;
  error = none;
}
fill (some c) d = record d {
  is_open = true;
  cluster = some c;
  name = c.name;
  url = c.url;
  username = c.username;
  password = "";
  verify_ssl = c.verify_ssl;
  read_only = get_or c.read_only false;
  is_active = c.is_active;
  error = none;
}

-- `s || undefined`
abbrev if_given : String → Option String
if_given s = if truthy s then some s else none

unfoldable pub update_data : Dialog → ClusterCreate
update_data d = record {
  name = d.name;
  url = d.url;
  username = some d.username;
  password = if_given d.password;
  verify_ssl = some d.verify_ssl;
  read_only = some d.read_only;
  is_active = some d.is_active;
}

unfoldable pub create_data : Dialog → ClusterCreate
create_data d = record {
  name = d.name;
  url = d.url;
  username = if_given d.username;
  password = if_given d.password;
  verify_ssl = some d.verify_ssl;
  read_only = some d.read_only;
  is_active = none;
}

submit_as : Option Cluster → Dialog → Dialog
unfolding update_data create_data
submit_as (some c) d = record d {
  error = none;
  update = pending;
  sent = update_call c.id (update_data d) ∷ d.sent;
}
submit_as none d = record d {
  error = none;
  create = pending;
  sent = create_call (create_data d) ∷ d.sent;
}

-- The submit button is disabled while a call is pending.
unfoldable pub handle_submit : Dialog → Dialog
unfolding submit_as
handle_submit d = if is_pending d.create || is_pending d.update then d else submit_as d.cluster d

unfoldable pub update_settles : Result Json → Dialog → Dialog
update_settles (ok j) d = record d { update = settled (ok j); is_open = false }
update_settles (throw f) d = record d { update = settled {A = Json} (throw f); error = some f }

-- The dialog, the cluster context and the cached list after the hook's `onSuccess` and the dialog's.
pub record Added : Type 0 where
  pub dialog : Dialog
  pub context : Context
  pub clusters : Option (List Cluster)

unfoldable pub create_settles : Result Cluster → Added → Added
create_settles (ok created) a = record {
  dialog = record a.dialog { create = settled (ok created); is_open = false };
  context = set_active_cluster_id created.id a.context;
  clusters = some (cached_after_create a.clusters created);
}
create_settles (throw f) a = record a {
  dialog = record a.dialog { create = settled {A = Cluster} (throw f); error = some f };
}

pub data Event : Type 0 where
  shown_for : Option Cluster → Event
  edits_name edits_url edits_username edits_password : String → Event
  checks_ssl checks_read_only checks_active : Bool → Event
  submits closes : Event

-- "Active" is offered when a cluster is edited.
unfoldable pub step : Event → Dialog → Dialog
unfolding fill handle_submit
step (shown_for c) d = fill c d
step (edits_name v) d = record d { name = v }
step (edits_url v) d = record d { url = v }
step (edits_username v) d = record d { username = v }
step (edits_password v) d = record d { password = v }
step (checks_ssl v) d = record d { verify_ssl = v }
step (checks_read_only v) d = record d { read_only = v }
step (checks_active v) d = if is_some d.cluster then record d { is_active = v } else d
step submits d = handle_submit d
step closes d = record d { is_open = false }

find?-append_last :
    (p : Cluster → Bool) (l : List Cluster) (c : Cluster)
    → All (λ x. p x ≡ false) l
    → p c ≡ true
    → find? p (l ++ c ∷ []) ≡ some c
find?-append_last p [] c h q = rw q refl
find?-append_last p (x ∷ l) c h q = rw h.0 (find?-append_last p l c h.1 q)

-- A cluster that was added, under an identifier that no cached cluster has, is the active one at once,
-- before the list is fetched again.
pub added_is_active :
    (created : Cluster) (a : Added)
    → All (λ c. (c.id == created.id) ≡ false) (get_or a.clusters [])
    → active_cluster
        (create_settles (ok created) a).context.active_id
        (get_or (create_settles (ok created) a).clusters [])
      ≡ some created
unfolding create_settles set_active_cluster_id cached_after_create active_cluster
added_is_active created a h =
    rw
      (find?-append_last (λ c. c.id == created.id) (get_or a.clusters []) created h
        ((==_iff created.id created.id).1 refl))
      refl
