-- ===== src/Settings.antt =====
-- frontend/src/pages/Settings.tsx: the settings table, and the writes it sends. The objects of the
-- payload are lists of keys and values in the order of `Object.entries`.
pub mod Rows
pub mod Writes
use text.Mathlib.Text.{◌==◌ as str_eq}
use elastic_ops.Prelude.{
  ℕ, String, Bool, true, false, not, ◌&&◌, ◌||◌, Option, none, some, List, [], ◌∷◌, ◌++◌, map,
  if◌then◌else◌, get_or, is_some, filter, length,
}
use elastic_ops.Prelude.Text.{truthy, trim, includes}
use elastic_ops.Prelude.Locale.{Locale}
use elastic_ops.Api.Json.{Json}
use elastic_ops.Api.Client.{Result, ok, throw}
use elastic_ops.Api.Storage.{get_item}
use elastic_ops.Api.Es.{ClusterSettings}
use elastic_ops.Api.Mutation.{Mutation, idle, pending, is_pending, settled}

pub data Scope : Type 0 where
  persistent transient default_scope : Scope

pub record SettingRow : Type 0 where
  pub key : String
  pub scope : Scope
  pub value : String
  pub default_value : String
  pub is_modified : Bool

-- `allKeys.has(key)`
abbrev pub seen : String → List String → Bool
seen k [] = false
seen k (j ∷ js) = str_eq j k || seen k js

-- The entries of one loop: those whose key was not seen before, with the keys seen after it.
pub fresh : List String → List (String × String) → List (String × String)
fresh keys [] = []
fresh keys ((k, v) ∷ rest) =
    let skipped = fresh keys rest in
    let added = fresh (k ∷ keys) rest in if seen k keys then skipped else (k, v) ∷ added

pub keys_after : List String → List (String × String) → List String
keys_after keys [] = keys
keys_after keys ((k, v) ∷ rest) = keys_after (k ∷ keys) rest

pub modified_row : Scope → ClusterSettings → String × String → SettingRow
modified_row scope settings (k, v) = record {
  key = k;
  scope = scope;
  value = v;
  default_value = get_or (get_item k settings.defaults) "";
  is_modified = true;
}

pub default_row : String × String → SettingRow
default_row (k, v) = record {
  key = k;
  scope = default_scope;
  value = v;
  default_value = v;
  is_modified = false;
}

-- The third loop, which skips the keys seen and those that do not match.
pub unseen_matches : Locale → String → List String → List (String × String) → List (String × String)
unseen_matches locale text keys [] = []
unseen_matches locale text keys ((k, v) ∷ rest) =
    let more = unseen_matches locale text keys rest in
    if seen k keys
    then more
    else if includes (locale.lower k) (locale.lower text)
    then (k, v) ∷ more
    else more

unfoldable pub rows : Locale → String → ClusterSettings → List SettingRow
unfolding fresh keys_after modified_row default_row unseen_matches
rows locale text settings =
    let first = keys_after [] settings.persistent in
    let second = keys_after first settings.transient in
    map (modified_row persistent settings) settings.persistent
    ++ map (modified_row transient settings) (fresh first settings.transient)
    ++ (if truthy text
        then map default_row (unseen_matches locale text second settings.defaults)
        else [])

unfoldable pub modified_count : List SettingRow → ℕ
modified_count rs = length (filter (λ r. r.is_modified) rs)

-- The body of `PUT /settings`: values by scope, `none` for null.
pub record Update : Type 0 where
  pub persistent_part : Option (List (String × Option String))
  pub transient_part : Option (List (String × Option String))

abbrev pub scoped : Scope → List (String × Option String) → Update
scoped persistent entries = record { persistent_part = some entries; transient_part = none }
scoped _ entries = record { persistent_part = none; transient_part = some entries }

-- The settings of a quick action; `none` resets all that are transient.
pub record QuickAction : Type 0 where
  pub label : String
  pub settings : Option (List (String × Option String))
  pub danger : Bool

abbrev pub quick_actions : List QuickAction
quick_actions =
    record {
      label = "Speed Up Rebalancing";
      settings = some (
          ("cluster.routing.allocation.cluster_concurrent_rebalance", some "10")
          ∷ ("cluster.routing.allocation.node_concurrent_incoming_recoveries", some "4")
          ∷ ("cluster.routing.allocation.node_concurrent_outgoing_recoveries", some "4")
          ∷ []);
      danger = false;
    }
    ∷ record {
      label = "Enable Disk Balancing";
      settings = some (("cluster.routing.allocation.balance.disk_usage", some "0.5") ∷ []);
      danger = false;
    }
    ∷ record { label = "Reset All Transient"; settings = none; danger = true }
    ∷ []

pub record State : Type 0 where
  pub settings : Option ClusterSettings
  pub new_key : String
  pub new_value : String
  pub new_scope : Scope
  pub update : Mutation
  pub applies : Bool
  pub sent : List Update

unfoldable pub initial : State
initial = record {
  settings = none;
  new_key = "";
  new_value = "";
  new_scope = transient;
  update = idle;
  applies = false;
  sent = [];
}

-- `updateSettings.mutate(u, …)`; `applies` says whether the latest call was one of "Apply", whose
-- `onSuccess` clears the form. The resets and the quick actions pass no callback.
send : Bool → Update → State → State
send applies u s = record s { update = pending; applies = applies; sent = u ∷ s.sent }

-- The handlers; the first argument is `readOnly`.
unfoldable pub handle_reset : Bool → String → Scope → State → State
unfolding send
handle_reset read_only key scope s =
    if read_only then s else send false (scoped scope ((key, none) ∷ [])) s

unfoldable pub handle_apply_setting : Bool → State → State
unfolding send
handle_apply_setting read_only s =
    if read_only
    then s
    else if not (truthy (trim s.new_key))
    then s
    else send true (scoped s.new_scope ((trim s.new_key, some s.new_value) ∷ [])) s

abbrev pub nulled : List (String × String) → List (String × Option String)
nulled [] = []
nulled ((k, v) ∷ rest) = (k, none) ∷ nulled rest

unfoldable pub handle_quick_action : Bool → QuickAction → State → State
unfolding send
handle_quick_action read_only action s = if read_only then s else elim action.settings [
  | some entries ↦ send false (scoped transient entries) s
  | none ↦ elim s.settings [
    | none ↦ s
    | some settings ↦ send false (scoped transient (nulled settings.transient)) s
  ]
]

pub data Event : Type 0 where
  settings_arrive : ClusterSettings → Event
  resets : SettingRow → Event
  edits_key edits_value : String → Event
  edits_scope : Scope → Event
  submits : Event
  acts : QuickAction → Event
  update_done : Result Json → Event

unfoldable pub update_settles : Result Json → State → State
update_settles (ok j) s =
    if s.applies
    then record s { update = settled (ok j); new_key = ""; new_value = "" }
    else record s { update = settled (ok j) }
update_settles (throw f) s = record s { update = settled {A = Json} (throw f) }

-- A control that is disabled does nothing. "Reset" is not disabled while a call is pending.
unfoldable pub step : Bool → Event → State → State
unfolding handle_reset handle_apply_setting handle_quick_action update_settles
step read_only (settings_arrive c) s = record s { settings = some c }
step read_only (resets row) s = handle_reset read_only row.key row.scope s
step read_only (edits_key v) s = if read_only then s else record s { new_key = v }
step read_only (edits_value v) s = if read_only then s else record s { new_value = v }
step read_only (edits_scope v) s = if read_only then s else record s { new_scope = v }
step read_only submits s =
    if read_only || is_pending s.update || not (truthy (trim s.new_key))
    then s
    else handle_apply_setting read_only s
step read_only (acts action) s =
    if is_pending s.update || read_only then s else handle_quick_action read_only action s
step read_only (update_done r) s = if is_pending s.update then update_settles r s else s

unfoldable pub run : Bool → List Event → State → State
run read_only [] s = s
run read_only (e ∷ es) s = run read_only es (step read_only e s)
