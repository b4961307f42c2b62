-- ===== src/Examples/Pages.antt =====
-- The settings, jobs, REST and cluster pages on concrete inputs.

use elastic_ops.Prelude.{
  arith, ℕ, true, false, none, some, List, [], ◌∷◌, ◌≡◌, ◌↔◌, get_or, All, refl,
}
use elastic_ops.Prelude.Locale.{code_points}
use elastic_ops.Api.Client.{ok}
use elastic_ops.Api.Clusters.{Cluster}
use elastic_ops.Api.Es.{ClusterSettings}
use elastic_ops.Api.Mutation.{idle}
use elastic_ops.Settings
use elastic_ops.Settings.{rows, resets, submits}
use elastic_ops.Settings.Rows.{shown_row}
use elastic_ops.Settings.Rows.Once.{rows_of, at_most_one, rows_of-rows}
use elastic_ops.Settings.Writes.{read_only_writes_nothing}
use elastic_ops.Rest
use elastic_ops.Rest.{selects_method, presses_enter, clicks_send}
use elastic_ops.Rest.Laws.{Reads, read_only-Reads}
use elastic_ops.Jobs.Detectors.{
  Detector, over_sharded, deleted_docs, key, selected, toggles, initial_detectors, analysis_request,
  analysis_disabled,
}
use elastic_ops.Jobs.Detectors.Laws.{analysis_request_iff}
use elastic_ops.Clusters.{natural, Context, active_cluster}
use elastic_ops.Clusters.Dialog.{Dialog, Added, create_settles, added_is_active}

abbrev small : ClusterSettings
small = record {
  persistent = ("a", "1") ∷ [];
  transient = ("a", "2") ∷ ("b", "3") ∷ [];
  defaults = ("a", "0") ∷ ("c", "4") ∷ [];
}

rows_of-rows_example :
    rows_of "a" (rows code_points "c" small) ≡ at_most_one (shown_row code_points "c" small "a")
rows_of-rows_example = rows_of-rows code_points "c" small "a" (omega arith) (omega arith)

abbrev resets_a : List Settings.Event
resets_a =
    Settings.edits_key "x"
    ∷ resets (record {
      key = "a";
      scope = Settings.persistent;
      value = "1";
      default_value = "0";
      is_modified = true;
    })
    ∷ submits
    ∷ []

read_only_writes_nothing_example : (Settings.run true resets_a Settings.initial).sent ≡ []
read_only_writes_nothing_example = read_only_writes_nothing resets_a

abbrev deletes : List Rest.Event
deletes = selects_method "DELETE" ∷ presses_enter ∷ selects_method "GET" ∷ clicks_send ∷ []

read_only-Reads_example : All Reads (Rest.run true deletes Rest.initial).sent
read_only-Reads_example = read_only-Reads deletes

abbrev chips : List Detector
chips = over_sharded ∷ deleted_docs ∷ over_sharded ∷ []

analysis_request_iff_example :
    ((analysis_request (toggles chips initial_detectors) ≡ none)
      ↔ ((d : Detector) → selected (key d) (toggles chips initial_detectors) ≡ true))
    × ((analysis_request (toggles chips initial_detectors) ≡ some (toggles chips initial_detectors))
        ↔ ¬ ((d : Detector) → selected (key d) (toggles chips initial_detectors) ≡ true))
    × ((analysis_disabled false (toggles chips initial_detectors) ≡ true)
        ↔ ((d : Detector) → selected (key d) (toggles chips initial_detectors) ≡ false))
analysis_request_iff_example = analysis_request_iff chips

abbrev pub cluster : ℕ → Cluster
cluster n = record {
  id = n;
  name = "c";
  url = "http://es";
  username = "";
  verify_ssl = true;
  is_active = true;
  created_at = "";
  read_only = none;
}

abbrev pub clusters : List Cluster
clusters = cluster 1 ∷ cluster 2 ∷ cluster 3 ∷ []

abbrev pub context : Context
context = record { active_id = some (natural 1); refresh_interval = natural 15000; storage = [] }

abbrev dialog : Dialog
dialog = record {
  is_open = true;
  cluster = none;
  name = "c";
  url = "http://es";
  username = "";
  password = "";
  verify_ssl = true;
  read_only = false;
  is_active = true;
  error = none;
  create = idle;
  update = idle;
  sent = [];
}

abbrev adding : Added
adding = record { dialog = dialog; context = context; clusters = some clusters }

added_is_active_example :
    active_cluster
      (create_settles (ok (cluster 4)) adding).context.active_id
      (get_or (create_settles (ok (cluster 4)) adding).clusters [])
    ≡ some (cluster 4)
added_is_active_example = added_is_active (cluster 4) adding (refl, (refl, (refl, tt)))
