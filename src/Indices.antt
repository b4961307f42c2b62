-- ===== src/Indices.antt =====
-- frontend/src/pages/Indices.tsx: the index table and its detail panel. The snapshot, the shards
-- and the locale are arguments.
pub mod Laws
pub mod Sorted
pub mod Actions
pub mod Shown
use Prim.Native.String.{◌++◌}
use text.Mathlib.Text.{◌==◌ as str_eq}
use elastic_ops.Prelude.{
  ℕ, ◌+◌, ◌*◌, ◌==◌, ltb, String, Bool, true, false, not, ◌&&◌, ◌||◌, Option, none, some, List, [],
  ◌∷◌, if◌then◌else◌, get_or, filter, find?, any, sum_from, compare, Ordering,
}
use elastic_ops.Prelude.Text.{truthy, includes, starts_with, show}
use elastic_ops.Prelude.Order.{sort}
use elastic_ops.Prelude.Locale.{Locale}
use elastic_ops.Api.Es.{AnalyzedIndex, AnalysisData, Opportunity, ShardInfo}
use elastic_ops.Table.{SortDir, asc, desc, Sorting, toggle_sort, directed}

-- `SortKey`
pub data SortKey : Type 0 where
  name pri rep docs size avg_shard max_seg issues : SortKey

unfoldable pub SortKey-discrete : Discrete SortKey
SortKey-discrete = hlevel

pub record Page : Type 0 where
  pub selected_index : Option String
  pub filter_text : String
  pub show_system : Bool
  pub problems_only : Bool
  pub sorting : Sorting SortKey

unfoldable pub initial : Page
initial = record {
  selected_index = none;
  filter_text = "";
  show_system = false;
  problems_only = false;
  sorting = record { key = name; dir = asc };
}

first_dir : SortKey → SortDir
first_dir name = asc
first_dir _ = desc

unfoldable pub click_header : SortKey → Page → Page
unfolding toggle_sort first_dir
click_header k p = record p { sorting = toggle_sort SortKey-discrete first_dir k p.sorting }

-- `idx.name === selectedIndex`
abbrev pub is_selected : Option String → String → Bool
is_selected none n = false
is_selected (some m) n = str_eq n m

unfoldable pub click_row : AnalyzedIndex → Page → Page
click_row idx p = record p {
  selected_index = if is_selected p.selected_index idx.name then none else some idx.name;
}

module _ (locale : Locale) where
  unfoldable pub is_visible : Page → AnalyzedIndex → Bool
  is_visible p idx =
      if not p.show_system && starts_with idx.name "."
      then false
      else if truthy p.filter_text
          && not (includes (locale.lower idx.name) (locale.lower p.filter_text))
      then false
      else true

  unfoldable pub filtered_indices : Page → List AnalyzedIndex → List AnalyzedIndex
  unfolding is_visible
  filtered_indices p indices = filter (is_visible p) indices

  unfoldable pub compare_by : SortKey → AnalyzedIndex → AnalyzedIndex → Ordering
  compare_by name a b = locale.collate a.name b.name
  compare_by pri a b = compare a.pri_count b.pri_count
  compare_by rep a b = compare a.rep_count b.rep_count
  compare_by docs a b = compare a.doc_count b.doc_count
  compare_by size a b = compare a.pri_store_bytes b.pri_store_bytes
  compare_by avg_shard a b = compare a.avg_shard_size_gb b.avg_shard_size_gb
  compare_by max_seg a b = compare a.max_segments_per_shard b.max_segments_per_shard
  compare_by issues a b = compare a.opportunity_count b.opportunity_count

  unfoldable pub sorted_indices : Page → List AnalyzedIndex → List AnalyzedIndex
  unfolding filtered_indices compare_by
  sorted_indices p indices =
      sort (directed p.sorting.dir (compare_by p.sorting.key)) (filtered_indices p indices)

unfoldable pub total_shards : List AnalyzedIndex → ℕ
total_shards = sum_from 0 (λ i. i.pri_count * (1 + i.rep_count))

unfoldable pub total_size : List AnalyzedIndex → ℕ
total_size = sum_from 0 (λ i. i.pri_store_bytes)

unfoldable pub selected_data : Page → List AnalyzedIndex → Option AnalyzedIndex
selected_data p indices = find? (λ i. is_selected p.selected_index i.name) indices

unfoldable pub selected_shards : Page → Option (List ShardInfo) → List ShardInfo
selected_shards p shards = filter (λ s. is_selected p.selected_index s.index) (get_or shards [])

-- `a.shard - b.shard || (a.prirep === "p" ? -1 : 1)`
unfoldable pub shard_order : ShardInfo → ShardInfo → Ordering
shard_order a b = elim (compare a.shard b.shard) [
  | Ordering.eq ↦ if str_eq a.prirep "p" then Ordering.lt else Ordering.gt
  | Ordering.lt ↦ Ordering.lt
  | Ordering.gt ↦ Ordering.gt
]

-- What the page shows before the table.
pub data Content : Type 0 where
  select_a_cluster query_error loading : Content
  table : AnalysisData → Content

-- `activeCluster`, the snapshot and `isError`
unfoldable pub content : Bool → Option AnalysisData → Bool → Content
content false analysis is_error = select_a_cluster
content true none is_error = if is_error then query_error else loading
content true (some a) is_error = table a

-- The stylesheet classes and texts by severity and type; a missing key reads `undefined`, which
-- `??` replaces.
unfoldable pub severity_style : String → String
severity_style s =
    if str_eq s "high"
    then "bg-eo-brick/20 text-eo-brick border-eo-brick"
    else if str_eq s "medium"
    then "bg-eo-terracotta/20 text-eo-terracotta border-eo-terracotta"
    else "bg-eo-muted/20 text-eo-stone border-eo-muted"

unfoldable pub severity_border : String → String
severity_border s =
    if str_eq s "high" then "#B8706E" else if str_eq s "medium" then "#CC8B65" else "#78716C"

unfoldable pub opp_type_label : String → String
opp_type_label t =
    if str_eq t "over-sharded"
    then "Over-sharded"
    else if str_eq t "under-sharded"
    then "Under-sharded"
    else if str_eq t "segment-fragmentation"
    then "Segment Fragmentation"
    else if str_eq t "deleted-docs"
    then "Deleted Docs"
    else if str_eq t "shard-imbalance"
    then "Shard Imbalance"
    else t

-- The recommendation's texts in the order of the source; each test that fails prints nothing.
unfoldable pub recommendation : Opportunity → String
recommendation opp =
    (if str_eq opp.type "over-sharded" then reindex else "")
    ++ (if str_eq opp.type "under-sharded" then reindex else "")
    ++ (if str_eq opp.type "segment-fragmentation"
        then "Force merge to 1 segment per shard"
        else "")
    ++ (if str_eq opp.type "shard-imbalance" then "Informational — no action needed" else "")
    ++ (if str_eq opp.type "deleted-docs" then "Force merge to reclaim disk space" else "")
  where
    reindex : String
    reindex = "Reindex with " ++ show opp.target_shards ++ " shards"

-- The buttons of the detail panel. `read_only` is `activeCluster.read_only`.
pub data Button : Type 0 where
  force_merge add_to_queue operator_actions : Button

unfoldable pub buttons : Bool → AnalyzedIndex → List Button
buttons read_only idx =
    let rest = add_to_queue ∷ (if read_only then [] else operator_actions ∷ []) in
    if any (λ o. str_eq o.type "segment-fragmentation") idx.opportunities
    then force_merge ∷ rest
    else rest

unfoldable pub segments_class : ℕ → String
segments_class n =
    if ltb 30 n
    then "text-eo-brick font-semibold"
    else if ltb 10 n
    then "text-eo-terracotta"
    else ""

-- What the user does on the page outside the forms of the operator.
pub data Event : Type 0 where
  edits_filter : String → Event
  toggles_system toggles_problems closes_panel : Event
  clicks_header : SortKey → Event
  clicks_row : AnalyzedIndex → Event

unfoldable pub step : Event → Page → Page
unfolding click_header click_row
step (edits_filter v) p = record p { filter_text = v }
step toggles_system p = record p { show_system = not p.show_system }
step toggles_problems p = record p { problems_only = not p.problems_only }
step closes_panel p = record p { selected_index = none }
step (clicks_header k) p = click_header k p
step (clicks_row idx) p = click_row idx p
