-- ===== src/Nodes.antt =====
-- frontend/src/pages/Nodes.tsx: the node table and its detail panel. The snapshot and the locale are
-- arguments. Percentages are hundredths. The drain controls are a child.
pub mod Laws
pub mod Drain
pub mod Shown
use text.Mathlib.Text.{◌==◌ as str_eq}
use elastic_ops.Prelude.{
  ℕ, ltb, leb, String, Bool, true, false, not, ◌&&◌, ◌||◌, Option, none, some, List, [], ◌∷◌,
  if◌then◌else◌, get_or, filter, find?, any, length, take, min, compare, Ordering,
}
use elastic_ops.Prelude.Text.{truthy, includes}
use elastic_ops.Prelude.Order.{sort, negate}
use elastic_ops.Prelude.Locale.{Locale}
use elastic_ops.Api.Es.{NodeInfoEx, ShardInfo}
use elastic_ops.Api.Jobs.{Job}
use elastic_ops.Table.{SortDir, asc, desc, Sorting, toggle_sort, directed}

-- `DiskBar`: the colour and the width of the bar.
unfoldable pub disk_bar_color : ℕ → String
disk_bar_color percent =
    if ltb 8500 percent
    then "bg-eo-brick"
    else if leb 7000 percent
    then "bg-eo-terracotta"
    else "bg-eo-sage"

unfoldable pub disk_bar_width : ℕ → ℕ
disk_bar_width percent = min percent 10000

-- The dot in front of the name.
unfoldable pub disk_dot : ℕ → String
disk_dot percent = if ltb 8500 percent then "bg-eo-brick" else "bg-eo-sage"

pub data SortKey : Type 0 where
  name ip role version disk heap cpu load shards storage : SortKey

unfoldable pub SortKey-discrete : Discrete SortKey
SortKey-discrete = hlevel

pub record Page : Type 0 where
  pub selected_node : Option String
  pub filter_text : String
  pub role_filter : String
  pub sorting : Sorting SortKey

unfoldable pub initial : Page
initial = record {
  selected_node = none;
  filter_text = "";
  role_filter = "All";
  sorting = record { key = name; dir = asc };
}

abbrev pub role_filter_options : List String
role_filter_options = "All" ∷ "hot" ∷ "warm" ∷ "cold" ∷ "data" ∷ "master" ∷ "coord" ∷ []

first_dir : SortKey → SortDir
first_dir name = asc
first_dir _ = desc

unfoldable pub click_header : SortKey → Page → Page
unfolding toggle_sort first_dir
click_header k p = record p { sorting = toggle_sort SortKey-discrete first_dir k p.sorting }

-- `n.name === selectedNode`
abbrev pub is_selected : Option String → String → Bool
is_selected none n = false
is_selected (some m) n = str_eq n m

unfoldable pub click_row : NodeInfoEx → Page → Page
click_row n p = record p {
  selected_node = if is_selected p.selected_node n.name then none else some n.name;
}

module _ (locale : Locale) where
  unfoldable pub matches_text : Page → NodeInfoEx → Bool
  matches_text p n =
      not (truthy p.filter_text)
      || includes (locale.lower n.name) (locale.lower p.filter_text)
      || includes n.role p.filter_text

  unfoldable pub matches_role : Page → NodeInfoEx → Bool
  matches_role p n = str_eq p.role_filter "All" || str_eq n.tier p.role_filter

  unfoldable pub filtered_nodes : Page → Option (List NodeInfoEx) → List NodeInfoEx
  unfolding matches_text matches_role
  filtered_nodes p nodes = filter (λ n. matches_text p n && matches_role p n) (get_or nodes [])

  -- `localeCompare` for the texts, the difference for the numbers.
  unfoldable pub compare_by : SortKey → NodeInfoEx → NodeInfoEx → Ordering
  compare_by name a b = locale.collate a.name b.name
  compare_by ip a b = locale.collate a.ip b.ip
  compare_by role a b = locale.collate a.tier b.tier
  compare_by version a b = locale.collate a.version b.version
  compare_by disk a b = compare a.disk_used_percent b.disk_used_percent
  compare_by heap a b = compare a.heap_percent b.heap_percent
  compare_by cpu a b = compare a.cpu b.cpu
  compare_by load a b = compare a.load_1m b.load_1m
  compare_by shards a b = compare a.shard_count b.shard_count
  compare_by storage a b = compare a.disk_used b.disk_used

  unfoldable pub sorted_nodes : Page → Option (List NodeInfoEx) → List NodeInfoEx
  unfolding filtered_nodes compare_by
  sorted_nodes p nodes =
      sort (directed p.sorting.dir (compare_by p.sorting.key)) (filtered_nodes p nodes)

unfoldable pub selected_node_data : Page → List NodeInfoEx → Option NodeInfoEx
selected_node_data p nodes = find? (λ n. is_selected p.selected_node n.name) nodes

-- `s.node === selectedNode`, where both may be null.
unfoldable pub on_selected : Page → ShardInfo → Bool
on_selected p s = elim s.node [
  | none ↦ elim p.selected_node [ none ↦ true | some m ↦ false ]
  | some n ↦ is_selected p.selected_node n
]

unfoldable pub selected_node_shards : Page → Option (List ShardInfo) → List ShardInfo
unfolding on_selected
selected_node_shards p infos = filter (on_selected p) (get_or infos [])

-- `.sort((a, b) => b.store - a.store).slice(0, 15)`
unfoldable pub top_shards : List ShardInfo → List ShardInfo
top_shards infos = take 15 (sort (λ a b. compare b.store a.store) infos)

-- The role cards.
unfoldable pub master_nodes : List NodeInfoEx → List NodeInfoEx
master_nodes nodes = filter (λ n. str_eq n.tier "master") nodes

abbrev pub data_tiers : List String
data_tiers = "hot" ∷ "warm" ∷ "cold" ∷ "data" ∷ []

unfoldable pub data_nodes : List NodeInfoEx → List NodeInfoEx
data_nodes nodes = filter (λ n. any (λ t. str_eq t n.tier) data_tiers) nodes

unfoldable pub coord_nodes : List NodeInfoEx → List NodeInfoEx
coord_nodes nodes = filter (λ n. str_eq n.tier "coord") nodes

-- The job whose progress the drain controls show.
unfoldable pub drain_job : String → Option (List Job) → Option Job
drain_job node_name jobs =
    find?
      (λ j.
        str_eq j.job_type "drain_node"
        && str_eq j.status "executing"
        && is_selected j.node_name node_name)
      (get_or jobs [])

-- What the user does on the page outside the drain controls.
pub data Event : Type 0 where
  edits_filter selects_role : String → Event
  clicks_header : SortKey → Event
  clicks_row : NodeInfoEx → Event
  closes_panel : Event

unfoldable pub step : Event → Page → Page
unfolding click_header click_row
step (edits_filter v) p = record p { filter_text = v }
step (selects_role r) p =
    if any (λ o. str_eq o r) role_filter_options then record p { role_filter = r } else p
step (clicks_header k) p = click_header k p
step (clicks_row n) p = click_row n p
step closes_panel p = record p { selected_node = none }
