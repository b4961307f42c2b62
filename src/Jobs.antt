-- ===== src/Jobs.antt =====
-- frontend/src/pages/Jobs.tsx: the suggestions and the execution of jobs. The job list, the summary
-- and the locale are arguments.
pub mod Laws
pub mod Detectors
pub mod Execution
pub mod Tabs
pub mod Shown
use Prim.Native.String.{◌++◌}
use text.Mathlib.Text.{◌==◌ as str_eq}
use elastic_ops.Prelude.{
  ℕ, ◌==◌, String, Bool, true, false, not, ◌&&◌, ◌||◌, Option, none, some, List, [], ◌∷◌,
  if◌then◌else◌, get_or, filter, compare, Ordering, length,
}
use elastic_ops.Prelude.Text.{truthy, show}
use elastic_ops.Prelude.Order.{sort}
use elastic_ops.Prelude.Locale.{Locale}
use elastic_ops.Api.Jobs.{Job}
use elastic_ops.Api.Operations.{JobOperation, approve, reject, bulk_approve}
use elastic_ops.Table.{SortDir, asc, desc, Sorting, toggle_sort, directed}

pub data Tab : Type 0 where
  recommendations execution : Tab

pub data SortKey : Type 0 where
  tier status type index current target savings size : SortKey

unfoldable pub SortKey-discrete : Discrete SortKey
SortKey-discrete = hlevel

-- `TIER_LABELS[tier] ?? tier`
unfoldable pub tier_label : ℕ → String
tier_label t =
    if t == 1
    then "T1"
    else if t == 2
    then "T2"
    else if t == 3
    then "T3"
    else if t == 4
    then "T4"
    else show t

-- `STATUS_STYLES[status]`, `none` for undefined
unfoldable pub status_style : String → Option String
status_style s =
    if str_eq s "pending"
    then some "bg-eo-muted/20 text-eo-stone"
    else if str_eq s "approved"
    then some "bg-eo-amber/20 text-eo-amber"
    else if str_eq s "queued"
    then some "bg-eo-amber/10 text-eo-stone"
    else if str_eq s "executing"
    then some "bg-eo-terracotta/20 text-eo-terracotta animate-pulse-terracotta"
    else if str_eq s "completed"
    then some "bg-eo-sage/20 text-eo-sage"
    else if str_eq s "failed"
    then some "bg-eo-brick/20 text-eo-brick"
    else if str_eq s "cancelled" || str_eq s "rejected"
    then some "bg-eo-muted/20 text-eo-muted line-through"
    else none

pub record Page : Type 0 where
  pub tier_filter : Option ℕ
  pub sorting : Sorting SortKey

unfoldable pub initial : Page
initial = record { tier_filter = none; sorting = record { key = tier; dir = asc } }

first_dir : SortKey → SortDir
first_dir index = asc
first_dir _ = desc

unfoldable pub click_header : SortKey → Page → Page
unfolding toggle_sort first_dir
click_header k p = record p { sorting = toggle_sort SortKey-discrete first_dir k p.sorting }

unfoldable pub in_tier : Page → Job → Bool
in_tier p j = elim p.tier_filter [ none ↦ true | some t ↦ j.tier == t ]

abbrev pub is_suggestion : Job → Bool
is_suggestion j =
    str_eq j.status "pending" || str_eq j.status "approved" || str_eq j.status "rejected"

unfoldable pub filtered : Page → Option (List Job) → List Job
unfolding in_tier
filtered p jobs = filter (λ j. in_tier p j && is_suggestion j) (get_or jobs [])

module _ (locale : Locale) where
  unfoldable pub compare_by : SortKey → Job → Job → Ordering
  compare_by tier a b = compare a.tier b.tier
  compare_by status a b = locale.collate a.status b.status
  compare_by type a b = locale.collate a.job_type b.job_type
  compare_by index a b = locale.collate a.index_name b.index_name
  compare_by current a b = compare a.current_shards b.current_shards
  compare_by target a b = compare a.target_shards b.target_shards
  compare_by savings a b = compare a.estimated_savings_shards b.estimated_savings_shards
  compare_by size a b = compare a.pri_store_bytes b.pri_store_bytes

  unfoldable pub sorted_jobs : Page → Option (List Job) → List Job
  unfolding filtered compare_by
  sorted_jobs p jobs = sort (directed p.sorting.dir (compare_by p.sorting.key)) (filtered p jobs)

-- The buttons of a row.
unfoldable pub can_decide : Job → Bool
can_decide j = str_eq j.status "pending"

-- `JobDestination`: the label, or the two ends of an arrow.
pub data Destination : Type 0 where
  label : String → Destination
  arrow : String → String → Destination

-- A text that may be missing, as a condition.
abbrev pub given : Option String → Bool
given none = false
given (some s) = truthy s

abbrev pub text_or : Option String → String → String
text_or o d = if given o then get_or o "" else d

unfoldable pub job_destination : Job → Destination
job_destination j =
    if (str_eq j.job_type "reindex" || str_eq j.job_type "promote_index") && given j.target_index
    then arrow j.index_name (get_or j.target_index "")
    else if str_eq j.job_type "relocate_shard" && given j.from_node && given j.to_node
    then arrow (get_or j.from_node "") (get_or j.to_node "")
    else label (if truthy j.index_name then j.index_name else text_or j.node_name "—")

-- What the user does on the suggestions: the choice of a tier (`none` for all), the headers, and the
-- buttons of a row and of the bar, with the operation that each sends.
pub data Event : Type 0 where
  selects_tier : Option ℕ → Event
  clicks_header : SortKey → Event
  approves rejects : Job → Event
  approves_all : Event

unfoldable pub step : Event → Page → Page
unfolding click_header
step (selects_tier t) p = record p { tier_filter = t }
step (clicks_header k) p = click_header k p
step _ p = p

unfoldable pub operation : Event → Page → Option JobOperation
unfolding can_decide
operation (approves j) p = if can_decide j then some (approve j.id) else none
operation (rejects j) p = if can_decide j then some (reject j.id) else none
operation approves_all p = some (bulk_approve p.tier_filter)
operation _ p = none
