-- ===== src/Jobs/Shown.antt =====
-- What the two tabs of frontend/src/pages/Jobs.tsx show: the bar, the rows of the table, the summary cards,
-- and the lists of the execution. `tie_up` decides the decimal ties of `toFixed(1)`.
use Prim.Native.String.{◌++◌}
use elastic_ops.Prelude.{
  ℕ, ltb, ◌==◌, String, Bool, true, false, Option, none, some, List, [], ◌∷◌, if◌then◌else◌, length,
  map,
}
use elastic_ops.Prelude.Text.{show}
use elastic_ops.Prelude.Locale.{Locale}
use elastic_ops.Format.{format_bytes, format_number}
use elastic_ops.Api.Jobs.{Job, JobSummary}
use elastic_ops.Jobs
use elastic_ops.Jobs.{
  SortKey, tier, status, type, index, current, target, savings, size, tier_label, status_style,
  can_decide, sorted_jobs, filtered, Destination, job_destination,
}
use elastic_ops.Jobs.Execution.{with_status, listed, tier_mark, running_title}
use elastic_ops.Table.{SortDir, asc, desc}

-- The mark of a header: the direction, on the column that is sorted by.
unfoldable pub sort_mark : Bool → SortDir → Option String
sort_mark true asc = some "▲"
sort_mark true desc = some "▼"
sort_mark false dir = none

-- What the tab shows in place of its content when the list cannot be loaded: `!jobs && isError`.
unfoldable pub fails_to_load : Option (List Job) → Bool → Bool
fails_to_load none is_error = is_error
fails_to_load (some jobs) is_error = false

unfoldable pub analysis_label : Bool → String
analysis_label is_pending = if is_pending then "Analyzing..." else "Run Analysis"

unfoldable pub approve_all_label : Option ℕ → String
approve_all_label none = "Approve All"
approve_all_label (some t) = "Approve All T" ++ show t

-- `TierButton`: the choice of each button, its label, and whether it is the one that is chosen.
abbrev same_tier : Option ℕ → Option ℕ → Bool
same_tier none none = true
same_tier (some s) (some t) = s == t
same_tier _ _ = false

unfoldable pub tier_buttons : Option ℕ → List (Option ℕ × String × Bool)
tier_buttons active =
    (none, "All", same_tier active none)
    ∷ map (λ t. (some t, "T" ++ show t, same_tier active (some t))) (1 ∷ 2 ∷ 3 ∷ 4 ∷ [])

unfoldable pub counts_line : Option JobSummary → List String
counts_line none = []
counts_line (some s) =
    (show s.total ++ " total")
    ∷ (show s.pending ++ " pending")
    ∷ (show s.approved ++ " approved")
    ∷ []

pub record Row : Type 0 where
  pub tier_cell : String
  pub status_cell : String
  pub status_class : Option String
  pub type_cell : String
  pub index_cell : String
  pub current_cell : String
  pub target_cell : String
  pub savings_cell : String
  pub size_cell : String
  pub has_buttons : Bool

unfoldable pub row : (ℕ → ℕ) → Job → Row
unfolding tier_label status_style can_decide format_bytes
row log_floor j = record {
  tier_cell = tier_label j.tier;
  status_cell = j.status;
  status_class = status_style j.status;
  type_cell = j.job_type;
  index_cell = j.index_name;
  current_cell = show j.current_shards;
  target_cell = show j.target_shards;
  savings_cell =
      if ltb 0 j.estimated_savings_shards then "-" ++ show j.estimated_savings_shards else "-";
  size_cell = format_bytes log_floor j.pri_store_bytes;
  has_buttons = can_decide j;
}

unfoldable pub rows : (ℕ → ℕ) → Locale → Jobs.Page → Option (List Job) → List Row
unfolding sorted_jobs row
rows log_floor locale p jobs = map (row log_floor) (sorted_jobs locale p jobs)

-- `filtered.length === 0`
unfoldable pub shows_hint : Jobs.Page → Option (List Job) → Bool
unfolding filtered
shows_hint p jobs = length (filtered p jobs) == 0

pub record Card : Type 0 where
  pub label : String
  pub text : String
  pub color : String
  pub pulse : Bool

module _ (tie_up : ℕ → ℕ → Bool) where
  unfoldable pub summary_card : String → ℕ → String → Bool → Card
  unfolding format_number
  summary_card label n color pulse = record {
    label = label;
    text = format_number tie_up n;
    color = color;
    pulse = pulse;
  }

  unfoldable pub summary_cards : Option JobSummary → List Card
  unfolding summary_card
  summary_cards none = []
  summary_cards (some s) =
      summary_card "Approved" s.approved "text-eo-amber" false
      ∷ summary_card "Executing" s.executing "text-eo-terracotta" (ltb 0 s.executing)
      ∷ summary_card "Completed" s.completed "text-eo-sage" false
      ∷ summary_card "Failed" s.failed "text-eo-brick" false
      ∷ []

-- A line of one of the lists of the execution: tier, type, destination and what stands last.
pub record Line : Type 0 where
  pub mark : Option String
  pub kind : String
  pub destination : Destination
  pub last : String

unfoldable pub queue_line : (ℕ → ℕ) → Job → Line
unfolding job_destination format_bytes
queue_line log_floor j = record {
  mark = if ltb 0 j.tier then (if ltb 4 j.tier then none else some (tier_label j.tier)) else none;
  kind = j.job_type;
  destination = job_destination j;
  last = format_bytes log_floor j.pri_store_bytes;
}

unfoldable pub waiting_line : (ℕ → ℕ) → Job → Line
unfolding tier_mark job_destination format_bytes
waiting_line log_floor j = record {
  mark = tier_mark j;
  kind = j.job_type;
  destination = job_destination j;
  last = format_bytes log_floor j.pri_store_bytes;
}

-- `job.progress || "running…"`
unfoldable pub running_line : Job → Line
unfolding tier_mark job_destination
running_line j = record {
  mark = tier_mark j;
  kind = j.job_type;
  destination = job_destination j;
  last = Jobs.text_or j.progress "running…";
}

unfoldable pub completed_line : (ℕ → ℕ) → Job → Line
unfolding job_destination format_bytes
completed_line log_floor j = record {
  mark = none;
  kind = j.job_type;
  destination = job_destination j;
  last = format_bytes log_floor j.pri_store_bytes;
}

unfoldable pub failed_line : Job → String × String × Option String
failed_line j =
    (j.job_type, j.index_name, if Jobs.given j.error_message then j.error_message else none)

-- The lists, with the titles of those that have one with a count.
pub record Lists : Type 0 where
  pub queue : Option (String × List Line)
  pub waiting : Option (String × List Line)
  pub running : Option (String × List Line)
  pub completed : List Line
  pub failed : List (String × String × Option String)

abbrev titled : {A : Type 0} → List Job → (ℕ → String) → List A → Option (String × List A)
titled jobs title lines = if ltb 0 (length jobs) then some (title (length jobs), lines) else none

unfoldable pub lists : (ℕ → ℕ) → Option (List Job) → Option ℕ → Lists
unfolding listed queue_line waiting_line running_line completed_line failed_line running_title
    with_status
lists log_floor jobs cap = record {
  queue =
      titled (with_status "approved" jobs) (λ n. "Queue (" ++ show n ++ " approved)")
        (map (queue_line log_floor) (listed "approved" jobs));
  waiting =
      titled (with_status "queued" jobs) (λ n. "Queued (" ++ show n ++ ")")
        (map (waiting_line log_floor) (listed "queued" jobs));
  running =
      titled (with_status "executing" jobs) (λ n. running_title n cap)
        (map running_line (listed "executing" jobs));
  completed = map (completed_line log_floor) (listed "completed" jobs);
  failed = map failed_line (listed "failed" jobs);
}
