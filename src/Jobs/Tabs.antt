-- ===== src/Jobs/Tabs.antt =====
-- `Jobs` of frontend/src/pages/Jobs.tsx: the two tabs. The tab that is not shown is not mounted, and its
-- state starts anew when it is shown again; the job list stays in the cache of the queries.
pub mod Laws
use Prim.Native.String.{◌++◌}
use text.Mathlib.Text.{◌==◌ as str_eq}
use elastic_ops.Prelude.{
  ℕ, ltb, ◌==◌, String, Bool, true, false, Option, none, some, List, [], ◌∷◌, ◌++◌ as append,
  if◌then◌else◌, get_or, length, map,
}
use elastic_ops.Prelude.Text.{show}
use elastic_ops.Prelude.Locale.{Locale}
use elastic_ops.Format.{format_bytes, format_number}
use elastic_ops.Api.Jobs.{Job, JobSummary}
use elastic_ops.Jobs
use elastic_ops.Jobs.{
  Tab, recommendations, execution, SortKey, tier_label, status_style, can_decide, sorted_jobs,
  filtered, job_destination, Destination, text_or,
}
use elastic_ops.Jobs.Detectors.{initial_detectors, toggle_detector}
use elastic_ops.Jobs.Execution
use elastic_ops.Table.{SortDir, asc, desc}

pub record Page : Type 0 where
  pub tab : Tab
  pub suggestions : Jobs.Page
  pub detectors : List String
  pub execution : Execution.State
  -- the calls of execution tabs that are gone
  pub sent_before : List Execution.Call

unfoldable pub initial : Page
initial = record {
  tab = recommendations;
  suggestions = Jobs.initial;
  detectors = initial_detectors;
  execution = Execution.initial;
  sent_before = [];
}

unfoldable pub all_sent : Page → List Execution.Call
all_sent p = append p.execution.sent p.sent_before

-- The tab that is left is unmounted.
unfoldable pub set_tab : Tab → Page → Page
set_tab recommendations p = elim p.tab [
  | recommendations ↦ p
  | execution ↦ record p {
    tab = recommendations;
    execution = record Execution.initial { jobs = p.execution.jobs };
    sent_before = append p.execution.sent p.sent_before;
  }
]
set_tab execution p = elim p.tab [
  | recommendations ↦ record p {
    tab = execution;
    suggestions = Jobs.initial;
    detectors = initial_detectors;
  }
  | execution ↦ p
]

pub data Event : Type 0 where
  opens : Tab → Event
  in_suggestions : Jobs.Event → Event
  toggles_detector : String → Event
  in_execution : Execution.Event → Event

unfoldable pub step : Event → Page → Page
unfolding set_tab
step (opens t) p = set_tab t p
step (in_suggestions e) p = elim p.tab [
  | recommendations ↦ record p { suggestions = Jobs.step e p.suggestions }
  | execution ↦ p
]
step (toggles_detector k) p = elim p.tab [
  | recommendations ↦ record p { detectors = toggle_detector k p.detectors }
  | execution ↦ p
]
step (in_execution e) p = elim p.tab [
  | recommendations ↦ p
  | execution ↦ record p { execution = Execution.step e p.execution }
]

unfoldable pub run : List Event → Page → Page
unfolding step
run [] p = p
run (e ∷ es) p = run es (step e p)
