-- ===== src/Jobs/Tabs/Laws.antt =====
-- What a change of the tab loses.
use elastic_ops.Prelude.{true, false, [], ◌∷◌, ◌≡◌, refl}
use elastic_ops.Api.Mutation.{is_pending}
use elastic_ops.Jobs
use elastic_ops.Jobs.{recommendations, execution}
use elastic_ops.Jobs.Detectors.{initial_detectors}
use elastic_ops.Jobs.Execution
use elastic_ops.Jobs.Execution.{executes_all, execute_all_call, shows_queue}
use elastic_ops.Jobs.Tabs.{Page, all_sent, set_tab, opens, in_execution, run}

-- Leaving the suggestions and coming back sets the tier, the sorting and the detectors as at first; the calls that
-- were sent and the job list stay.
pub suggestions_forget :
    (p : Page)
    → p.tab ≡ recommendations
    → ((run (opens execution ∷ opens recommendations ∷ []) p).suggestions ≡ Jobs.initial)
      × ((run (opens execution ∷ opens recommendations ∷ []) p).detectors ≡ initial_detectors)
      × ((run (opens execution ∷ opens recommendations ∷ []) p).execution.jobs ≡ p.execution.jobs)
      × (all_sent (run (opens execution ∷ opens recommendations ∷ []) p) ≡ all_sent p)
unfolding run set_tab all_sent Execution.initial
suggestions_forget p h = rw h (refl, refl, refl, refl)

-- "Execute All" is disabled while its call is pending, but the tab forgets that call when it is left: pressed, left,
-- opened again and pressed, the button sends a second call before the first is answered.
pub resends_after_leaving :
    (p : Page)
    → p.tab ≡ execution
    → shows_queue p.execution ≡ true
    → is_pending p.execution.execute_all ≡ false
    → all_sent (
        run
          (in_execution executes_all
            ∷ opens recommendations
            ∷ opens execution
            ∷ in_execution executes_all
            ∷ [])
          p)
      ≡ execute_all_call ∷ execute_all_call ∷ all_sent p
unfolding run set_tab all_sent Execution.initial Execution.step
resends_after_leaving p h shown idle = rw (h, shown, idle, shown) refl
