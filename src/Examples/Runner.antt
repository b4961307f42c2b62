-- ===== src/Examples/Runner.antt =====
-- The job runner on concrete interleavings.
use elastic_ops.Prelude.{ℕ, none, some, List, [], ◌∷◌, ◌≡◌, ◌≢◌, refl, All}
use elastic_ops.Backend.Runner.{
  Event, completed, submits, acquires, opens, starts, cancels, ends, writes, returns, restarts,
  Status, queued, executing, find, run, started,
}
use elastic_ops.Backend.Runner.Slots.{SlotsKept, slots_kept}
use elastic_ops.Backend.Runner.Final.{terminal_stays}
use elastic_ops.Backend.Runner.Stranded.{stranding, stays_executing}

abbrev table : List (ℕ × Status)
table = (1, queued) ∷ (2, queued) ∷ []

abbrev two_jobs : List Event
two_jobs = submits 1 ∷ submits 2 ∷ acquires 1 ∷ acquires 2 ∷ opens 1 ∷ starts 1 ∷ []

abbrev later : List Event
later =
    submits 2
    ∷ acquires 2
    ∷ submits 1
    ∷ opens 2
    ∷ starts 2
    ∷ cancels 1
    ∷ ends 2 returns
    ∷ writes 2
    ∷ []

no_restart : All (λ e. e ≢ restarts) later
no_restart = (
  (λ e. cc),
  ((λ e. cc), ((λ e. cc), ((λ e. cc), ((λ e. cc), ((λ e. cc), ((λ e. cc), ((λ e. cc), tt))))))),
)

stays_executing_example :
    ((run (stranding 1) (started 1 table)).free ≡ 1)
    × (find 1 (run (stranding 1) (started 1 table)).tasks ≡ none)
    × (find 1 (run later (run (stranding 1) (started 1 table))).rows ≡ some executing)
stays_executing_example = stays_executing 1 0 (started 1 table) later refl refl refl no_restart

-- A job that is completed is submitted and cancelled again after that.
abbrev again : List Event
again = submits 1 ∷ acquires 1 ∷ opens 1 ∷ cancels 1 ∷ restarts ∷ []

terminal_stays_example :
    find 1 (run again (started 1 ((1, completed) ∷ table))).rows ≡ some completed
terminal_stays_example =
    terminal_stays 1 completed again (started 1 ((1, completed) ∷ table)) refl refl

slots_kept_example : SlotsKept (run later (started 1 table))
slots_kept_example = slots_kept later (started 1 table) refl
