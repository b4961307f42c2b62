-- ===== src/Settings/Writes.antt =====
-- What the settings page sends.
use elastic_ops.Prelude.{true, false, none, some, List, [], ◌∷◌, ◌≡◌, refl, ◌∙◌, arith}
use elastic_ops.Api.Client.{ok, throw}
use elastic_ops.Api.Es.{ClusterSettings}
use elastic_ops.Api.Mutation.{is_pending}
use elastic_ops.Settings.{
  transient, scoped, QuickAction, State, initial, nulled, Event, acts, update_done, step, run,
}

step_read_only : (e : Event) (s : State) → (step true e s).sent ≡ s.sent
unfolding step
step_read_only (update_done (ok j)) s = ground arith
step_read_only (update_done (throw f)) s = ground arith
step_read_only _ s = ground arith

run_read_only : (es : List Event) (s : State) → (run true es s).sent ≡ s.sent
unfolding run
run_read_only [] s = refl
run_read_only (e ∷ es) s = run_read_only es (step true e s) ∙ step_read_only e s

-- On a read-only cluster no sequence of events on the page writes a setting.
pub read_only_writes_nothing : (es : List Event) → (run true es initial).sent ≡ []
unfolding initial
read_only_writes_nothing es = run_read_only es initial

-- "Reset All Transient", on a writable cluster with its settings loaded and no call pending, sends one
-- update: it nulls every key that is transient and no other, and leaves the persistent ones alone.
pub reset_all_transient :
    (s : State) (c : ClusterSettings) (action : QuickAction)
    → s.settings ≡ some c
    → is_pending s.update ≡ false
    → action.settings ≡ none
    → (step false (acts action) s).sent ≡ scoped transient (nulled c.transient) ∷ s.sent
unfolding step
reset_all_transient s c action loaded free resets_all = rw (free, resets_all, loaded) refl
