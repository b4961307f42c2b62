-- ===== src/Overview/Unassigned/Laws.antt =====
-- What the panel of unassigned shards sends and shows.
use elastic_ops.Prelude.{Bool, true, false, none, List, [], ◌∷◌, ◌≡◌, ◌⊎◌, inl, refl, ◌∙◌, arith}
use elastic_ops.Api.Client.{ok, throw}
use elastic_ops.Api.Mutation.{is_pending}
use elastic_ops.Overview.Unassigned.{State, initial, Event, retry_done, step, run}

record Inv (s : State) : Type 0 where
  -- While a call runs no banner is shown, and the panel stays armed.
  quiet :
      is_pending s.retry ≡ true
      → (s.retry_error ≡ none) × (s.retry_success ≡ false) × (s.confirming_retry ≡ true)
  one_banner : (s.retry_success ≡ false) ⊎ (s.retry_error ≡ none)

step-Inv : (ro : Bool) (e : Event) (s : State) → Inv s → Inv (step ro e s)
unfolding step
step-Inv ro (retry_done (ok j)) s v = ground arith
step-Inv ro (retry_done (throw f)) s v = ground arith
step-Inv ro _ s v = ground arith

run-Inv : (ro : Bool) (es : List Event) (s : State) → Inv s → Inv (run ro es s)
unfolding run
run-Inv ro [] s v = v
run-Inv ro (e ∷ es) s v = run-Inv ro es (step ro e s) (step-Inv ro e s v)

initial-Inv : Inv initial
unfolding initial
initial-Inv = record { quiet = λ h. cc; one_banner = inl refl }

-- Over every sequence of events the panel never shows the banners of a success and of a failure at
-- once.
pub one_retry_banner :
    (ro : Bool) (es : List Event)
    → ((run ro es initial).retry_success ≡ false) ⊎ ((run ro es initial).retry_error ≡ none)
one_retry_banner ro es = (run-Inv ro es initial initial-Inv).one_banner

step_read_only : (e : Event) (s : State) → (step true e s).sent ≡ s.sent
unfolding step
step_read_only (retry_done (ok j)) s = ground arith
step_read_only (retry_done (throw f)) s = ground arith
step_read_only _ s = ground arith

run_read_only : (es : List Event) (s : State) → (run true es s).sent ≡ s.sent
unfolding run
run_read_only [] s = refl
run_read_only (e ∷ es) s = run_read_only es (step true e s) ∙ step_read_only e s

-- On a read-only cluster no sequence of events retries an allocation.
pub read_only_retries_nothing : (es : List Event) → (run true es initial).sent ≡ 0
unfolding initial
read_only_retries_nothing es = run_read_only es initial
