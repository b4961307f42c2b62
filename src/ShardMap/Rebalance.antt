-- ===== src/ShardMap/Rebalance.antt =====
-- `RebalanceSuggestionsPanel` of frontend/src/pages/ShardMap.tsx.
use Prim.Native.String.{◌++◌}
use text.Mathlib.Text.{◌==◌ as str_eq}
use elastic_ops.Prelude.{
  ℕ, ◌+◌, ◌≤◌, String, Bool, false, ◌||◌, Option, none, some, List, [], ◌∷◌, if◌then◌else◌, ◌≡◌,
  arith, length,
}
use elastic_ops.Prelude.Text.{show}
use elastic_ops.Api.Client.{Result, ok, throw}
use elastic_ops.Api.Jobs.{Job}
use elastic_ops.Api.Es.{RebalanceSuggestion}
use elastic_ops.Api.Mutation.{Mutation, idle, pending, is_pending, settled}
use elastic_ops.ShardMap.Detail.{Relocation}

pub record State : Type 0 where
  pub relocating : Option String
  pub relocate : Mutation
  pub sent : List Relocation

unfoldable pub initial : State
initial = record { relocating = none; relocate = idle; sent = [] }

unfoldable pub suggestion_key : RebalanceSuggestion → String
suggestion_key s = s.index ++ "-" ++ show s.shard ++ "-" ++ s.from_node

-- `disabled` of "Relocate", and its label's test.
abbrev pub is_relocating : State → RebalanceSuggestion → Bool
is_relocating st s = elim st.relocating [ none ↦ false | some k ↦ str_eq k (suggestion_key s) ]

abbrev pub disabled : State → RebalanceSuggestion → Bool
disabled st s = is_relocating st s || is_pending st.relocate

abbrev pub relocation : RebalanceSuggestion → Relocation
relocation s = record {
  index = s.index;
  shard = s.shard;
  from_node = s.from_node;
  to_node = s.to_node;
}

unfoldable pub handle_relocate : RebalanceSuggestion → State → State
handle_relocate s st = record {
  relocating = some (suggestion_key s);
  relocate = pending;
  sent = relocation s ∷ st.sent;
}

pub data Event : Type 0 where
  clicks : RebalanceSuggestion → Event
  settles : Result Job → Event

unfoldable pub step : Event → State → State
unfolding handle_relocate
step (clicks s) st = if disabled st s then st else handle_relocate s st
step (settles r) st =
    if is_pending st.relocate then record st { relocating = none; relocate = settled r } else st

unfoldable pub run : List Event → State → State
run [] st = st
run (e ∷ es) st = run es (step e st)

abbrev pub in_flight : State → ℕ
in_flight st = if is_pending st.relocate then 1 else 0

-- How many calls settle on the way.
pub settlements : List Event → State → ℕ
unfolding step
settlements [] st = 0
settlements (clicks s ∷ es) st = settlements es (step (clicks s) st)
settlements (settles r ∷ es) st = in_flight st + settlements es (step (settles r) st)

step_clicks :
    (s : RebalanceSuggestion) (st : State)
    → length (step (clicks s) st).sent + in_flight st
      ≡ length st.sent + in_flight (step (clicks s) st)
unfolding step
step_clicks s st = ground arith

step_settles :
    (r : Result Job) (st : State)
    → (length (step (settles r) st).sent ≡ length st.sent) × (in_flight (step (settles r) st) ≡ 0)
unfolding step
step_settles (ok job) st = ground arith
step_settles (throw f) st = ground arith

run_balance :
    (es : List Event) (st : State)
    → length (run es st).sent + in_flight st
      ≡ length st.sent + in_flight (run es st) + settlements es st
unfolding run settlements
run_balance [] st = omega arith
run_balance (clicks s ∷ es) st =
    omega (arith, step_clicks s st, run_balance es (step (clicks s) st))
run_balance (settles r ∷ es) st =
    omega (arith, step_settles r st, run_balance es (step (settles r) st))

-- At every time the relocations sent from the panel are those that have settled and at most one more,
-- the one whose mutation is pending.
pub one_in_flight :
    (es : List Event)
    → (length (run es initial).sent ≡ settlements es initial + in_flight (run es initial))
      × (in_flight (run es initial) ≤ 1)
unfolding initial
one_in_flight es = (omega (arith, run_balance es initial), ground arith)
