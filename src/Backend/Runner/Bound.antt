-- ===== src/Backend/Runner/Bound.antt =====
-- How many jobs are `executing`, against the slots of the runner.
use elastic_ops.Prelude.{ℕ, ◌==◌, true, false, List, [], ◌∷◌, ◌≡◌, All}
use elastic_ops.Backend.Runner.{Runner, Phase, find}
use elastic_ops.Backend.Runner.Owned.{holding, Owned}

-- No identifier twice.
abbrev pub Different : List ℕ → Type 0
Different [] = Unit
Different (i ∷ is) = All (λ j. (i == j) ≡ false) is × Different is

abbrev pub AllHold : List (ℕ × Phase) → List ℕ → Type 0
AllHold ts is = All (λ i. holding (find i ts) ≡ true) is
