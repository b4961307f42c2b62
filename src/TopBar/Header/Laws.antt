-- ===== src/TopBar/Header/Laws.antt =====
-- The forced refresh and the interval over any use of the bar.
use elastic_ops.Prelude.{
  ℕ, ◌+◌, ◌≤◌, Bool, false, not, ◌&&◌, List, [], ◌∷◌, ◌≡◌, refl, arith, if◌then◌else◌, Bool-cases,
  inl, inr, is_some,
}
use elastic_ops.Api.Json.{Json}
use elastic_ops.Api.Client.{Result, ok, throw}
use elastic_ops.Api.Mutation.{is_pending, settled}
use elastic_ops.TopBar.Header.{
  State, Event, ticks, picks, forces, jumps, refresh_done, meta_arrives, step, run,
}

abbrev one_if : Bool → ℕ
one_if b = if b then 1 else 0

-- How many of the events are answers.
abbrev pub answers : List Event → ℕ
answers [] = 0
answers (refresh_done r ∷ es) = 1 + answers es
answers (e ∷ es) = answers es

not_pending : (r : Result Json) → is_pending (settled r) ≡ false
not_pending (ok j) = refl
not_pending (throw f) = refl

abbrev Balanced : ℕ → State → State → Type 0
Balanced n s t = t.sent + one_if (is_pending s.refresh) ≤ s.sent + n + one_if (is_pending t.refresh)

step-Balanced : (e : Event) (s : State) → Balanced (answers (e ∷ [])) s (step e s)
unfolding step
step-Balanced (ticks t) s = omega arith
step-Balanced (picks n) s = ground arith
step-Balanced forces s =
    elim (Bool-cases (is_some s.cluster && is_some s.meta && not (is_pending s.refresh))) [
      | inl g ↦ let idle : is_pending s.refresh ≡ false = ground arith in rw (g, idle) (omega arith)
      | inr g ↦ rw g (omega arith)
    ]
step-Balanced jumps s = ground arith
step-Balanced (refresh_done r) s = elim (Bool-cases (is_pending s.refresh)) [
  | inl g ↦ rw (g, not_pending r) (omega arith)
  | inr g ↦ rw (g, g) (omega arith)
]
step-Balanced (meta_arrives m) s = omega arith

answers_split : (e : Event) (es : List Event) → answers (e ∷ es) ≡ answers (e ∷ []) + answers es
answers_split (refresh_done r) es = omega arith
answers_split _ es = omega arith

run-Balanced : (es : List Event) (s : State) → Balanced (answers es) s (run es s)
unfolding run
run-Balanced [] s = omega arith
run-Balanced (e ∷ es) s =
    omega (arith, step-Balanced e s, run-Balanced es (step e s), answers_split e es)

-- Over any use of the top bar, the forced refreshes exceed those that were answered by one at most.
pub one_refresh :
    (es : List Event) (s : State)
    → is_pending s.refresh ≡ false
    → (run es s).sent ≤ s.sent + answers es + 1
one_refresh es s idle = elim (Bool-cases (is_pending (run es s).refresh)) [
  | inl g ↦
      let all : Balanced (answers es) s (run es s) = run-Balanced es s in
      omega (arith, rw (idle, g) at all)
  | inr g ↦
      let all : Balanced (answers es) s (run es s) = run-Balanced es s in
      omega (arith, rw (idle, g) at all)
]
