-- ===== src/ErrorBoundary.antt =====
-- frontend/src/components/ErrorBoundary.tsx: what is shown after an error while rendering. An error
-- is its message. The fallback takes the place of the app, which then throws no further error.
use elastic_ops.Prelude.{
  String, Bool, true, false, Option, none, some, List, [], ◌∷◌, ◌≡◌, map, get_or, if◌then◌else◌,
  refl,
}

pub record State : Type 0 where
  pub has_error : Bool
  pub error : Option String

unfoldable pub initial : State
initial = record { has_error = false; error = none }

unfoldable pub get_derived_state_from_error : String → State
get_derived_state_from_error message = record { has_error = true; error = some message }

pub data Shown : Type 0 where
  children : Shown
  fallback : String → Shown

unfoldable pub render : State → Shown
render s =
    if s.has_error then fallback (get_or s.error "An unexpected error occurred.") else children

pub data Event : Type 0 where
  throws : String → Event
  presses_reload : Event

unfoldable pub step : Event → State → State
unfolding get_derived_state_from_error initial
step (throws message) s = if s.has_error then s else get_derived_state_from_error message
step presses_reload s = if s.has_error then initial else s

unfoldable pub run : List Event → State → State
unfolding step
run [] s = s
run (e ∷ es) s = run es (step e s)

stays_caught :
    (message : String) (later : List String)
    → run (map throws later) (get_derived_state_from_error message)
      ≡ get_derived_state_from_error message
unfolding run
stays_caught message [] = refl
stays_caught message (m ∷ later) = stays_caught message later

-- The message of the first error stays until the page is reloaded, and the reload shows the app again.
fallback_until_reload :
    (message : String) (later : List String)
    → (render (run (map throws (message ∷ later)) initial) ≡ fallback message)
      × (render (step presses_reload (run (map throws (message ∷ later)) initial)) ≡ children)
unfolding run render
fallback_until_reload message later =
    let stays = stays_caught message later in (rw stays refl, rw stays refl)
