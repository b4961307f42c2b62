-- ===== src/Rest/Laws.antt =====
-- What the REST console sends.

use elastic_ops.Prelude.{
  ℕ, zero, suc, ◌+◌, String, true, false, List, [], ◌∷◌, ◌≡◌, ◌⊎◌, inl, inr, refl, arith, All,
  length,
}
use elastic_ops.Rest.{
  Sent, State, initial, is_read_verb, Event, selects_method, edits_body, presses_enter, clicks_send,
  step, run, shows_body,
}

abbrev pub Reads : Sent → Type 0
Reads r = is_read_verb r.method ≡ true

step-Reads : (e : Event) (s : State) → All Reads s.sent → All Reads (step true e s).sent
unfolding step
step-Reads presses_enter s h = ground arith
step-Reads clicks_send s h = ground arith
step-Reads _ s h = ground arith

run-Reads : (es : List Event) (s : State) → All Reads s.sent → All Reads (run true es s).sent
unfolding run
run-Reads [] s h = h
run-Reads (e ∷ es) s h = run-Reads es (step true e s) (step-Reads e s h)

-- On a read-only cluster every request that the console sends, by the button or by the Enter key, is a
-- GET or a HEAD.
pub read_only-Reads : (es : List Event) → All Reads (run true es initial).sent
unfolding initial
read_only-Reads es = run-Reads es initial tt

abbrev pub presses : ℕ → List Event
presses zero = []
presses (suc n) = presses_enter ∷ presses n

-- On a writable cluster n presses of the Enter key send n requests, whether or not a call is pending,
-- in which case the button is disabled.
pub enter_resends : (n : ℕ) (s : State) → length (run false (presses n) s).sent ≡ n + length s.sent
unfolding run step
enter_resends zero s = omega arith
enter_resends (suc n) s = omega (arith, enter_resends n (step false presses_enter s))

-- A body that was typed for a POST or a PUT is kept and sent when the method is changed to GET or
-- DELETE, though its editor is no longer shown.
pub hidden_body_sent :
    (s : State) (b m : String)
    → shows_body s ≡ true
    → (m ≡ "GET") ⊎ (m ≡ "DELETE")
    → (shows_body (run false (edits_body b ∷ selects_method m ∷ []) s) ≡ false)
      × ((run false (edits_body b ∷ selects_method m ∷ presses_enter ∷ []) s).sent
          ≡ record { method = m; path = s.path; body = b } ∷ s.sent)
unfolding run step
hidden_body_sent s b m shown (inl q) = rw (q, shown) (refl, refl)
hidden_body_sent s b m shown (inr q) = rw (q, shown) (refl, refl)
