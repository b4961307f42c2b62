-- ===== src/Backend/Runner/Stranded.antt =====
-- What becomes of a job that is cancelled between its first session and its executor.
use elastic_ops.Prelude.{
  ℕ, zero, suc, ◌+◌, ◌==◌, true, false, Option, none, some, List, [], ◌∷◌, ◌≡◌, refl, arith,
  Bool-cases, inl, inr, ==_iff, ◌≤◌, ◌≢◌, All,
}
use elastic_ops.Backend.Runner.{
  Runner, Phase, waiting, withdrawing, finalizing, writes_if, writes, slotted, opened, running,
  find, put, remove, step, run, Event, submits_if, acquires_if, opens_if, starts_if, ends_if,
  cancels_if, queues_if, queues, submits, acquires, opens, starts, cancels, ends, restarts, queued,
  executing, Outcome,
}
use elastic_ops.Backend.Runner.Elsewhere.{
  find-put_self, Elsewhere, queues-Elsewhere, submits-Elsewhere, acquires-Elsewhere,
  opens-Elsewhere, starts-Elsewhere, ends-Elsewhere, cancels-Elsewhere, writes-Elsewhere,
}
use elastic_ops.Backend.Runner.Owned.{holding}
use elastic_ops.Backend.Runner.Single.{times, times-remove, times-none, step-Single}

-- The row says `executing`, no executor will run for it, and the job has one task at most.
record IsStuck (i : ℕ) (r : Runner) : Type 0 where
  row : find i r.rows ≡ some executing
  idle : holding (find i r.tasks) ≡ false
  single : times i r.tasks ≤ 1

module _ (i : ℕ) where
  -- The two parts of `IsStuck` that a step on the job itself keeps.
  abbrev Here : Runner → Type 0
  Here r = (find i r.rows ≡ some executing) × (holding (find i r.tasks) ≡ false)

  removed :
      (ts : List (ℕ × Phase)) {p : Phase}
      → find i ts ≡ some p
      → times i ts ≤ 1
      → find i (remove i ts) ≡ none
  removed ts {p} h one = (times-none i (remove i ts)).1 (omega (arith, times-remove i p ts h))

  submits-Here :
      (o : Option Phase) (r : Runner) → find i r.tasks ≡ o → Here r → Here (submits_if i o r)
  unfolding submits_if
  submits-Here none r e h = let own : (i == i) ≡ true = (==_iff i i).1 refl in (h.0, rw own refl)
  submits-Here (some p) r e h = h

  acquires-Here :
      (o : Option Phase) (n : ℕ) (r : Runner)
      → find i r.tasks ≡ o
      → Here r
      → Here (acquires_if i o n r)
  unfolding acquires_if
  acquires-Here (some waiting) (suc n) r e h =
      (h.0, rw (find-put_self i slotted waiting r.tasks e) refl)
  acquires-Here (some waiting) zero r e h = h
  acquires-Here none n r e h = h
  acquires-Here (some _) n r e h = h

  opens-Here :
      (o : Option Phase) (r : Runner)
      → find i r.tasks ≡ o
      → times i r.tasks ≤ 1
      → Here r
      → Here (opens_if i o (some executing) r)
  unfolding opens_if
  opens-Here (some slotted) r e one h = (h.0, rw (removed r.tasks e one) refl)
  opens-Here none r e one h = h
  opens-Here (some _) r e one h = h

  starts-Here :
      (o : Option Phase) (r : Runner) → find i r.tasks ≡ o → Here r → Here (starts_if i o r)
  unfolding starts_if
  starts-Here (some opened) r e h = let clash : true ≡ false = rw e at h.1 in cc
  starts-Here none r e h = h
  starts-Here (some _) r e h = h

  ends-Here :
      (st : Outcome) (o : Option Phase) (r : Runner)
      → find i r.tasks ≡ o
      → Here r
      → Here (ends_if i st o r)
  unfolding ends_if
  ends-Here st (some running) r e h = let clash : true ≡ false = rw e at h.1 in cc
  ends-Here st none r e h = h
  ends-Here st (some _) r e h = h

  cancels-Here :
      (o : Option Phase) (r : Runner)
      → find i r.tasks ≡ o
      → times i r.tasks ≤ 1
      → Here r
      → Here (cancels_if i o r)
  unfolding cancels_if
  cancels-Here none r e one h = h
  cancels-Here (some waiting) r e one h =
      (h.0, rw (find-put_self i withdrawing waiting r.tasks e) refl)
  cancels-Here (some withdrawing) r e one h = (h.0, rw (removed r.tasks e one) refl)
  cancels-Here (some slotted) r e one h = (h.0, rw (removed r.tasks e one) refl)
  cancels-Here (some opened) r e one h = let clash : true ≡ false = rw e at h.1 in cc
  cancels-Here (some running) r e one h = let clash : true ≡ false = rw e at h.1 in cc
  cancels-Here (some (finalizing _)) r e one h = let clash : true ≡ false = rw e at h.1 in cc

  writes-Here :
      (o : Option Phase) (r : Runner)
      → find i r.tasks ≡ o
      → times i r.tasks ≤ 1
      → Here r
      → Here (writes_if i o r)
  unfolding writes_if
  writes-Here (some withdrawing) r e one h = rw (h.0) (h.0, rw (removed r.tasks e one) refl)
  writes-Here (some (finalizing _)) r e one h = let clash : true ≡ false = rw e at h.1 in cc
  writes-Here none r e one h = h
  writes-Here (some _) r e one h = h

  -- A step on another job leaves both parts as they are.
  by_target : (j : ℕ) (r t : Runner) → Elsewhere j r t → (j ≡ i → Here t) → Here r → Here t
  by_target j r t elsewhere own h = elim (Bool-cases (j == i)) [
    | inl e ↦ own ((==_iff j i).0 e)
    | inr e ↦ let (rows, tasks) = elsewhere i e in (rw rows h.0, rw tasks h.1)
  ]

  step-Here : (e : Event) (r : Runner) → e ≢ restarts → IsStuck i r → Here (step e r)
  unfolding step queues_if submits_if
  step-Here (queues j) r apart v =
      by_target j r (queues_if j (find j r.rows) r) (queues-Elsewhere j (find j r.rows) r)
        (λ e. rw (e, v.row) (v.row, v.idle)) (v.row, v.idle)
  step-Here (submits j) r apart v =
      by_target j r (submits_if j (find j r.tasks) r) (submits-Elsewhere j (find j r.tasks) r)
        (λ e. rw e (submits-Here (find i r.tasks) r refl (v.row, v.idle))) (v.row, v.idle)
  step-Here (acquires j) r apart v =
      by_target j r (acquires_if j (find j r.tasks) r.free r)
        (acquires-Elsewhere j (find j r.tasks) r.free r)
        (λ e. rw e (acquires-Here (find i r.tasks) r.free r refl (v.row, v.idle))) (v.row, v.idle)
  step-Here (opens j) r apart v =
      by_target j r (opens_if j (find j r.tasks) (find j r.rows) r)
        (opens-Elsewhere j (find j r.tasks) (find j r.rows) r)
        (λ e. rw (e, v.row) (opens-Here (find i r.tasks) r refl v.single (v.row, v.idle)))
        (v.row, v.idle)
  step-Here (starts j) r apart v =
      by_target j r (starts_if j (find j r.tasks) r) (starts-Elsewhere j (find j r.tasks) r)
        (λ e. rw e (starts-Here (find i r.tasks) r refl (v.row, v.idle))) (v.row, v.idle)
  step-Here (writes j) r apart v =
      by_target j r (writes_if j (find j r.tasks) r) (writes-Elsewhere j (find j r.tasks) r)
        (λ e. rw e (writes-Here (find i r.tasks) r refl v.single (v.row, v.idle))) (v.row, v.idle)
  step-Here (cancels j) r apart v =
      by_target j r (cancels_if j (find j r.tasks) r) (cancels-Elsewhere j (find j r.tasks) r)
        (λ e. rw e (cancels-Here (find i r.tasks) r refl v.single (v.row, v.idle))) (v.row, v.idle)
  step-Here (ends j o) r apart v =
      by_target j r (ends_if j o (find j r.tasks) r) (ends-Elsewhere j o (find j r.tasks) r)
        (λ e. rw e (ends-Here o (find i r.tasks) r refl (v.row, v.idle))) (v.row, v.idle)
  step-Here restarts r apart v = absurd (apart refl)

  run_stuck :
      (es : List Event) (r : Runner)
      → All (λ e. e ≢ restarts) es
      → IsStuck i r
      → find i (run es r).rows ≡ some executing
  unfolding run
  run_stuck [] r a v = v.row
  run_stuck (e ∷ es) r a v =
      let (row, idle) = step-Here e r a.0 v in
      run_stuck es (step e r) a.1
        (record { row = row; idle = idle; single = step-Single i e r a.0 v.single })

-- The events of a job that is cancelled after its first session, before its executor is entered.
abbrev pub stranding : ℕ → List Event
stranding i = submits i ∷ acquires i ∷ opens i ∷ cancels i ∷ []

run-stranding :
    (i n : ℕ) (r : Runner)
    → find i r.rows ≡ some queued
    → find i r.tasks ≡ none
    → r.free ≡ suc n
    → run (stranding i) r ≡ record r { rows = put i executing r.rows; free = n + 1 }
unfolding run submits_if acquires_if opens_if cancels_if
run-stranding i n r row fresh free =
    let own : (i == i) ≡ true = (==_iff i i).1 refl in
    rw (fresh, own, free, own, row) (rw (own, own, own, own) refl)

-- With a slot free, a queued job without a task that is submitted and cancelled right after its first session has no
-- task then and its slot is free again, and it stays `executing` over every later interleaving without a restart.
pub stays_executing :
    (i n : ℕ) (r : Runner) (es : List Event)
    → find i r.rows ≡ some queued
    → find i r.tasks ≡ none
    → r.free ≡ suc n
    → All (λ e. e ≢ restarts) es
    → ((run (stranding i) r).free ≡ r.free)
      × (find i (run (stranding i) r).tasks ≡ none)
      × (find i (run es (run (stranding i) r)).rows ≡ some executing)
stays_executing i n r es row fresh free later = rw (run-stranding i n r row fresh free) (
  omega (arith, free),
  fresh,
  run_stuck i es (record r { rows = put i executing r.rows; free = n + 1 }) later
      (record {
        row = find-put_self i executing queued r.rows row;
        idle = rw fresh refl;
        single = omega (arith, (times-none i r.tasks).0 fresh);
      }),
)
