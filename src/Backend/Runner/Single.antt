-- ===== src/Backend/Runner/Single.antt =====
-- How many tasks of the job runner a job has.
use elastic_ops.Prelude.{
  ℕ, zero, suc, ◌+◌, ◌==◌, Option, none, some, List, [], ◌∷◌, ◌≡◌, refl, arith, Bool-cases, inl,
  inr, ==_iff, if◌then◌else◌, ◌≤◌, ◌≢◌,
}
use elastic_ops.Backend.Runner.{
  Runner, Phase, waiting, withdrawing, finalizing, interrupted, writes_if, writes, slotted, opened,
  running, find, put, remove, release, step, Event, submits_if, acquires_if, opens_if, starts_if,
  ends_if, cancels_if, queues_if, queues, submits, acquires, opens, starts, cancels, ends, restarts,
  Status, queued, approved, Outcome, status_after, finalize, mark_cancelled, is_terminal,
}

abbrev pub times : ℕ → List (ℕ × Phase) → ℕ
times i [] = 0
times i ((j, p) ∷ ts) = (if j == i then 1 else 0) + times i ts

pub times-remove :
    (i : ℕ) (p : Phase) (ts : List (ℕ × Phase))
    → find i ts ≡ some p
    → times i (remove i ts) + 1 ≡ times i ts
times-remove i p [] h = cc
times-remove i p ((j, q) ∷ ts) h = ground (arith, times-remove i p ts)

pub times-put : (i j : ℕ) (p : Phase) (ts : List (ℕ × Phase)) → times i (put j p ts) ≡ times i ts
times-put i j p [] = refl
times-put i j p ((k, q) ∷ ts) = ground (arith, times-put i j p ts)

times-remove-le : (i j : ℕ) (ts : List (ℕ × Phase)) → times i (remove j ts) ≤ times i ts
times-remove-le i j [] = omega arith
times-remove-le i j ((k, q) ∷ ts) = ground (arith, times-remove-le i j ts)

pub times-none :
    (i : ℕ) (ts : List (ℕ × Phase))
    → (find i ts ≡ none → times i ts ≡ 0) × (times i ts ≡ 0 → find i ts ≡ none)
times-none i [] = ((λ h. refl), (λ h. refl))
times-none i ((j, q) ∷ ts) =
    let (there, back) = times-none i ts in
    elim (Bool-cases (j == i)) [
      | inl e ↦ rw e ((λ h. cc), (λ h. absurd (omega arith)))
      | inr e ↦ rw e ((λ h. omega (arith, there h)), (λ h. back (omega arith)))
    ]

module _ (i : ℕ) where
  abbrev pub Single : Runner → Type 0
  Single r = times i r.tasks ≤ 1

  finalize-Single :
      (j : ℕ) (st : Status) (o : Option Status) (r : Runner)
      → Single r
      → Single (release j (finalize j st o r))
  finalize-Single j st none r h = omega (arith, times-remove-le i j r.tasks)
  finalize-Single j st (some old) r h = elim (Bool-cases (is_terminal old)) [
    | inl done ↦ rw done (omega (arith, times-remove-le i j r.tasks))
    | inr open_row ↦ rw open_row (omega (arith, times-remove-le i j r.tasks))
  ]

  queues-Single : (j : ℕ) (o : Option Status) (r : Runner) → Single r → Single (queues_if j o r)
  unfolding queues_if
  queues-Single j (some approved) r h = h
  queues-Single j none r h = h
  queues-Single j (some _) r h = h

  submits-Single :
      (j : ℕ) (o : Option Phase) (r : Runner)
      → find j r.tasks ≡ o
      → Single r
      → Single (submits_if j o r)
  unfolding submits_if
  submits-Single j none r e h = elim (Bool-cases (j == i)) [
    | inl y ↦
        let same : j ≡ i = (==_iff j i).0 y in
        rw y (omega (arith, (times-none i r.tasks).0 (rw same at e)))
    | inr other ↦ rw other (omega arith)
  ]
  submits-Single j (some p) r e h = h

  acquires-Single :
      (j : ℕ) (o : Option Phase) (n : ℕ) (r : Runner) → Single r → Single (acquires_if j o n r)
  unfolding acquires_if
  acquires-Single j (some waiting) (suc n) r h = omega (arith, times-put i j slotted r.tasks)
  acquires-Single j (some waiting) zero r h = h
  acquires-Single j none n r h = h
  acquires-Single j (some _) n r h = h

  opens-Single :
      (j : ℕ) (o : Option Phase) (s : Option Status) (r : Runner)
      → Single r
      → Single (opens_if j o s r)
  unfolding opens_if
  opens-Single j (some slotted) (some queued) r h = omega (arith, times-put i j opened r.tasks)
  opens-Single j (some slotted) none r h = omega (arith, times-remove-le i j r.tasks)
  opens-Single j (some slotted) (some _) r h = omega (arith, times-remove-le i j r.tasks)
  opens-Single j none s r h = h
  opens-Single j (some _) s r h = h

  starts-Single : (j : ℕ) (o : Option Phase) (r : Runner) → Single r → Single (starts_if j o r)
  unfolding starts_if
  starts-Single j (some opened) r h = omega (arith, times-put i j running r.tasks)
  starts-Single j none r h = h
  starts-Single j (some _) r h = h

  ends-Single :
      (j : ℕ) (st : Outcome) (o : Option Phase) (r : Runner) → Single r → Single (ends_if j st o r)
  unfolding ends_if
  ends-Single j st (some running) r h = omega (arith, times-put i j (finalizing st) r.tasks)
  ends-Single j st none r h = h
  ends-Single j st (some _) r h = h

  marked-Single :
      (j : ℕ) (o : Option Status) (r : Runner)
      → Single r
      → times i (remove j (mark_cancelled j o r).tasks) ≤ 1
  marked-Single j (some queued) r h = omega (arith, times-remove-le i j r.tasks)
  marked-Single j none r h = omega (arith, times-remove-le i j r.tasks)
  marked-Single j (some _) r h = omega (arith, times-remove-le i j r.tasks)

  cancels-Single : (j : ℕ) (o : Option Phase) (r : Runner) → Single r → Single (cancels_if j o r)
  unfolding cancels_if
  cancels-Single j none r h = h
  cancels-Single j (some waiting) r h = omega (arith, times-put i j withdrawing r.tasks)
  cancels-Single j (some withdrawing) r h = omega (arith, times-remove-le i j r.tasks)
  cancels-Single j (some slotted) r h = omega (arith, times-remove-le i j r.tasks)
  cancels-Single j (some opened) r h = omega (arith, times-remove-le i j r.tasks)
  cancels-Single j (some running) r h =
      omega (arith, times-put i j (finalizing interrupted) r.tasks)
  cancels-Single j (some (finalizing _)) r h = omega (arith, times-remove-le i j r.tasks)

  writes-Single : (j : ℕ) (o : Option Phase) (r : Runner) → Single r → Single (writes_if j o r)
  unfolding writes_if
  writes-Single j (some withdrawing) r h = marked-Single j (find j r.rows) r h
  writes-Single j (some (finalizing o)) r h = finalize-Single j (status_after o) (find j r.rows) r h
  writes-Single j none r h = h
  writes-Single j (some _) r h = h

  pub step-Single : (e : Event) (r : Runner) → e ≢ restarts → Single r → Single (step e r)
  unfolding step
  step-Single (queues j) r apart h = queues-Single j (find j r.rows) r h
  step-Single (submits j) r apart h = submits-Single j (find j r.tasks) r refl h
  step-Single (acquires j) r apart h = acquires-Single j (find j r.tasks) r.free r h
  step-Single (opens j) r apart h = opens-Single j (find j r.tasks) (find j r.rows) r h
  step-Single (starts j) r apart h = starts-Single j (find j r.tasks) r h
  step-Single (writes j) r apart h = writes-Single j (find j r.tasks) r h
  step-Single (cancels j) r apart h = cancels-Single j (find j r.tasks) r h
  step-Single (ends j o) r apart h = ends-Single j o (find j r.tasks) r h
  step-Single restarts r apart h = absurd (apart refl)
