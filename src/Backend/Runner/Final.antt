-- ===== src/Backend/Runner/Final.antt =====
-- What becomes of a row of the job runner that has a terminal status.
use elastic_ops.Prelude.{
  ℕ, zero, suc, ◌==◌, true, Option, none, some, List, [], ◌∷◌, ◌≡◌, refl, ◌∙◌, arith, Bool-cases,
  inl, inr, ==_iff,
}
use elastic_ops.Backend.Runner.{
  Runner, Phase, waiting, withdrawing, slotted, opened, running, finalizing, find, step, run, Event,
  submits_if, acquires_if, opens_if, starts_if, ends_if, writes_if, cancels_if, queues_if, recover,
  queues, submits, acquires, opens, starts, ends, writes, cancels, restarts, Status, approved,
  queued, executing, Outcome, mark_cancelled, is_terminal, requeue, requeued,
}
use elastic_ops.Backend.Runner.Elsewhere.{
  Elsewhere, queues-Elsewhere, opens-Elsewhere, writes-Elsewhere,
}

submits-rows : (i : ℕ) (o : Option Phase) (r : Runner) → (submits_if i o r).rows ≡ r.rows
unfolding submits_if
submits-rows i none r = refl
submits-rows i (some p) r = refl

acquires-rows :
    (i : ℕ) (o : Option Phase) (n : ℕ) (r : Runner) → (acquires_if i o n r).rows ≡ r.rows
unfolding acquires_if
acquires-rows i (some waiting) (suc n) r = refl
acquires-rows i (some waiting) zero r = refl
acquires-rows i none n r = refl
acquires-rows i (some _) n r = refl

starts-rows : (i : ℕ) (o : Option Phase) (r : Runner) → (starts_if i o r).rows ≡ r.rows
unfolding starts_if
starts-rows i (some opened) r = refl
starts-rows i none r = refl
starts-rows i (some _) r = refl

ends-rows : (i : ℕ) (e : Outcome) (o : Option Phase) (r : Runner) → (ends_if i e o r).rows ≡ r.rows
unfolding ends_if
ends-rows i e (some running) r = refl
ends-rows i e none r = refl
ends-rows i e (some _) r = refl

cancels-rows : (i : ℕ) (o : Option Phase) (r : Runner) → (cancels_if i o r).rows ≡ r.rows
unfolding cancels_if
cancels-rows i none r = refl
cancels-rows i (some waiting) r = refl
cancels-rows i (some withdrawing) r = refl
cancels-rows i (some slotted) r = refl
cancels-rows i (some opened) r = refl
cancels-rows i (some running) r = refl
cancels-rows i (some (finalizing _)) r = refl

queues-rows :
    (i : ℕ) (s : Status) (r : Runner)
    → is_terminal s ≡ true
    → (queues_if i (some s) r).rows ≡ r.rows
unfolding queues_if
queues-rows i approved r h = cc
queues-rows i _ r h = refl

opens-rows :
    (i : ℕ) (o : Option Phase) (s : Status) (r : Runner)
    → is_terminal s ≡ true
    → (opens_if i o (some s) r).rows ≡ r.rows
unfolding opens_if
opens-rows i (some slotted) queued r h = cc
opens-rows i (some slotted) _ r h = refl
opens-rows i none s r h = refl
opens-rows i (some _) s r h = refl

marked-rows :
    (i : ℕ) (s : Status) (r : Runner)
    → is_terminal s ≡ true
    → (mark_cancelled i (some s) r).rows ≡ r.rows
marked-rows i queued r h = cc
marked-rows i _ r h = refl

writes-rows :
    (i : ℕ) (o : Option Phase) (s : Status) (r : Runner)
    → find i r.rows ≡ some s
    → is_terminal s ≡ true
    → (writes_if i o r).rows ≡ r.rows
unfolding writes_if
writes-rows i (some withdrawing) s r row h = rw row (marked-rows i s r h)
writes-rows i (some (finalizing e)) s r row h = rw row (rw h refl)
writes-rows i none s r row h = refl
writes-rows i (some _) s r row h = refl

requeued_terminal : (s : Status) → is_terminal s ≡ true → requeued s ≡ s
requeued_terminal executing h = cc
requeued_terminal _ h = refl

find-requeue :
    (i : ℕ) (s : Status) (rows : List (ℕ × Status))
    → is_terminal s ≡ true
    → find i rows ≡ some s
    → find i (requeue rows) ≡ some s
find-requeue i s [] h row = row
find-requeue i s ((j, t) ∷ rows) h row = elim (Bool-cases (j == i)) [
  | inl e ↦ let same : t ≡ s = ground arith in rw (e, same, requeued_terminal s h) refl
  | inr e ↦ rw e (find-requeue i s rows h (rw e at row))
]

module _ (i : ℕ) (s : Status) where
  abbrev Has : Runner → Type 0
  Has r = find i r.rows ≡ some s

  -- A step on another job leaves the row alone; one on the job itself leaves the rows alone.
  by_target : (j : ℕ) (r t : Runner) → Elsewhere j r t → (j ≡ i → t.rows ≡ r.rows) → Has r → Has t
  by_target j r t elsewhere own h = elim (Bool-cases (j == i)) [
    | inl e ↦ let same = own ((==_iff j i).0 e) in rw same h
    | inr e ↦ let (rows, tasks) = elsewhere i e in rows ∙ h
  ]

  step-Has : (e : Event) (r : Runner) → is_terminal s ≡ true → Has r → Has (step e r)
  unfolding step recover
  step-Has (queues j) r t h =
      by_target j r (queues_if j (find j r.rows) r) (queues-Elsewhere j (find j r.rows) r)
        (λ e. rw (e, h) (queues-rows i s r t)) h
  step-Has (submits j) r t h = rw (submits-rows j (find j r.tasks) r) h
  step-Has (acquires j) r t h = rw (acquires-rows j (find j r.tasks) r.free r) h
  step-Has (opens j) r t h =
      by_target j r (opens_if j (find j r.tasks) (find j r.rows) r)
        (opens-Elsewhere j (find j r.tasks) (find j r.rows) r)
        (λ e. rw (e, h) (opens-rows i (find i r.tasks) s r t)) h
  step-Has (starts j) r t h = rw (starts-rows j (find j r.tasks) r) h
  step-Has (writes j) r t h =
      by_target j r (writes_if j (find j r.tasks) r) (writes-Elsewhere j (find j r.tasks) r)
        (λ e. rw e (writes-rows i (find i r.tasks) s r h t)) h
  step-Has (cancels j) r t h = rw (cancels-rows j (find j r.tasks) r) h
  step-Has (ends j o) r t h = rw (ends-rows j o (find j r.tasks) r) h
  step-Has restarts r t h = find-requeue i s r.rows t h

-- A row with a terminal status (completed, failed, cancelled or rejected) keeps it over every interleaving of
-- submissions, cancellations, ends of executors, writes of `_finalize` and restarts.
pub terminal_stays :
    (i : ℕ) (s : Status) (es : List Event) (r : Runner)
    → is_terminal s ≡ true
    → find i r.rows ≡ some s
    → find i (run es r).rows ≡ some s
unfolding run
terminal_stays i s [] r t h = h
terminal_stays i s (e ∷ es) r t h = terminal_stays i s es (step e r) t (step-Has i s e r t h)
