-- ===== src/Backend/Runner/Owned.antt =====
-- The rows of the job runner that are `executing`, and the tasks that stand behind them.
use elastic_ops.Prelude.{
  ℕ, zero, suc, ◌==◌, Bool, true, false, Option, none, some, List, [], ◌∷◌, ◌≡◌, ◌≢◌, refl, arith,
  Bool-cases, inl, inr, ==_iff,
}
use elastic_ops.Backend.Runner.{
  Runner, Phase, waiting, withdrawing, finalizing, interrupted, writes_if, writes, slotted, opened,
  running, find, put, remove, release, step, run, Event, submits_if, acquires_if, opens_if,
  starts_if, ends_if, cancels_if, queues_if, recover, queues, submits, acquires, opens, starts,
  cancels, ends, restarts, Status, queued, approved, executing, cancelled, Outcome, status_after,
  returns, raises, finalize, mark_cancelled, is_terminal, requeue, requeued, pending, completed,
  failed, rejected,
}
use elastic_ops.Backend.Runner.Elsewhere.{
  find-put_other, find-put_self, find-remove_other, Elsewhere,
}

abbrev pub holding : Option Phase → Bool
holding (some opened) = true
holding (some running) = true
holding (some (finalizing _)) = true
holding _ = false

-- A job that is `executing` has a task past the first session.
abbrev pub Owned : Runner → Type 0
Owned r = (i : ℕ) → find i r.rows ≡ some executing → holding (find i r.tasks) ≡ true

Owned-of_local :
    (i : ℕ) (r t : Runner)
    → Elsewhere i r t
    → (find i t.rows ≡ some executing → holding (find i t.tasks) ≡ true)
    → Owned r
    → Owned t
Owned-of_local i r t elsewhere here k j = elim (Bool-cases (i == j)) [
  | inl e ↦ let same : i ≡ j = (==_iff i j).0 e in rw (← same) here
  | inr e ↦ let (rows, tasks) = elsewhere j e in rw (rows, tasks) (k j)
]

-- A task without the mark of `holding` is not that of an executing job.
idle_row :
    (i : ℕ) (r : Runner) (o : Option Phase)
    → Owned r
    → find i r.tasks ≡ o
    → holding o ≡ false
    → find i r.rows ≢ some executing
idle_row i r o k h idle e = let there : holding o ≡ true = rw h at (k i e) in cc

queues-Owned :
    (i : ℕ) (o : Option Status) (r : Runner) → find i r.rows ≡ o → Owned r → Owned (queues_if i o r)
unfolding queues_if
queues-Owned i (some approved) r h k =
    Owned-of_local i r (queues_if i (some approved) r)
      (λ j e. (find-put_other i j queued r.rows e, refl))
      (λ e. let now = find-put_self i queued approved r.rows h in cc) k
queues-Owned i none r h k = k
queues-Owned i (some _) r h k = k

submits-Owned :
    (i : ℕ) (o : Option Phase) (r : Runner)
    → find i r.tasks ≡ o
    → Owned r
    → Owned (submits_if i o r)
unfolding submits_if
submits-Owned i none r h k =
    Owned-of_local i r (submits_if i none r) (λ j e. (refl, rw e refl))
      (λ e. absurd (idle_row i r none k h refl e)) k
submits-Owned i (some p) r h k = k

acquires-Owned :
    (i : ℕ) (o : Option Phase) (n : ℕ) (r : Runner)
    → find i r.tasks ≡ o
    → Owned r
    → Owned (acquires_if i o n r)
unfolding acquires_if
acquires-Owned i (some waiting) (suc n) r h k =
    Owned-of_local i r (acquires_if i (some waiting) (suc n) r)
      (λ j e. (refl, find-put_other i j slotted r.tasks e))
      (λ e. absurd (idle_row i r (some waiting) k h refl e)) k
acquires-Owned i none n r h k = k
acquires-Owned i (some waiting) zero r h k = k
acquires-Owned i (some _) n r h k = k

release-Owned :
    (i : ℕ) (r : Runner) → find i r.rows ≢ some executing → Owned r → Owned (release i r)
release-Owned i r idle k =
    Owned-of_local i r (release i r) (λ j e. (refl, find-remove_other i j r.tasks e))
      (λ e. absurd (idle e)) k

opens-Owned :
    (i : ℕ) (o : Option Phase) (s : Option Status) (r : Runner)
    → find i r.tasks ≡ o
    → Owned r
    → Owned (opens_if i o s r)
unfolding opens_if
opens-Owned i (some slotted) (some queued) r h k =
    Owned-of_local i r (opens_if i (some slotted) (some queued) r)
      (λ j e. (find-put_other i j executing r.rows e, find-put_other i j opened r.tasks e))
      (λ e. rw (find-put_self i opened slotted r.tasks h) refl) k
opens-Owned i (some slotted) none r h k = release-Owned i r (idle_row i r (some slotted) k h refl) k
opens-Owned i (some slotted) (some _) r h k =
    release-Owned i r (idle_row i r (some slotted) k h refl) k
opens-Owned i none s r h k = k
opens-Owned i (some _) s r h k = k

starts-Owned :
    (i : ℕ) (o : Option Phase) (r : Runner) → find i r.tasks ≡ o → Owned r → Owned (starts_if i o r)
unfolding starts_if
starts-Owned i (some opened) r h k =
    Owned-of_local i r (starts_if i (some opened) r)
      (λ j e. (refl, find-put_other i j running r.tasks e))
      (λ e. rw (find-put_self i running opened r.tasks h) refl) k
starts-Owned i none r h k = k
starts-Owned i (some _) r h k = k

-- After `_finalize` the row is not executing.
finalize-Owned :
    (i : ℕ) (st : Status) (o : Option Status) (r : Runner)
    → find i r.rows ≡ o
    → is_terminal st ≡ true
    → Owned r
    → Owned (release i (finalize i st o r))
finalize-Owned i st none r h final k = release-Owned i r (λ e. cc) k
finalize-Owned i st (some old) r h final k = elim (Bool-cases (is_terminal old)) [
  | inl done ↦
      rw done (release-Owned i r (λ e. let now : old ≡ executing = ground arith in ground arith) k)
  | inr open_row ↦ rw open_row (
      Owned-of_local i r (release i (record r { rows = put i st r.rows }))
        (λ j e. (find-put_other i j st r.rows e, find-remove_other i j r.tasks e))
        (λ e. let now = find-put_self i st old r.rows h in ground arith) k)
]

dropped-Owned :
    (i : ℕ) (r : Runner)
    → find i r.tasks ≡ some withdrawing
    → Owned r
    → Owned (record r { tasks = remove i r.tasks })
dropped-Owned i r w k =
    Owned-of_local i r (record r { tasks = remove i r.tasks })
      (λ j e. (refl, find-remove_other i j r.tasks e))
      (λ e. absurd (idle_row i r (some withdrawing) k w refl e)) k

marked-Owned :
    (i : ℕ) (o : Option Status) (r : Runner)
    → find i r.rows ≡ o
    → find i r.tasks ≡ some withdrawing
    → Owned r
    → Owned (let r' = mark_cancelled i o r in record r' { tasks = remove i r'.tasks })
marked-Owned i (some queued) r h w k =
    Owned-of_local i r (record r { rows = put i cancelled r.rows; tasks = remove i r.tasks })
      (λ j e. (find-put_other i j cancelled r.rows e, find-remove_other i j r.tasks e))
      (λ e. let now = find-put_self i cancelled queued r.rows h in cc) k
marked-Owned i none r h w k = dropped-Owned i r w k
marked-Owned i (some _) r h w k = dropped-Owned i r w k

requeued_idle : (s : Status) → some (requeued s) ≢ some executing
requeued_idle executing e = cc
requeued_idle pending e = cc
requeued_idle approved e = cc
requeued_idle queued e = cc
requeued_idle completed e = cc
requeued_idle failed e = cc
requeued_idle cancelled e = cc
requeued_idle rejected e = cc

-- A task that goes from one phase to another past its first session keeps its row owned.
moved-Owned :
    (i : ℕ) (p q : Phase) (r : Runner)
    → find i r.tasks ≡ some p
    → holding (some q) ≡ true
    → Owned r
    → Owned (record r { tasks = put i q r.tasks })
moved-Owned i p q r h past k =
    Owned-of_local i r (record r { tasks = put i q r.tasks })
      (λ j e. (refl, find-put_other i j q r.tasks e)) (λ e. rw (find-put_self i q p r.tasks h) past)
      k

ends-Owned :
    (i : ℕ) (st : Outcome) (o : Option Phase) (r : Runner)
    → find i r.tasks ≡ o
    → Owned r
    → Owned (ends_if i st o r)
unfolding ends_if
ends-Owned i st (some running) r h k = moved-Owned i running (finalizing st) r h refl k
ends-Owned i st none r h k = k
ends-Owned i st (some _) r h k = k

terminal_after : (o : Outcome) → is_terminal (status_after o) ≡ true
terminal_after returns = refl
terminal_after raises = refl
terminal_after interrupted = refl

writes-Owned :
    (i : ℕ) (o : Option Phase) (r : Runner) → find i r.tasks ≡ o → Owned r → Owned (writes_if i o r)
unfolding writes_if
writes-Owned i (some withdrawing) r h k = marked-Owned i (find i r.rows) r refl h k
writes-Owned i (some (finalizing o)) r h k =
    finalize-Owned i (status_after o) (find i r.rows) r refl (terminal_after o) k
writes-Owned i none r h k = k
writes-Owned i (some _) r h k = k

-- Between the first session and the `try`, or inside `_finalize`
abbrev pub exposed : Option Phase → Bool
exposed (some opened) = true
exposed (some (finalizing _)) = true
exposed _ = false

cancels-Owned :
    (i : ℕ) (o : Option Phase) (r : Runner)
    → find i r.tasks ≡ o
    → exposed o ≡ false
    → Owned r
    → Owned (cancels_if i o r)
unfolding cancels_if
cancels-Owned i none r h apart k = k
cancels-Owned i (some waiting) r h apart k =
    Owned-of_local i r (cancels_if i (some waiting) r)
      (λ j e. (refl, find-put_other i j withdrawing r.tasks e))
      (λ e. absurd (idle_row i r (some waiting) k h refl e)) k
cancels-Owned i (some withdrawing) r h apart k = dropped-Owned i r h k
cancels-Owned i (some slotted) r h apart k =
    release-Owned i r (idle_row i r (some slotted) k h refl) k
cancels-Owned i (some opened) r h apart k = cc
cancels-Owned i (some running) r h apart k =
    moved-Owned i running (finalizing interrupted) r h refl k
cancels-Owned i (some (finalizing _)) r h apart k = cc

requeue_idle : (i : ℕ) (rows : List (ℕ × Status)) → find i (requeue rows) ≢ some executing
requeue_idle i [] e = cc
requeue_idle i ((j, s) ∷ rows) e = elim (Bool-cases (j == i)) [
  | inl y ↦ requeued_idle s (rw y at e)
  | inr other ↦ requeue_idle i rows (rw other at e)
]

-- The events but a cancellation between the first session and the executor or inside `_finalize`.
abbrev pub Allowed : Event → Runner → Type 0
Allowed (cancels i) r = exposed (find i r.tasks) ≡ false
Allowed _ r = Unit

abbrev pub AllAllowed : List Event → Runner → Type 0
AllAllowed [] r = Unit
AllAllowed (e ∷ es) r = Allowed e r × AllAllowed es (step e r)

step-Owned : (e : Event) (r : Runner) → Allowed e r → Owned r → Owned (step e r)
unfolding step recover
step-Owned (queues i) r a k = queues-Owned i (find i r.rows) r refl k
step-Owned (submits i) r a k = submits-Owned i (find i r.tasks) r refl k
step-Owned (acquires i) r a k = acquires-Owned i (find i r.tasks) r.free r refl k
step-Owned (opens i) r a k = opens-Owned i (find i r.tasks) (find i r.rows) r refl k
step-Owned (starts i) r a k = starts-Owned i (find i r.tasks) r refl k
step-Owned (cancels i) r a k = cancels-Owned i (find i r.tasks) r refl a k
step-Owned (writes i) r a k = writes-Owned i (find i r.tasks) r refl k
step-Owned (ends i o) r a k = ends-Owned i o (find i r.tasks) r refl k
step-Owned restarts r a k = λ i e. absurd (requeue_idle i r.rows e)

pub run-Owned : (es : List Event) (r : Runner) → AllAllowed es r → Owned r → Owned (run es r)
unfolding run
run-Owned [] r a k = k
run-Owned (e ∷ es) r a k = run-Owned es (step e r) a.1 (step-Owned e r a.0 k)
