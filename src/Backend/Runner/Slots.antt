-- ===== src/Backend/Runner/Slots.antt =====
-- The slots of the semaphore of the job runner: the free ones and those that tasks hold.
use elastic_ops.Prelude.{ℕ, zero, suc, ◌+◌, Option, none, some, List, [], ◌∷◌, ◌≡◌, refl, arith}
use elastic_ops.Backend.Runner.{
  Runner, Phase, waiting, withdrawing, finalizing, interrupted, writes_if, writes, slotted, opened,
  running, find, put, remove, release, step, run, Event, submits_if, acquires_if, opens_if,
  starts_if, ends_if, cancels_if, queues_if, queues, submits, acquires, opens, starts, cancels,
  ends, restarts, Status, Outcome, finalize, mark_cancelled, queued, approved, status_after,
  resubmitted, requeue,
}

abbrev pub holds : Phase → ℕ
holds waiting = 0
holds withdrawing = 0
holds _ = 1

abbrev pub holders : List (ℕ × Phase) → ℕ
holders [] = 0
holders ((i, p) ∷ ts) = holds p + holders ts

pub holders-put :
    (i : ℕ) (p q : Phase) (ts : List (ℕ × Phase))
    → find i ts ≡ some p
    → holders (put i q ts) + holds p ≡ holders ts + holds q
holders-put i p q [] h = cc
holders-put i p q ((j, r) ∷ ts) h = ground (arith, holders-put i p q ts)

pub holders-remove :
    (i : ℕ) (p : Phase) (ts : List (ℕ × Phase))
    → find i ts ≡ some p
    → holders (remove i ts) + holds p ≡ holders ts
holders-remove i p [] h = cc
holders-remove i p ((j, r) ∷ ts) h = ground (arith, holders-remove i p ts)

abbrev pub SlotsKept : Runner → Type 0
SlotsKept r = r.free + holders r.tasks ≡ r.max_concurrent

acquires-SlotsKept :
    (i : ℕ) (o : Option Phase) (n : ℕ) (r : Runner)
    → find i r.tasks ≡ o
    → r.free ≡ n
    → SlotsKept r
    → SlotsKept (acquires_if i o n r)
unfolding acquires_if
acquires-SlotsKept i none n r h f k = k
acquires-SlotsKept i (some waiting) zero r h f k = k
acquires-SlotsKept i (some waiting) (suc n) r h f k =
    omega (arith, holders-put i waiting slotted r.tasks h)
acquires-SlotsKept i (some _) n r h f k = k

release-SlotsKept :
    (i : ℕ) (p : Phase) (r : Runner)
    → find i r.tasks ≡ some p
    → holds p ≡ 1
    → SlotsKept r
    → SlotsKept (release i r)
release-SlotsKept i p r h one k = omega (arith, holders-remove i p r.tasks h)

finalize-SlotsKept :
    (i : ℕ) (st : Status) (o : Option Status) (r : Runner)
    → SlotsKept r
    → SlotsKept (finalize i st o r)
finalize-SlotsKept i st none r k = k
finalize-SlotsKept i st (some old) r k = ground arith

finalize-tasks :
    (i : ℕ) (st : Status) (o : Option Status) (r : Runner) → (finalize i st o r).tasks ≡ r.tasks
finalize-tasks i st none r = refl
finalize-tasks i st (some old) r = ground arith

opens-SlotsKept :
    (i : ℕ) (o : Option Phase) (s : Option Status) (r : Runner)
    → find i r.tasks ≡ o
    → SlotsKept r
    → SlotsKept (opens_if i o s r)
unfolding opens_if
opens-SlotsKept i none s r h k = k
opens-SlotsKept i (some slotted) (some queued) r h k =
    omega (arith, holders-put i slotted opened r.tasks h)
opens-SlotsKept i (some slotted) none r h k = release-SlotsKept i slotted r h refl k
opens-SlotsKept i (some slotted) (some _) r h k = release-SlotsKept i slotted r h refl k
opens-SlotsKept i (some _) s r h k = k

starts-SlotsKept :
    (i : ℕ) (o : Option Phase) (r : Runner)
    → find i r.tasks ≡ o
    → SlotsKept r
    → SlotsKept (starts_if i o r)
unfolding starts_if
starts-SlotsKept i (some opened) r h k = omega (arith, holders-put i opened running r.tasks h)
starts-SlotsKept i none r h k = k
starts-SlotsKept i (some _) r h k = k

ends-SlotsKept :
    (i : ℕ) (st : Outcome) (o : Option Phase) (r : Runner)
    → find i r.tasks ≡ o
    → SlotsKept r
    → SlotsKept (ends_if i st o r)
unfolding ends_if
ends-SlotsKept i st (some running) r h k =
    omega (arith, holders-put i running (finalizing st) r.tasks h)
ends-SlotsKept i st none r h k = k
ends-SlotsKept i st (some _) r h k = k

marked-SlotsKept :
    (i : ℕ) (o : Option Status) (r : Runner)
    → (SlotsKept r → SlotsKept (mark_cancelled i o r)) × ((mark_cancelled i o r).tasks ≡ r.tasks)
marked-SlotsKept i (some queued) r = ((λ k. k), refl)
marked-SlotsKept i none r = ((λ k. k), refl)
marked-SlotsKept i (some _) r = ((λ k. k), refl)

cancels-SlotsKept :
    (i : ℕ) (o : Option Phase) (r : Runner)
    → find i r.tasks ≡ o
    → SlotsKept r
    → SlotsKept (cancels_if i o r)
unfolding cancels_if
cancels-SlotsKept i none r h k = k
cancels-SlotsKept i (some waiting) r h k =
    omega (arith, holders-put i waiting withdrawing r.tasks h)
cancels-SlotsKept i (some withdrawing) r h k = omega (arith, holders-remove i withdrawing r.tasks h)
cancels-SlotsKept i (some slotted) r h k = release-SlotsKept i slotted r h refl k
cancels-SlotsKept i (some opened) r h k = release-SlotsKept i opened r h refl k
cancels-SlotsKept i (some running) r h k =
    omega (arith, holders-put i running (finalizing interrupted) r.tasks h)
cancels-SlotsKept i (some (finalizing o)) r h k = release-SlotsKept i (finalizing o) r h refl k

writes-SlotsKept :
    (i : ℕ) (o : Option Phase) (r : Runner)
    → find i r.tasks ≡ o
    → SlotsKept r
    → SlotsKept (writes_if i o r)
unfolding writes_if
writes-SlotsKept i (some withdrawing) r h k =
    let (kept, same) = marked-SlotsKept i (find i r.rows) r in
    omega (
      arith,
      kept k,
      holders-remove i withdrawing (mark_cancelled i (find i r.rows) r).tasks (rw same h),
    )
writes-SlotsKept i (some (finalizing o)) r h k =
    release-SlotsKept i (finalizing o) (finalize i (status_after o) (find i r.rows) r)
      (rw (finalize-tasks i (status_after o) (find i r.rows) r) h) refl
      (finalize-SlotsKept i (status_after o) (find i r.rows) r k)
writes-SlotsKept i none r h k = k
writes-SlotsKept i (some _) r h k = k

holders-resubmitted : (rows : List (ℕ × Status)) → holders (resubmitted rows) ≡ 0
holders-resubmitted [] = refl
holders-resubmitted ((i, queued) ∷ rows) = omega (arith, holders-resubmitted rows)
holders-resubmitted ((i, _) ∷ rows) = holders-resubmitted rows

queues-SlotsKept :
    (i : ℕ) (o : Option Status) (r : Runner) → SlotsKept r → SlotsKept (queues_if i o r)
unfolding queues_if
queues-SlotsKept i (some approved) r k = k
queues-SlotsKept i none r k = k
queues-SlotsKept i (some _) r k = k

submits-SlotsKept :
    (i : ℕ) (o : Option Phase) (r : Runner) → SlotsKept r → SlotsKept (submits_if i o r)
unfolding submits_if
submits-SlotsKept i none r k = omega (arith, k)
submits-SlotsKept i (some p) r k = k

pub step-SlotsKept : (e : Event) (r : Runner) → SlotsKept r → SlotsKept (step e r)
unfolding step
step-SlotsKept (queues i) r k = queues-SlotsKept i (find i r.rows) r k
step-SlotsKept (submits i) r k = submits-SlotsKept i (find i r.tasks) r k
step-SlotsKept (acquires i) r k = acquires-SlotsKept i (find i r.tasks) r.free r refl refl k
step-SlotsKept (opens i) r k = opens-SlotsKept i (find i r.tasks) (find i r.rows) r refl k
step-SlotsKept (starts i) r k = starts-SlotsKept i (find i r.tasks) r refl k
step-SlotsKept (writes i) r k = writes-SlotsKept i (find i r.tasks) r refl k
step-SlotsKept (cancels i) r k = cancels-SlotsKept i (find i r.tasks) r refl k
step-SlotsKept (ends i o) r k = ends-SlotsKept i o (find i r.tasks) r refl k
step-SlotsKept restarts r k = omega (arith, holders-resubmitted (requeue r.rows))

-- Where the free slots and the tasks that hold one add up to `max_concurrent`, they do so after every interleaving of
-- submissions, cancellations, ends, writes and restarts.
pub slots_kept : (es : List Event) (r : Runner) → SlotsKept r → SlotsKept (run es r)
unfolding run
slots_kept [] r k = k
slots_kept (e ∷ es) r k = slots_kept es (step e r) (step-SlotsKept e r k)
