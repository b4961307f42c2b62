-- ===== src/Backend/Runner.antt =====
-- backend/services/job_runner.py: the tasks of the runner, the semaphore and the status column, as the steps
-- that the event loop can interleave. Each event names the job whose task goes on; one that does not fit
-- the task's phase changes nothing. The executors and Elasticsearch choose only how a job ends.
-- A session and its commit are one step, which a cancellation or an error of the database can prevent, and a
-- task that is cancelled has had its first step.
pub mod Slots
pub mod Elsewhere
pub mod Owned
pub mod Bound
pub mod Single
pub mod Stranded
pub mod Final
use elastic_ops.Prelude.{
  ℕ, zero, suc, ◌+◌, ◌-◌, ◌==◌, Bool, true, false, Option, none, some, List, [], ◌∷◌, if◌then◌else◌,
  ltb,
}

pub data Status : Type 0 where
  pending approved queued executing completed failed cancelled rejected : Status

-- How an executor ends: it returns, it raises, or a `CancelledError` comes out of it.
pub data Outcome : Type 0 where
  returns raises interrupted : Outcome

-- Where the task of a job stands: it waits for a slot; it was cancelled there and is about to write so;
-- it holds a slot and has not yet written `executing`; it has, and has not yet entered the `try` around the
-- executor; the executor runs; the executor has ended and `_finalize` has not yet written it.
pub data Phase : Type 0 where
  waiting withdrawing slotted opened running : Phase
  finalizing : Outcome → Phase

pub record Runner : Type 0 where
  pub max_concurrent : ℕ
  pub free : ℕ
  pub tasks : List (ℕ × Phase)
  pub rows : List (ℕ × Status)

abbrev pub find {ℓ} : {A : Type ℓ} → ℕ → List (ℕ × A) → Option A
find i [] = none
find i ((j, a) ∷ xs) = if j == i then some a else find i xs

abbrev pub put {ℓ} : {A : Type ℓ} → ℕ → A → List (ℕ × A) → List (ℕ × A)
put i a [] = []
put i a ((j, b) ∷ xs) = if j == i then (j, a) ∷ xs else (j, b) ∷ put i a xs

abbrev pub remove {ℓ} : {A : Type ℓ} → ℕ → List (ℕ × A) → List (ℕ × A)
remove i [] = []
remove i ((j, b) ∷ xs) = if j == i then xs else (j, b) ∷ remove i xs

abbrev pub is_terminal : Status → Bool
is_terminal completed = true
is_terminal failed = true
is_terminal cancelled = true
is_terminal rejected = true
is_terminal _ = false

abbrev pub status_after : Outcome → Status
status_after returns = completed
status_after raises = failed
status_after interrupted = cancelled

-- `_finalize`, on the status that the row has
abbrev pub finalize : ℕ → Status → Option Status → Runner → Runner
finalize i st none r = r
finalize i st (some old) r = if is_terminal old then r else record r { rows = put i st r.rows }

-- The task ends, and gives its slot back.
abbrev pub release : ℕ → Runner → Runner
release i r = record r { tasks = remove i r.tasks; free = r.free + 1 }

unfoldable pub queues_if : ℕ → Option Status → Runner → Runner
queues_if i (some approved) r = record r { rows = put i queued r.rows }
queues_if i _ r = r

-- `submit`
unfoldable pub submits_if : ℕ → Option Phase → Runner → Runner
submits_if i none r = record r { tasks = (i, waiting) ∷ r.tasks }
submits_if i (some p) r = r

-- `await self._sem.acquire()`
unfoldable pub acquires_if : ℕ → Option Phase → ℕ → Runner → Runner
acquires_if i (some waiting) (suc n) r = record r { tasks = put i slotted r.tasks; free = n }
acquires_if i _ _ r = r

-- The first session of `_run_with_slot`
unfoldable pub opens_if : ℕ → Option Phase → Option Status → Runner → Runner
opens_if i (some slotted) (some queued) r = record r {
  tasks = put i opened r.tasks;
  rows = put i executing r.rows;
}
opens_if i (some slotted) _ r = release i r
opens_if i _ _ r = r

unfoldable pub starts_if : ℕ → Option Phase → Runner → Runner
starts_if i (some opened) r = record r { tasks = put i running r.tasks }
starts_if i _ r = r

unfoldable pub ends_if : ℕ → Outcome → Option Phase → Runner → Runner
ends_if i o (some running) r = record r { tasks = put i (finalizing o) r.tasks }
ends_if i o _ r = r

-- `_mark_cancelled_if_queued`
abbrev pub mark_cancelled : ℕ → Option Status → Runner → Runner
mark_cancelled i (some queued) r = record r { rows = put i cancelled r.rows }
mark_cancelled i _ r = r

-- The session of `_finalize`, or that of `_mark_cancelled_if_queued`, and with it the end of the task
unfoldable pub writes_if : ℕ → Option Phase → Runner → Runner
writes_if i (some (finalizing o)) r = release i (finalize i (status_after o) (find i r.rows) r)
writes_if i (some withdrawing) r =
    let r' = mark_cancelled i (find i r.rows) r in record r' { tasks = remove i r'.tasks }
writes_if i _ r = r

-- `CancelledError` at the point where the task waits. From the slot to the `try`, and inside `_finalize`,
-- nothing catches it: the slot is given back, and the row stays as it is. A session that raises at one of
-- these points, or a commit of `_finalize` that fails, does the same.
unfoldable pub cancels_if : ℕ → Option Phase → Runner → Runner
cancels_if i none r = r
cancels_if i (some waiting) r = record r { tasks = put i withdrawing r.tasks }
cancels_if i (some withdrawing) r = record r { tasks = remove i r.tasks }
cancels_if i (some slotted) r = release i r
cancels_if i (some opened) r = release i r
cancels_if i (some running) r = record r { tasks = put i (finalizing interrupted) r.tasks }
cancels_if i (some (finalizing _)) r = release i r

-- `recover`, after a crash: the tasks are gone.
abbrev pub requeued : Status → Status
requeued executing = queued
requeued s = s

abbrev pub requeue : List (ℕ × Status) → List (ℕ × Status)
requeue [] = []
requeue ((i, s) ∷ rows) = (i, requeued s) ∷ requeue rows

abbrev pub resubmitted : List (ℕ × Status) → List (ℕ × Phase)
resubmitted [] = []
resubmitted ((i, queued) ∷ rows) = (i, waiting) ∷ resubmitted rows
resubmitted ((i, s) ∷ rows) = resubmitted rows

unfoldable pub recover : Runner → Runner
recover r = record r {
  free = r.max_concurrent;
  rows = requeue r.rows;
  tasks = resubmitted (requeue r.rows);
}

-- `queues` is what a route does to an approved job before it submits it.
pub data Event : Type 0 where
  queues submits acquires opens starts writes cancels : ℕ → Event
  ends : ℕ → Outcome → Event
  restarts : Event

unfoldable pub step : Event → Runner → Runner
unfolding queues_if submits_if acquires_if opens_if starts_if ends_if writes_if cancels_if recover
step (queues i) r = queues_if i (find i r.rows) r
step (submits i) r = submits_if i (find i r.tasks) r
step (acquires i) r = acquires_if i (find i r.tasks) r.free r
step (opens i) r = opens_if i (find i r.tasks) (find i r.rows) r
step (starts i) r = starts_if i (find i r.tasks) r
step (writes i) r = writes_if i (find i r.tasks) r
step (cancels i) r = cancels_if i (find i r.tasks) r
step (ends i o) r = ends_if i o (find i r.tasks) r
step restarts r = recover r

unfoldable pub run : List Event → Runner → Runner
unfolding step
run [] r = r
run (e ∷ es) r = run es (step e r)

-- A runner that has just started, over rows of which none is `executing`.
abbrev pub started : ℕ → List (ℕ × Status) → Runner
started max rows = record { max_concurrent = max; free = max; tasks = []; rows = rows }
