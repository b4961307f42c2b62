-- ===== src/Contract/Jobs.antt =====
-- The buttons on jobs (frontend/src/pages/Jobs.tsx, Nodes.tsx) against the handlers that they call
-- (backend/routes/jobs.py), with the rows that the backend holds on the page.
use text.Mathlib.Text.{◌==◌ as str_eq}
use elastic_ops.Prelude.{
  ℕ, zero, suc, String, Bool, true, false, Option, none, some, List, [], ◌∷◌, ◌≡◌, refl, ltb,
  if◌then◌else◌, head?, length, Bool-cases, inl, inr,
}
use elastic_ops.Api.Json.{Json, null}
use elastic_ops.Api.Client.{ok}
use elastic_ops.Api.Jobs.{Job}
use elastic_ops.Api.Operations.{approve, reject}
use elastic_ops.Backend.Jobs.{
  Answer, done, refused, rows_after, ClusterRow, get_job, approve_job, reject_job, execute_job,
}
use elastic_ops.Jobs.{Page, approves, rejects, operation}
use elastic_ops.Jobs.Execution.{
  State, Call, execute_call, executes_next, execute_done, jobs_arrive, step,
}

abbrev pub is_done : Answer → Bool
is_done (done rows submitted cancelled) = true
is_done (refused code detail) = false

-- "Approve" and "Reject" stand on a row of the suggestions exactly where the backend would take them, with the
-- job that the row shows as it is in the table.
pub decisions_accepted :
    (now : String) (rows : List Job) (j : Job) (p : Page)
    → get_job j.id rows ≡ some j
    → (operation (approves j) p
        ≡ (if is_done (approve_job now j.id rows) then some (approve j.id) else none))
      × (operation (rejects j) p
          ≡ (if is_done (reject_job j.id rows) then some (reject j.id) else none))
unfolding operation approve_job reject_job
decisions_accepted now rows j p h = elim (Bool-cases (str_eq j.status "pending")) [
  | inl e ↦ (rw (h, e) refl, rw (h, e) refl)
  | inr e ↦ (rw (h, e) refl, rw (h, e) refl)
]

-- The rows after the call that was sent, and what the page gets of it: the call succeeds, and the list
-- is fetched again.
abbrev pub serve : Option ClusterRow → String → Option Call → List Job → List Job
serve cluster now (some (execute_call n)) rows = rows_after rows (execute_job cluster now n rows)
serve cluster now _ rows = rows

-- The call that a step has added, if any.
abbrev pub sent_since : State → State → Option Call
sent_since s t = if ltb (length s.sent) (length t.sent) then head? t.sent else none

-- One press of "Execute Next", answered by the backend.
unfoldable pub round : Option ClusterRow → String → State × List Job → State × List Job
round cluster now (s, rows) =
    let t = step executes_next s in
    let after = serve cluster now (sent_since s t) rows in
    (step (jobs_arrive after) (step (execute_done (ok null)) t), after)

unfoldable pub rounds : ℕ → Option ClusterRow → String → State × List Job → State × List Job
unfolding round
rounds zero cluster now x = x
rounds (suc n) cluster now x = rounds n cluster now (round cluster now x)

abbrev pub sent_onto : List Job → List Call → List Call
sent_onto [] sent = sent
sent_onto (j ∷ js) sent = sent_onto js (execute_call j.id ∷ sent)
