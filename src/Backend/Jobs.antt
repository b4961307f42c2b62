-- ===== src/Backend/Jobs.antt =====
-- backend/routes/jobs.py: the handlers that change the status of jobs, on the rows of the table, with
-- `now` for the time. `submitted` and `cancelled` are the identifiers handed to the runner.
pub mod Gate
pub mod Create
pub mod Writable
use Prim.Native.String.{◌++◌}
use text.Mathlib.Text.{◌==◌ as str_eq}
use elastic_ops.Prelude.{
  ℕ, ◌==◌, String, Bool, true, not, ◌&&◌, ◌||◌, Option, none, some, List, [], ◌∷◌, if◌then◌else◌,
  filter, find?, any,
}
use elastic_ops.Api.Jobs.{Job}

-- What a handler answers: the rows after it, or the status and the detail of an `HTTPException`.
pub data Answer : Type 0 where
  done : (rows : List Job) (submitted cancelled : List ℕ) → Answer
  refused : ℕ → String → Answer

-- The rows after a request.
abbrev pub rows_after : List Job → Answer → List Job
rows_after rows (done new submitted cancelled) = new
rows_after rows (refused code detail) = rows

-- The row of a cluster, as far as the gates read it.
pub record ClusterRow : Type 0 where
  pub is_active : Bool
  pub read_only : Bool

-- `require_writable_cluster` of backend/dependencies.py
unfoldable pub writable_or : Option ClusterRow → Answer → Answer
writable_or none answer = refused 404 "Cluster not found"
writable_or (some c) answer =
    if not c.is_active
    then refused 409 "Cluster is inactive; reactivate it to perform ES operations"
    else if c.read_only
    then refused 403 "cluster is read-only"
    else answer

abbrev pub has_id : ℕ → Job → Bool
has_id n j = j.id == n

-- `_get_job`
unfoldable pub get_job : ℕ → List Job → Option Job
get_job n rows = find? (has_id n) rows

abbrev pub update_where : (Job → Bool) → (Job → Job) → List Job → List Job
update_where p f [] = []
update_where p f (j ∷ js) = (if p j then f j else j) ∷ update_where p f js

abbrev pub approved : String → Job → Job
approved now j = record j { status = "approved"; approved_at = some now }

abbrev pub rejected : Job → Job
rejected j = record j { status = "rejected" }

abbrev pub queued : String → Job → Job
queued now j = record j { status = "queued"; executed_at = some now; progress = some "queued" }

-- `if job.status != …: raise HTTPException(400, …)`
abbrev pub if_status : String → Option Job → Answer → Answer
if_status s none answer = refused 404 "Job not found"
if_status s (some j) answer =
    if str_eq j.status s then answer else refused 400 ("Job is " ++ j.status ++ ", not " ++ s)

unfoldable pub approve_job : String → ℕ → List Job → Answer
unfolding get_job
approve_job now n rows =
    if_status "pending" (get_job n rows) (done (update_where (has_id n) (approved now) rows) [] [])

unfoldable pub reject_job : ℕ → List Job → Answer
unfolding get_job
reject_job n rows =
    if_status "pending" (get_job n rows) (done (update_where (has_id n) rejected rows) [] [])

unfoldable pub execute_job : Option ClusterRow → String → ℕ → List Job → Answer
unfolding get_job writable_or
execute_job cluster now n rows =
    if_status "approved" (get_job n rows)
      (writable_or cluster (done (update_where (has_id n) (queued now) rows) (n ∷ []) []))

abbrev pub in_cluster : ℕ → Job → Bool
in_cluster c j = j.cluster_id == c

abbrev pub of_tier : Option ℕ → Job → Bool
of_tier none j = true
of_tier (some t) j = j.tier == t

unfoldable pub bulk_approve : String → ℕ → Option ℕ → List Job → Answer
bulk_approve now c tier rows =
    done
      (update_where (λ j. in_cluster c j && str_eq j.status "pending" && of_tier tier j)
        (approved now) rows)
      [] []

abbrev pub in_flight : Job → Bool
in_flight j = str_eq j.status "queued" || str_eq j.status "executing"

-- `busy_indexes` at the start: the index of each job of the cluster that is queued or executing.
unfoldable pub busy_indexes : ℕ → List Job → List String
busy_indexes c [] = []
busy_indexes c (j ∷ js) =
    if in_cluster c j && in_flight j then j.index_name ∷ busy_indexes c js else busy_indexes c js

abbrev pub is_busy : List String → Job → Bool
is_busy busy j = any (λ name. str_eq name j.index_name) busy

-- Whether the loop takes a job, with the indices that are busy by then.
abbrev pub takes : ℕ → List String → Job → Bool
takes c busy j = in_cluster c j && str_eq j.status "approved" && not (is_busy busy j)

-- The loop over the approved jobs, in the order of the rows.
unfoldable pub enqueue : ℕ → String → List String → List Job → List Job
enqueue c now busy [] = []
enqueue c now busy (j ∷ js) =
    (if takes c busy j then queued now j else j)
    ∷ enqueue c now (if takes c busy j then j.index_name ∷ busy else busy) js

unfoldable pub enqueued_ids : ℕ → List String → List Job → List ℕ
enqueued_ids c busy [] = []
enqueued_ids c busy (j ∷ js) =
    let rest = enqueued_ids c (if takes c busy j then j.index_name ∷ busy else busy) js in
    if takes c busy j then j.id ∷ rest else rest

unfoldable pub execute_all : Option ClusterRow → String → ℕ → List Job → Answer
unfolding writable_or busy_indexes enqueue enqueued_ids
execute_all cluster now c rows =
    writable_or cluster (
      done (enqueue c now (busy_indexes c rows) rows) (enqueued_ids c (busy_indexes c rows) rows)
        [])

ids : List Job → List ℕ
ids [] = []
ids (j ∷ js) = j.id ∷ ids js

-- The runner flips the queued jobs to `cancelled` by itself.
unfoldable pub clear_queue : ℕ → List Job → Answer
unfolding ids
clear_queue c rows =
    done (filter (λ j. not (in_cluster c j && str_eq j.status "approved")) rows) []
      (ids (filter (λ j. in_cluster c j && str_eq j.status "queued") rows))

abbrev pub is_terminal : String → Bool
is_terminal s =
    str_eq s "completed" || str_eq s "failed" || str_eq s "cancelled" || str_eq s "rejected"

unfoldable pub clear_history : ℕ → List Job → Answer
clear_history c rows = done (filter (λ j. not (in_cluster c j && is_terminal j.status)) rows) [] []

-- A drain that is cancelled takes its exclusion back first, by a call of Elasticsearch that is not
-- modelled and may fail; what is given is the answer where it does not.
unfoldable pub cancel_job : ℕ → List Job → Answer
unfolding get_job
cancel_job n rows = elim (get_job n rows) [
  | none ↦ refused 404 "Job not found"
  | some j ↦
      if not (in_flight j)
      then refused 400 ("Job is " ++ j.status ++ ", not queued or executing")
      else done rows [] (n ∷ [])
]
