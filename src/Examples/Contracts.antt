-- ===== src/Examples/Contracts.antt =====
-- The contract between the pages and the backend on concrete requests and rows.
use mathlib.Core.List.{Memᴰ}
use elastic_ops.Prelude.{
  ℕ, ◌+◌, ◌≤◌, String, true, false, Option, none, some, List, [], ◌∷◌, ◌++◌, ◌≡◌, ◌≢◌, refl, arith,
  if◌then◌else◌, length,
}
use elastic_ops.Api.Jobs.{Job}
use elastic_ops.Api.Mutation.{idle}
use elastic_ops.Api.Storage.{get_item}
use elastic_ops.Api.Client.{token_key}
use elastic_ops.Api.Queries.{shards, use_es}
use elastic_ops.Api.Operations
use elastic_ops.Api.Operations.{relocate, app_request, job_request, approve, reject}
use elastic_ops.Backend.Jobs.{
  busy_indexes, enqueued_ids, writable_or, execute_all, ClusterRow, get_job, rows_after,
  execute_all, execute_job, approve_job, reject_job,
}
use elastic_ops.Backend.Jobs.Gate.{flights, one_flight}
use elastic_ops.Backend.Routes.{job_route, app_route}
use elastic_ops.Contract.Requests.{IsFor, job_handler, job_ids, job_tier, job_requests}
use elastic_ops.Contract.Forms.{
  FormCall, sets_access, form_handler, form_ids, form_operation, form_requests,
}
use elastic_ops.Contract.Keys.{of_es, key_of_inj}
use elastic_ops.Backend.Roles.{is_data_node}
use elastic_ops.Backend.Drain.{Disk, preflight}
use elastic_ops.Backend.Jobs.Create.{Given, drain_job, drain_node}
use elastic_ops.Backend.Jobs.Writable.{
  submitted_by, is_writable, MayStart, answer, executes_all, starts_in_writable,
}
use elastic_ops.Contract.Drains.{queued_drain_unseen}
use elastic_ops.Nodes
use elastic_ops.Contract.Rows.{Distinct}
use elastic_ops.Contract.Jobs.{is_done, decisions_accepted}
use elastic_ops.Contract.Busy.{execute_ignores_busy}
use elastic_ops.Jobs
use elastic_ops.Jobs.{approves, rejects, operation}
use elastic_ops.Jobs.Execution
use elastic_ops.Session.{Session, load, call, is_authenticated}
use elastic_ops.Session.Expiry.{expired_query_shows_login}
use elastic_ops.Routes.{Gate, indices, login, setup, shows, page, settle}
use elastic_ops.Examples.Session.{runtime, answers, get, signed_in, body}
use elastic_ops.Examples.Forms.{job}

abbrev moves : Operations.JobOperation
moves = relocate "logs" 0 "n1" "n2"

job_requests_example :
    IsFor (job_route (job_handler moves)) (3 ∷ job_ids moves) (job_tier moves) (job_request moves 3)
job_requests_example = job_requests moves 3

abbrev grants : FormCall
grants = sets_access 4 (1 ∷ 3 ∷ [])

form_requests_example :
    IsFor
      (app_route (form_handler grants))
      (form_ids grants)
      none
      (app_request (form_operation grants))
form_requests_example = form_requests grants

key_of_inj_example : of_es shards (some 3) ≡ of_es shards (some 3)
key_of_inj_example = key_of_inj (of_es shards (some 3)) (of_es shards (some 3)) refl

abbrev cluster : ClusterRow
cluster = record { is_active = true; read_only = false }

abbrev ready : Job
ready = record job { id = 1; cluster_id = 3; index_name = "logs"; status = "approved" }

abbrev rows : List Job
rows =
    record ready { id = 7; status = "queued" }
    ∷ ready
    ∷ record ready { id = 2; index_name = "audit" }
    ∷ record ready { id = 4; status = "pending" }
    ∷ []

one_before : flights 3 "logs" rows ≤ 1
unfolding flights
one_before = omega arith

one_flight_example :
    flights 3 "logs" (rows_after rows (execute_all (some cluster) "now" 3 rows)) ≤ 1
one_flight_example = one_flight (some cluster) 3 "now" "logs" rows one_before

found : get_job 1 rows ≡ some ready
unfolding get_job
found = refl

distinct : Distinct rows
distinct = ((refl, (refl, (refl, tt))), ((refl, (refl, tt)), ((refl, tt), (tt, tt))))

execute_ignores_busy_example :
    flights 3 "logs" (rows_after rows (execute_job (some cluster) "now" 1 rows))
    ≡ flights 3 "logs" rows + 1
execute_ignores_busy_example =
    execute_ignores_busy cluster 3 "now" rows ready refl refl distinct found refl refl

decisions_accepted_example :
    (operation (approves ready) Jobs.initial
      ≡ (if is_done (approve_job "now" 1 rows) then some (approve 1) else none))
    × (operation (rejects ready) Jobs.initial
        ≡ (if is_done (reject_job 1 rows) then some (reject 1) else none))
decisions_accepted_example = decisions_accepted "now" rows ready Jobs.initial found

abbrev tab : Execution.State
tab = record {
  jobs = some rows;
  execute_all_msg = none;
  execute = idle;
  execute_all = idle;
  clear_queue = idle;
  clear_history = idle;
  sent = [];
}

abbrev session : Session
session = load signed_in

abbrev query_path : String
query_path = "/api/clusters/3/es/shards"

abbrev gate : Gate
gate = record {
  is_loading = false;
  status = none;
  is_authenticated = is_authenticated (call runtime (answers 401) query_path get session);
}

is_query : (use_es shards (some 3) 0).path ≡ some query_path
unfolding use_es elastic_ops.Prelude.Text.show
is_query = refl

elsewhere : shows indices ≢ shows setup
elsewhere e = cc

expired_query_shows_login_example :
    (get_item token_key (call runtime (answers 401) query_path get session).storage ≡ none)
    × (settle 2 gate (shows indices) ≡ some (page login))
expired_query_shows_login_example =
    expired_query_shows_login runtime (answers 401) get session shards 3 0 query_path
      (record { status = 401; status_text = "-"; json = some body }) gate (shows indices) is_query
      refl refl refl refl refl elsewhere

audit_starts : Memᴰ 2 (submitted_by (answer (some cluster) "now" 3 executes_all rows))
unfolding answer execute_all busy_indexes enqueued_ids writable_or
audit_starts = Memᴰ.head refl

starts_in_writable_example :
    (is_writable (some cluster) ≡ true)
    × MayStart 3 executes_all rows
        (rows_after rows (answer (some cluster) "now" 3 executes_all rows))
        2
starts_in_writable_example =
    starts_in_writable (some cluster) "now" 3 executes_all rows 2 audit_starts

abbrev disks : List Disk
disks =
    record { name = "a"; role = "d"; total = 9; used = 1 }
    ∷ record { name = "b"; role = "d"; total = 9; used = 1 }
    ∷ record { name = "c"; role = "d"; total = 9; used = 1 }
    ∷ []

abbrev given : Given
given = record { id = 9; run_id = 4; now = "now" }

may_drain : (preflight "a" disks []).0 ≡ true
unfolding preflight is_data_node
may_drain = refl

queued_drain_unseen_example :
    (rows_after rows (drain_node (some cluster) disks [] given 3 "a" rows)
      ≡ rows ++ drain_job given 3 "a" ∷ [])
    × (Nodes.drain_job "a" (some (rows ++ drain_job given 3 "a" ∷ []))
        ≡ Nodes.drain_job "a" (some rows))
queued_drain_unseen_example =
    queued_drain_unseen cluster disks [] given 3 "a" "a" rows refl refl may_drain
