-- ===== src/Contract/Cluster.antt =====
-- The requests of the settings page, the overview, the top bar and the REST console, and the queries of all
-- pages, against the routes of the backend.

use elastic_ops.Prelude.{
  ℕ, String, Bool, true, false, Option, none, some, List, [], ◌∷◌, ◌≡◌, inl, inr, refl, Bool-cases,
  if◌then◌else◌, arith,
}
use elastic_ops.Prelude.Text.{truthy}
use elastic_ops.Prelude.Show.{truthy-show, all_digits-show}
use elastic_ops.Api.Json.{null, obj, lookup}
use elastic_ops.Api.Bodies.{settings_body, rest_sends}
use elastic_ops.Api.Queries.{EsQuery, use_es, JobQuery, use_job_query, AppQuery, use_app_query}
use elastic_ops.Api.Operations.{
  Sends, EsOperation, es_request, refresh_snapshots, update_settings, allocation_explain,
  retry_failed,
}
use elastic_ops.Backend.Routes.{
  Route, EsHandler, es_route, JobHandler, job_route, AppHandler, app_route, url, query_known,
  body_accepted,
}
use elastic_ops.Settings.{Update}
use elastic_ops.Rest.{Sent, Parsed, no_body, body_value, syntax_error}
use elastic_ops.Contract.Requests.{IsFor}

pub data EsCall : Type 0 where
  refreshes retries : EsCall
  writes : Update → EsCall
  explains : (index : String) (shard : ℕ) (primary : Bool) → EsCall

unfoldable pub es_operation : EsCall → EsOperation
es_operation refreshes = refresh_snapshots
es_operation retries = retry_failed
es_operation (writes u) = update_settings (settings_body u)
es_operation (explains index shard primary) = allocation_explain index shard primary

unfoldable pub es_handler : EsCall → EsHandler
es_handler refreshes = EsHandler.refresh
es_handler retries = EsHandler.reroute_retry_failed
es_handler (writes u) = EsHandler.update_settings
es_handler (explains index shard primary) = EsHandler.allocation_explain

-- What the settings page, the top bar and the overview send to a cluster are requests for their handlers.
pub es_requests :
    (op : EsCall) (c : ℕ)
    → IsFor (es_route (es_handler op)) (c ∷ []) none (es_request (es_operation op) c)
unfolding es_route es_handler es_operation es_request settings_body lookup
es_requests refreshes c = record {
  method_same = refl;
  path_same = refl;
  query_taken = refl;
  body_taken = refl;
}
es_requests retries c = record {
  method_same = refl;
  path_same = refl;
  query_taken = refl;
  body_taken = refl;
}
es_requests (writes u) c = record {
  method_same = refl;
  path_same = refl;
  query_taken = refl;
  body_taken = ground arith;
}
es_requests (explains index shard primary) c = record {
  method_same = refl;
  path_same = refl;
  query_taken = refl;
  body_taken = rw (truthy-show shard, all_digits-show shard) refl;
}

-- What the body of a proxied request may be.
unfoldable pub proxied : Parsed → Bool
proxied no_body = true
proxied (body_value null) = true
proxied (body_value (obj fs)) = true
proxied _ = false

abbrev pub Taken : Option Sends → Bool → ℕ → Type 0
Taken none ok c = ok ≡ false
Taken (some r) ok c =
    (r.method ≡ "POST")
    × (r.path ≡ url (es_route EsHandler.rest_proxy) (c ∷ []) none)
    × (body_accepted (es_route EsHandler.rest_proxy).body r.body ≡ ok)

-- A body that does not parse sends nothing; of those that do, the proxy takes exactly no body, `null` and objects.
pub rest_request_iff : (s : Sent) (p : Parsed) (c : ℕ) → Taken (rest_sends s p c) (proxied p) c
unfolding es_route rest_sends proxied lookup
rest_request_iff s no_body c = (refl, refl, refl)
rest_request_iff s (body_value null) c = (refl, refl, refl)
rest_request_iff s (body_value (obj fs)) c = (refl, refl, refl)
rest_request_iff s (body_value j) c = (refl, refl, refl)
rest_request_iff s (syntax_error m) c = refl

unfoldable pub es_query_handler : EsQuery → EsHandler
es_query_handler EsQuery.health = EsHandler.health
es_query_handler EsQuery.overview = EsHandler.overview
es_query_handler EsQuery.nodes = EsHandler.nodes
es_query_handler EsQuery.shards = EsHandler.shards
es_query_handler EsQuery.shard_map = EsHandler.shard_map
es_query_handler EsQuery.pivot = EsHandler.pivot
es_query_handler (EsQuery.analyze problems_only) = EsHandler.analyze
es_query_handler EsQuery.settings = EsHandler.get_settings_endpoint
es_query_handler EsQuery.unassigned = EsHandler.unassigned
es_query_handler EsQuery.rebalance_suggestions = EsHandler.rebalance_suggestions

unfoldable pub es_query_string : EsQuery → Option (String × String)
es_query_string (EsQuery.analyze true) = some ("problems_only", "true")
es_query_string _ = none

unfoldable pub job_query_handler : JobQuery → JobHandler
job_query_handler (JobQuery.job_list status) = JobHandler.list_jobs
job_query_handler JobQuery.job_summary = JobHandler.job_summary
job_query_handler JobQuery.concurrency = JobHandler.job_concurrency

unfoldable pub app_query_handler : AppQuery → AppHandler
app_query_handler AppQuery.auth_status = AppHandler.auth_status
app_query_handler AppQuery.me = AppHandler.get_me
app_query_handler AppQuery.admin_users = AppHandler.list_users
app_query_handler AppQuery.clusters = AppHandler.list_clusters

-- A query is answered by a route: a GET without a body, under its path.
abbrev pub Answers : Route → List ℕ → Option (String × String) → Option String → Type 0
Answers r ids q path = (r.method ≡ "GET") × (path ≡ some (url r ids q)) × (query_known r q ≡ true)

es_queries :
    (q : EsQuery) (c refresh : ℕ)
    → Answers
        (es_route (es_query_handler q))
        (c ∷ [])
        (es_query_string q)
        (use_es q (some c) refresh).path
unfolding es_route es_query_handler es_query_string use_es
es_queries (EsQuery.analyze true) c refresh = (refl, refl, refl)
es_queries (EsQuery.analyze false) c refresh = (refl, refl, refl)
es_queries EsQuery.health c refresh = (refl, refl, refl)
es_queries _ c refresh = (refl, refl, refl)

unfoldable pub job_query_string : JobQuery → Option (String × String)
job_query_string (JobQuery.job_list (some status)) =
    if truthy status then some ("status", status) else none
job_query_string _ = none

job_queries :
    (q : JobQuery) (c : ℕ)
    → Answers
        (job_route (job_query_handler q))
        (c ∷ [])
        (job_query_string q)
        (use_job_query q (some c)).path
unfolding job_route job_query_handler job_query_string use_job_query
job_queries (JobQuery.job_list none) c = (refl, refl, refl)
job_queries (JobQuery.job_list (some status)) c = elim (Bool-cases (truthy status)) [
  | inl e ↦ rw e (refl, refl, refl)
  | inr e ↦ rw e (refl, refl, refl)
]
job_queries JobQuery.job_summary c = (refl, refl, refl)
job_queries JobQuery.concurrency c = (refl, refl, refl)

app_queries :
    (q : AppQuery) (token : Option String)
    → Answers (app_route (app_query_handler q)) [] none (use_app_query q token).path
unfolding app_route app_query_handler use_app_query
app_queries AppQuery.auth_status token = (refl, refl, refl)
app_queries _ token = (refl, refl, refl)

-- Every query of every page, with a cluster chosen, is a GET that a route of the backend answers.
pub queries_answered :
    (e : EsQuery) (j : JobQuery) (a : AppQuery) (c refresh : ℕ) (token : Option String)
    → Answers
        (es_route (es_query_handler e))
        (c ∷ [])
        (es_query_string e)
        (use_es e (some c) refresh).path
      × Answers
          (job_route (job_query_handler j))
          (c ∷ [])
          (job_query_string j)
          (use_job_query j (some c)).path
      × Answers (app_route (app_query_handler a)) [] none (use_app_query a token).path
queries_answered e j a c refresh token =
    (es_queries e c refresh, job_queries j c, app_queries a token)
