-- ===== src/Backend/Routes.antt =====
-- The routes of backend/routes/jobs.py, es.py, auth.py, clusters.py and admin.py that the interface
-- calls: the method, the path with its parameters, the query parameters and the model of the body.
use Prim.Native.String.{◌++◌}
use text.Mathlib.Text.{◌==◌ as str_eq}
use elastic_ops.Prelude.{any, ℕ, String, Bool, true, false, Option, none, some, List, [], ◌∷◌}
use elastic_ops.Prelude.Text.{show}
use elastic_ops.Api.Json.{Json}
use elastic_ops.Backend.Schemas.{
  Schema, Kind, numbers, is_of, accepts, relocate_request, drain_request, promote_request,
  reindex_request, recommend_request, cluster_create, cluster_update, setup_request, login_request,
  invite_request, password_change, user_active_update, settings_update_request,
  allocation_explain_request, rest_request,
}

-- A segment of a path: `{cluster_id}` and the like are parameters.
pub data Segment : Type 0 where
  word : String → Segment
  parameter : Segment

pub data Body : Type 0 where
  nothing : Body
  model : Schema → Body
  bare : Kind → Body

pub record Route : Type 0 where
  pub method : String
  pub segments : List Segment
  pub query : List String
  pub body : Body

abbrev route : String → List Segment → Body → Route
route method segments body = record {
  method = method;
  segments = segments;
  query = [];
  body = body;
}

-- `prefix` of the routers
abbrev of_jobs : List Segment → List Segment
of_jobs rest = word "api" ∷ word "clusters" ∷ parameter ∷ word "jobs" ∷ rest

abbrev of_es : List Segment → List Segment
of_es rest = word "api" ∷ word "clusters" ∷ parameter ∷ word "es" ∷ rest

abbrev of_auth : List Segment → List Segment
of_auth rest = word "api" ∷ word "auth" ∷ rest

abbrev of_clusters : List Segment → List Segment
of_clusters rest = word "api" ∷ word "clusters" ∷ rest

abbrev of_users : List Segment → List Segment
of_users rest = word "api" ∷ word "admin" ∷ word "users" ∷ rest

-- routes/jobs.py
pub data JobHandler : Type 0 where
  recommend list_jobs job_summary job_concurrency approve_job reject_job execute_job : JobHandler
  bulk_approve execute_all clear_queue clear_history cancel_job drain_node : JobHandler
  promote_index reindex relocate_shard : JobHandler

unfoldable pub job_route : JobHandler → Route
job_route recommend = route "POST" (of_jobs (word "recommend" ∷ [])) (model recommend_request)
job_route list_jobs = record {
  method = "GET";
  segments = of_jobs [];
  query = "status" ∷ "tier" ∷ "job_type" ∷ [];
  body = nothing;
}
job_route job_summary = route "GET" (of_jobs (word "summary" ∷ [])) nothing
job_route job_concurrency = route "GET" (of_jobs (word "concurrency" ∷ [])) nothing
job_route approve_job = route "PUT" (of_jobs (parameter ∷ word "approve" ∷ [])) nothing
job_route reject_job = route "PUT" (of_jobs (parameter ∷ word "reject" ∷ [])) nothing
job_route execute_job = route "POST" (of_jobs (parameter ∷ word "execute" ∷ [])) nothing
job_route bulk_approve = record {
  method = "PUT";
  segments = of_jobs (word "bulk-approve" ∷ []);
  query = "tier" ∷ [];
  body = nothing;
}
job_route execute_all = route "POST" (of_jobs (word "execute-all" ∷ [])) nothing
job_route clear_queue = route "POST" (of_jobs (word "clear-queue" ∷ [])) nothing
job_route clear_history = route "POST" (of_jobs (word "clear-history" ∷ [])) nothing
job_route cancel_job = route "POST" (of_jobs (parameter ∷ word "cancel" ∷ [])) nothing
job_route drain_node = route "POST" (of_jobs (word "drain" ∷ [])) (model drain_request)
job_route promote_index = route "POST" (of_jobs (word "promote" ∷ [])) (model promote_request)
job_route reindex = route "POST" (of_jobs (word "reindex" ∷ [])) (model reindex_request)
job_route relocate_shard = route "POST" (of_jobs (word "relocate" ∷ [])) (model relocate_request)

-- routes/es.py
pub data EsHandler : Type 0 where
  health nodes shards unassigned overview shard_map pivot analyze refresh : EsHandler
  rebalance_suggestions get_settings_endpoint update_settings allocation_explain : EsHandler
  reroute_retry_failed rest_proxy : EsHandler

unfoldable pub es_route : EsHandler → Route
es_route health = route "GET" (of_es (word "health" ∷ [])) nothing
es_route nodes = route "GET" (of_es (word "nodes" ∷ [])) nothing
es_route shards = route "GET" (of_es (word "shards" ∷ [])) nothing
es_route unassigned = route "GET" (of_es (word "unassigned" ∷ [])) nothing
es_route overview = route "GET" (of_es (word "overview" ∷ [])) nothing
es_route shard_map = route "GET" (of_es (word "shard-map" ∷ [])) nothing
es_route pivot = route "GET" (of_es (word "pivot" ∷ [])) nothing
es_route analyze = record {
  method = "GET";
  segments = of_es (word "analyze" ∷ []);
  query = "problems_only" ∷ [];
  body = nothing;
}
es_route refresh = record {
  method = "POST";
  segments = of_es (word "refresh" ∷ []);
  query = "kind" ∷ [];
  body = nothing;
}
es_route rebalance_suggestions = route "GET" (of_es (word "rebalance-suggestions" ∷ [])) nothing
es_route get_settings_endpoint = route "GET" (of_es (word "settings" ∷ [])) nothing
es_route update_settings =
    route "PUT" (of_es (word "settings" ∷ [])) (model settings_update_request)
es_route allocation_explain =
    route "POST" (of_es (word "allocation" ∷ word "explain" ∷ []))
      (model allocation_explain_request)
es_route reroute_retry_failed =
    route "POST" (of_es (word "reroute" ∷ word "retry-failed" ∷ [])) nothing
es_route rest_proxy = route "POST" (of_es (word "rest" ∷ [])) (model rest_request)

-- routes/auth.py, clusters.py and admin.py
abbrev auth_status_route : Route
auth_status_route = route "GET" (of_auth (word "status" ∷ [])) nothing

abbrev get_me_route : Route
get_me_route = route "GET" (of_auth (word "me" ∷ [])) nothing

abbrev setup_route : Route
setup_route = route "POST" (of_auth (word "setup" ∷ [])) (model setup_request)

abbrev login_route : Route
login_route = route "POST" (of_auth (word "login" ∷ [])) (model login_request)

abbrev change_password_route : Route
change_password_route =
    route "POST" (of_auth (word "me" ∷ word "password" ∷ [])) (model password_change)

abbrev list_clusters_route : Route
list_clusters_route = route "GET" (of_clusters []) nothing

abbrev create_cluster_route : Route
create_cluster_route = route "POST" (of_clusters []) (model cluster_create)

abbrev update_cluster_route : Route
update_cluster_route = route "PATCH" (of_clusters (parameter ∷ [])) (model cluster_update)

abbrev delete_cluster_route : Route
delete_cluster_route = route "DELETE" (of_clusters (parameter ∷ [])) nothing

abbrev list_users_route : Route
list_users_route = route "GET" (of_users []) nothing

abbrev invite_user_route : Route
invite_user_route = route "POST" (of_users []) (model invite_request)

abbrev update_user_clusters_route : Route
update_user_clusters_route =
    route "PUT" (of_users (parameter ∷ word "clusters" ∷ [])) (bare numbers)

abbrev set_user_active_route : Route
set_user_active_route = route "PATCH" (of_users (parameter ∷ [])) (model user_active_update)

abbrev delete_user_route : Route
delete_user_route = route "DELETE" (of_users (parameter ∷ [])) nothing

-- The three routers together.
pub data AppHandler : Type 0 where
  auth_status get_me setup login change_password : AppHandler
  list_clusters create_cluster update_cluster delete_cluster : AppHandler
  list_users invite_user update_user_clusters set_user_active delete_user : AppHandler

unfoldable pub app_route : AppHandler → Route
app_route auth_status = auth_status_route
app_route get_me = get_me_route
app_route setup = setup_route
app_route login = login_route
app_route change_password = change_password_route
app_route list_clusters = list_clusters_route
app_route create_cluster = create_cluster_route
app_route update_cluster = update_cluster_route
app_route delete_cluster = delete_cluster_route
app_route list_users = list_users_route
app_route invite_user = invite_user_route
app_route update_user_clusters = update_user_clusters_route
app_route set_user_active = set_user_active_route
app_route delete_user = delete_user_route

-- A query string with one parameter.
abbrev pub query_text : Option (String × String) → String
query_text none = ""
query_text (some (name, v)) = ("?" ++ name ++ "=") ++ v

abbrev pub query_known : Route → Option (String × String) → Bool
query_known r none = true
query_known r (some (name, v)) = any (λ n. str_eq n name) r.query

-- A path with its parameters filled in; `written` is what stands before it, `query` what follows.
abbrev pub path_from : String → List Segment → List ℕ → String → String
path_from written [] ids query = written ++ query
path_from written (word w ∷ rest) ids query = path_from (written ++ "/" ++ w) rest ids query
path_from written (parameter ∷ rest) [] query = (written ++ "/") ++ path_from "" rest [] query
path_from written (parameter ∷ rest) (n ∷ ids) query =
    (written ++ "/") ++ show n ++ path_from "" rest ids query

abbrev pub url : Route → List ℕ → Option (String × String) → String
url r ids q = path_from "" r.segments ids (query_text q)

-- A body that is there is validated; a handler without one ignores it.
abbrev pub body_accepted : Body → Option Json → Bool
body_accepted nothing j = true
body_accepted (model schema) none = false
body_accepted (model schema) (some j) = accepts schema j
body_accepted (bare kind) none = false
body_accepted (bare kind) (some j) = is_of kind j
