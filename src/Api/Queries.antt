-- ===== src/Api/Queries.antt =====
-- The query hooks of frontend/src/api/es.ts, jobs.ts, auth.ts and clusters.ts: the key, the path, when
-- a query runs and how often it is fetched again, in milliseconds. A query of a cluster has no path
-- while no cluster is active; it is disabled then.
use Prim.Native.String.{◌++◌}
use elastic_ops.Prelude.{
  ℕ, ltb, String, Bool, true, false, Option, none, some, List, [], ◌∷◌, if◌then◌else◌, is_some,
}
use elastic_ops.Prelude.Text.{truthy, show}

-- A part of a query key.
pub data KeyPart : Type 0 where
  word : String → KeyPart
  id : ℕ → KeyPart
  flag : Bool → KeyPart
  null undefined : KeyPart

abbrev pub cluster_part : Option ℕ → KeyPart
cluster_part none = null
cluster_part (some n) = id n

-- A status filter that is not given is `undefined`.
abbrev pub status_part : Option String → KeyPart
status_part none = undefined
status_part (some s) = word s

pub record Query : Type 0 where
  pub key : List KeyPart
  pub path : Option String
  pub enabled : Bool
  pub refetch_interval : Option ℕ

-- `useAutoRefetch`; `none` is `false`.
unfoldable pub auto_refetch : ℕ → Option ℕ
auto_refetch refresh_interval = if ltb 0 refresh_interval then some refresh_interval else none

abbrev pub es_path : ℕ → String → String
es_path cluster path = "/api/clusters/" ++ show cluster ++ "/es" ++ path

abbrev pub jobs_path : ℕ → String → String
jobs_path cluster path = "/api/clusters/" ++ show cluster ++ "/jobs" ++ path

abbrev in_cluster : (ℕ → String) → Option ℕ → Option String
in_cluster path none = none
in_cluster path (some n) = some (path n)

pub data EsQuery : Type 0 where
  health overview nodes shards shard_map pivot : EsQuery
  analyze : Bool → EsQuery
  settings unassigned rebalance_suggestions : EsQuery

unfoldable pub es_key : EsQuery → Option ℕ → List KeyPart
es_key health c = word "es" ∷ word "health" ∷ cluster_part c ∷ []
es_key overview c = word "es" ∷ word "overview" ∷ cluster_part c ∷ []
es_key nodes c = word "es" ∷ word "nodes" ∷ cluster_part c ∷ []
es_key shards c = word "es" ∷ word "shards" ∷ cluster_part c ∷ []
es_key shard_map c = word "es" ∷ word "shard-map" ∷ cluster_part c ∷ []
es_key pivot c = word "es" ∷ word "pivot" ∷ cluster_part c ∷ []
es_key (analyze problems_only) c =
    word "es" ∷ word "analyze" ∷ cluster_part c ∷ flag problems_only ∷ []
es_key settings c = word "es" ∷ word "settings" ∷ cluster_part c ∷ []
es_key unassigned c = word "es" ∷ word "unassigned" ∷ cluster_part c ∷ []
es_key rebalance_suggestions c = word "es" ∷ word "rebalance-suggestions" ∷ cluster_part c ∷ []

unfoldable pub es_suffix : EsQuery → String
es_suffix health = "/health"
es_suffix overview = "/overview"
es_suffix nodes = "/nodes"
es_suffix shards = "/shards"
es_suffix shard_map = "/shard-map"
es_suffix pivot = "/pivot"
es_suffix (analyze problems_only) =
    "/analyze" ++ (if problems_only then "?problems_only=true" else "")
es_suffix settings = "/settings"
es_suffix unassigned = "/unassigned"
es_suffix rebalance_suggestions = "/rebalance-suggestions"

-- The settings and the rebalance suggestions are not polled.
es_interval : EsQuery → ℕ → Option ℕ
unfolding auto_refetch
es_interval settings refresh = none
es_interval rebalance_suggestions refresh = none
es_interval q refresh = auto_refetch refresh

unfoldable pub use_es : EsQuery → Option ℕ → ℕ → Query
unfolding es_key es_suffix es_interval
use_es q cluster refresh = record {
  key = es_key q cluster;
  path = in_cluster (λ n. es_path n (es_suffix q)) cluster;
  enabled = is_some cluster;
  refetch_interval = es_interval q refresh;
}

pub data JobQuery : Type 0 where
  job_list : Option String → JobQuery
  job_summary concurrency : JobQuery

unfoldable pub job_key : JobQuery → Option ℕ → List KeyPart
job_key (job_list status) c = word "jobs" ∷ cluster_part c ∷ status_part status ∷ []
job_key job_summary c = word "jobs" ∷ word "summary" ∷ cluster_part c ∷ []
job_key concurrency c = word "jobs" ∷ word "concurrency" ∷ cluster_part c ∷ []

job_suffix : JobQuery → String
job_suffix (job_list none) = ""
job_suffix (job_list (some status)) = if truthy status then "?status=" ++ status else ""
job_suffix job_summary = "/summary"
job_suffix concurrency = "/concurrency"

job_interval : JobQuery → Option ℕ
job_interval concurrency = none
job_interval _ = some 5000

unfoldable pub use_job_query : JobQuery → Option ℕ → Query
unfolding job_key job_suffix job_interval
use_job_query q cluster = record {
  key = job_key q cluster;
  path = in_cluster (λ n. jobs_path n (job_suffix q)) cluster;
  enabled = is_some cluster;
  refetch_interval = job_interval q;
}

-- The queries of no cluster.
pub data AppQuery : Type 0 where
  auth_status me admin_users clusters : AppQuery

unfoldable pub app_key : AppQuery → List KeyPart
app_key auth_status = word "auth" ∷ word "status" ∷ []
app_key me = word "auth" ∷ word "me" ∷ []
app_key admin_users = word "admin" ∷ word "users" ∷ []
app_key clusters = word "clusters" ∷ []

app_path : AppQuery → String
app_path auth_status = "/api/auth/status"
app_path me = "/api/auth/me"
app_path admin_users = "/api/admin/users"
app_path clusters = "/api/clusters"

-- `!!localStorage.getItem("eo_token")`
abbrev pub has_token : Option String → Bool
has_token none = false
has_token (some t) = truthy t

app_enabled : AppQuery → Option String → Bool
app_enabled auth_status token = true
app_enabled _ token = has_token token

unfoldable pub use_app_query : AppQuery → Option String → Query
unfolding app_key app_path app_enabled
use_app_query q token = record {
  key = app_key q;
  path = some (app_path q);
  enabled = app_enabled q token;
  refetch_interval = none;
}
