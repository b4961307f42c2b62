-- ===== src/Api/Operations.antt =====
-- The mutation hooks of frontend/src/api/es.ts, jobs.ts, auth.ts, clusters.ts and rest.ts: the request
-- that each sends, and the query keys that its success invalidates. Bodies are JSON values before
-- `JSON.stringify`.
use Prim.Native.String.{◌++◌}
use elastic_ops.Prelude.{ℕ, String, Bool, Option, none, some, List, [], ◌∷◌, ◌++◌ as append, get_or}
use elastic_ops.Prelude.Text.{show}
use elastic_ops.Api.Json.{Json, null, bool, num, str, arr, obj, Items, nil, cons, end, field}
use elastic_ops.Api.Clusters.{Cluster}
use elastic_ops.Api.Queries.{KeyPart, word, es_path, jobs_path}

pub record Sends : Type 0 where
  pub method : String
  pub path : String
  pub body : Option Json

abbrev natural : ℕ → Json
natural n = num (show n)

unfoldable pub texts : List String → Items
texts [] = nil
texts (s ∷ ss) = cons (str s) (texts ss)

unfoldable pub naturals : List ℕ → Items
naturals [] = nil
naturals (n ∷ ns) = cons (natural n) (naturals ns)

abbrev without_body : String → String → Sends
without_body method path = record { method = method; path = path; body = none }

abbrev pub with_body : String → String → Json → Sends
with_body method path body = record { method = method; path = path; body = some body }

-- The operations on the jobs of a cluster.
pub data JobOperation : Type 0 where
  recommend : Option (List String) → JobOperation
  approve reject execute : ℕ → JobOperation
  bulk_approve : Option ℕ → JobOperation
  execute_all : JobOperation
  relocate : (index : String) (shard : ℕ) (from_node to_node : String) → JobOperation
  drain : String → JobOperation
  cancel : ℕ → JobOperation
  promote : (source target alias : String) (delete_source : Bool) → JobOperation
  reindex : (source dest : String) → JobOperation
  clear_queue clear_history : JobOperation

unfoldable pub detectors_json : Option (List String) → Json
unfolding texts
detectors_json none = null
detectors_json (some ds) = arr (texts ds)

unfoldable pub tier_query : Option ℕ → String
tier_query none = ""
tier_query (some t) = "?tier=" ++ show t

unfoldable pub job_request : JobOperation → ℕ → Sends
unfolding detectors_json tier_query
job_request (recommend ds) c =
    with_body "POST" (jobs_path c "/recommend") (obj (field "detectors" (detectors_json ds) end))
job_request (approve j) c = without_body "PUT" (jobs_path c ("/" ++ show j ++ "/approve"))
job_request (reject j) c = without_body "PUT" (jobs_path c ("/" ++ show j ++ "/reject"))
job_request (execute j) c = without_body "POST" (jobs_path c ("/" ++ show j ++ "/execute"))
job_request (bulk_approve t) c = without_body "PUT" (jobs_path c ("/bulk-approve" ++ tier_query t))
job_request execute_all c = without_body "POST" (jobs_path c "/execute-all")
job_request (relocate index shard from_node to_node) c =
    with_body "POST" (jobs_path c "/relocate") (
      obj (
        field "index" (str index) (
          field "shard" (natural shard)
            (field "from_node" (str from_node) (field "to_node" (str to_node) end)))))
job_request (drain node) c =
    with_body "POST" (jobs_path c "/drain") (obj (field "node" (str node) end))
job_request (cancel j) c = without_body "POST" (jobs_path c ("/" ++ show j ++ "/cancel"))
job_request (promote source target alias delete_source) c =
    with_body "POST" (jobs_path c "/promote") (
      obj (
        field "source" (str source) (
          field "target" (str target)
            (field "alias" (str alias) (field "delete_source" (bool delete_source) end)))))
job_request (reindex source dest) c =
    with_body "POST" (jobs_path c "/reindex")
      (obj (field "source" (str source) (field "dest" (str dest) end)))
job_request clear_queue c = without_body "POST" (jobs_path c "/clear-queue")
job_request clear_history c = without_body "POST" (jobs_path c "/clear-history")

-- What `onSuccess` invalidates.
unfoldable pub job_invalidates : JobOperation → List (List KeyPart)
job_invalidates (relocate index shard from_node to_node) = (word "es" ∷ []) ∷ []
job_invalidates (drain node) = (word "es" ∷ []) ∷ []
job_invalidates _ = (word "jobs" ∷ []) ∷ []

pub data EsOperation : Type 0 where
  refresh_snapshots : EsOperation
  update_settings : Json → EsOperation
  allocation_explain : (index : String) (shard : ℕ) (primary : Bool) → EsOperation
  retry_failed : EsOperation

unfoldable pub es_request : EsOperation → ℕ → Sends
es_request refresh_snapshots c = without_body "POST" (es_path c "/refresh")
es_request (update_settings body) c = with_body "PUT" (es_path c "/settings") body
es_request (allocation_explain index shard primary) c =
    with_body "POST" (es_path c "/allocation/explain") (
      obj (
        field "index" (str index)
          (field "shard" (natural shard) (field "primary" (bool primary) end))))
es_request retry_failed c = without_body "POST" (es_path c "/reroute/retry-failed")

unfoldable pub es_invalidates : EsOperation → List (List KeyPart)
es_invalidates refresh_snapshots = (word "es" ∷ []) ∷ []
es_invalidates (update_settings body) = (word "es" ∷ word "settings" ∷ []) ∷ []
es_invalidates (allocation_explain index shard primary) = []
es_invalidates retry_failed = (word "es" ∷ []) ∷ []

-- The operations of the account, the users and the clusters. The bodies of forms are given.
pub data AppOperation : Type 0 where
  login setup invite_user change_password create_cluster : Json → AppOperation
  delete_user delete_cluster : ℕ → AppOperation
  update_user_clusters : ℕ → List ℕ → AppOperation
  set_user_active : ℕ → Bool → AppOperation
  update_cluster : ℕ → Json → AppOperation

unfoldable pub app_request : AppOperation → Sends
unfolding naturals
app_request (login body) = with_body "POST" "/api/auth/login" body
app_request (setup body) = with_body "POST" "/api/auth/setup" body
app_request (invite_user body) = with_body "POST" "/api/admin/users" body
app_request (change_password body) = with_body "POST" "/api/auth/me/password" body
app_request (create_cluster body) = with_body "POST" "/api/clusters" body
app_request (delete_user u) = without_body "DELETE" ("/api/admin/users/" ++ show u)
app_request (delete_cluster c) = without_body "DELETE" ("/api/clusters/" ++ show c)
app_request (update_user_clusters u cs) =
    with_body "PUT" ("/api/admin/users/" ++ show u ++ "/clusters") (arr (naturals cs))
app_request (set_user_active u active) =
    with_body "PATCH" ("/api/admin/users/" ++ show u) (obj (field "is_active" (bool active) end))
app_request (update_cluster c body) = with_body "PATCH" ("/api/clusters/" ++ show c) body

unfoldable pub app_invalidates : AppOperation → List (List KeyPart)
app_invalidates (login body) = []
app_invalidates (setup body) = []
app_invalidates (change_password body) = []
app_invalidates (create_cluster body) = (word "clusters" ∷ []) ∷ []
app_invalidates (update_cluster c body) = (word "clusters" ∷ []) ∷ []
app_invalidates (delete_cluster c) = (word "clusters" ∷ []) ∷ []
app_invalidates _ = (word "admin" ∷ word "users" ∷ []) ∷ []

-- `setQueryData` of `useCreateCluster`, before the list is fetched again.
unfoldable pub cached_after_create : Option (List Cluster) → Cluster → List Cluster
cached_after_create old created = append (get_or old []) (created ∷ [])
