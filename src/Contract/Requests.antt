-- ===== src/Contract/Requests.antt =====
-- The requests that the hooks of frontend/src/api send, against the routes of the backend.
use Prim.Native.String.{◌++◌}
use text.Mathlib.TextLemmas.{append_assoc}
use elastic_ops.Prelude.{ℕ, String, true, Option, none, some, List, [], ◌∷◌, ◌≡◌, refl, sym, ap}
use elastic_ops.Prelude.Text.{show}
use elastic_ops.Prelude.Show.{truthy-show, all_digits-show}
use elastic_ops.Api.Json.{num, obj, field, end, lookup}
use elastic_ops.Api.Queries.{jobs_path}
use elastic_ops.Api.Operations.{
  Sends, texts, detectors_json, tier_query, JobOperation, job_request, EsOperation, es_request,
  AppOperation, app_request,
}
use elastic_ops.Api.Operations
use elastic_ops.Backend.Schemas.{is_text, is_integer, all_items, accepts, recommend_request}
use elastic_ops.Backend.Routes.{Route, JobHandler, job_route, url, query_known, body_accepted}

-- A request is one for a route: the same method, the route's path with identifiers for its parameters
-- and a query parameter that the route has, and a body that its model takes.
pub record IsFor (r : Route) (ids : List ℕ) (q : Option (String × String)) (s : Sends)
    : Type 0 where
  pub method_same : s.method ≡ r.method
  pub path_same : s.path ≡ url r ids q
  pub query_taken : query_known r q ≡ true
  pub body_taken : body_accepted r.body s.body ≡ true

-- The handler, the identifiers in the path and the query parameter of each operation.
unfoldable pub job_handler : JobOperation → JobHandler
job_handler (Operations.recommend ds) = JobHandler.recommend
job_handler (Operations.approve j) = JobHandler.approve_job
job_handler (Operations.reject j) = JobHandler.reject_job
job_handler (Operations.execute j) = JobHandler.execute_job
job_handler (Operations.bulk_approve t) = JobHandler.bulk_approve
job_handler Operations.execute_all = JobHandler.execute_all
job_handler (Operations.relocate index shard from_node to_node) = JobHandler.relocate_shard
job_handler (Operations.drain node) = JobHandler.drain_node
job_handler (Operations.cancel j) = JobHandler.cancel_job
job_handler (Operations.promote source target alias delete_source) = JobHandler.promote_index
job_handler (Operations.reindex source dest) = JobHandler.reindex
job_handler Operations.clear_queue = JobHandler.clear_queue
job_handler Operations.clear_history = JobHandler.clear_history

unfoldable pub job_ids : JobOperation → List ℕ
job_ids (Operations.approve j) = j ∷ []
job_ids (Operations.reject j) = j ∷ []
job_ids (Operations.execute j) = j ∷ []
job_ids (Operations.cancel j) = j ∷ []
job_ids _ = []

unfoldable pub job_tier : JobOperation → Option (String × String)
job_tier (Operations.bulk_approve (some t)) = some ("tier", show t)
job_tier _ = none

-- Under one router: what follows the identifier of the cluster.
pub below :
    (c : ℕ) {s t : String}
    → s ≡ t
    → "/api/clusters/" ++ show c ++ s ≡ "/api/clusters/" ++ show c ++ t
below c h = ap (λ u. "/api/clusters/" ++ show c ++ u) h

job_path :
    (c j : ℕ) (s : String)
    → jobs_path c ("/" ++ show j ++ s) ≡ "/api/clusters/" ++ show c ++ "/jobs/" ++ show j ++ s
job_path c j s = below c (sym (append_assoc "/jobs" "/" (show j ++ s)))

pub number_ok : (n : ℕ) → is_integer (num (show n)) ≡ true
number_ok n = rw (truthy-show n, all_digits-show n) refl

texts_ok : (ds : List String) → all_items is_text (texts ds) ≡ true
unfolding texts
texts_ok [] = refl
texts_ok (d ∷ ds) = texts_ok ds

detectors_ok :
    (ds : Option (List String))
    → accepts recommend_request (obj (field "detectors" (detectors_json ds) end)) ≡ true
unfolding detectors_json lookup
detectors_ok none = refl
detectors_ok (some ds) = rw (texts_ok ds) refl

-- Every operation on jobs sends a request that the handler of its name takes: its method, its path with the cluster
-- and the job in their places, a query parameter that the handler has, and a body of the handler's model.
pub job_requests :
    (op : JobOperation) (c : ℕ)
    → IsFor (job_route (job_handler op)) (c ∷ job_ids op) (job_tier op) (job_request op c)
unfolding job_route job_handler job_ids job_tier job_request tier_query lookup
job_requests (Operations.recommend ds) c = record {
  method_same = refl;
  path_same = refl;
  query_taken = refl;
  body_taken = detectors_ok ds;
}
job_requests (Operations.approve j) c = record {
  method_same = refl;
  path_same = job_path c j "/approve";
  query_taken = refl;
  body_taken = refl;
}
job_requests (Operations.reject j) c = record {
  method_same = refl;
  path_same = job_path c j "/reject";
  query_taken = refl;
  body_taken = refl;
}
job_requests (Operations.execute j) c = record {
  method_same = refl;
  path_same = job_path c j "/execute";
  query_taken = refl;
  body_taken = refl;
}
job_requests (Operations.cancel j) c = record {
  method_same = refl;
  path_same = job_path c j "/cancel";
  query_taken = refl;
  body_taken = refl;
}
job_requests (Operations.bulk_approve none) c = record {
  method_same = refl;
  path_same = refl;
  query_taken = refl;
  body_taken = refl;
}
job_requests (Operations.bulk_approve (some j)) c = record {
  method_same = refl;
  path_same = below c (sym (append_assoc "/jobs" "/bulk-approve" ("?tier=" ++ show j)));
  query_taken = refl;
  body_taken = refl;
}
job_requests (Operations.relocate index shard from_node to_node) c = record {
  method_same = refl;
  path_same = refl;
  query_taken = refl;
  body_taken = rw (truthy-show shard, all_digits-show shard) refl;
}
job_requests _ c = record {
  method_same = refl;
  path_same = refl;
  query_taken = refl;
  body_taken = refl;
}
