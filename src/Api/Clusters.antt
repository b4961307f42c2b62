-- ===== src/Api/Clusters.antt =====
-- frontend/src/api/clusters.ts: the payloads of the cluster endpoints.
use elastic_ops.Prelude.{ℕ, String, Bool, Option}

pub record Cluster : Type 0 where
  pub id : ℕ
  pub name : String
  pub url : String
  pub username : String
  pub verify_ssl : Bool
  pub is_active : Bool
  pub created_at : String
  pub read_only : Option Bool

pub record ClusterCreate : Type 0 where
  pub name : String
  pub url : String
  pub username : Option String
  pub password : Option String
  pub verify_ssl : Option Bool
  pub read_only : Option Bool
  pub is_active : Option Bool
