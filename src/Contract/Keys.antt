-- ===== src/Contract/Keys.antt =====
-- react-query keeps one cached value for each key, compared by its JSON text, in which an `undefined` in a
-- list is written `null`. So two queries with one key must be one query.
use text.Mathlib.Text.{◌==◌ as str_eq}
use elastic_ops.Prelude.{
  ℕ, String, Option, none, some, List, [], ◌∷◌, ◌≡◌, refl, sym, ap, ◌∙◌, if◌then◌else◌,
}
use elastic_ops.Api.Queries.{
  KeyPart, word, id, flag, null, undefined, EsQuery, health, overview, nodes, shards, shard_map,
  pivot, analyze, settings, unassigned, rebalance_suggestions, es_key, JobQuery, job_list,
  job_summary, concurrency, job_key, AppQuery, auth_status, me, admin_users, clusters, app_key,
}

abbrev hashed_part : KeyPart → KeyPart
hashed_part undefined = null
hashed_part p = p

abbrev pub hashed : List KeyPart → List KeyPart
hashed [] = []
hashed (p ∷ ps) = hashed_part p ∷ hashed ps

pub data AnyQuery : Type 0 where
  of_es : EsQuery → Option ℕ → AnyQuery
  of_jobs : JobQuery → Option ℕ → AnyQuery
  of_app : AppQuery → AnyQuery

unfoldable pub key_of : AnyQuery → List KeyPart
key_of (of_es q c) = es_key q c
key_of (of_jobs q c) = job_key q c
key_of (of_app q) = app_key q

cluster_of : KeyPart → Option ℕ
cluster_of (id n) = some n
cluster_of _ = none

status_of : KeyPart → Option String
status_of (word s) = some s
status_of _ = none

es_named : String → EsQuery
es_named s =
    if str_eq s "health"
    then health
    else if str_eq s "overview"
    then overview
    else if str_eq s "nodes"
    then nodes
    else if str_eq s "shards"
    then shards
    else if str_eq s "shard-map"
    then shard_map
    else if str_eq s "pivot"
    then pivot
    else if str_eq s "settings"
    then settings
    else if str_eq s "unassigned"
    then unassigned
    else rebalance_suggestions

-- The query of a key.
query_of : List KeyPart → AnyQuery
query_of (word a ∷ []) = of_app clusters
query_of (word a ∷ word b ∷ []) =
    if str_eq a "admin"
    then of_app admin_users
    else if str_eq b "me"
    then of_app me
    else of_app auth_status
query_of (word a ∷ word b ∷ c ∷ flag p ∷ []) = of_es (analyze p) (cluster_of c)
query_of (word a ∷ word b ∷ c ∷ []) =
    if str_eq a "es"
    then of_es (es_named b) (cluster_of c)
    else if str_eq b "summary"
    then of_jobs job_summary (cluster_of c)
    else of_jobs concurrency (cluster_of c)
query_of (word a ∷ c ∷ s ∷ []) = of_jobs (job_list (status_of s)) (cluster_of c)
query_of _ = of_app clusters

query_of-es : (q : EsQuery) (c : Option ℕ) → query_of (hashed (es_key q c)) ≡ of_es q c
unfolding query_of es_key cluster_of es_named
query_of-es health none = refl
query_of-es health (some c) = refl
query_of-es _ none = refl
query_of-es _ (some c) = refl

query_of-jobs : (q : JobQuery) (c : Option ℕ) → query_of (hashed (job_key q c)) ≡ of_jobs q c
unfolding query_of job_key cluster_of status_of
query_of-jobs (job_list none) none = refl
query_of-jobs (job_list none) (some c) = refl
query_of-jobs (job_list (some s)) none = refl
query_of-jobs (job_list (some s)) (some c) = refl
query_of-jobs _ none = refl
query_of-jobs _ (some c) = refl

query_of-app : (q : AppQuery) → query_of (hashed (app_key q)) ≡ of_app q
unfolding query_of app_key
query_of-app me = refl
query_of-app _ = refl

query_of-key_of : (q : AnyQuery) → query_of (hashed (key_of q)) ≡ q
unfolding key_of
query_of-key_of (of_es q c) = query_of-es q c
query_of-key_of (of_jobs q c) = query_of-jobs q c
query_of-key_of (of_app q) = query_of-app q

-- Two queries of the app with one key are one query of one cluster, so that no page shows what another query,
-- or the same query of another cluster, has cached.
pub key_of_inj : (p q : AnyQuery) → hashed (key_of p) ≡ hashed (key_of q) → p ≡ q
key_of_inj p q h = sym (query_of-key_of p) ∙ ap query_of h ∙ query_of-key_of q
