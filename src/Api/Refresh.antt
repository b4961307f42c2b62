-- ===== src/Api/Refresh.antt =====
-- Which queries an operation refreshes. `invalidateQueries` of react-query refetches the queries whose
-- key starts with the given one.
use text.Mathlib.Text.{◌==◌ as str_eq}
use elastic_ops.Prelude.{
  ℕ, ◌==◌, Bool, true, false, not, ◌&&◌, Option, List, [], ◌∷◌, ◌≡◌, ◌⊎◌, refl, any, Bool-cases,
  inl, inr, if◌then◌else◌,
}
use elastic_ops.Api.Queries.{
  KeyPart, word, id, flag, null, undefined, EsQuery, health, overview, nodes, shards, shard_map,
  pivot, analyze, settings, unassigned, rebalance_suggestions, es_key, JobQuery, job_list,
  job_summary, concurrency, job_key, AppQuery, auth_status, me, app_key,
}
use elastic_ops.Api.Operations.{
  JobOperation, relocate, drain, job_invalidates, EsOperation, refresh_snapshots, es_invalidates,
  AppOperation, login, app_invalidates,
}

abbrev pub same_part : KeyPart → KeyPart → Bool
same_part (word a) (word b) = str_eq a b
same_part (id a) (id b) = a == b
same_part (flag true) (flag b) = b
same_part (flag false) (flag b) = not b
same_part null null = true
same_part undefined undefined = true
same_part _ _ = false

abbrev pub starts_key : List KeyPart → List KeyPart → Bool
starts_key [] k = true
starts_key (p ∷ ps) [] = false
starts_key (p ∷ ps) (q ∷ qs) = same_part p q && starts_key ps qs

abbrev pub refreshes : List (List KeyPart) → List KeyPart → Bool
refreshes invalidated key = any (λ p. starts_key p key) invalidated

-- The operations that move shards.
abbrev pub moves_shards : JobOperation → Bool
moves_shards (relocate index shard from_node to_node) = true
moves_shards (drain node) = true
moves_shards _ = false

es_key_prefix :
    (e : EsQuery) (c : Option ℕ)
    → (starts_key (word "es" ∷ []) (es_key e c) ≡ true)
      × (starts_key (word "jobs" ∷ []) (es_key e c) ≡ false)
unfolding es_key
es_key_prefix health c = (refl, refl)
es_key_prefix overview c = (refl, refl)
es_key_prefix nodes c = (refl, refl)
es_key_prefix shards c = (refl, refl)
es_key_prefix shard_map c = (refl, refl)
es_key_prefix pivot c = (refl, refl)
es_key_prefix (analyze problems_only) c = (refl, refl)
es_key_prefix settings c = (refl, refl)
es_key_prefix unassigned c = (refl, refl)
es_key_prefix rebalance_suggestions c = (refl, refl)

job_key_prefix :
    (q : JobQuery) (c : Option ℕ)
    → (starts_key (word "jobs" ∷ []) (job_key q c) ≡ true)
      × (starts_key (word "es" ∷ []) (job_key q c) ≡ false)
unfolding job_key
job_key_prefix (job_list status) c = (refl, refl)
job_key_prefix job_summary c = (refl, refl)
job_key_prefix concurrency c = (refl, refl)

invalidates_moves :
    (op : JobOperation)
    → job_invalidates op ≡ (word (if moves_shards op then "es" else "jobs") ∷ []) ∷ []
unfolding job_invalidates
invalidates_moves (relocate index shard from_node to_node) = refl
invalidates_moves (drain node) = refl
invalidates_moves _ = refl

-- Each job operation but a relocation and a drain refreshes every job query, of every cluster, and no
-- query of the cluster's snapshots; a relocation and a drain refresh every snapshot query and no job
-- query, though they create a job.
pub job_operation_refreshes :
    (op : JobOperation) (q : JobQuery) (e : EsQuery) (c : Option ℕ)
    → (refreshes (job_invalidates op) (job_key q c) ≡ not (moves_shards op))
      × (refreshes (job_invalidates op) (es_key e c) ≡ moves_shards op)
job_operation_refreshes op q e c =
    let (j, jn) = job_key_prefix q c in
    let (s, sn) = es_key_prefix e c in
    elim (Bool-cases (moves_shards op)) [
      | inl m ↦ rw (invalidates_moves op, m) (rw jn refl, rw s refl)
      | inr m ↦ rw (invalidates_moves op, m) (rw j refl, rw sn refl)
    ]

app_misses :
    (op : AppOperation) (rest : List KeyPart)
    → refreshes (app_invalidates op) (word "auth" ∷ rest) ≡ false
unfolding app_invalidates
app_misses (login body) rest = refl
app_misses _ rest = refl

es_misses :
    (op : EsOperation) (rest : List KeyPart)
    → refreshes (es_invalidates op) (word "auth" ∷ rest) ≡ false
unfolding es_invalidates
es_misses refresh_snapshots rest = refl
es_misses _ rest = refl

job_misses :
    (op : JobOperation) (rest : List KeyPart)
    → refreshes (job_invalidates op) (word "auth" ∷ rest) ≡ false
unfolding job_invalidates
job_misses (relocate index shard from_node to_node) rest = refl
job_misses _ rest = refl

-- No operation, signing in included, fetches the signed-in user or the status of the setup again.
pub account_never_refreshed :
    (a : AppOperation) (j : JobOperation) (e : EsOperation) (q : AppQuery)
    → (q ≡ me) ⊎ (q ≡ auth_status)
    → (refreshes (app_invalidates a) (app_key q) ≡ false)
      × (refreshes (job_invalidates j) (app_key q) ≡ false)
      × (refreshes (es_invalidates e) (app_key q) ≡ false)
unfolding app_key
account_never_refreshed a j e q (inl m) = rw m (app_misses a _, job_misses j _, es_misses e _)
account_never_refreshed a j e q (inr m) = rw m (app_misses a _, job_misses j _, es_misses e _)
