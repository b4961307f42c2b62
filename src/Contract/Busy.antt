-- ===== src/Contract/Busy.antt =====
-- "Execute Next" against the rule of `execute_all` that one index has one job in flight at a time.
use text.Mathlib.Text.{◌==◌ as str_eq}
use text.Mathlib.TextEquality.{eq_iff}
use elastic_ops.Prelude.{
  ℕ, ◌+◌, String, true, false, some, List, [], ◌∷◌, ◌≡◌, refl, arith, find?, Bool-cases, inl, inr,
  ==_iff,
}
use elastic_ops.Api.Jobs.{Job}
use elastic_ops.Backend.Jobs.{
  ClusterRow, has_id, get_job, update_where, queued, in_cluster, in_flight, execute_job, rows_after,
}
use elastic_ops.Backend.Jobs.Gate.{is_flight, flights}
use elastic_ops.Jobs.Execution.{has_status}
use elastic_ops.Contract.Rows.{Distinct, some_inj, update_fresh}

one_more :
    (c : ℕ) (now : String) (rows : List Job) {j : Job}
    → Distinct rows
    → find? (has_id j.id) rows ≡ some j
    → is_flight c j.index_name (queued now j) ≡ true
    → is_flight c j.index_name j ≡ false
    → flights c j.index_name (update_where (has_id j.id) (queued now) rows)
      ≡ flights c j.index_name rows + 1
unfolding flights
one_more c now [] d e up down = cc
one_more c now (k ∷ ks) {j} d e up down = elim (Bool-cases (has_id j.id k)) [
  | inl y ↦
      let same : k ≡ j = some_inj (rw y at e) in
      let own : has_id j.id j ≡ true = (==_iff j.id j.id).1 refl in
      rw (same, own, up, down, update_fresh j.id (queued now) ks (rw same at d.0)) (omega arith)
  | inr other ↦ rw other (omega (arith, one_more c now ks d.1 (rw other at e) up down))
]

-- On an active, writable cluster, over rows of different identifiers, executing one approved job does not ask whether
-- its index is busy: the job is in flight afterwards beside every job of the index that was in flight before.
pub execute_ignores_busy :
    (cluster : ClusterRow) (c : ℕ) (now : String) (rows : List Job) (j : Job)
    → cluster.is_active ≡ true
    → cluster.read_only ≡ false
    → Distinct rows
    → get_job j.id rows ≡ some j
    → in_cluster c j ≡ true
    → has_status "approved" j ≡ true
    → flights c j.index_name (rows_after rows (execute_job (some cluster) now j.id rows))
      ≡ flights c j.index_name rows + 1
unfolding execute_job get_job
execute_ignores_busy cluster c now rows j active writable d own inside approved =
    let same : str_eq j.index_name j.index_name ≡ true =
      (eq_iff j.index_name j.index_name).1 refl in
    let status : j.status ≡ "approved" = (eq_iff j.status "approved").0 approved in
    let idle : in_flight j ≡ false = rw status refl in
    rw (own, approved, active, writable)
      (one_more c now rows d own (rw (inside, same) refl) (rw (inside, idle) refl))
