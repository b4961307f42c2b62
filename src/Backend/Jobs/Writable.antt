-- ===== src/Backend/Jobs/Writable.antt =====
-- The handlers that start jobs: which jobs they hand to the runner, and behind which gate.
use text.Mathlib.Text.{◌==◌ as str_eq}
use mathlib.Core.List.{Memᴰ}
use mathlib.Core.List.Memᴰ
use text.Mathlib.TextEquality.{eq_iff}
use elastic_ops.Prelude.{
  ◌∷◌, ◌++◌, sym, ==_iff, ℕ, String, Bool, true, false, not, ◌&&◌, Option, none, some, List, [],
  ◌≡◌, inl, inr, refl, arith, Bool-cases,
}
use elastic_ops.Api.Jobs.{Job}
use elastic_ops.Backend.Jobs.{
  enqueue, enqueued_ids, takes, queued, busy_indexes, Answer, done, refused, ClusterRow,
  writable_or, if_status, get_job, execute_job, execute_all, rows_after,
}
use elastic_ops.Backend.Jobs.Create.{
  added, drain_job, promote_job, reindex_job, relocate_job, new_job, if_safe, Given, drain_node,
  promote_index, reindex, relocate_shard,
}
use elastic_ops.Backend.Drain.{Disk, Stored, preflight}

-- The requests that start jobs.
pub data Write : Type 0 where
  executes : (job_id : ℕ) → Write
  executes_all : Write
  drains : List Disk → List Stored → Given → String → Write
  promotes : Given → (source target alias : String) → Bool → Write
  reindexes : Given → (source dest : String) → Write
  relocates : Given → String → ℕ → (from_node to_node : String) → Write

unfoldable pub answer : Option ClusterRow → String → ℕ → Write → List Job → Answer
answer cluster now c (executes n) rows = execute_job cluster now n rows
answer cluster now c executes_all rows = execute_all cluster now c rows
answer cluster now c (drains nodes shards given node) rows =
    drain_node cluster nodes shards given c node rows
answer cluster now c (promotes given source target alias delete_source) rows =
    promote_index cluster given c source target alias delete_source rows
answer cluster now c (reindexes given source dest) rows = reindex cluster given c source dest rows
answer cluster now c (relocates given index shard from_node to_node) rows =
    relocate_shard cluster given c index shard from_node to_node rows

abbrev pub is_writable : Option ClusterRow → Bool
is_writable none = false
is_writable (some c) = c.is_active && not c.read_only

-- What is handed to the runner.
abbrev pub submitted_by : Answer → List ℕ
submitted_by (done rows submitted cancelled) = submitted
submitted_by (refused code detail) = []

-- Which jobs a request may hand to the runner: that of an approved row, where one job is executed; and
-- otherwise one of the request's cluster that is queued after it.
abbrev pub MayStart : ℕ → Write → List Job → List Job → ℕ → Type 0
MayStart c (executes n) before after i =
    (i ≡ n) × ((j : Job) × (get_job n before ≡ some j) × (j.status ≡ "approved"))
MayStart c w before after i =
    (j : Job) × Memᴰ j after × (j.id ≡ i) × (j.cluster_id ≡ c) × (j.status ≡ "queued")

passes_gate :
    (cluster : Option ClusterRow) (a : Answer) {i : ℕ}
    → Memᴰ i (submitted_by (writable_or cluster a))
    → (is_writable cluster ≡ true) × (writable_or cluster a ≡ a)
unfolding writable_or
passes_gate none a m = absurd (Memᴰ.not-nil m)
passes_gate (some c) a m = elim (Bool-cases c.is_active) [
  | inr inactive ↦ absurd (Memᴰ.not-nil (rw inactive at m))
  | inl active ↦ elim (Bool-cases c.read_only) [
    | inl read ↦ absurd (Memᴰ.not-nil (rw (active, read) at m))
    | inr writes ↦ (ground arith, rw (active, writes) refl)
  ]
]

module _ (c : ℕ) (now : String) where
  abbrev Queued : List Job → ℕ → Type 0
  Queued after i =
      (j : Job) × Memᴰ j after × (j.id ≡ i) × (j.cluster_id ≡ c) × (j.status ≡ "queued")

  later : (k : Job) (after : List Job) (i : ℕ) → Queued after i → Queued (k ∷ after) i
  later k after i (j, there, named, own, status) = (j, Memᴰ.tail there, named, own, status)

  enqueued_rows :
      (busy : List String) (rows : List Job) (i : ℕ)
      → Memᴰ i (enqueued_ids c busy rows)
      → Queued (enqueue c now busy rows) i
  unfolding enqueue enqueued_ids
  enqueued_rows busy [] i m = absurd (Memᴰ.not-nil m)
  enqueued_rows busy (j ∷ js) i m = elim (Bool-cases (takes c busy j)) [
    | inl t ↦ elim (Memᴰ.cases_cons (rw t at m)) [
      | inl e ↦
          rw t (queued now j, Memᴰ.head refl, sym e, ground (arith, ==_iff j.cluster_id c), refl)
      | inr rest ↦ rw t (
          later (queued now j) (enqueue c now (j.index_name ∷ busy) js) i
            (enqueued_rows (j.index_name ∷ busy) js i rest))
    ]
    | inr t ↦ rw t (later j (enqueue c now busy js) i (enqueued_rows busy js i (rw t at m)))
  ]

  last_row : (job : Job) (rows : List Job) → Memᴰ job (rows ++ job ∷ [])
  last_row job [] = Memᴰ.head refl
  last_row job (j ∷ js) = Memᴰ.tail (last_row job js)

  added_row :
      (cluster : Option ClusterRow) (job : Job) (rows : List Job) (i : ℕ)
      → job.cluster_id ≡ c
      → job.status ≡ "queued"
      → Memᴰ i (submitted_by (writable_or cluster (added job rows)))
      → (is_writable cluster ≡ true)
        × Queued (rows_after rows (writable_or cluster (added job rows))) i
  added_row cluster job rows i own status m =
      let (open_gate, same) = passes_gate cluster (added job rows) m in
      elim (Memᴰ.cases_cons (rw same at m)) [
        | inl e ↦ (open_gate, rw same (job, last_row job rows, sym e, own, status))
        | inr none_left ↦ absurd (Memᴰ.not-nil none_left)
      ]

  safe_row :
      (cluster : Option ClusterRow) (p : Bool × String) (job : Job) (rows : List Job) (i : ℕ)
      → job.cluster_id ≡ c
      → job.status ≡ "queued"
      → Memᴰ i (submitted_by (writable_or cluster (if_safe p (added job rows))))
      → (is_writable cluster ≡ true)
        × Queued (rows_after rows (writable_or cluster (if_safe p (added job rows)))) i
  safe_row cluster (true, reason) job rows i own status m =
      added_row cluster job rows i own status m
  safe_row cluster (false, reason) job rows i own status m =
      let (open_gate, same) = passes_gate cluster (refused 400 reason) m in
      absurd (Memᴰ.not-nil (rw same at m))

executed_row :
    (cluster : Option ClusterRow) (n i : ℕ) (o : Option Job) (after : List Job)
    → Memᴰ i (submitted_by (if_status "approved" o (writable_or cluster (done after (n ∷ []) []))))
    → (is_writable cluster ≡ true)
      × ((i ≡ n) × ((j : Job) × (o ≡ some j) × (j.status ≡ "approved")))
executed_row cluster n i none after m = absurd (Memᴰ.not-nil m)
executed_row cluster n i (some j) after m = elim (Bool-cases (str_eq j.status "approved")) [
  | inr e ↦ absurd (Memᴰ.not-nil (rw e at m))
  | inl e ↦
      let reached : Memᴰ i (submitted_by (writable_or cluster (done after (n ∷ []) []))) =
        rw e at m in
      let (open_gate, same) = passes_gate cluster (done after (n ∷ []) []) reached in
      elim (Memᴰ.cases_cons (rw same at reached)) [
        | inl q ↦ (open_gate, (q, (j, refl, (eq_iff j.status "approved").0 e)))
        | inr none_left ↦ absurd (Memᴰ.not-nil none_left)
      ]
]

-- A request hands a job to the runner only where the cluster of its path exists, is active and is not read-only;
-- the job is that of an approved row with the identifier of the path, where one job is executed, and otherwise a
-- job of the cluster of the path that is queued after the request.
pub starts_in_writable :
    (cluster : Option ClusterRow) (now : String) (c : ℕ) (w : Write) (rows : List Job) (i : ℕ)
    → Memᴰ i (submitted_by (answer cluster now c w rows))
    → (is_writable cluster ≡ true)
      × MayStart c w rows (rows_after rows (answer cluster now c w rows)) i
unfolding answer execute_job execute_all drain_node promote_index reindex relocate_shard drain_job
    promote_job reindex_job relocate_job new_job
starts_in_writable cluster now c (executes n) rows i m =
    executed_row cluster n i (get_job n rows) _ m
starts_in_writable cluster now c executes_all rows i m =
    let all =
      done (enqueue c now (busy_indexes c rows) rows) (enqueued_ids c (busy_indexes c rows) rows)
        [] in
    let (open_gate, same) = passes_gate cluster all m in
    (open_gate, rw same (enqueued_rows c now (busy_indexes c rows) rows i (rw same at m)))
starts_in_writable cluster now c (drains nodes shards given node) rows i m =
    safe_row c now cluster (preflight node nodes shards) (drain_job given c node) rows i refl refl m
starts_in_writable cluster now c (promotes given source target alias delete_source) rows i m =
    added_row c now cluster (promote_job given c source target alias delete_source) rows i refl refl
      m
starts_in_writable cluster now c (reindexes given source dest) rows i m =
    added_row c now cluster (reindex_job given c source dest) rows i refl refl m
starts_in_writable cluster now c (relocates given index shard from_node to_node) rows i m =
    added_row c now cluster (relocate_job given c index shard from_node to_node) rows i refl refl m
