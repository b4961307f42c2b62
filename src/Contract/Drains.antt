-- ===== src/Contract/Drains.antt =====
-- A drain that the backend has just created (backend/routes/jobs.py) under the drain controls of the node page
-- (frontend/src/pages/Nodes.tsx).
use elastic_ops.Prelude.{
  ℕ, String, Bool, true, false, some, List, [], ◌∷◌, ◌++◌, ◌≡◌, refl, find?, inl, inr, Bool-cases,
}
use elastic_ops.Api.Jobs.{Job}
use elastic_ops.Backend.Jobs.{ClusterRow, rows_after}
use elastic_ops.Backend.Jobs.Create
use elastic_ops.Backend.Jobs.Create.{Given, drain_node, new_job}
use elastic_ops.Backend.Drain.{Disk, Stored, preflight}
use elastic_ops.Nodes.{drain_job}

find?-append_miss :
    (p : Job → Bool) (l : List Job) (j : Job) → p j ≡ false → find? p (l ++ j ∷ []) ≡ find? p l
find?-append_miss p [] j h = rw h refl
find?-append_miss p (k ∷ l) j h = elim (Bool-cases (p k)) [
  | inl e ↦ rw e refl
  | inr e ↦ rw e (find?-append_miss p l j h)
]

unseen :
    (given : Given) (c : ℕ) (node other : String) (rows : List Job)
    → drain_job other (some (rows ++ Create.drain_job given c node ∷ []))
      ≡ drain_job other (some rows)
unfolding drain_job Create.drain_job new_job
unseen given c node other rows = find?-append_miss _ rows (Create.drain_job given c node) refl

added-if_safe :
    (v : Bool × String) (job : Job) (rows : List Job)
    → v.0 ≡ true
    → rows_after rows (Create.if_safe v (Create.added job rows)) ≡ rows ++ job ∷ []
added-if_safe (true, reason) job rows h = refl
added-if_safe (false, reason) job rows h = cc

-- A drain that passes the preflight on a writable cluster is a new row, and it is queued first: the drain controls of
-- no node see it, and offer the drain of the node as before.
pub queued_drain_unseen :
    (cluster : ClusterRow) (nodes : List Disk) (shards : List Stored) (given : Given) (c : ℕ)
    (node other : String) (rows : List Job)
    → cluster.is_active ≡ true
    → cluster.read_only ≡ false
    → (preflight node nodes shards).0 ≡ true
    → (rows_after rows (drain_node (some cluster) nodes shards given c node rows)
        ≡ rows ++ Create.drain_job given c node ∷ [])
      × (drain_job other (some (rows ++ Create.drain_job given c node ∷ []))
          ≡ drain_job other (some rows))
unfolding drain_node
queued_drain_unseen cluster nodes shards given c node other rows active writable safe = (
  rw (active, writable)
      (added-if_safe (preflight node nodes shards) (Create.drain_job given c node) rows safe),
  unseen given c node other rows,
)
