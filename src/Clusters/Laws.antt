-- ===== src/Clusters/Laws.antt =====
-- Which cluster is active, across a choice, a reload and a removal.

use mathlib.Core.List.{Memᴰ}
use elastic_ops.Prelude.{
  ℕ, ◌==◌, ==_iff, String, Bool, not, some, List, [], ◌∷◌, ◌≡◌, inl, inr, refl, arith, find?,
  filter, find?_of_mem, filter_of_find?-none, Bool-cases, Option-cases,
}
use elastic_ops.Prelude.Text.{show}
use elastic_ops.Prelude.Show.{truthy-show}
use elastic_ops.Api.Json.{Json}
use elastic_ops.Api.Client.{ok}
use elastic_ops.Api.Clusters.{Cluster}
use elastic_ops.Api.Storage.{set_item, get_item-set_item, get_item-set_item_self}
use elastic_ops.Clusters.{
  Number, natural, Context, load, set_active_cluster_id, set_refresh_interval, persist_active,
  persist_interval, saved, saved_interval, has_id, active_cluster, Selector, remove_settles,
  move_to, without, active_key, interval_key,
}

-- A cluster that is chosen and listed is the active one: the active cluster has its identifier.
pub active_cluster_chosen :
    (n : ℕ) (chosen : Cluster) (clusters : List Cluster)
    → chosen.id ≡ n
    → Memᴰ chosen clusters
    → (c : Cluster) × (active_cluster (some (natural n)) clusters ≡ some c) × (c.id ≡ n)
unfolding active_cluster
active_cluster_chosen n chosen clusters q m =
    let (c, e, h) = find?_of_mem (has_id (some (natural n))) m ((==_iff chosen.id n).1 q) in
    (c, rw e refl, (==_iff c.id n).0 h)

find?_again :
    (p : Cluster → Bool) (l : List Cluster) {next : Cluster}
    → find? p l ≡ some next
    → find? (λ c. c.id == next.id) (filter p l) ≡ some next
find?_again p [] h = cc
find?_again p (c ∷ l) {next} h = elim (Bool-cases (p c)) [
  | inl e ↦ let q : c ≡ next = ground arith in rw e (rw q (ground arith))
  | inr e ↦ rw e (find?_again p l (rw e at h))
]

-- Once a cluster is removed and the list is fetched again, the active cluster is the first of the
-- others, or none where there is no other.
pub removal_moves_on :
    (clusters : List Cluster) (j : Json) (s : Selector)
    → find? (λ c. not (c.id == s.removed_id)) clusters
      ≡ active_cluster
          (remove_settles clusters (ok j) s).context.active_id
          (without s.removed_id clusters)
unfolding remove_settles active_cluster set_active_cluster_id move_to
removal_moves_on clusters j s =
    let p = λ (c : Cluster). not (c.id == s.removed_id) in
    elim (Option-cases (find? p clusters)) [
      | inl e ↦ rw (filter_of_find?-none p clusters e, e) refl
      | inr (next, e) ↦ rw e (rw (find?_again p clusters e) refl)
    ]

-- A cluster and an interval that the user chose are those that a reload restores, where `Number` reads
-- back what `String` prints; a choice of one leaves the other as it was, at once and after a reload.
pub reload_restores :
    (number : String → Number) (c : Context) (id interval : ℕ)
    → ((n : ℕ) → number (show n) ≡ natural n)
    → ((load number (set_refresh_interval interval (set_active_cluster_id id c)).storage).active_id
        ≡ some (natural id))
      × ((load number
            (set_refresh_interval interval (set_active_cluster_id id c)).storage).refresh_interval
          ≡ natural interval)
      × ((set_active_cluster_id id c).refresh_interval ≡ c.refresh_interval)
      × ((load number (set_active_cluster_id id c).storage).refresh_interval
          ≡ (load number c.storage).refresh_interval)
      × ((set_refresh_interval interval c).active_id ≡ c.active_id)
      × ((load number (set_refresh_interval interval c).storage).active_id
          ≡ (load number c.storage).active_id)
unfolding load set_refresh_interval set_active_cluster_id persist_active persist_interval saved
    saved_interval
reload_restores number c id interval reads =
    let stored = set_item active_key (show id) c.storage in
    (
      rw
          (
            get_item-set_item interval_key active_key (show interval) stored,
            get_item-set_item_self active_key (show id) c.storage,
          )
          (rw (truthy-show id) (rw (reads id) refl)),
      rw (get_item-set_item_self interval_key (show interval) stored)
          (rw (truthy-show interval) (reads interval)),
      refl,
      rw (get_item-set_item active_key interval_key (show id) c.storage) refl,
      refl,
      rw (get_item-set_item interval_key active_key (show interval) c.storage) refl,
    )
