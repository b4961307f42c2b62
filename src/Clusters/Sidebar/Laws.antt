-- ===== src/Clusters/Sidebar/Laws.antt =====
-- What the cluster selector deletes, and which cluster its dialog is for.
use elastic_ops.Prelude.{
  ℕ, ◌==◌, Bool, true, false, not, ◌&&◌, Option, none, some, List, [], ◌∷◌, ◌≡◌, inl, inr, refl,
  find?, find?_sound, Bool-cases, arith,
}
use elastic_ops.Api.Json.{Json}
use elastic_ops.Api.Client.{ok, throw}
use elastic_ops.Api.Clusters.{Cluster}
use elastic_ops.Api.Mutation.{pending, is_pending, settled}
use elastic_ops.Clusters.{
  Selector, open_add, open_edit, handle_remove, remove_settles, set_active_cluster_id,
  active_cluster, move_to,
}
use elastic_ops.Clusters.Sidebar.{
  Sidebar, collapsed, active, dialog_cluster, shows_edit, Event, toggles, adds, edits, closes,
  chooses, removes, delete_done, clusters_arrive, step, run,
}

-- What one event may add to the deletions that were sent.
pub data Deletes (s : Sidebar) : Event → List ℕ → Type 0 where
  nothing : {e : Event} → Deletes s e s.selector.sent
  the_active :
      (a : Cluster)
      → active s ≡ some a
      → s.is_admin ≡ true
      → collapsed s ≡ false
      → is_pending s.selector.delete ≡ false
      → Deletes s (removes true) (a.id ∷ s.selector.sent)

remove-sent :
    (a : Cluster) (admin : Bool) (s : Selector)
    → admin ≡ true
    → is_pending s.delete ≡ false
    → (handle_remove (some a) true admin s).sent ≡ a.id ∷ s.sent
unfolding handle_remove
remove-sent a admin s h idle = rw (h, idle) refl

unconfirmed : (o : Option Cluster) (admin : Bool) (s : Selector) → handle_remove o false admin s ≡ s
unfolding handle_remove
unconfirmed none admin s = refl
unconfirmed (some a) admin s = ground arith

removed-Deletes :
    (confirmed : Bool) (o : Option Cluster) (s : Sidebar)
    → active s ≡ o
    → s.is_admin ≡ true
    → collapsed s ≡ false
    → is_pending s.selector.delete ≡ false
    → Deletes s (removes confirmed) (handle_remove o confirmed s.is_admin s.selector).sent
unfolding handle_remove
removed-Deletes false o s e admin wide idle = rw (unconfirmed o s.is_admin s.selector) nothing
removed-Deletes true none s e admin wide idle = nothing
removed-Deletes true (some a) s e admin wide idle =
    rw (remove-sent a s.is_admin s.selector admin idle) (the_active a e admin wide idle)

settled-sent :
    (clusters : List Cluster) (r : elastic_ops.Api.Client.Result Json) (s : Selector)
    → (remove_settles clusters r s).sent ≡ s.sent
unfolding remove_settles
settled-sent clusters (ok j) s = refl
settled-sent clusters (throw f) s = refl

-- A deletion is sent only by the remove button, after the question is confirmed, by an admin, for the cluster that
-- is active at the click, and never while another deletion is pending.
pub step-Deletes : (e : Event) (s : Sidebar) → Deletes s e (step e s).selector.sent
unfolding step open_add open_edit
step-Deletes toggles s = nothing
step-Deletes adds s = nothing
step-Deletes edits s = elim (Bool-cases (shows_edit s)) [
  | inl g ↦ rw g nothing
  | inr g ↦ rw g nothing
]
step-Deletes closes s = nothing
step-Deletes (chooses n) s = elim (Bool-cases (not (collapsed s))) [
  | inl g ↦ rw g nothing
  | inr g ↦ rw g nothing
]
step-Deletes (removes confirmed) s =
    elim (Bool-cases (shows_edit s && not (is_pending s.selector.delete))) [
      | inl g ↦
          rw g (
            removed-Deletes confirmed (active s) s refl (ground arith) (ground arith)
              (ground arith))
      | inr g ↦ rw g nothing
    ]
step-Deletes (delete_done r) s = elim (Bool-cases (is_pending s.selector.delete)) [
  | inl g ↦ rw (g, settled-sent s.at_click r s.selector) nothing
  | inr g ↦ rw g nothing
]
step-Deletes (clusters_arrive l) s = nothing

first_other :
    (n : ℕ) (l : List Cluster) {next : Cluster}
    → find? (λ c. not (c.id == n)) l ≡ some next
    → find? (λ c. c.id == next.id) l ≡ some next
first_other n [] h = cc
first_other n (c ∷ l) {next} h = elim (Bool-cases (c.id == n)) [
  | inl e ↦
      let rest : find? (λ c. not (c.id == n)) l ≡ some next = rw e at h in
      let sound = find?_sound (λ c. not (c.id == n)) l rest in
      let apart : (c.id == next.id) ≡ false = ground (arith, sound.0) in
      rw apart (first_other n l rest)
  | inr e ↦ let q : c ≡ next = ground arith in rw q (ground arith)
]

-- After the remove button on an expanded sidebar.
abbrev removing : Cluster → Sidebar → Sidebar
removing a s = record s {
  at_click = s.clusters;
  selector = record s.selector {
    delete = pending;
    removed_id = a.id;
    sent = a.id ∷ s.selector.sent;
  };
}

removes_lem :
    (s : Sidebar) (a : Cluster)
    → active s ≡ some a
    → shows_edit s ≡ true
    → is_pending s.selector.delete ≡ false
    → step (removes true) s ≡ removing a s
unfolding step handle_remove
removes_lem s a here shown idle =
    let admin : s.is_admin ≡ true = ground arith in rw (shown, idle, here, admin, idle) refl

abbrev opened_on : Sidebar → Sidebar
opened_on s = record s { selector = record s.selector { editing = true; dialog_open = true } }

edits_lem : (s : Sidebar) → shows_edit s ≡ true → step edits s ≡ opened_on s
unfolding step open_edit
edits_lem s shown = rw shown refl

abbrev moved : Cluster → Json → Sidebar → Sidebar
moved next j s = record s {
  selector = record s.selector {
    delete = settled (ok j);
    context = set_active_cluster_id next.id s.selector.context;
  };
}

active_next :
    (s : Sidebar) (next : Cluster) (j : Json)
    → find? (λ c. c.id == next.id) s.clusters ≡ some next
    → active (moved next j s) ≡ some next
unfolding active_cluster set_active_cluster_id
active_next s next j h = rw h refl

-- The edit button stays while a deletion is pending: with the dialog opened on the active cluster by then, the end of
-- the deletion turns it to the next cluster, which a submit then changes.
pub removal_turns_dialog :
    (s : Sidebar) (a next : Cluster) (j : Json)
    → active s ≡ some a
    → shows_edit s ≡ true
    → is_pending s.selector.delete ≡ false
    → find? (λ c. not (c.id == a.id)) s.clusters ≡ some next
    → (dialog_cluster (run (removes true ∷ edits ∷ []) s) ≡ some a)
      × ((run (removes true ∷ edits ∷ delete_done (ok j) ∷ []) s).selector.dialog_open ≡ true)
      × (dialog_cluster (run (removes true ∷ edits ∷ delete_done (ok j) ∷ []) s) ≡ some next)
unfolding run dialog_cluster step remove_settles move_to
removal_turns_dialog s a next j here shown idle other =
    let opened = opened_on (removing a s) in
    rw (removes_lem s a here shown idle, edits_lem (removing a s) shown, other)
      (here, refl, active_next opened next j (first_other a.id s.clusters other))
