-- ===== src/Nodes/Drain/Laws.antt =====
-- What the drain controls send, and when.
use elastic_ops.Prelude.{
  String, true, false, not, ◌&&◌, none, some, List, [], ◌∷◌, ◌≡◌, Bool-cases, Option-cases, inl,
  inr, refl, sym, subst, arith, is_some,
}
use elastic_ops.Api.Client.{ok, throw}
use elastic_ops.Api.Jobs.{Job}
use elastic_ops.Api.Mutation.{is_pending}
use elastic_ops.Nodes.Drain.{
  Call, drain_call, cancel_call, State, Event, node_shown, arms, confirms, cancels, undrains,
  drain_done, cancel_done, step, run,
}

-- What one event may send: nothing; a drain of the node shown, by "Confirm" on armed controls with no
-- drain running; or the cancellation of the drain that runs on it.
pub data Sends (s : State) : Event → List Call → Type 0 where
  nothing : {e : Event} → Sends s e s.sent
  drains :
      s.drain_job ≡ none
      → s.confirming ≡ true
      → is_pending s.drain ≡ false
      → Sends s confirms (drain_call s.node_name ∷ s.sent)
  undrains_job :
      (job : Job)
      → s.drain_job ≡ some job
      → is_pending s.cancel ≡ false
      → Sends s undrains (cancel_call job.id ∷ s.sent)

-- A drain is sent only by "Confirm" on armed controls, for the node that is shown, while no drain runs
-- on it and none is pending; a cancellation only by "Undrain", for the drain that runs.
pub step-Sends : (e : Event) (s : State) → Sends s e (step e s).sent
unfolding step
step-Sends (node_shown n job) s = nothing
step-Sends arms s = elim (Bool-cases (not (is_some s.drain_job) && not s.confirming)) [
  | inl g ↦ rw g nothing
  | inr g ↦ rw g nothing
]
step-Sends confirms s =
    elim (Bool-cases (not (is_some s.drain_job) && s.confirming && not (is_pending s.drain))) [
      | inl g ↦ rw g (drains (ground arith) (ground arith) (ground arith))
      | inr g ↦ rw g nothing
    ]
step-Sends cancels s =
    elim (Bool-cases (not (is_some s.drain_job) && s.confirming && not (is_pending s.drain))) [
      | inl g ↦ rw g nothing
      | inr g ↦ rw g nothing
    ]
step-Sends undrains s = elim (Option-cases s.drain_job) [
  | inl none_runs ↦ rw none_runs nothing
  | inr (job, runs) ↦ elim (Bool-cases (is_pending s.cancel)) [
    | inl p ↦ rw (runs, p) nothing
    | inr p ↦
        let sent : (step undrains s).sent ≡ cancel_call job.id ∷ s.sent = rw (runs, p) refl in
        subst (Sends s undrains) (sym sent) (undrains_job job runs p)
  ]
]
step-Sends (drain_done (ok j)) s = elim (Bool-cases (is_pending s.drain)) [
  | inl p ↦ rw p nothing
  | inr p ↦ rw p nothing
]
step-Sends (drain_done (throw f)) s = elim (Bool-cases (is_pending s.drain)) [
  | inl p ↦ rw p nothing
  | inr p ↦ rw p nothing
]
step-Sends (cancel_done r) s = elim (Bool-cases (is_pending s.cancel)) [
  | inl p ↦ rw p nothing
  | inr p ↦ rw p nothing
]

-- The controls keep their state when another node is selected: armed on one node, they drain the next
-- one on the first click of "Confirm".
pub armed_carries_over :
    (s : State) (other : String)
    → s.drain_job ≡ none
    → s.confirming ≡ false
    → is_pending s.drain ≡ false
    → (run (arms ∷ node_shown other none ∷ confirms ∷ []) s).sent ≡ drain_call other ∷ s.sent
unfolding run step
armed_carries_over s other q c p = ground arith
