-- ===== src/ShardMap/Detail/Laws.antt =====
-- What the relocation panel sends, and when.
use text.Mathlib.Text.{◌==◌ as str_eq}
use text.Mathlib.TextEquality.{eq_iff}
use elastic_ops.Prelude.{
  String, Bool, true, false, not, ◌&&◌, some, List, [], ◌∷◌, ◌≡◌, ◌≢◌, ◌⊎◌, inl, inr, refl, subst,
  ◌∙◌, arith, filter, any, All, Bool-cases,
}
use elastic_ops.Prelude.Text.{truthy}
use elastic_ops.Api.Client.{ok, throw}
use elastic_ops.Api.Jobs.{Job}
use elastic_ops.Api.Mutation.{is_pending}
use elastic_ops.ShardMap.{SelectedShard}
use elastic_ops.ShardMap.Detail.{
  Relocation, State, opened, same_place, relocation, handle_relocate, Event, shard_shown,
  nodes_change, selects_target, arms, confirms, cancels, relocate_done, step, run,
}

-- A call that moves a shard to a named node other than its own.
abbrev pub Moves : Relocation → Type 0
Moves r = (truthy r.to_node ≡ true) × (r.to_node ≢ r.from_node)

pub record Inv (s : State) : Type 0 where
  -- The target is another node than the shard's, or none is chosen.
  pub elsewhere : (s.target_node ≡ "") ⊎ (s.target_node ≢ s.shard.node)
  pub armed : s.confirming ≡ true → truthy s.target_node ≡ true
  pub moves : All Moves s.sent
  pub locked : s.read_only ≡ true → s.sent ≡ []

any-other :
    (n own : String) (names : List String)
    → any (λ m. str_eq m n) (filter (λ m. not (str_eq m own)) names) ≡ true
    → n ≢ own
any-other n own [] h e = cc
any-other n own (m ∷ ms) h e = ground (
  arith,
  eq_iff m n,
  eq_iff m own,
  λ (k : any (λ m. str_eq m n) (filter (λ m. not (str_eq m own)) ms) ≡ true).
      any-other n own ms k e,
)

chosen : (s : State) → Inv s → truthy s.target_node ≡ true → s.target_node ≢ s.shard.node
chosen s v t = elim v.elsewhere [
  | inl empty ↦ let k : truthy "" ≡ true = subst (λ x. truthy x ≡ true) empty t in cc
  | inr other ↦ other
]

handle_relocate-Inv : (s : State) → Inv s → s.read_only ≡ false → Inv (handle_relocate s)
unfolding handle_relocate
handle_relocate-Inv s v writable = elim (Bool-cases (truthy s.target_node)) [
  | inl t ↦ rw t (record {
    elsewhere = v.elsewhere;
    armed = v.armed;
    moves = ((t, chosen s v t), v.moves);
    locked = λ h. cc;
  })
  | inr t ↦ rw t v
]

step-Inv : (e : Event) (s : State) → Inv s → Inv (step e s)
unfolding step
step-Inv (shard_shown shard) s v = ground (arith, eq_iff s.shard.node shard.node)
step-Inv (nodes_change names) s v = record {
  elsewhere = v.elsewhere;
  armed = v.armed;
  moves = v.moves;
  locked = v.locked;
}
step-Inv (selects_target n) s v = ground (arith, any-other n s.shard.node s.data_node_names)
step-Inv arms s v = ground arith
step-Inv confirms s v =
    elim (Bool-cases (not s.read_only && s.confirming && not (is_pending s.relocate))) [
      | inl g ↦ rw g (handle_relocate-Inv s v (ground arith))
      | inr g ↦ rw g v
    ]
step-Inv cancels s v = ground arith
step-Inv (relocate_done (ok job)) s v = ground arith
step-Inv (relocate_done (throw f)) s v = ground arith

run-Inv : (es : List Event) (s : State) → Inv s → Inv (run es s)
unfolding run
run-Inv [] s v = v
run-Inv (e ∷ es) s v = run-Inv es (step e s) (step-Inv e s v)

opened-Inv : (shard : SelectedShard) (names : List String) (ro : Bool) → Inv (opened shard names ro)
unfolding opened
opened-Inv shard names ro = record {
  elsewhere = inl refl;
  armed = λ h. cc;
  moves = tt;
  locked = λ h. refl;
}

read_only-step : (e : Event) (s : State) → (step e s).read_only ≡ s.read_only
unfolding step
read_only-step (relocate_done (ok job)) s = ground arith
read_only-step (relocate_done (throw f)) s = ground arith
read_only-step _ s = ground arith

read_only-run : (es : List Event) (s : State) → (run es s).read_only ≡ s.read_only
unfolding run
read_only-run [] s = refl
read_only-run (e ∷ es) s = read_only-run es (step e s) ∙ read_only-step e s

read_only-opened :
    (shard : SelectedShard) (names : List String) (ro : Bool)
    → (opened shard names ro).read_only ≡ ro
unfolding opened
read_only-opened shard names ro = refl

-- Whatever the user, the snapshots and the backend do, every relocation that the panel sends moves a
-- shard to a named node other than the one it is on.
pub relocations_sound :
    (shard : SelectedShard) (names : List String) (ro : Bool) (es : List Event)
    → All Moves (run es (opened shard names ro)).sent
relocations_sound shard names ro es =
    (run-Inv es (opened shard names ro) (opened-Inv shard names ro)).moves

-- On a read-only cluster no sequence of events sends a relocation.
pub read_only_sends_nothing :
    (shard : SelectedShard) (names : List String) (es : List Event)
    → (run es (opened shard names true)).sent ≡ []
read_only_sends_nothing shard names es =
    let v = run-Inv es (opened shard names true) (opened-Inv shard names true) in
    v.locked (read_only-run es (opened shard names true) ∙ read_only-opened shard names true)

-- A relocation is sent only by "Confirm relocate?" after the panel was armed, and it is the one for
-- the shard and the target that the panel shows.
pub sends_when_armed :
    (e : Event) (s : State)
    → ((step e s).sent ≡ s.sent)
      ⊎ ((e ≡ confirms)
          × (s.confirming ≡ true)
          × (is_pending s.relocate ≡ false)
          × ((step e s).sent ≡ relocation s ∷ s.sent))
unfolding step
sends_when_armed confirms s = ground arith
sends_when_armed (relocate_done (ok job)) s = ground arith
sends_when_armed (relocate_done (throw f)) s = ground arith
sends_when_armed _ s = ground arith

-- A call that settles after another shard was selected marks that shard's panel with the job of the
-- first one.
pub late_success :
    (s : State) (shard : SelectedShard) (job : Job)
    → is_pending s.relocate ≡ true
    → same_place s.shard shard ≡ false
    → ((run (shard_shown shard ∷ relocate_done (ok job) ∷ []) s).shard ≡ shard)
      × ((run (shard_shown shard ∷ relocate_done (ok job) ∷ []) s).relocated_job ≡ some job.id)
unfolding run step
late_success s shard job p q = (ground arith, ground arith)
