-- ===== src/Indices/Actions/Requests.antt =====
-- What the forms of `IndexOperatorActions` send.
use elastic_ops.Prelude.{
  Bool, true, false, List, [], ◌∷◌, ◌≡◌, arith, not, ◌&&◌, subst, sym, refl, inl, inr, Bool-cases,
}
use elastic_ops.Prelude.Text.{truthy, trim}
use elastic_ops.Api.Mutation.{is_pending}
use elastic_ops.Indices.Actions.{
  same_panel, Panel, reindex_disabled, promote_disabled, shows, closed, reindexing, promoting, Call,
  reindex_call, promote_call, State, Event, opens, starts_reindex, starts_promote, reindex_done,
  promote_done, step, run,
}

-- What one event may send: nothing, or the call of the form that is open, with no such call pending, on the index
-- that is shown then, with the names in the form, trimmed and not empty.
pub data ActionSends (s : State) : Event → List Call → Type 0 where
  nothing : {e : Event} → ActionSends s e s.sent
  reindexes :
      s.panel ≡ reindexing
      → is_pending s.reindex ≡ false
      → truthy (trim s.reindex_dest) ≡ true
      → ActionSends s starts_reindex (reindex_call s.index_name (trim s.reindex_dest) ∷ s.sent)
  promotes :
      s.panel ≡ promoting
      → is_pending s.promote ≡ false
      → truthy (trim s.promote_target) ≡ true
      → truthy (trim s.promote_alias) ≡ true
      → ActionSends s starts_promote (
          promote_call s.index_name (trim s.promote_target) (trim s.promote_alias) s.promote_delete
          ∷ s.sent)

is_panel : (p q : Panel) → same_panel p q ≡ true → p ≡ q
is_panel closed closed h = refl
is_panel reindexing reindexing h = refl
is_panel promoting promoting h = refl
is_panel closed reindexing h = cc
is_panel closed promoting h = cc
is_panel reindexing closed h = cc
is_panel reindexing promoting h = cc
is_panel promoting closed h = cc
is_panel promoting reindexing h = cc

unsent : (s : State) (e : Event) → (step e s).sent ≡ s.sent → ActionSends s e (step e s).sent
unsent s e h = subst (ActionSends s e) (sym h) nothing

-- A reindex or a promote call is sent only by the button of the form that is open, with no call of this kind
-- pending; it names the index shown at that moment as its source, and the trimmed names of the form, which are
-- not empty; no other event sends anything.
pub step-ActionSends : (e : Event) (s : State) → ActionSends s e (step e s).sent
unfolding step
step-ActionSends starts_reindex s =
    elim (Bool-cases (same_panel s.panel reindexing && not (reindex_disabled s))) [
      | inl g ↦
          let open_form = is_panel s.panel reindexing (ground arith) in
          let named : truthy (trim s.reindex_dest) ≡ true = ground arith in
          rw (g, named) (reindexes open_form (ground arith) named)
      | inr g ↦ rw g nothing
    ]
step-ActionSends starts_promote s =
    elim (Bool-cases (same_panel s.panel promoting && not (promote_disabled s))) [
      | inl g ↦
          let open_form = is_panel s.panel promoting (ground arith) in
          let target : truthy (trim s.promote_target) ≡ true = ground arith in
          let alias : truthy (trim s.promote_alias) ≡ true = ground arith in
          rw (g, target, alias) (promotes open_form (ground arith) target alias)
      | inr g ↦ rw g nothing
    ]
step-ActionSends (shows n) s = nothing
step-ActionSends (opens closed) s = nothing
step-ActionSends e s = unsent s e (ground arith)

-- The user's events inside a form, as against a change of index or of panel and the end of a call.
abbrev pub is_form_event : Event → Bool
is_form_event (shows _) = false
is_form_event (opens _) = false
is_form_event (reindex_done _) = false
is_form_event (promote_done _) = false
is_form_event _ = true

-- While a reindex call is pending with its form open, no event but a change of index or of panel, or the end of
-- a call changes the form or sends anything.
pub pending_freezes_form :
    (e : Event) (s : State)
    → s.panel ≡ reindexing
    → is_pending s.reindex ≡ true
    → is_form_event e ≡ true
    → step e s ≡ s
unfolding step
pending_freezes_form (shows n) s p q f = cc
pending_freezes_form (opens panel) s p q f = cc
pending_freezes_form (reindex_done r) s p q f = cc
pending_freezes_form (promote_done r) s p q f = cc
pending_freezes_form _ s p q f = ground arith

-- But opening the other form and the form again forgets the pending call: the same call can be
-- sent a second time before the first has settled.
pub resubmits :
    (s : State)
    → s.panel ≡ reindexing
    → is_pending s.reindex ≡ true
    → truthy (trim s.reindex_dest) ≡ true
    → (run (opens promoting ∷ opens reindexing ∷ starts_reindex ∷ []) s).sent
      ≡ reindex_call s.index_name (trim s.reindex_dest) ∷ s.sent
unfolding run step
resubmits s p q t = ground arith
