-- ===== src/Backend/Runner/Elsewhere.antt =====
-- The steps of the job runner on one job, as another job sees them.
use elastic_ops.Prelude.{
  ℕ, zero, suc, ◌==◌, false, Option, none, some, List, [], ◌∷◌, ◌≡◌, refl, arith, Bool-cases, inl,
  inr,
}
use elastic_ops.Backend.Runner.{
  Runner, Phase, waiting, withdrawing, finalizing, interrupted, writes_if, slotted, opened, running,
  find, put, remove, release, submits_if, acquires_if, opens_if, starts_if, ends_if, cancels_if,
  queues_if, Status, queued, approved, executing, cancelled, Outcome, status_after, finalize,
  mark_cancelled, is_terminal,
}

pub find-put_other {ℓ} :
    {A : Type ℓ} (i j : ℕ) (a : A) (xs : List (ℕ × A))
    → (i == j) ≡ false
    → find j (put i a xs) ≡ find j xs
find-put_other i j a [] h = refl
find-put_other i j a ((k, b) ∷ xs) h = ground (arith, find-put_other i j a xs h)

pub find-put_self {ℓ} :
    {A : Type ℓ} (i : ℕ) (a b : A) (xs : List (ℕ × A))
    → find i xs ≡ some b
    → find i (put i a xs) ≡ some a
find-put_self i a b [] h = cc
find-put_self i a b ((k, c) ∷ xs) h = ground (arith, find-put_self i a b xs)

pub find-remove_other {ℓ} :
    {A : Type ℓ} (i j : ℕ) (xs : List (ℕ × A)) → (i == j) ≡ false → find j (remove i xs) ≡ find j xs
find-remove_other i j [] h = refl
find-remove_other i j ((k, b) ∷ xs) h = ground (arith, find-remove_other i j xs h)

abbrev pub Elsewhere : ℕ → Runner → Runner → Type 0
Elsewhere i r t =
    (j : ℕ) → (i == j) ≡ false → (find j t.rows ≡ find j r.rows) × (find j t.tasks ≡ find j r.tasks)

pub finalize-Elsewhere :
    (i : ℕ) (st : Status) (o : Option Status) (r : Runner)
    → Elsewhere i r (release i (finalize i st o r))
finalize-Elsewhere i st none r j e = (refl, find-remove_other i j r.tasks e)
finalize-Elsewhere i st (some old) r j e = elim (Bool-cases (is_terminal old)) [
  | inl done ↦ rw done (refl, find-remove_other i j r.tasks e)
  | inr open_row ↦ rw open_row (find-put_other i j st r.rows e, find-remove_other i j r.tasks e)
]

pub queues-Elsewhere : (i : ℕ) (o : Option Status) (r : Runner) → Elsewhere i r (queues_if i o r)
unfolding queues_if
queues-Elsewhere i (some approved) r j e = (find-put_other i j queued r.rows e, refl)
queues-Elsewhere i none r j e = (refl, refl)
queues-Elsewhere i (some _) r j e = (refl, refl)

pub submits-Elsewhere : (i : ℕ) (o : Option Phase) (r : Runner) → Elsewhere i r (submits_if i o r)
unfolding submits_if
submits-Elsewhere i none r j e = (refl, rw e refl)
submits-Elsewhere i (some p) r j e = (refl, refl)

pub acquires-Elsewhere :
    (i : ℕ) (o : Option Phase) (n : ℕ) (r : Runner) → Elsewhere i r (acquires_if i o n r)
unfolding acquires_if
acquires-Elsewhere i (some waiting) (suc n) r j e = (refl, find-put_other i j slotted r.tasks e)
acquires-Elsewhere i (some waiting) zero r j e = (refl, refl)
acquires-Elsewhere i none n r j e = (refl, refl)
acquires-Elsewhere i (some _) n r j e = (refl, refl)

pub opens-Elsewhere :
    (i : ℕ) (o : Option Phase) (s : Option Status) (r : Runner) → Elsewhere i r (opens_if i o s r)
unfolding opens_if
opens-Elsewhere i (some slotted) (some queued) r j e =
    (find-put_other i j executing r.rows e, find-put_other i j opened r.tasks e)
opens-Elsewhere i (some slotted) none r j e = (refl, find-remove_other i j r.tasks e)
opens-Elsewhere i (some slotted) (some _) r j e = (refl, find-remove_other i j r.tasks e)
opens-Elsewhere i none s r j e = (refl, refl)
opens-Elsewhere i (some _) s r j e = (refl, refl)

pub starts-Elsewhere : (i : ℕ) (o : Option Phase) (r : Runner) → Elsewhere i r (starts_if i o r)
unfolding starts_if
starts-Elsewhere i (some opened) r j e = (refl, find-put_other i j running r.tasks e)
starts-Elsewhere i none r j e = (refl, refl)
starts-Elsewhere i (some _) r j e = (refl, refl)

pub ends-Elsewhere :
    (i : ℕ) (st : Outcome) (o : Option Phase) (r : Runner) → Elsewhere i r (ends_if i st o r)
unfolding ends_if
ends-Elsewhere i st (some running) r = λ j e. (refl, find-put_other i j (finalizing st) r.tasks e)
ends-Elsewhere i st none r = λ j e. (refl, refl)
ends-Elsewhere i st (some _) r = λ j e. (refl, refl)

pub marked_elsewhere :
    (i j : ℕ) (o : Option Status) (r : Runner)
    → (i == j) ≡ false
    → (find j (mark_cancelled i o r).rows ≡ find j r.rows)
      × ((mark_cancelled i o r).tasks ≡ r.tasks)
marked_elsewhere i j (some queued) r e = (find-put_other i j cancelled r.rows e, refl)
marked_elsewhere i j none r e = (refl, refl)
marked_elsewhere i j (some _) r e = (refl, refl)

pub cancels-Elsewhere : (i : ℕ) (o : Option Phase) (r : Runner) → Elsewhere i r (cancels_if i o r)
unfolding cancels_if
cancels-Elsewhere i none r = λ j e. (refl, refl)
cancels-Elsewhere i (some waiting) r = λ j e. (refl, find-put_other i j withdrawing r.tasks e)
cancels-Elsewhere i (some withdrawing) r = λ j e. (refl, find-remove_other i j r.tasks e)
cancels-Elsewhere i (some slotted) r = λ j e. (refl, find-remove_other i j r.tasks e)
cancels-Elsewhere i (some opened) r = λ j e. (refl, find-remove_other i j r.tasks e)
cancels-Elsewhere i (some running) r =
    λ j e. (refl, find-put_other i j (finalizing interrupted) r.tasks e)
cancels-Elsewhere i (some (finalizing _)) r = λ j e. (refl, find-remove_other i j r.tasks e)

pub writes-Elsewhere : (i : ℕ) (o : Option Phase) (r : Runner) → Elsewhere i r (writes_if i o r)
unfolding writes_if
writes-Elsewhere i (some withdrawing) r = λ j e.
    (let (rows, tasks) = marked_elsewhere i j (find i r.rows) r e in
      (rows, rw tasks (find-remove_other i j r.tasks e)))
writes-Elsewhere i (some (finalizing o)) r = finalize-Elsewhere i (status_after o) (find i r.rows) r
writes-Elsewhere i none r = λ j e. (refl, refl)
writes-Elsewhere i (some _) r = λ j e. (refl, refl)
