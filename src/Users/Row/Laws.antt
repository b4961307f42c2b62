-- ===== src/Users/Row/Laws.antt =====
-- What a row of the users sends, and to whom.
use text.Mathlib.Text.{◌==◌ as str_eq}
use text.Mathlib.TextEquality.{eq_iff}
use elastic_ops.Prelude.{false, not, ◌&&◌, List, ◌∷◌, ◌≡◌, ◌≢◌, arith, Bool-cases, inl, inr}
use elastic_ops.Api.Mutation.{is_pending}
use elastic_ops.Users.{is_self}
use elastic_ops.Users.Row.{
  Call, set_active_call, delete_call, Row, Event, edits_access, sets_active, deletes, in_dialog,
  active_done, delete_done, user_arrives, step,
}

-- What one event of a row may add to the calls of its two buttons.
pub data RowSends (s : Row) : Event → List Call → Type 0 where
  nothing : {e : Event} → RowSends s e s.sent
  turns :
      is_self s.current_user s.user ≡ false
      → is_pending s.set_active ≡ false
      → RowSends s sets_active (set_active_call s.user.id (not s.user.is_active) ∷ s.sent)
  removes : s.user.role ≢ "admin" → RowSends s deletes (delete_call s.user.id ∷ s.sent)

-- The two buttons of a row send the opposite of the user's state, for another user than the one signed in and
-- with no such call pending, and the deletion of a user who is no admin; no other event sends one of these two
-- calls.
pub step-RowSends : (e : Event) (s : Row) → RowSends s e (step e s).sent
unfolding step
step-RowSends edits_access s = elim (Bool-cases (not (str_eq s.user.role "admin"))) [
  | inl g ↦ rw g nothing
  | inr g ↦ rw g nothing
]
step-RowSends sets_active s =
    elim (Bool-cases (not (is_self s.current_user s.user) && not (is_pending s.set_active))) [
      | inl g ↦ rw g (turns (ground arith) (ground arith))
      | inr g ↦ rw g nothing
    ]
step-RowSends deletes s = elim (Bool-cases (str_eq s.user.role "admin")) [
  | inl g ↦ rw g nothing
  | inr g ↦ rw g (removes (λ same. let yes_admin = (eq_iff s.user.role "admin").1 same in cc))
]
step-RowSends (in_dialog e) s = nothing
step-RowSends (active_done r) s = elim (Bool-cases (is_pending s.set_active)) [
  | inl g ↦ rw g nothing
  | inr g ↦ rw g nothing
]
step-RowSends (delete_done r) s = elim (Bool-cases (is_pending s.delete_user)) [
  | inl g ↦ rw g nothing
  | inr g ↦ rw g nothing
]
step-RowSends (user_arrives u) s = nothing
