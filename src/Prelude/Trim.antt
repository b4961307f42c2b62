-- ===== src/Prelude/Trim.antt =====
-- `trim` leaves nothing to trim.
use Prim.Native.Char.{code}
use Prim.Native.String.{String}
use mathlib.Core.Path.{◌≡◌, refl}
use mathlib.Core.Logic.{inl, inr}
use mathlib.Core.Bool.{Bool, false, not, ◌&&◌}
use elastic_ops.Prelude.Tests.{Bool-cases}
use elastic_ops.Prelude.Text.{truthy, is_space, trim_start, trim_end, trim}

abbrev blank_head : String → Bool
blank_head String.[] = false
blank_head (String.◌∷◌ c s) = is_space (code c)

trim_end_idem : (s : String) → trim_end (trim_end s) ≡ trim_end s
unfolding trim_end
trim_end_idem String.[] = refl
trim_end_idem (String.◌∷◌ c s) =
    elim (Bool-cases (is_space (code c) && not (truthy (trim_end s)))) [
      | inl e ↦ rw e refl
      | inr e ↦ rw e (rw (trim_end_idem s, e))
    ]

trim_start_of_no_blank : (s : String) → blank_head s ≡ false → trim_start s ≡ s
unfolding trim_start
trim_start_of_no_blank String.[] h = refl
trim_start_of_no_blank (String.◌∷◌ c s) h = rw h

blank_head-trim_start : (s : String) → blank_head (trim_start s) ≡ false
unfolding trim_start
blank_head-trim_start String.[] = refl
blank_head-trim_start (String.◌∷◌ c s) = elim (Bool-cases (is_space (code c))) [
  | inl e ↦ rw e (blank_head-trim_start s)
  | inr e ↦ rw e e
]

blank_head-trim_end : (s : String) → blank_head s ≡ false → blank_head (trim_end s) ≡ false
unfolding trim_end
blank_head-trim_end String.[] h = refl
blank_head-trim_end (String.◌∷◌ c s) h = rw h h

pub trim_idem : (s : String) → trim (trim s) ≡ trim s
unfolding trim
trim_idem s =
    let start =
      trim_start_of_no_blank (trim_end (trim_start s))
        (blank_head-trim_end (trim_start s) (blank_head-trim_start s)) in
    rw start (trim_end_idem (trim_start s))
