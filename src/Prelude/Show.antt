-- ===== src/Prelude/Show.antt =====
-- The decimal text of a number is not empty, and made of digits.

use Prim.Native.String.{String, ◌++◌}
use text.Mathlib.TextLemmas.{nil-append, cons-append}
use Prim.Native.Nat.{ℕ, zero, suc, ◌+◌, ◌/◌, ◌%◌, ◌<◌}
use mathlib.Core.Path.{◌≡◌, refl}
use mathlib.Core.Logic.{inl, inr}
use mathlib.Core.Bool.{true}
use native.Mathlib.Omega.{arith}
use native.Mathlib.Numerals.{add-one}
use elastic_ops.Prelude.Tests.{◌==◌, Bool-cases}
use elastic_ops.Prelude.Text.{truthy, digit, print, show, codes, all_digits}

truthy-append : (s t : String) → truthy s ≡ true → truthy (s ++ t) ≡ true
truthy-append String.[] t h = absurd (ground arith)
truthy-append (String.◌∷◌ c s) t h = rw (cons-append c s t) refl

truthy-digit : (d : ℕ) → d < 10 → truthy (digit d) ≡ true
truthy-digit zero h = refl
truthy-digit (suc zero) h = refl
truthy-digit (suc (suc zero)) h = refl
truthy-digit (suc (suc (suc zero))) h = refl
truthy-digit (suc (suc (suc (suc zero)))) h = refl
truthy-digit (suc (suc (suc (suc (suc zero))))) h = refl
truthy-digit (suc (suc (suc (suc (suc (suc zero)))))) h = refl
truthy-digit (suc (suc (suc (suc (suc (suc (suc zero))))))) h = refl
truthy-digit (suc (suc (suc (suc (suc (suc (suc (suc zero)))))))) h = refl
truthy-digit (suc (suc (suc (suc (suc (suc (suc (suc (suc zero))))))))) h = refl
truthy-digit (suc (suc (suc (suc (suc (suc (suc (suc (suc (suc d)))))))))) h = absurd (omega arith)

truthy-print : (f n : ℕ) (out : String) → truthy out ≡ true → truthy (print f n out) ≡ true
unfolding print
truthy-print zero n out h = h
truthy-print (suc f) n out h =
    let here = truthy-append (digit (n % 10)) out (truthy-digit (n % 10) (omega arith)) in
    elim (Bool-cases (n / 10 == 0)) [
      | inl e ↦ rw e here
      | inr e ↦ rw e (truthy-print f (n / 10) (digit (n % 10) ++ out) here)
    ]

print_step : (f n : ℕ) → truthy (print (suc f) n "") ≡ true
unfolding print
print_step f n =
    let here = truthy-append (digit (n % 10)) "" (truthy-digit (n % 10) (omega arith)) in
    elim (Bool-cases (n / 10 == 0)) [
      | inl e ↦ rw e here
      | inr e ↦ rw e (truthy-print f (n / 10) (digit (n % 10) ++ "") here)
    ]

pub truthy-show : (n : ℕ) → truthy (show n) ≡ true
unfolding show
truthy-show n = rw (add-one n) (print_step n n)

all_digits-append :
    (s t : String)
    → all_digits (codes s) ≡ true
    → all_digits (codes t) ≡ true
    → all_digits (codes (s ++ t)) ≡ true
all_digits-append String.[] t h k = rw (nil-append t) k
all_digits-append (String.◌∷◌ c s) t h k =
    rw (cons-append c s t) (ground (arith, all_digits-append s t))

all_digits-digit : (d : ℕ) → d < 10 → all_digits (codes (digit d)) ≡ true
all_digits-digit zero h = refl
all_digits-digit (suc zero) h = refl
all_digits-digit (suc (suc zero)) h = refl
all_digits-digit (suc (suc (suc zero))) h = refl
all_digits-digit (suc (suc (suc (suc zero)))) h = refl
all_digits-digit (suc (suc (suc (suc (suc zero))))) h = refl
all_digits-digit (suc (suc (suc (suc (suc (suc zero)))))) h = refl
all_digits-digit (suc (suc (suc (suc (suc (suc (suc zero))))))) h = refl
all_digits-digit (suc (suc (suc (suc (suc (suc (suc (suc zero)))))))) h = refl
all_digits-digit (suc (suc (suc (suc (suc (suc (suc (suc (suc zero))))))))) h = refl
all_digits-digit (suc (suc (suc (suc (suc (suc (suc (suc (suc (suc d)))))))))) h =
    absurd (omega arith)

all_digits-print :
    (f n : ℕ) (out : String)
    → all_digits (codes out) ≡ true
    → all_digits (codes (print f n out)) ≡ true
unfolding print
all_digits-print zero n out h = h
all_digits-print (suc f) n out h =
    let here = all_digits-append (digit (n % 10)) out (all_digits-digit (n % 10) (omega arith)) h in
    elim (Bool-cases (n / 10 == 0)) [
      | inl e ↦ rw e here
      | inr e ↦ rw e (all_digits-print f (n / 10) (digit (n % 10) ++ out) here)
    ]

-- The decimal text of a number is made of digits.
pub all_digits-show : (n : ℕ) → all_digits (codes (show n)) ≡ true
unfolding show
all_digits-show n = all_digits-print (n + 1) n "" refl
