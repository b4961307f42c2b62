-- ===== src/Prelude/Locale.antt =====
-- What the source uses of the locale: `toLowerCase` and `localeCompare`, which ECMA-402 asks to be a
-- consistent comparator. The runtime's are a parameter of what uses them.
use elastic_ops.Prelude.Order.{IsConsistent, negate, is_gt}
use elastic_ops.Prelude.Text.{codes}
use Prim.Native.Nat.{ℕ, compare, Ordering}
use Prim.Native.String.{String}
use mathlib.Core.Path.{◌≡◌, refl}
use mathlib.Core.Bool.{false}
use mathlib.Core.List.{List, [], ◌∷◌}
use native.Mathlib.Omega.{arith}

pub record Locale : Type 0 where
  pub lower : String → String
  pub collate : String → String → Ordering
  pub collate_consistent : IsConsistent collate

-- A column of texts is compared consistently.
pub collate_by-IsConsistent {ℓ} :
    (locale : Locale) {A : Type ℓ} (f : A → String)
    → IsConsistent (λ (a b : A). locale.collate (f a) (f b))
collate_by-IsConsistent locale f = record {
  flip = λ a b. locale.collate_consistent.flip (f a) (f b);
  trans = λ a b c p q. locale.collate_consistent.trans (f a) (f b) (f c) p q;
}

-- The order by code points, which shows that the law can hold.
abbrev lex : List ℕ → List ℕ → Ordering
lex [] [] = Ordering.eq
lex [] (y ∷ ys) = Ordering.lt
lex (x ∷ xs) [] = Ordering.gt
lex (x ∷ xs) (y ∷ ys) =
    let rest = lex xs ys in
    elim (compare x y) [
      | Ordering.lt ↦ Ordering.lt
      | Ordering.eq ↦ rest
      | Ordering.gt ↦ Ordering.gt
    ]

lex_flip : (xs ys : List ℕ) → lex ys xs ≡ negate (lex xs ys)
lex_flip [] [] = refl
lex_flip [] (y ∷ ys) = refl
lex_flip (x ∷ xs) [] = refl
lex_flip (x ∷ xs) (y ∷ ys) = ground (arith, lex_flip xs ys)

lex_trans :
    (xs ys zs : List ℕ)
    → is_gt (lex xs ys) ≡ false
    → is_gt (lex ys zs) ≡ false
    → is_gt (lex xs zs) ≡ false
lex_trans [] ys [] p q = refl
lex_trans [] ys (z ∷ zs) p q = refl
lex_trans (x ∷ xs) [] zs p q = ground arith
lex_trans (x ∷ xs) (y ∷ ys) [] p q = q
lex_trans (x ∷ xs) (y ∷ ys) (z ∷ zs) p q = ground (arith, lex_trans xs ys zs)

pub code_order-IsConsistent : IsConsistent (λ (a b : String). lex (codes a) (codes b))
code_order-IsConsistent = record {
  flip = λ a b. lex_flip (codes a) (codes b);
  trans = λ a b c p q. lex_trans (codes a) (codes b) (codes c) p q;
}

abbrev pub code_points : Locale
code_points = record {
  lower = λ s. s;
  collate = λ a b. lex (codes a) (codes b);
  collate_consistent = code_order-IsConsistent;
}
