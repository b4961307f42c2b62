-- ===== src/Prelude/Order.antt =====
-- `Array.prototype.sort` with a comparator: the language's sort is stable, so for a consistent
-- comparator its result is fixed. A comparator's number is read by its sign, as an `Ordering`.
use Prim.Native.Nat.{ℕ, compare, Ordering}
use mathlib.Core.Path.{◌≡◌, refl, ap}
use mathlib.Core.Logic.{inl, inr}
use mathlib.Core.Bool.{Bool, true, false}
use mathlib.Core.List.{List, [], ◌∷◌, Perm}
use mathlib.Core.List.Perm
use native.Mathlib.Omega.{arith}
use elastic_ops.Prelude.Tests.{if◌then◌else◌, Bool-cases}
use elastic_ops.Prelude.Lists.{filter, All}

-- `-cmp`
abbrev pub negate : Ordering → Ordering
negate Ordering.lt = Ordering.gt
negate Ordering.eq = Ordering.eq
negate Ordering.gt = Ordering.lt

abbrev pub is_gt : Ordering → Bool
is_gt Ordering.gt = true
is_gt _ = false

abbrev pub is_eq : Ordering → Bool
is_eq Ordering.eq = true
is_eq _ = false

-- What ECMAScript asks of a comparator before it fixes the result of `sort`.
pub record IsConsistent {ℓ} {A : Type ℓ} (cmp : A → A → Ordering) : Type ℓ where
  pub flip : (a b : A) → cmp b a ≡ negate (cmp a b)
  pub trans :
      (a b c : A) → is_gt (cmp a b) ≡ false → is_gt (cmp b c) ≡ false → is_gt (cmp a c) ≡ false

module _ {ℓ} {A : Type ℓ} (cmp : A → A → Ordering) where
  pub insert : A → List A → List A
  insert x [] = x ∷ []
  insert x (y ∷ ys) = if is_gt (cmp x y) then y ∷ insert x ys else x ∷ y ∷ ys

  unfoldable pub sort : List A → List A
  unfolding insert
  sort [] = []
  sort (x ∷ xs) = insert x (sort xs)

  -- No element stands above a later one.
  abbrev pub IsSorted : List A → Type 0
  IsSorted [] = Unit
  IsSorted (x ∷ xs) = All (λ y. is_gt (cmp x y) ≡ false) xs × IsSorted xs

  insert-perm : (x : A) (l : List A) → Perm (insert x l) (x ∷ l)
  unfolding insert
  insert-perm x [] = Perm.rfl
  insert-perm x (y ∷ ys) = elim (Bool-cases (is_gt (cmp x y))) [
    | inl e ↦ rw e (Perm.trans (Perm.cons y (insert-perm x ys)) (Perm.swap x y ys))
    | inr e ↦ rw e Perm.rfl
  ]

  pub sort-perm : (l : List A) → Perm (sort l) l
  unfolding sort
  sort-perm [] = Perm.rfl
  sort-perm (x ∷ xs) = Perm.trans (insert-perm x (sort xs)) (Perm.cons x (sort-perm xs))

  module _ (ok : IsConsistent cmp) where
    All-above :
        (x y : A) (l : List A)
        → is_gt (cmp x y) ≡ false
        → All (λ z. is_gt (cmp y z) ≡ false) l
        → All (λ z. is_gt (cmp x z) ≡ false) l
    All-above x y [] h a = tt
    All-above x y (z ∷ zs) h a = (ok.trans x y z h a.0, All-above x y zs h a.1)

    All-insert :
        (w x : A) (l : List A)
        → is_gt (cmp w x) ≡ false
        → All (λ z. is_gt (cmp w z) ≡ false) l
        → All (λ z. is_gt (cmp w z) ≡ false) (insert x l)
    unfolding insert
    All-insert w x [] h a = (h, tt)
    All-insert w x (y ∷ ys) h a = elim (Bool-cases (is_gt (cmp x y))) [
      | inl e ↦ rw e (a.0, All-insert w x ys h a.1)
      | inr e ↦ rw e (h, a)
    ]

    insert-IsSorted : (x : A) (l : List A) → IsSorted l → IsSorted (insert x l)
    unfolding insert
    insert-IsSorted x [] s = (tt, tt)
    insert-IsSorted x (y ∷ ys) s = elim (Bool-cases (is_gt (cmp x y))) [
      | inl e ↦
          let below : is_gt (cmp y x) ≡ false = rw (ok.flip x y) (ground arith) in
          rw e (All-insert y x ys below s.0, insert-IsSorted x ys s.1)
      | inr e ↦ rw e ((e, All-above x y ys e s.0), s)
    ]

    pub sort-IsSorted : (l : List A) → IsSorted (sort l)
    unfolding sort
    sort-IsSorted [] = tt
    sort-IsSorted (x ∷ xs) = insert-IsSorted x (sort xs) (sort-IsSorted xs)

    abbrev ties : A → List A → List A
    ties a = filter (λ y. is_eq (cmp a y))

    tie_not_above :
        (a x y : A) → is_eq (cmp a x) ≡ true → is_eq (cmp a y) ≡ true → is_gt (cmp x y) ≡ false
    tie_not_above a x y p q = ok.trans x a y (rw (ok.flip a x) (ground arith)) (ground arith)

    insert-ties_in :
        (a x : A) (l : List A) → is_eq (cmp a x) ≡ true → ties a (insert x l) ≡ x ∷ ties a l
    unfolding insert
    insert-ties_in a x [] p = rw p
    insert-ties_in a x (y ∷ ys) p = elim (Bool-cases (is_gt (cmp x y))) [
      | inl e ↦ ground (arith, tie_not_above a x y p, insert-ties_in a x ys p)
      | inr e ↦ rw (e, p)
    ]

    insert-ties_out :
        (a x : A) (l : List A) → is_eq (cmp a x) ≡ false → ties a (insert x l) ≡ ties a l
    unfolding insert
    insert-ties_out a x [] p = rw p
    insert-ties_out a x (y ∷ ys) p = ground (arith, insert-ties_out a x ys p)

    -- Elements that compare equal keep their order.
    pub sort-stable :
        (a : A) (l : List A)
        → filter (λ y. is_eq (cmp a y)) (sort l) ≡ filter (λ y. is_eq (cmp a y)) l
    unfolding sort
    sort-stable a [] = refl
    sort-stable a (x ∷ xs) = elim (Bool-cases (is_eq (cmp a x))) [
      | inl e ↦ rw (insert-ties_in a x (sort xs) e, e) (ap (◌∷◌ x) (sort-stable a xs))
      | inr e ↦ rw (insert-ties_out a x (sort xs) e, e) (sort-stable a xs)
    ]

-- The comparators of the source.
pub by_number-IsConsistent {ℓ} :
    {A : Type ℓ} (f : A → ℕ) → IsConsistent (λ (a b : A). compare (f a) (f b))
by_number-IsConsistent f = record { flip = λ a b. ground arith; trans = λ a b c p q. ground arith }

pub negate-IsConsistent {ℓ} :
    {A : Type ℓ} {cmp : A → A → Ordering}
    → IsConsistent cmp
    → IsConsistent (λ a b. negate (cmp a b))
negate-IsConsistent {cmp} ok = record {
  flip = λ a b. ap negate (ok.flip a b);
  trans = λ a b c p q. ground (arith, ok.flip a b, ok.flip b c, ok.flip a c, ok.trans c b a);
}
