-- ===== src/Prelude/Lists.antt =====
-- Lists measured by native numbers and searched by Boolean tests, under the library's names.
use Prim.Native.Nat.{ℕ, zero, suc, ◌+◌, ◌-◌, ◌≤◌, min}
use mathlib.Core.Path.{◌≡◌, refl, ap, sym}
use mathlib.Core.Logic.{inl, inr}
use mathlib.Core.Bool.{Bool, true, false, ◌||◌}
use mathlib.Core.List.{List, [], ◌∷◌, ◌++◌, Memᴰ}
use mathlib.Core.Option.{Option, none, some}
use native.Mathlib.Omega.{arith}
use elastic_ops.Prelude.Tests.{if◌then◌else◌, Bool-cases}

module _ {ℓ} {A : Type ℓ} where
  abbrev pub length : List A → ℕ
  length [] = 0
  length (x ∷ xs) = suc (length xs)

  abbrev pub get_elem? : List A → ℕ → Option A
  get_elem? [] i = none
  get_elem? (x ∷ xs) zero = some x
  get_elem? (x ∷ xs) (suc i) = get_elem? xs i

  abbrev pub take : ℕ → List A → List A
  take zero xs = []
  take (suc n) [] = []
  take (suc n) (x ∷ xs) = x ∷ take n xs

  abbrev pub drop : ℕ → List A → List A
  drop zero xs = xs
  drop (suc n) [] = []
  drop (suc n) (x ∷ xs) = drop n xs

  -- `xs.filter(p)`
  abbrev pub filter : (A → Bool) → List A → List A
  filter p [] = []
  filter p (x ∷ xs) = if p x then x ∷ filter p xs else filter p xs

  -- `xs.some(p)`
  abbrev pub any : (A → Bool) → List A → Bool
  any p [] = false
  any p (x ∷ xs) = p x || any p xs

  -- `xs.find(p)`
  abbrev pub find? : (A → Bool) → List A → Option A
  find? p [] = none
  find? p (x ∷ xs) = if p x then some x else find? p xs

  -- `xs[0]`
  abbrev pub head? : List A → Option A
  head? [] = none
  head? (x ∷ _) = some x

  -- `xs.reduce((sum, x) => sum + f(x), 0)`
  abbrev pub sum_from : ℕ → (A → ℕ) → List A → ℕ
  sum_from acc f [] = acc
  sum_from acc f (x ∷ xs) = sum_from (acc + f x) f xs

module _ {ℓ} {A : Type ℓ} where
  abbrev pub All {κ} : (A → Type κ) → List A → Type κ
  All P [] = Unit
  All P (x ∷ xs) = P x × All P xs

  pub All-filter : (p : A → Bool) (xs : List A) → All (λ x. p x ≡ true) (filter p xs)
  All-filter p [] = tt
  All-filter p (x ∷ xs) = elim (Bool-cases (p x)) [
    | inl e ↦ rw e (e, All-filter p xs)
    | inr e ↦ rw e (All-filter p xs)
  ]

  pub length-append : (xs ys : List A) → length (xs ++ ys) ≡ length xs + length ys
  length-append [] ys = omega arith
  length-append (x ∷ xs) ys = omega (arith, length-append xs ys)

  pub filter-append :
      (p : A → Bool) (xs ys : List A) → filter p (xs ++ ys) ≡ filter p xs ++ filter p ys
  filter-append p [] ys = refl
  filter-append p (x ∷ xs) ys = elim (Bool-cases (p x)) [
    | inl e ↦ rw e (ap (◌∷◌ x) (filter-append p xs ys))
    | inr e ↦ rw e (filter-append p xs ys)
  ]

  pub length-filter-le : (p : A → Bool) (xs : List A) → length (filter p xs) ≤ length xs
  length-filter-le p [] = omega arith
  length-filter-le p (x ∷ xs) = ground (arith, length-filter-le p xs)

  pub take-append-drop : (n : ℕ) (xs : List A) → take n xs ++ drop n xs ≡ xs
  take-append-drop zero xs = refl
  take-append-drop (suc n) [] = refl
  take-append-drop (suc n) (x ∷ xs) = rw (take-append-drop n xs)

  pub length-take : (n : ℕ) (xs : List A) → length (take n xs) ≡ min n (length xs)
  length-take zero xs = omega arith
  length-take (suc n) [] = omega arith
  length-take (suc n) (x ∷ xs) = omega (arith, length-take n xs)

  pub length-drop : (n : ℕ) (xs : List A) → length (drop n xs) ≡ length xs - n
  length-drop zero xs = omega arith
  length-drop (suc n) [] = omega arith
  length-drop (suc n) (x ∷ xs) = omega (arith, length-drop n xs)

  -- What `find` returns is an element that passes the test.
  pub find?_sound :
      (p : A → Bool) (xs : List A) {a : A} → find? p xs ≡ some a → (p a ≡ true) × Memᴰ a xs
  find?_sound p [] e = cc
  find?_sound p (x ∷ xs) {a} e = elim (Bool-cases (p x)) [
    | inl h ↦ let q : x ≡ a = ground arith in (rw (← q) h, Memᴰ.head (sym q))
    | inr h ↦
        let r : find? p xs ≡ some a = ground arith in
        let (k, m) = find?_sound p xs r in (k, Memᴰ.tail m)
  ]

  -- An element that passes is enough for `find` to return one.
  pub find?_of_mem :
      (p : A → Bool) {a : A} {xs : List A}
      → Memᴰ a xs
      → p a ≡ true
      → (b : A) × (find? p xs ≡ some b) × (p b ≡ true)
  find?_of_mem p (Memᴰ.head {x} q) h = let k : p x ≡ true = rw (← q) h in (x, rw k, k)
  find?_of_mem p (Memᴰ.tail {x} m) h = elim (Bool-cases (p x)) [
    | inl k ↦ (x, rw k, k)
    | inr k ↦ rw k (find?_of_mem p m h)
  ]

  -- The first element that is kept.
  pub head-filter : (p : A → Bool) (l : List A) → head? (filter p l) ≡ find? p l
  head-filter p [] = refl
  head-filter p (x ∷ l) = elim (Bool-cases (p x)) [
    | inl e ↦ rw e refl
    | inr e ↦ rw e (head-filter p l)
  ]

  pub filter_of_find?-none : (p : A → Bool) (l : List A) → find? p l ≡ none → filter p l ≡ []
  filter_of_find?-none p [] h = refl
  filter_of_find?-none p (x ∷ l) h = elim (Bool-cases (p x)) [
    | inl e ↦ let k : some x ≡ none = rw e at h in cc
    | inr e ↦ rw e (filter_of_find?-none p l (rw e at h))
  ]
