-- ===== src/Backend/Rebalance/Picks.antt =====
-- The nodes that a turn of the loop picks, and what a move changes of the others.
use text.Mathlib.Text.{◌==◌ as str_eq}
use text.Mathlib.TextEquality.{eq_iff}
use elastic_ops.Prelude.{
  String, Bool, true, false, Option, none, some, List, [], ◌∷◌, ◌≡◌, inl, inr, refl, sym, ap, subst,
  arith, filter, map, leb, All, Bool-cases,
}
use elastic_ops.Backend.Rebalance.{Place, heaviest, heavier, lightest, lighter, moved}

some_inj : {a b : Place} → some a ≡ some b → a ≡ b
some_inj h = cc

module _ (P : Place → Type 0) where
  heavier_keeps :
      (q : Place) (o : Option Place) → P q → ((r : Place) → o ≡ some r → P r) → P (heavier q o)
  heavier_keeps q none h k = h
  heavier_keeps q (some r) h k = elim (Bool-cases (leb r.count q.count)) [
    | inl y ↦ rw y h
    | inr n ↦ rw n (k r refl)
  ]

  lighter_keeps :
      (q : Place) (o : Option Place) → P q → ((r : Place) → o ≡ some r → P r) → P (lighter q o)
  lighter_keeps q none h k = h
  lighter_keeps q (some r) h k = elim (Bool-cases (leb q.count r.count)) [
    | inl y ↦ rw y h
    | inr n ↦ rw n (k r refl)
  ]

  pub All-heaviest : (ps : List Place) → All P ps → (p : Place) → heaviest ps ≡ some p → P p
  unfolding heaviest
  All-heaviest [] a p h = cc
  All-heaviest (q ∷ qs) a p h =
      subst P (some_inj h) (heavier_keeps q (heaviest qs) a.0 (All-heaviest qs a.1))

  pub All-lightest : (ps : List Place) → All P ps → (p : Place) → lightest ps ≡ some p → P p
  unfolding lightest
  All-lightest [] a p h = cc
  All-lightest (q ∷ qs) a p h =
      subst P (some_inj h) (lighter_keeps q (lightest qs) a.0 (All-lightest qs a.1))

  pub All_filter : (f : Place → Bool) (ps : List Place) → All P ps → All P (filter f ps)
  All_filter f [] a = tt
  All_filter f (p ∷ ps) a = elim (Bool-cases (f p)) [
    | inl y ↦ rw y (a.0, All_filter f ps a.1)
    | inr n ↦ rw n (All_filter f ps a.1)
  ]

All_map :
    (P Q : Place → Type 0) (f : Place → Place) (ps : List Place)
    → ((p : Place) → P p → Q (f p))
    → All P ps
    → All Q (map f ps)
All_map P Q f [] k a = tt
All_map P Q f (p ∷ ps) k a = (k p a.0, All_map P Q f ps k a.1)

-- Nodes of one name are one node.
abbrev pub Alike : Place → Place → Type 0
Alike p q = str_eq p.name q.name ≡ true → p ≡ q

abbrev pub Coherent : List Place → Type 0
Coherent ps = All (λ p. All (Alike p) ps) ps

-- Every node of a name has received a shard.
abbrev pub Frozen : String → List Place → Type 0
Frozen name ps = All (λ p. str_eq p.name name ≡ true → p.frozen ≡ true) ps

name-moved : (hi lo : String) (p : Place) → (moved hi lo p).name ≡ p.name
unfolding moved
name-moved hi lo p = elim (Bool-cases (str_eq p.name hi)) [
  | inl h ↦ rw h refl
  | inr h ↦ elim (Bool-cases (str_eq p.name lo)) [ inl l ↦ rw (h, l) refl | inr l ↦ rw (h, l) refl ]
]

frozen-moved : (hi lo : String) (p : Place) → p.frozen ≡ true → (moved hi lo p).frozen ≡ true
unfolding moved
frozen-moved hi lo p f = elim (Bool-cases (str_eq p.name hi)) [
  | inl h ↦ rw h f
  | inr h ↦ elim (Bool-cases (str_eq p.name lo)) [ inl l ↦ rw (h, l) refl | inr l ↦ rw (h, l) f ]
]

moved-Alike : (hi lo : String) (p q : Place) → Alike p q → Alike (moved hi lo p) (moved hi lo q)
moved-Alike hi lo p q h e = ap (moved hi lo) (h (rw (name-moved hi lo p, name-moved hi lo q) at e))

pub moved-Coherent :
    (hi lo : String) (ps : List Place) → Coherent ps → Coherent (map (moved hi lo) ps)
moved-Coherent hi lo ps c =
    All_map (λ p. All (Alike p) ps) (λ p. All (Alike p) (map (moved hi lo) ps)) (moved hi lo) ps
      (λ p a.
        All_map (Alike p) (Alike (moved hi lo p)) (moved hi lo) ps (λ q h. moved-Alike hi lo p q h)
          a)
      c

pub moved-Frozen :
    (name hi lo : String) (ps : List Place) → Frozen name ps → Frozen name (map (moved hi lo) ps)
moved-Frozen name hi lo ps a =
    All_map (λ p. str_eq p.name name ≡ true → p.frozen ≡ true)
      (λ p. str_eq p.name name ≡ true → p.frozen ≡ true) (moved hi lo) ps
      (λ p h e. frozen-moved hi lo p (h (rw (name-moved hi lo p) at e))) a

frozen-destination :
    (hi lo : String) (p : Place)
    → str_eq lo hi ≡ false
    → str_eq p.name lo ≡ true
    → (moved hi lo p).frozen ≡ true
unfolding moved
frozen-destination hi lo p apart e =
    let same : p.name ≡ lo = (eq_iff p.name lo).0 e in
    let off : str_eq p.name hi ≡ false = rw same apart in rw (off, e) refl

-- The destination is frozen, where it is not the source.
pub destination-Frozen :
    (hi lo : String) (ps : List Place) → str_eq lo hi ≡ false → Frozen lo (map (moved hi lo) ps)
destination-Frozen hi lo [] h = tt
destination-Frozen hi lo (p ∷ ps) h = (
  (λ e. frozen-destination hi lo p h (rw (name-moved hi lo p) at e)),
  destination-Frozen hi lo ps h,
)

-- A source and a lighter node have two names.
pub names_apart :
    (ps : List Place) (hi lo : Place)
    → All (Alike hi) ps
    → lightest ps ≡ some lo
    → leb hi.count lo.count ≡ false
    → str_eq lo.name hi.name ≡ false
names_apart ps hi lo a l less = elim (Bool-cases (str_eq lo.name hi.name)) [
  | inl e ↦
      let alike : Alike hi lo = All-lightest (Alike hi) ps a lo l in
      let named : hi.name ≡ lo.name = sym ((eq_iff lo.name hi.name).0 e) in
      let same : hi ≡ lo = alike ((eq_iff hi.name lo.name).1 named) in
      let clash : leb lo.count lo.count ≡ false = rw same at less in absurd (ground arith)
  | inr e ↦ e
]

pub eq_flip : (a b : String) → str_eq a b ≡ false → str_eq b a ≡ false
eq_flip a b h = elim (Bool-cases (str_eq b a)) [
  | inl e ↦
      let same : b ≡ a = (eq_iff b a).0 e in
      let there : str_eq a b ≡ true = (eq_iff a b).1 (sym same) in cc
  | inr e ↦ e
]
