-- ===== src/Backend/Rebalance/Laws.antt =====
-- What the suggested moves keep to: a node that a shard is moved to gives none afterwards.
use text.Mathlib.Text.{◌==◌ as str_eq}
use text.Mathlib.TextEquality.{eq_iff}
use elastic_ops.Prelude.{
  ℕ, zero, suc, ◌+◌, ◌≤◌, String, true, false, Option, none, some, List, [], ◌∷◌, ◌≡◌, inl, inr,
  refl, sym, ◌∙◌, arith, filter, length, map, leb, ltb, All, All-filter, Bool-cases,
}
use elastic_ops.Backend.Rebalance.{
  Node, Shard, Place, Move, is_source, heaviest, lightest, moved, move_for, move_of, Turn, stops,
  moves, turn_with, turn, follow, suggest_from, suggest_moves, place_of, data_names,
}
use elastic_ops.Backend.Rebalance.Picks.{
  All-heaviest, All_filter, Alike, Coherent, Frozen, moved-Coherent, moved-Frozen,
  destination-Frozen, names_apart, eq_flip,
}

-- What a turn of the loop keeps.
record Kept (ps : List Place) (m : Move) (rest : List Place) : Type 0 where
  coherent : Coherent rest
  apart : str_eq m.from_node m.to_node ≡ false
  frozen : Frozen m.to_node rest
  before : (name : String) → Frozen name ps → Frozen name rest × (str_eq m.from_node name ≡ false)

-- What the loop makes of the two nodes that it picks.
data Picked (ps : List Place) : Turn → Type 0 where
  none_left : Picked ps stops
  picked : (m : Move) (rest : List Place) → Kept ps m rest → Picked ps (moves m rest)

abbrev Unfrozen : List Place → Place → Type 0
Unfrozen ps hi = (name : String) → Frozen name ps → str_eq hi.name name ≡ true → hi.frozen ≡ true

move-Kept :
    (ps : List Place) (hi lo : Place) (s : Shard)
    → Coherent ps
    → is_source hi ≡ true
    → Unfrozen ps hi
    → str_eq lo.name hi.name ≡ false
    → Kept ps (move_for hi lo s) (map (moved hi.name lo.name) ps)
unfolding move_for
move-Kept ps hi lo s c source unfrozen apart =
    let open_hi : hi.frozen ≡ false = ground arith in
    record {
      coherent = moved-Coherent hi.name lo.name ps c;
      apart = eq_flip lo.name hi.name apart;
      frozen = destination-Frozen hi.name lo.name ps apart;
      before = λ name a. (
        moved-Frozen name hi.name lo.name ps a,
        elim (Bool-cases (str_eq hi.name name)) [
          | inl y ↦ let clash : true ≡ false = sym (unfrozen name a y) ∙ open_hi in cc
          | inr n ↦ n
        ],
      );
    }

of_move :
    (ps : List Place) (hi lo : Place) (ss : List Shard)
    → Coherent ps
    → is_source hi ≡ true
    → Unfrozen ps hi
    → str_eq lo.name hi.name ≡ false
    → Picked ps (move_of ps hi lo ss)
unfolding move_of
of_move ps hi lo [] c source unfrozen apart = none_left
of_move ps hi lo (s ∷ ss) c source unfrozen apart =
    picked (move_for hi lo s) (map (moved hi.name lo.name) ps)
      (move-Kept ps hi lo s c source unfrozen apart)

of_turn :
    (ps : List Place) (o l : Option Place)
    → Coherent ps
    → ((hi : Place) → o ≡ some hi → All (Alike hi) ps × (is_source hi ≡ true) × Unfrozen ps hi)
    → lightest ps ≡ l
    → Picked ps (turn_with ps o l)
unfolding turn_with
of_turn ps none l c k e = none_left
of_turn ps (some hi) none c k e = none_left
of_turn ps (some hi) (some lo) c k e = elim (Bool-cases (leb hi.count lo.count)) [
  | inl y ↦ rw y none_left
  | inr n ↦
      let (alike, source, unfrozen) = k hi refl in
      rw n (of_move ps hi lo hi.available c source unfrozen (names_apart ps hi lo alike e n))
]

turn-Picked : (ps : List Place) → Coherent ps → Picked ps (turn ps)
unfolding turn
turn-Picked ps c =
    of_turn ps (heaviest (filter is_source ps)) (lightest ps) c
      (λ hi e. (
        All-heaviest (λ p. All (Alike p) ps) (filter is_source ps)
            (All_filter (λ p. All (Alike p) ps) is_source ps c) hi e,
        All-heaviest (λ p. is_source p ≡ true) (filter is_source ps) (All-filter is_source ps) hi e,
        λ name a.
            All-heaviest (λ p. str_eq p.name name ≡ true → p.frozen ≡ true) (filter is_source ps)
              (All_filter (λ p. str_eq p.name name ≡ true → p.frozen ≡ true) is_source ps a) hi e,
      ))
      refl

-- No move goes from a node to itself, and none takes a shard from a node that an earlier one moved a shard to.
abbrev pub OneWay : List Move → Type 0
OneWay [] = Unit
OneWay (m ∷ ms) =
    (str_eq m.from_node m.to_node ≡ false)
    × All (λ n. str_eq n.from_node m.to_node ≡ false) ms
    × OneWay ms

follow-Frozen :
    (f : List Place → List Move) (name : String)
    → ((rest : List Place)
        → Coherent rest
        → Frozen name rest
        → All (λ m. str_eq m.from_node name ≡ false) (f rest))
    → (ps : List Place) (t : Turn) → Picked ps t
    → Frozen name ps
    → All (λ m. str_eq m.from_node name ≡ false) (follow f t)
unfolding follow
follow-Frozen f name k ps stops p a = tt
follow-Frozen f name k ps (moves m rest) (picked _ _ kept) a =
    let (later, other) = kept.before name a in (other, k rest kept.coherent later)

after-Frozen :
    (n : ℕ) (name : String) (ps : List Place)
    → Coherent ps
    → Frozen name ps
    → All (λ m. str_eq m.from_node name ≡ false) (suggest_from n ps)
unfolding suggest_from
after-Frozen zero name ps c a = tt
after-Frozen (suc n) name ps c a =
    follow-Frozen (suggest_from n) name (after-Frozen n name) ps (turn ps) (turn-Picked ps c) a

follow-OneWay :
    (n : ℕ)
    → ((rest : List Place) → Coherent rest → OneWay (suggest_from n rest))
    → (ps : List Place) (t : Turn) → Picked ps t
    → OneWay (follow (suggest_from n) t)
unfolding follow
follow-OneWay n k ps stops p = tt
follow-OneWay n k ps (moves m rest) (picked _ _ kept) =
    (kept.apart, after-Frozen n m.to_node rest kept.coherent kept.frozen, k rest kept.coherent)

suggest-OneWay : (n : ℕ) (ps : List Place) → Coherent ps → OneWay (suggest_from n ps)
unfolding suggest_from
suggest-OneWay zero ps c = tt
suggest-OneWay (suc n) ps c = follow-OneWay n (suggest-OneWay n) ps (turn ps) (turn-Picked ps c)

place-Alike : (shards : List Shard) (a b : String) → Alike (place_of shards a) (place_of shards b)
unfolding place_of
place-Alike shards a b e = let same : a ≡ b = (eq_iff a b).0 e in rw same refl

places-Alike :
    (shards : List Shard) (a : String) (names : List String)
    → All (Alike (place_of shards a)) (map (place_of shards) names)
places-Alike shards a [] = tt
places-Alike shards a (b ∷ bs) = (place-Alike shards a b, places-Alike shards a bs)

places-Coherent :
    (shards : List Shard) (all names : List String)
    → All (λ p. All (Alike p) (map (place_of shards) all)) (map (place_of shards) names)
places-Coherent shards all [] = tt
places-Coherent shards all (a ∷ names) =
    (places-Alike shards a all, places-Coherent shards all names)

follow-length :
    (f : List Place → List Move) (n : ℕ)
    → ((rest : List Place) → length (f rest) ≤ n)
    → (t : Turn) → length (follow f t) ≤ n + 1
unfolding follow
follow-length f n k stops = omega arith
follow-length f n k (moves m rest) = omega (arith, k rest)

suggest-length : (n : ℕ) (ps : List Place) → length (suggest_from n ps) ≤ n
unfolding suggest_from
suggest-length zero ps = omega arith
suggest-length (suc n) ps =
    omega (arith, follow-length (suggest_from n) n (suggest-length n) (turn ps))

-- Of any nodes and shards, at most `max_moves` moves are suggested; none goes from a node to itself, and none takes a
-- shard from a node that an earlier one moved a shard to.
pub never_undone :
    (nodes : List Node) (shards : List Shard) (max_moves : ℕ)
    → OneWay (suggest_moves nodes shards max_moves)
      × (length (suggest_moves nodes shards max_moves) ≤ max_moves)
unfolding suggest_moves
never_undone nodes shards n = elim (Bool-cases (ltb (length (data_names nodes)) 2)) [
  | inl few ↦ rw few (tt, omega arith)
  | inr more ↦
      let places = map (place_of shards) (data_names nodes) in
      rw more (
        suggest-OneWay n places (places-Coherent shards (data_names nodes) (data_names nodes)),
        suggest-length n places,
      )
]
